-- ===== src/DiskIo/Driver/Settled.antt =====
-- A step that starts no operation of a released file brings it closer to its end.
use fast_clone.Prelude.{
  ℕ, ◌≤◌, ◌≡◌, refl, ap, ◌∙◌, true, false, if◌then◌else◌, ◌==◌, List, [], ◌∷◌, ◌++◌, some, arith,
  Bool-cases, inl, inr, length,
}
use fast_clone.DiskIo.{IoRequest, IoCompletion, IoDriverConfig, error}
use fast_clone.DiskIo.Completions.{Completions, drain_completions, drain_completions_for_file}
use fast_clone.DiskIo.Completions.OneQueue.{of_file, IsOneQueue}
use fast_clone.DiskIo.Completions.Drain.{
  release_file_locked-Drained, drain_for_file-Drained, of_file-not_of_file,
}
use fast_clone.DiskIo.Completions.DrainAll.{drain_completions_lem}
use fast_clone.DiskIo.Driver.{
  Driver, release_now, contains, completion_of, submit, count_queued, give_slot_back, land,
  count_reaped, count_flushed, request_cancel, enqueue_completion,
}
use fast_clone.DiskIo.Driver.Outstanding.{count}
use fast_clone.DiskIo.Driver.Picking.{pick-Picked}
use fast_clone.DiskIo.Driver.Threads.{
  Phase, counting_queued, handing, refusing, returning_slot, reaping, tallying, flushing, releasing,
  World, sum_of, live, Change, starts_thread, ends_thread, goes_on,
}
use fast_clone.DiskIo.Driver.Accounting.{Accounts}
use fast_clone.DiskIo.Driver.Settling.{Delivers}
use fast_clone.DiskIo.Driver.Steps.{
  Step, submits, counts_queued, picks, takes, refuses, delivers_failure, gives_slot_back, reaps,
  delivers_reaped, lands, counts_reaped, cancels, delivers_flushed, counts_flushed,
  releases_at_once, defers_release, releases, drains, drains_file, stops,
}
use fast_clone.DiskIo.Driver.Kept.{
  release_file-cases, failure-Delivers, reaped-Delivers, flushed-Delivers,
}
use fast_clone.DiskIo.Driver.Release.{
  releasing_of, Settles, Spares, Spares-Settles, calm-Spares, not_of_file-empty, awaits_operations,
  awaits_thread, awaits_nothing,
}
use fast_clone.DiskIo.Driver.Deliveries.{delivered-Settles}

contains-more :
    (f g : ℕ) (l : List ℕ)
    → contains f l ≡ true
    → contains f (if contains g l then l else g ∷ l) ≡ true
unfolding contains
contains-more f g l h = ground arith

submit-calm :
    (cfg : IoDriverConfig) (batch : List IoRequest) (d : Driver)
    → ((submit cfg batch d).2.completions ≡ d.completions)
      × ((submit cfg batch d).2.pending_release ≡ d.pending_release)
unfolding submit
submit-calm cfg batch d = ground arith

request_cancel-calm :
    (d t : Driver) (cs : List IoCompletion)
    → request_cancel d ≡ some (cs, t)
    → (t.completions ≡ d.completions) × (t.pending_release ≡ d.pending_release)
unfolding request_cancel
request_cancel-calm d t cs h = ground arith

releases-Settles :
    (cfg : IoDriverConfig) (f g : ℕ) (v : World) (us : List Phase)
    → Accounts cfg v
    → Change v.threads us (releasing g ∷ []) []
    → count f (live (record v { driver = release_now g v.driver; threads = us })) ≤ count f (live v)
    → Settles f v
    → Settles f (record v { driver = release_now g v.driver; threads = us })
unfolding release_now
releases-Settles cfg f g v us a ch fewer h =
    let gone = release_file_locked-Drained g v.driver.completions a.tracks.one_queue in
    let w : World = record v { driver = release_now g v.driver; threads = us } in
    elim (Bool-cases (g == f)) [
      | inl own ↦
          let emptied : of_file f w.driver.completions.order ≡ [] =
            ap (of_file f) gone.left
            ∙ of_file-not_of_file f g v.driver.completions.order
            ∙ ground (arith, own) in
          elim h [
            | awaits_operations e ↦ awaits_operations e
            | awaits_thread idle e ↦ awaits_nothing (omega arith) emptied
            | awaits_nothing idle e ↦ awaits_nothing (omega arith) emptied
          ]
      | inr other ↦
          Spares-Settles f v w
            (record {
              empty = not_of_file-empty f g v.driver.completions w.driver.completions gone;
              pending = λ e. e;
              cleaners = ground (arith, ch.sums (releasing_of f), other);
            })
            fewer h
    ]

-- Only the completions change, to those that a drain leaves.
drained-Spares :
    (f : ℕ) (v : World) (q : Completions)
    → (of_file f v.driver.completions.order ≡ [] → of_file f q.order ≡ [])
    → Spares f v (record v { driver = record v.driver { completions = q } })
drained-Spares f v q h = record { empty = h; pending = λ e. e; cleaners = omega arith }

drains-empty :
    (f : ℕ) (q : Completions) → IsOneQueue q → of_file f (drain_completions q).1.order ≡ []
unfolding of_file
drains-empty f q h = ap (of_file f) (drain_completions_lem q h).left

module _ (cfg : IoDriverConfig) (f : ℕ) (v : World) (a : Accounts cfg v) (h : Settles f v) where
  -- A step of a thread that touches neither completions nor registered releases.
  calm :
      (w : World) (gone come : List Phase)
      → Change v.threads w.threads gone come
      → sum_of (releasing_of f) gone ≡ 0
      → w.driver.completions ≡ v.driver.completions
      → w.driver.pending_release ≡ v.driver.pending_release
      → count f (live w) ≤ count f (live v)
      → Settles f w
  calm w gone come ch none_gone e1 e2 fewer =
      Spares-Settles f v w
        (calm-Spares f v w e1 e2 (omega (arith, ch.sums (releasing_of f), none_gone))) fewer h

  delivered :
      (c : IoCompletion) (before after : List Phase) (p q : Phase)
      → v.threads ≡ before ++ (p ∷ after)
      → Delivers c p q
      → releasing_of f p ≡ releasing_of f q
      → Settles f
          (record v { driver = enqueue_completion c v.driver; threads = before ++ (q ∷ after) })
  delivered c before after p q e moves same =
      delivered-Settles cfg f v c (before ++ (q ∷ after)) p q a
        (goes_on v.threads before after p e q) moves same h

pub Step-Settles :
    (cfg : IoDriverConfig) (f : ℕ) (v w : World)
    → Accounts cfg v
    → Step cfg v w
    → count f (live w) ≤ count f (live v)
    → Settles f v
    → Settles f w
unfolding count_queued give_slot_back land count_reaped count_flushed
Step-Settles cfg f v _ a (submits batch) fewer h =
    let same = submit-calm cfg batch v.driver in
    calm cfg f v a h _ [] _
      (starts_thread v.threads (counting_queued (submit cfg batch v.driver).1)) refl same.0 same.1
      fewer
Step-Settles cfg f v _ a (counts_queued before after n e) fewer h =
    calm cfg f v a h _ _ [] (ends_thread v.threads before after (counting_queued n) e) refl refl
      refl fewer
Step-Settles cfg f v _ a (picks op t e) fewer h =
    let p = pick-Picked cfg v.driver op t e in
    calm cfg f v a h _ [] _ (starts_thread v.threads (handing op)) refl p.same_completions
      p.same_pending fewer
Step-Settles cfg f v _ a (takes before after op e) fewer h =
    calm cfg f v a h _ _ [] (ends_thread v.threads before after (handing op) e) refl refl refl fewer
Step-Settles cfg f v _ a (refuses before after op e) fewer h =
    calm cfg f v a h _ _ _ (goes_on v.threads before after (handing op) e (refusing op)) refl refl
      refl fewer
Step-Settles cfg f v _ a (delivers_failure before after op e) fewer h =
    delivered cfg f v a h (completion_of error op) before after (refusing op) returning_slot e
      (failure-Delivers op) refl
Step-Settles cfg f v _ a (gives_slot_back before after e) fewer h =
    calm cfg f v a h _ _ [] (ends_thread v.threads before after returning_slot e) refl refl refl
      fewer
Step-Settles cfg f v _ a (reaps cs rest made) fewer h =
    calm cfg f v a h _ [] _ (starts_thread v.threads (reaping [] cs)) refl refl refl fewer
Step-Settles cfg f v _ a (delivers_reaped before after made left c e) fewer h =
    delivered cfg f v a h c before after (reaping made (c ∷ left)) (reaping (made ++ (c ∷ [])) left)
      e (reaped-Delivers c made left) refl
Step-Settles cfg f v _ a (lands before after made e) fewer h =
    calm cfg f v a h _ _ _ (goes_on v.threads before after (reaping made []) e (tallying made)) refl
      refl refl fewer
Step-Settles cfg f v _ a (counts_reaped before after made e) fewer h =
    calm cfg f v a h _ _ [] (ends_thread v.threads before after (tallying made) e) refl refl refl
      fewer
Step-Settles cfg f v _ a (cancels cs t e) fewer h =
    let same = request_cancel-calm v.driver t cs e in
    calm cfg f v a h _ [] _ (starts_thread v.threads (flushing cs (length cs))) refl same.0 same.1
      fewer
Step-Settles cfg f v _ a (delivers_flushed before after c left n e) fewer h =
    delivered cfg f v a h c before after (flushing (c ∷ left) n) (flushing left n) e
      (flushed-Delivers c left n) refl
Step-Settles cfg f v _ a (counts_flushed before after n e) fewer h =
    calm cfg f v a h _ _ [] (ends_thread v.threads before after (flushing [] n) e) refl refl refl
      fewer
Step-Settles cfg f v _ a (releases_at_once g t e) fewer h =
    elim (release_file-cases g v.driver t true e) [
      | inl now ↦
          calm cfg f v a h _ [] _ (starts_thread v.threads (releasing g)) refl
            (ap Driver.completions now.1) (ap Driver.pending_release now.1) fewer
      | inr later ↦ absurd (cc)
    ]
Step-Settles cfg f v _ a (defers_release g t e) fewer h =
    elim (release_file-cases g v.driver t false e) [
      | inl now ↦ absurd (cc)
      | inr later ↦
          Spares-Settles f v _
            (record {
              empty = λ own. cc (ap Driver.completions later.1, own);
              pending = λ waits.
                  ap (λ d. contains f (Driver.pending_release d)) later.1
                  ∙ contains-more f g v.driver.pending_release waits;
              cleaners = omega arith;
            })
            fewer h
    ]
Step-Settles cfg f v _ a (releases before after g e) fewer h =
    releases-Settles cfg f g v _ a (ends_thread v.threads before after (releasing g) e) fewer h
Step-Settles cfg f v _ a drains fewer h =
    Spares-Settles f v _
      (drained-Spares f v (drain_completions v.driver.completions).1
        (λ _. drains-empty f v.driver.completions a.tracks.one_queue))
      fewer h
Step-Settles cfg f v _ a (drains_file g) fewer h =
    let gone = (drain_for_file-Drained g v.driver.completions a.tracks.one_queue).1 in
    Spares-Settles f v _
      (drained-Spares f v (drain_completions_for_file g v.driver.completions).1
        (not_of_file-empty f g v.driver.completions _ gone))
      fewer h
Step-Settles cfg f v _ a stops fewer h =
    Spares-Settles f v _
      (calm-Spares f v (record v { driver = record v.driver { stop = true } }) refl refl
        (omega arith))
      fewer h
