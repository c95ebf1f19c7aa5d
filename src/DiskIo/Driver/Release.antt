-- ===== src/DiskIo/Driver/Release.antt =====
-- What a released file waits for, and when nothing of it is left.
use fast_clone.Prelude.{
  ℕ, ◌≤◌, ◌<◌, ◌≡◌, ap, ◌∙◌, true, false, if◌then◌else◌, ◌==◌, ==_refl, List, [], ◌∷◌, none, arith,
}
use fast_clone.Prelude.Assoc.{lookup}
use fast_clone.DiskIo.{IoCompletion}
use fast_clone.DiskIo.Completions.{Completions, push_completion}
use fast_clone.DiskIo.Completions.OneQueue.{of_file, push_completion-IsOneQueue, entry}
use fast_clone.DiskIo.Completions.Drain.{Drained, release_file_locked-Drained, of_file-not_of_file}
use fast_clone.DiskIo.Driver.{Driver, contains, enqueue_completion, is_outstanding, count_delivery}
use fast_clone.DiskIo.Driver.Outstanding.{count, counted, Tracks, contains-remove, left-tracked}
use fast_clone.DiskIo.Driver.Threads.{Phase, World, releasing, sum_of, live}

-- Nothing of a file is kept: no completion, no operation under way, no release to come.
pub record Forgotten (f : ℕ) (d : Driver) : Type 0 where
  pub no_completion : of_file f d.completions.order ≡ []
  pub no_entry : lookup f d.completions.completions_by_file ≡ none
  pub no_operation : lookup f d.file_outstanding ≡ none
  pub no_pending : contains f d.pending_release ≡ false

released_queue :
    (f : ℕ) (s t : Completions)
    → Drained f s t
    → (of_file f t.order ≡ []) × (lookup f t.completions_by_file ≡ none)
released_queue f s t d =
    let own : of_file f t.order ≡ [] =
      ap (of_file f) d.left ∙ of_file-not_of_file f f s.order ∙ ground (arith, ==_refl f) in
    (own, d.valid.by_file f ∙ ap entry own)

-- With the last operation of a file whose release waits, the release is carried out.
pub last_completion-Forgotten :
    (c : IoCompletion) (live : List ℕ) (d : Driver)
    → Tracks (c.file_id ∷ live) d
    → count c.file_id live ≡ 0
    → contains c.file_id d.pending_release ≡ true
    → Forgotten c.file_id (enqueue_completion c d)
unfolding enqueue_completion
last_completion-Forgotten c l d t last waits =
    let f = c.file_id in
    let none_left : lookup f (count_delivery f d.file_outstanding) ≡ none =
      left-tracked c l d t f ∙ ap counted last in
    let settled : is_outstanding f (count_delivery f d.file_outstanding) ≡ false =
      ground (arith, none_left) in
    let pushed = push_completion-IsOneQueue c d.completions t.one_queue in
    let gone =
      released_queue f _ _
        (release_file_locked-Drained f (push_completion c d.completions) pushed) in
    rw (settled, waits, enqueue_completion)
      (record {
        no_completion = gone.0;
        no_entry = gone.1;
        no_operation = none_left;
        no_pending = contains-remove f f d.pending_release ∙ ground (arith, ==_refl f);
      })

-- The threads that are to clean up after a file.
abbrev pub releasing_of : ℕ → Phase → ℕ
releasing_of f (releasing g) = if g == f then 1 else 0
releasing_of f _ = 0

-- What a released file waits for: its operations to settle, or a thread to clean up, or nothing.
pub data Settles (f : ℕ) (w : World) : Type 0 where
  awaits_operations : contains f w.driver.pending_release ≡ true → Settles f w
  awaits_thread : count f (live w) ≡ 0 → 0 < sum_of (releasing_of f) w.threads → Settles f w
  awaits_nothing : count f (live w) ≡ 0 → of_file f w.driver.completions.order ≡ [] → Settles f w

-- A step that leaves the file's part of the driver alone, or empties it.
pub record Spares (f : ℕ) (v w : World) : Type 0 where
  pub empty : of_file f v.driver.completions.order ≡ [] → of_file f w.driver.completions.order ≡ []
  pub pending :
      contains f v.driver.pending_release ≡ true → contains f w.driver.pending_release ≡ true
  pub cleaners : sum_of (releasing_of f) v.threads ≤ sum_of (releasing_of f) w.threads

pub Spares-Settles :
    (f : ℕ) (v w : World)
    → Spares f v w
    → count f (live w) ≤ count f (live v)
    → Settles f v
    → Settles f w
Spares-Settles f v w s fewer (awaits_operations h) = awaits_operations (s.pending h)
Spares-Settles f v w s fewer (awaits_thread idle h) =
    awaits_thread (omega arith) (omega (arith, s.cleaners))
Spares-Settles f v w s fewer (awaits_nothing idle h) = awaits_nothing (omega arith) (s.empty h)

-- A step that touches neither the completions nor the registered releases.
pub calm-Spares :
    (f : ℕ) (v w : World)
    → w.driver.completions ≡ v.driver.completions
    → w.driver.pending_release ≡ v.driver.pending_release
    → sum_of (releasing_of f) v.threads ≤ sum_of (releasing_of f) w.threads
    → Spares f v w
calm-Spares f v w e1 e2 cleaners = record {
  empty = λ h. cc (h, e1);
  pending = λ h. cc (h, e2);
  cleaners = cleaners;
}

pub not_of_file-empty :
    (f g : ℕ) (s t : Completions) → Drained g s t → of_file f s.order ≡ [] → of_file f t.order ≡ []
not_of_file-empty f g s t d h =
    let law = ap (of_file f) d.left ∙ of_file-not_of_file f g s.order in ground (arith, law)
