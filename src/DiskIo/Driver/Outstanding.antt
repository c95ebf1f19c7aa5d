-- ===== src/DiskIo/Driver/Outstanding.antt =====
-- The count of outstanding operations of each file: what `file_outstanding` says is the number of
-- requests that were accepted and not completed.
use fast_clone.Prelude.{
  ℕ, zero, suc, ◌+◌, ◌-◌, ◌<◌, ◌≡◌, refl, ap, ◌∙◌, true, false, if◌then◌else◌, ◌==◌, List, [], ◌∷◌,
  ◌++◌, Option, none, some, arith, Bool-cases, inl, inr,
}
use fast_clone.Prelude.Assoc.{lookup, lookup-insert, lookup-erase}
use fast_clone.DiskIo.{IoRequest, IoCompletion}
use fast_clone.DiskIo.Completions.{push_completion}
use fast_clone.DiskIo.Completions.OneQueue.{IsOneQueue, push_completion-IsOneQueue}
use fast_clone.DiskIo.Completions.Drain.{release_file_locked-Drained}
use fast_clone.DiskIo.Driver.{
  Driver, contains, remove, count_delivery, is_outstanding, enqueue_completion,
}

abbrev pub count : ℕ → List ℕ → ℕ
count f [] = 0
count f (g ∷ l) = (if g == f then 1 else 0) + count f l

abbrev pub ids : List IoRequest → List ℕ
ids [] = []
ids (op ∷ q) = op.file_id ∷ ids q

abbrev pub completed_ids : List IoCompletion → List ℕ
completed_ids [] = []
completed_ids (c ∷ cs) = c.file_id ∷ completed_ids cs

pub count-append : (f : ℕ) (xs ys : List ℕ) → count f (xs ++ ys) ≡ count f xs + count f ys
count-append f [] ys = omega arith
count-append f (x ∷ xs) ys = omega (arith, count-append f xs ys)

pub ids-append : (xs ys : List IoRequest) → ids (xs ++ ys) ≡ ids xs ++ ids ys
ids-append [] ys = refl
ids-append (x ∷ xs) ys = ap (◌∷◌ x.file_id) (ids-append xs ys)

-- The entry of a file: none for no operation.
abbrev pub counted : ℕ → Option ℕ
counted zero = none
counted (suc n) = some (suc n)

-- The files of the operations under way, one for each.
pub record Tracks (live : List ℕ) (d : Driver) : Type 0 where
  pub tracked : (f : ℕ) → lookup f d.file_outstanding ≡ counted (count f live)
  pub releases : (f : ℕ) → contains f d.pending_release ≡ true → 0 < count f live
  pub one_queue : IsOneQueue d.completions

pub Tracks-same :
    (live other : List ℕ) (d : Driver)
    → ((f : ℕ) → count f live ≡ count f other)
    → Tracks live d
    → Tracks other d
Tracks-same live other d same t = record {
  tracked = λ f. t.tracked f ∙ ap counted (same f);
  releases = λ f h. let p = t.releases f h in omega (arith, same f);
  one_queue = t.one_queue;
}

pub contains-remove :
    (f g : ℕ) (l : List ℕ) → contains g (remove f l) ≡ (if f == g then false else contains g l)
unfolding contains remove
contains-remove f g [] = ground arith
contains-remove f g (x ∷ l) = ground (arith, contains-remove f g l)

count_delivery-tracked :
    (f g : ℕ) (live : List ℕ) (m : List (ℕ × ℕ))
    → lookup f m ≡ some (suc (count f live))
    → lookup g m ≡ counted (count g (f ∷ live))
    → lookup g (count_delivery f m) ≡ counted (count g live)
unfolding count_delivery
count_delivery-tracked f g live m own other =
    ground (arith, lookup-erase f g m, lookup-insert f g (suc (count f live) - 1) m)

-- What settling a completion leaves alone.
pub record SameQueues (d t : Driver) : Type 0 where
  pub same_reads : t.read_q ≡ d.read_q
  pub same_writes : t.write_q ≡ d.write_q
  pub same_flight : t.in_flight ≡ d.in_flight
  pub same_cancelled : t.is_cancelled ≡ d.is_cancelled
  pub same_counters : t.counters ≡ d.counters

pub enqueue_completion-SameQueues :
    (c : IoCompletion) (d : Driver) → SameQueues d (enqueue_completion c d)
unfolding enqueue_completion
enqueue_completion-SameQueues c d = ground arith

module _ (c : IoCompletion) (live : List ℕ) (d : Driver) (t : Tracks (c.file_id ∷ live) d) where
  abbrev pub left : List (ℕ × ℕ)
  left = count_delivery c.file_id d.file_outstanding

  pub left-tracked : (g : ℕ) → lookup g left ≡ counted (count g live)
  left-tracked g =
      let own : lookup c.file_id d.file_outstanding ≡ some (suc (count c.file_id live)) =
        ground (arith, t.tracked c.file_id) in
      count_delivery-tracked c.file_id g live d.file_outstanding own (t.tracked g)

  outstanding-pos : is_outstanding c.file_id left ≡ true → 0 < count c.file_id live
  outstanding-pos h = ground (arith, left-tracked c.file_id)

  -- A file other than the completion's has as many operations as before.
  others : (g : ℕ) → (c.file_id == g) ≡ false → 0 < count g (c.file_id ∷ live) → 0 < count g live
  others g e h = ground arith

  pushed : IsOneQueue (push_completion c d.completions)
  pushed = push_completion-IsOneQueue c d.completions t.one_queue

  still_waiting :
      is_outstanding c.file_id left ≡ true
      → (g : ℕ) → contains g d.pending_release ≡ true
      → 0 < count g live
  still_waiting h g e = elim (Bool-cases (c.file_id == g)) [
    | inl same ↦ ground (arith, outstanding-pos h)
    | inr other ↦ others g other (t.releases g e)
  ]

  no_release :
      contains c.file_id d.pending_release ≡ false
      → (g : ℕ) → contains g d.pending_release ≡ true
      → 0 < count g live
  no_release h g e = elim (Bool-cases (c.file_id == g)) [
    | inl same ↦ ground arith
    | inr other ↦ others g other (t.releases g e)
  ]

  after_release :
      (g : ℕ) → contains g (remove c.file_id d.pending_release) ≡ true → 0 < count g live
  after_release g e =
      let law = contains-remove c.file_id g d.pending_release in
      elim (Bool-cases (c.file_id == g)) [
        | inl same ↦ ground arith
        | inr other ↦ others g other (t.releases g (ground arith))
      ]

pub enqueue_completion-Tracks :
    (c : IoCompletion) (live : List ℕ) (d : Driver)
    → Tracks (c.file_id ∷ live) d
    → Tracks live (enqueue_completion c d)
unfolding enqueue_completion
enqueue_completion-Tracks c live d t =
    let f = c.file_id in
    let kept = pushed c live d t in
    let ledger = left-tracked c live d t in
    elim (Bool-cases (is_outstanding f (left c live d t))) [
      | inl waiting ↦
          rw (waiting, enqueue_completion)
            (record {
              tracked = ledger;
              releases = still_waiting c live d t waiting;
              one_queue = kept;
            })
      | inr settled ↦ elim (Bool-cases (contains f d.pending_release)) [
        | inl registered ↦
            rw (settled, registered, enqueue_completion)
              (record {
                tracked = ledger;
                releases = after_release c live d t;
                one_queue = (release_file_locked-Drained f _ kept).valid;
              })
        | inr not_registered ↦
            rw (settled, not_registered, enqueue_completion)
              (record {
                tracked = ledger;
                releases = no_release c live d t not_registered;
                one_queue = kept;
              })
      ]
    ]
