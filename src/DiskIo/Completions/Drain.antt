-- ===== src/DiskIo/Completions/Drain.antt =====
-- Taking completions out: what each way of it hands out, and what it leaves.
use fast_clone.Prelude.{
  ℕ, ◌+◌, ◌<◌, ◌≡◌, ◌≢◌, inl, inr, refl, sym, ap, ◌∙◌, true, false, if◌then◌else◌, ◌==◌, List, [],
  ◌∷◌, none, some, All, arith, Bool-cases, length, ◌⊎◌,
}
use fast_clone.Prelude.Assoc.{lookup, erase, lookup-erase}
use fast_clone.DiskIo.Completions.{
  PendingCompletion, file_of, Completions, is_linked, unlink, order_unlink, unlink_all, contents,
  drain_completions_for_file, release_file_locked,
}
use fast_clone.DiskIo.Completions.OneQueue.{
  of_file, not_of_file, entry, NotNode, Distinct, IsOneQueue,
}

unlink_absent :
    (n : ℕ) (order : List PendingCompletion) → is_linked n order ≡ false → unlink n order ≡ order
unfolding is_linked unlink
unlink_absent n [] h = refl
unlink_absent n (x ∷ order) h = ground (arith, unlink_absent n order)

length-unlink :
    (n : ℕ) (order : List PendingCompletion)
    → is_linked n order ≡ true
    → length (unlink n order) + 1 ≡ length order
unfolding is_linked unlink
length-unlink n [] h = cc
length-unlink n (x ∷ order) h = ground (arith, length-unlink n order)

-- What unlinking a node does, whether it is linked or not.
pub record Unlinked (order : List PendingCompletion) (s t : Completions) : Type 0 where
  pub left : t.order ≡ order
  pub counted : t.order_count ≡ length t.order
  pub same_files : t.completions_by_file ≡ s.completions_by_file
  pub same_next : t.next_node ≡ s.next_node

pub order_unlink-Unlinked :
    (pc : PendingCompletion) (s : Completions)
    → s.order_count ≡ length s.order
    → Unlinked (unlink pc.node s.order) s (order_unlink pc s)
unfolding order_unlink
order_unlink-Unlinked pc s counted =
    ground (arith, unlink_absent pc.node s.order, length-unlink pc.node s.order)

unlink_nodes : List PendingCompletion → List PendingCompletion → List PendingCompletion
unlink_nodes [] order = order
unlink_nodes (pc ∷ q) order = unlink_nodes q (unlink pc.node order)

unlink_all-Unlinked :
    (q : List PendingCompletion) (s : Completions)
    → s.order_count ≡ length s.order
    → Unlinked (unlink_nodes q s.order) s (unlink_all q s)
unfolding unlink_all unlink_nodes
unlink_all-Unlinked [] s counted = ground arith
unlink_all-Unlinked (pc ∷ q) s counted =
    let first = order_unlink-Unlinked pc s counted in
    let rest = unlink_all-Unlinked q (order_unlink pc s) first.counted in
    ground (arith, ap (unlink_nodes q) first.left)

unlink_nodes_behind :
    (x : PendingCompletion) (q order : List PendingCompletion)
    → NotNode x.node q
    → unlink_nodes q (x ∷ order) ≡ x ∷ unlink_nodes q order
unfolding unlink_nodes unlink
unlink_nodes_behind x [] order h = refl
unlink_nodes_behind x (pc ∷ q) order h =
    ground (arith, unlink_nodes_behind x q (unlink pc.node order) h.1)

module _ {κ} (P : PendingCompletion → Type κ) where
  All-of_file : (f : ℕ) (order : List PendingCompletion) → All P order → All P (of_file f order)
  unfolding of_file
  All-of_file f [] h = tt
  All-of_file f (x ∷ order) h = elim (Bool-cases (file_of x == f)) [
    | inl e ↦ rw e (h.0, All-of_file f order h.1)
    | inr e ↦ rw e (All-of_file f order h.1)
  ]

  All-not_of_file :
      (f : ℕ) (order : List PendingCompletion) → All P order → All P (not_of_file f order)
  unfolding not_of_file
  All-not_of_file f [] h = tt
  All-not_of_file f (x ∷ order) h = elim (Bool-cases (file_of x == f)) [
    | inl e ↦ rw e (All-not_of_file f order h.1)
    | inr e ↦ rw e (h.0, All-not_of_file f order h.1)
  ]

Distinct-not_of_file :
    (f : ℕ) (order : List PendingCompletion) → Distinct order → Distinct (not_of_file f order)
unfolding not_of_file
Distinct-not_of_file f [] d = tt
Distinct-not_of_file f (x ∷ order) d = elim (Bool-cases (file_of x == f)) [
  | inl e ↦ rw e (Distinct-not_of_file f order d.1)
  | inr e ↦
      rw e (All-not_of_file (λ pc. pc.node ≢ x.node) f order d.0, Distinct-not_of_file f order d.1)
]

-- Unlinking the nodes of a file leaves those of the others, in their order.
unlink_nodes-of_file :
    (f : ℕ) (order : List PendingCompletion)
    → Distinct order
    → unlink_nodes (of_file f order) order ≡ not_of_file f order
unfolding of_file not_of_file unlink_nodes unlink
unlink_nodes-of_file f [] d = refl
unlink_nodes-of_file f (x ∷ order) d =
    let others = All-of_file (λ pc. pc.node ≢ x.node) f order d.0 in
    let behind = unlink_nodes_behind x (of_file f order) order others in
    ground (arith, unlink_nodes-of_file f order d.1, behind)

pub of_file-not_of_file :
    (g f : ℕ) (order : List PendingCompletion)
    → of_file g (not_of_file f order) ≡ (if f == g then [] else of_file g order)
unfolding of_file not_of_file
of_file-not_of_file g f [] = ground arith
of_file-not_of_file g f (x ∷ order) = ground (arith, of_file-not_of_file g f order)

not_of_file_none :
    (f : ℕ) (order : List PendingCompletion) → of_file f order ≡ [] → not_of_file f order ≡ order
unfolding of_file not_of_file
not_of_file_none f [] h = refl
not_of_file_none f (x ∷ order) h = ground (arith, not_of_file_none f order)

-- The state after the nodes of a file are unlinked and its entry is erased.
without_file : ℕ → List PendingCompletion → Completions → Completions
without_file f q s =
    let t = unlink_all q s in record t { completions_by_file = erase f t.completions_by_file }

pub record Drained (f : ℕ) (s t : Completions) : Type 0 where
  pub left : t.order ≡ not_of_file f s.order
  pub valid : IsOneQueue t

without_file-Drained :
    (f : ℕ) (s : Completions) → IsOneQueue s → Drained f s (without_file f (of_file f s.order) s)
unfolding without_file
without_file-Drained f s h =
    let q = of_file f s.order in
    let u = unlink_all-Unlinked q s h.counted in
    let left : (unlink_all q s).order ≡ not_of_file f s.order =
      u.left ∙ unlink_nodes-of_file f s.order h.distinct in
    record {
      left = left;
      valid = record {
        by_file = λ g.
            let law = lookup-erase f g (unlink_all q s).completions_by_file in
            ground (arith, law, u.same_files, h.by_file g, of_file-not_of_file g f s.order, left);
        counted = u.counted;
        fresh =
            rw (left, u.same_next)
              (All-not_of_file (λ pc. pc.node < s.next_node) f s.order h.fresh);
        distinct = rw left (Distinct-not_of_file f s.order h.distinct);
      };
    }

entry-cases :
    (f : ℕ) (s : Completions)
    → IsOneQueue s
    → ((lookup f s.completions_by_file ≡ none) × (of_file f s.order ≡ []))
      ⊎ (lookup f s.completions_by_file ≡ some (of_file f s.order))
entry-cases f s h = go (of_file f s.order) (h.by_file f)
  where
    go :
        (q : List PendingCompletion)
        → lookup f s.completions_by_file ≡ entry q
        → ((lookup f s.completions_by_file ≡ none) × (q ≡ []))
          ⊎ (lookup f s.completions_by_file ≡ some q)
    go [] e = inl (e, refl)
    go (x ∷ q) e = inr e

nothing_to_drain : (f : ℕ) (s : Completions) → IsOneQueue s → of_file f s.order ≡ [] → Drained f s s
nothing_to_drain f s h e = record { left = sym (not_of_file_none f s.order e); valid = h }

pub release_file_locked-Drained :
    (f : ℕ) (s : Completions) → IsOneQueue s → Drained f s (release_file_locked f s)
unfolding release_file_locked without_file
release_file_locked-Drained f s h = elim (entry-cases f s h) [
  | inl absent ↦ rw (absent.0, release_file_locked) (nothing_to_drain f s h absent.1)
  | inr e ↦ rw (e, release_file_locked) (without_file-Drained f s h)
]

pub drain_for_file-Drained :
    (f : ℕ) (s : Completions)
    → IsOneQueue s
    → ((drain_completions_for_file f s).0 ≡ contents (of_file f s.order))
      × Drained f s (drain_completions_for_file f s).1
unfolding drain_completions_for_file without_file
drain_for_file-Drained f s h = elim (entry-cases f s h) [
  | inl absent ↦
      rw (absent.0, absent.1, drain_completions_for_file) (refl, nothing_to_drain f s h absent.1)
  | inr e ↦ rw (e, drain_completions_for_file) (refl, without_file-Drained f s h)
]
