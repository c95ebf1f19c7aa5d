-- ===== src/DiskIo/Completions/DrainAll.antt =====
-- Draining every completion, oldest first.
use fast_clone.Prelude.{
  ℕ, suc, zero, ◌<◌, ◌≡◌, refl, sym, ap, ◌∙◌, if◌then◌else◌, ◌==◌, ==_refl, List, [], ◌∷◌, ◌++◌,
  append-nil, append_assoc, some, arith, length, All, ◌⊎◌, inl, inr,
}
use fast_clone.Prelude.Assoc.{lookup, lookup-insert, lookup-erase}
use fast_clone.DiskIo.{IoCompletion}
use fast_clone.DiskIo.Completions.{
  PendingCompletion, file_of, Completions, unlink, order_unlink, put_queue, drain_head, drain_loop,
  drain_completions, contents,
}
use fast_clone.DiskIo.Completions.OneQueue.{of_file, entry, IsOneQueue, Distinct}
use fast_clone.DiskIo.Completions.Drain.{order_unlink-Unlinked}
use mathlib.Core.Path.{subst}

lookup-put_queue :
    (f g : ℕ) (q : List PendingCompletion) (m : List (ℕ × List PendingCompletion))
    → lookup g (put_queue f q m) ≡ (if f == g then entry q else lookup g m)
unfolding put_queue
lookup-put_queue f g [] m = lookup-erase f g m
lookup-put_queue f g (pc ∷ q) m = lookup-insert f g (pc ∷ q) m

unlink_head :
    (pc : PendingCompletion) (order : List PendingCompletion) → unlink pc.node (pc ∷ order) ≡ order
unfolding unlink
unlink_head pc order = ground (arith, ==_refl pc.node)

own_queue :
    (pc : PendingCompletion) (order : List PendingCompletion)
    → of_file (file_of pc) (pc ∷ order) ≡ pc ∷ of_file (file_of pc) order
unfolding of_file
own_queue pc order = ground (arith, ==_refl (file_of pc))

-- The oldest completion is handed out, the others stay.
pub record HeadTaken (pc : PendingCompletion) (order : List PendingCompletion)
    (r : List IoCompletion × Completions) : Type 0 where
  pub given : r.0 ≡ pc.completion ∷ []
  pub left : r.1.order ≡ order
  pub valid : IsOneQueue r.1

left_by_file :
    (pc : PendingCompletion) (order : List PendingCompletion) (s t : Completions)
    → IsOneQueue s
    → s.order ≡ pc ∷ order
    → t.completions_by_file ≡ s.completions_by_file
    → t.order ≡ order
    → (g : ℕ)
    → lookup g (put_queue (file_of pc) (of_file (file_of pc) order) t.completions_by_file)
      ≡ entry (of_file g t.order)
unfolding of_file
left_by_file pc order s t h e same left g =
    let law = lookup-put_queue (file_of pc) g (of_file (file_of pc) order) t.completions_by_file in
    let known : lookup g t.completions_by_file ≡ entry (of_file g (pc ∷ order)) =
      ap (lookup g) same ∙ h.by_file g ∙ ap (λ o. entry (of_file g o)) e in
    rw left (ground (arith, law, known))

drain_head_lem :
    (pc : PendingCompletion) (order : List PendingCompletion) (s : Completions)
    → s.order ≡ pc ∷ order
    → IsOneQueue s
    → HeadTaken pc order (drain_head pc s)
unfolding drain_head
drain_head_lem pc order s e h =
    let t = order_unlink pc s in
    let u = order_unlink-Unlinked pc s h.counted in
    let left : t.order ≡ order = u.left ∙ ap (unlink pc.node) e ∙ unlink_head pc order in
    let q = of_file (file_of pc) order in
    let own : of_file (file_of pc) s.order ≡ pc ∷ q =
      ap (of_file (file_of pc)) e ∙ own_queue pc order in
    let found : lookup (file_of pc) t.completions_by_file ≡ some (pc ∷ q) =
      ground (arith, u.same_files, h.by_file (file_of pc), own) in
    let valid_order = subst IsValidOrder e (h.fresh, h.distinct) in
    rw (found, drain_head)
      (record {
        given = refl;
        left = left;
        valid = record {
          by_file = λ g. left_by_file pc order s t h e u.same_files left g;
          counted = u.counted;
          fresh = rw (left, u.same_next) valid_order.0.1;
          distinct = rw left valid_order.1.1;
        };
      })
  where
    IsValidOrder : List PendingCompletion → Type 0
    IsValidOrder o = All (λ p. p.node < s.next_node) o × Distinct o

pub record AllTaken (out : List IoCompletion) (r : List IoCompletion × Completions) : Type 0 where
  pub given : r.0 ≡ out
  pub left : r.1.order ≡ []
  pub valid : IsOneQueue r.1

List-cases :
    (q : List PendingCompletion)
    → (q ≡ []) ⊎ ((pc : PendingCompletion) × (rest : List PendingCompletion) × (q ≡ pc ∷ rest))
List-cases [] = inl refl
List-cases (pc ∷ rest) = inr (pc, rest, refl)

drain_loop_lem :
    (fuel : ℕ) (s : Completions) (out : List IoCompletion)
    → length s.order < fuel
    → IsOneQueue s
    → AllTaken (out ++ contents s.order) (drain_loop fuel s out)
unfolding drain_loop
drain_loop_lem zero s out enough h = absurd (omega arith)
drain_loop_lem (suc fuel) s out enough h = elim (List-cases s.order) [
  | inl e ↦ rw (e, drain_loop) (record { given = sym (append-nil out); left = e; valid = h })
  | inr (pc, rest, e) ↦
      let head = drain_head_lem pc rest s e h in
      let shorter : length (drain_head pc s).1.order < fuel =
        omega (arith, ap length head.left, ap length e) in
      let later =
        drain_loop_lem fuel (drain_head pc s).1 (out ++ (drain_head pc s).0) shorter head.valid in
      let all : (out ++ (drain_head pc s).0) ++ contents (drain_head pc s).1.order
          ≡ out ++ contents (pc ∷ rest) =
        cc (head.given, head.left, append_assoc out (pc.completion ∷ []) (contents rest)) in
      rw (e, drain_loop)
        (record { given = later.given ∙ all; left = later.left; valid = later.valid })
]

pub drain_completions_lem :
    (s : Completions) → IsOneQueue s → AllTaken (contents s.order) (drain_completions s)
unfolding drain_completions
drain_completions_lem s h = drain_loop_lem (suc (length s.order)) s [] (omega arith) h
