-- ===== src/DiskIo/Completions/OneQueue.antt =====
-- The queues per file and the order of arrival are two views of one queue.
use fast_clone.Prelude.{
  ℕ, ◌+◌, ◌<◌, ◌≡◌, ◌≢◌, refl, sym, if◌then◌else◌, ◌==◌, List, [], ◌∷◌, ◌++◌, Option, none, some,
  All, arith, length, length-append, append-nil,
}
use fast_clone.Prelude.Assoc.{lookup, lookup-insert}
use fast_clone.DiskIo.{IoCompletion}
use fast_clone.DiskIo.Completions.{
  PendingCompletion, file_of, Completions, no_completions, queue_of, order_link, push_completion,
}

-- The nodes of one file, and those of the others.
unfoldable pub of_file : ℕ → List PendingCompletion → List PendingCompletion
of_file f [] = []
of_file f (pc ∷ q) = let rest = of_file f q in if file_of pc == f then pc ∷ rest else rest

unfoldable pub not_of_file : ℕ → List PendingCompletion → List PendingCompletion
not_of_file f [] = []
not_of_file f (pc ∷ q) = let rest = not_of_file f q in if file_of pc == f then rest else pc ∷ rest

-- A map has no entry for an empty queue.
abbrev pub entry : List PendingCompletion → Option (List PendingCompletion)
entry [] = none
entry (pc ∷ q) = some (pc ∷ q)

abbrev pub NotNode : ℕ → List PendingCompletion → Type 0
NotNode n = All (λ pc. pc.node ≢ n)

-- No address twice.
abbrev pub Distinct : List PendingCompletion → Type 0
Distinct [] = Unit {0}
Distinct (pc ∷ q) = NotNode pc.node q × Distinct q

-- The queues per file are the order list, cut up by files.
pub record IsOneQueue (s : Completions) : Type 0 where
  pub by_file : (f : ℕ) → lookup f s.completions_by_file ≡ entry (of_file f s.order)
  pub counted : s.order_count ≡ length s.order
  pub fresh : All (λ pc. pc.node < s.next_node) s.order
  pub distinct : Distinct s.order

pub no_completions-IsOneQueue : IsOneQueue no_completions
unfolding of_file lookup
no_completions-IsOneQueue = record {
  by_file = λ f. refl;
  counted = refl;
  fresh = tt;
  distinct = tt;
}

pub of_file-append :
    (f : ℕ) (xs ys : List PendingCompletion) → of_file f (xs ++ ys) ≡ of_file f xs ++ of_file f ys
unfolding of_file
of_file-append f [] ys = refl
of_file-append f (x ∷ xs) ys = ground (arith, of_file-append f xs ys)

pub queue-entry :
    (f : ℕ) (m : List (ℕ × List PendingCompletion)) (q : List PendingCompletion)
    → lookup f m ≡ entry q
    → queue_of f m ≡ q
queue-entry f m [] h = ground (arith, h)
queue-entry f m (x ∷ q) h = ground (arith, h)

entry-snoc :
    (q : List PendingCompletion) (pc : PendingCompletion)
    → entry (q ++ (pc ∷ [])) ≡ some (q ++ (pc ∷ []))
entry-snoc [] pc = refl
entry-snoc (x ∷ q) pc = refl

fresh-NotNode : (n : ℕ) (q : List PendingCompletion) → All (λ pc. pc.node < n) q → NotNode n q
fresh-NotNode n [] h = tt
fresh-NotNode n (x ∷ q) h = (omega arith, fresh-NotNode n q h.1)

NotNode-snoc :
    (n : ℕ) (q : List PendingCompletion) (pc : PendingCompletion)
    → NotNode n q
    → pc.node ≢ n
    → NotNode n (q ++ (pc ∷ []))
NotNode-snoc n [] pc h ne = (ne, tt)
NotNode-snoc n (x ∷ q) pc h ne = (h.0, NotNode-snoc n q pc h.1 ne)

Distinct-snoc :
    (q : List PendingCompletion) (pc : PendingCompletion)
    → Distinct q
    → NotNode pc.node q
    → Distinct (q ++ (pc ∷ []))
Distinct-snoc [] pc d h = (tt, tt)
Distinct-snoc (x ∷ q) pc d h =
    (NotNode-snoc x.node q pc d.0 (λ e. h.0 (sym e)), Distinct-snoc q pc d.1 h.1)

fresh-snoc :
    (n : ℕ) (q : List PendingCompletion) (pc : PendingCompletion)
    → All (λ p. p.node < n) q
    → pc.node ≡ n
    → All (λ p. p.node < n + 1) (q ++ (pc ∷ []))
fresh-snoc n [] pc h e = (omega arith, tt)
fresh-snoc n (x ∷ q) pc h e = (omega arith, fresh-snoc n q pc h.1 e)

pushed-by_file :
    (c : IoCompletion) (s : Completions)
    → IsOneQueue s
    → (f : ℕ)
    → lookup f (push_completion c s).completions_by_file
      ≡ entry (of_file f (push_completion c s).order)
unfolding push_completion order_link of_file
pushed-by_file c s h f =
    let pc : PendingCompletion = record { node = s.next_node; completion = c } in
    let known =
      queue-entry c.file_id s.completions_by_file (of_file c.file_id s.order)
        (h.by_file c.file_id) in
    let split = of_file-append f s.order (pc ∷ []) in
    let law =
      lookup-insert c.file_id f (queue_of c.file_id s.completions_by_file ++ (pc ∷ []))
        s.completions_by_file in
    let filled = entry-snoc (of_file c.file_id s.order) pc in
    ground (arith, law, split, known, filled, h.by_file f, append-nil (of_file f s.order))

-- A completion that arrives goes to the end of the one queue.
pub push_completion-IsOneQueue :
    (c : IoCompletion) (s : Completions) → IsOneQueue s → IsOneQueue (push_completion c s)
unfolding push_completion order_link
push_completion-IsOneQueue c s h =
    let pc : PendingCompletion = record { node = s.next_node; completion = c } in
    record {
      by_file = pushed-by_file c s h;
      counted = omega (arith, length-append s.order (pc ∷ []), h.counted);
      fresh = fresh-snoc s.next_node s.order pc h.fresh refl;
      distinct = Distinct-snoc s.order pc h.distinct (fresh-NotNode s.next_node s.order h.fresh);
    }
