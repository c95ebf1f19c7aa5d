-- ===== src/DiskIo/Queues/Fairness.antt =====
-- What the choice of the next request promises: no queue is starved, and small requests overtake.
use fast_clone.Prelude.{
  ℕ, suc, zero, ◌+◌, ◌≤◌, ◌≡◌, ◌⊎◌, inl, inr, Bool, true, false, if◌then◌else◌, ◌==◌, List, [], ◌∷◌,
  ◌++◌, none, some, All, arith, Bool-cases, Option-cases,
}
use fast_clone.DiskIo.{IoRequest, IoDriverConfig}
use fast_clone.DiskIo.Queues.{
  is_small, take_small, pop_prefer_small, Credits, full_credits, pick_side,
}

-- The directions of the next `n` requests while both queues have one.
unfoldable pub busy_sides : IoDriverConfig → ℕ → Credits → List Bool
busy_sides cfg zero c = []
busy_sides cfg (suc n) c =
    let (is_read, c') = pick_side cfg true true c in is_read ∷ busy_sides cfg n c'

abbrev pub share : ℕ → ℕ
share weight = if weight == 0 then 1 else weight

abbrev pub Within : IoDriverConfig → Credits → Type 0
Within cfg c = (c.read_credit ≤ share cfg.read_weight) × (c.write_credit ≤ share cfg.write_weight)

pub full_credits-Within : (cfg : IoDriverConfig) → Within cfg (full_credits cfg)
unfolding full_credits
full_credits-Within cfg = ground arith

pub pick_side-Within :
    (cfg : IoDriverConfig) (r w : Bool) (c : Credits)
    → Within cfg c
    → Within cfg (pick_side cfg r w c).1
unfolding pick_side
pick_side-Within cfg r w c h = ground arith

-- All of `n` requests are of one side.
abbrev pub AllSame : Bool → List Bool → Type 0
AllSame b = All (λ x. x ≡ b)

-- How many reads may follow one another from some credits: those left, and another share if the
-- writes have none left.
abbrev run_of_reads : IoDriverConfig → Credits → ℕ
run_of_reads cfg c =
    if c.write_credit == 0 then c.read_credit + share cfg.read_weight else c.read_credit

read_step :
    (cfg : IoDriverConfig) (c : Credits)
    → (pick_side cfg true true c).0 ≡ true
    → run_of_reads cfg (pick_side cfg true true c).1 + 1 ≤ run_of_reads cfg c
unfolding pick_side
read_step cfg c h = ground arith

reads_in_a_row :
    (cfg : IoDriverConfig) (n : ℕ) (c : Credits)
    → AllSame true (busy_sides cfg n c)
    → n ≤ run_of_reads cfg c
unfolding busy_sides
reads_in_a_row cfg zero c all = omega arith
reads_in_a_row cfg (suc n) c all =
    let later = reads_in_a_row cfg n (pick_side cfg true true c).1 all.1 in
    omega (arith, later, read_step cfg c all.0)

write_step :
    (cfg : IoDriverConfig) (c : Credits)
    → (pick_side cfg true true c).0 ≡ false
    → (c.read_credit ≡ 0)
      × ((pick_side cfg true true c).1.read_credit ≡ 0)
      × ((pick_side cfg true true c).1.write_credit + 1 ≤ c.write_credit)
unfolding pick_side
write_step cfg c h = ground arith

writes_in_a_row :
    (cfg : IoDriverConfig) (n : ℕ) (c : Credits)
    → AllSame false (busy_sides cfg n c)
    → n ≤ c.write_credit
unfolding busy_sides
writes_in_a_row cfg zero c all = omega arith
writes_in_a_row cfg (suc n) c all =
    let later = writes_in_a_row cfg n (pick_side cfg true true c).1 all.1 in
    omega (arith, later, (write_step cfg c all.0).2)

-- While both queues have requests, from credits within their shares, at most two shares of reads
-- follow one another, and at most one share of writes, a weight of 0 counting as 1.
pub busy_sides_fair :
    (cfg : IoDriverConfig) (n : ℕ) (c : Credits)
    → Within cfg c
    → (AllSame true (busy_sides cfg n c) → n ≤ share cfg.read_weight + share cfg.read_weight)
      × (AllSame false (busy_sides cfg n c) → n ≤ share cfg.write_weight)
busy_sides_fair cfg n c within = (
  λ reads. ground (arith, reads_in_a_row cfg n c reads),
  λ writes. ground (arith, writes_in_a_row cfg n c writes),
)

abbrev pub AllLarge : List IoRequest → Type 0
AllLarge = All (λ s. is_small s.prio ≡ false)

-- Where the request was taken from: the large ones before it, the others after it.
abbrev pub FirstSmall : List IoRequest → IoRequest → List IoRequest → Type 0
FirstSmall q r rest =
    (before : List IoRequest) × (after : List IoRequest) × (q ≡ before ++ (r ∷ after))
    × (rest ≡ before ++ after)
    × AllLarge before
    × (is_small r.prio ≡ true)

take_small-none : (q : List IoRequest) → take_small q ≡ none → AllLarge q
unfolding take_small
take_small-none [] h = tt
take_small-none (x ∷ q) h = elim (Bool-cases (is_small x.prio)) [
  | inl yes_small ↦ ground arith
  | inr not_small ↦ elim (Option-cases (take_small q)) [
    | inl e ↦ (not_small, take_small-none q e)
    | inr (p, e) ↦ ground arith
  ]
]

take_small_lem :
    (q : List IoRequest) (r : IoRequest) (rest : List IoRequest)
    → take_small q ≡ some (r, rest)
    → FirstSmall q r rest
unfolding take_small
take_small_lem [] r rest h = cc
take_small_lem (x ∷ q) r rest h = elim (Bool-cases (is_small x.prio)) [
  | inl yes_small ↦
      let this : x ≡ r = ground arith in
      let others : q ≡ rest = ground arith in ([], q, cc, cc, tt, ground arith)
  | inr not_small ↦ elim (Option-cases (take_small q)) [
    | inl none_found ↦ ground arith
    | inr (p, e) ↦
        let (before, after, whole, left, before_large, found_small) = take_small_lem q p.0 p.1 e in
        let this : p.0 ≡ r = ground arith in
        let others : x ∷ p.1 ≡ rest = ground arith in
        (x ∷ before, after, cc, cc, (not_small, before_large), ground arith)
  ]
]

-- The request that is popped is the first small one of the queue, or, when all are large, the
-- first; the others keep their order.
pub pop_prefer_small_lem :
    (q : List IoRequest) (r : IoRequest) (rest : List IoRequest)
    → pop_prefer_small q ≡ some (r, rest)
    → FirstSmall q r rest ⊎ ((q ≡ r ∷ rest) × AllLarge q)
unfolding pop_prefer_small
pop_prefer_small_lem [] r rest h = cc
pop_prefer_small_lem (x ∷ q) r rest h = elim (Option-cases (take_small (x ∷ q))) [
  | inl e ↦ inr (ground arith, take_small-none (x ∷ q) e)
  | inr (p, e) ↦ inl (take_small_lem (x ∷ q) r rest (ground arith))
]
