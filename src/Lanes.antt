-- ===== src/Lanes.antt =====
-- The choice of a lane for the next transfer, FastClone/link_scheduler.h. Weights are doubles.
pub mod Choice
use fast_clone.Prelude.{
  ℕ, zero, suc, ◌+◌, ◌-◌, ◌/◌, ◌%◌, ◌^◌, max, Bool, true, false, not, ◌&&◌, ◌||◌, if◌then◌else◌,
  ltb, leb, ◌==◌, List, [], ◌∷◌, Option, none, some, Doubles,
}

module _ (d : Doubles) where
  pub record LaneLoad : Type 0 where
    pub healthy : Bool
    pub in_flight : ℕ
    pub weight : d.Double
    pub bias : ℕ

  unfoldable pub is_candidate : ℕ → LaneLoad → Bool
  is_candidate stream_limit c = c.healthy && ltb c.in_flight stream_limit

  unfoldable pub effective_load : LaneLoad → d.Double
  effective_load c = d.div (d.lit ((c.in_flight + c.bias) % 2 ^ 32) 1) c.weight

  -- `load < bestLoad - kEps`.
  unfoldable pub is_better : d.Double → d.Double → Bool
  is_better load best_load = d.less load (d.sub best_load (d.lit 1 (10 ^ 9)))

  -- The loop, from lane `i` on: `best` holds the index and load of the best lane so far, and is
  -- empty where the code has -1.
  unfoldable pub select_loop : ℕ → ℕ → List LaneLoad → Option (ℕ × d.Double) → Option (ℕ × d.Double)
  select_loop stream_limit i [] best = best
  select_loop stream_limit i (c ∷ cs) best =
      let load = effective_load c in
      let first = elim best as (λ _. Bool) [ none ↦ true | some b ↦ is_better load b.1 ] in
      let next = if is_candidate stream_limit c && first then some (i, load) else best in
      select_loop stream_limit (i + 1) cs next

  abbrev pub index_of : Option (ℕ × d.Double) → Option ℕ
  index_of none = none
  index_of (some b) = some b.0

  -- `none` is the code's -1.
  unfoldable pub select_least_loaded_lane : List LaneLoad → ℕ → Bool → Option ℕ
  select_least_loaded_lane [] stream_limit force_primary = none
  select_least_loaded_lane (primary ∷ rest) stream_limit force_primary =
      if force_primary && primary.healthy
      then if ltb primary.in_flight stream_limit then some 0 else none
      else index_of (select_loop stream_limit 0 (primary ∷ rest) none)

unfoldable pub file_range_reserved_slots : ℕ → ℕ
file_range_reserved_slots stream_limit =
    let r = max 2 (stream_limit / 8) in
    let capped = if ltb 4 r then 4 else r in
    if leb stream_limit 2
    then (stream_limit + 2 ^ 32 - 1) % 2 ^ 32
    else if leb stream_limit capped
    then stream_limit - 1
    else capped
