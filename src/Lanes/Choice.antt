-- ===== src/Lanes/Choice.antt =====
-- What the chosen lane is.
use mathlib.Core.Path.{subst}
use mathlib.Core.Option.{some-injective, none-ne-some}
use fast_clone.Prelude.{
  ℕ, zero, suc, ◌+◌, ◌≤◌, ◌<◌, ◌≡◌, ◌⊎◌, inl, inr, refl, ap, sym, ◌∙◌, Bool, true, false, ◌&&◌, ◌^◌,
  List, [], ◌∷◌, Option, none, some, get_elem?, arith, if_holds, if◌then◌else◌, Doubles, ltb,
  ltb→lt,
}
use fast_clone.Lanes.{
  LaneLoad, is_candidate, effective_load, is_better, index_of, select_loop,
  select_least_loaded_lane, file_range_reserved_slots,
}

pub file_range_reserved_slots_bounds :
    (stream_limit : ℕ)
    → 1 ≤ stream_limit
    → stream_limit < 2 ^ 32
    → (file_range_reserved_slots stream_limit < stream_limit)
      × (file_range_reserved_slots stream_limit ≤ 4)
      × (2 ≤ stream_limit → 1 ≤ file_range_reserved_slots stream_limit)
unfolding file_range_reserved_slots
file_range_reserved_slots_bounds stream_limit h k = ground arith

and_left : (a b : Bool) → (a && b) ≡ true → a ≡ true
and_left a b h = ground arith

and_right : (a b : Bool) → (a && b) ≡ true → b ≡ true
and_right a b h = ground arith

module _ (d : Doubles) (stream_limit : ℕ) where
  -- Lane `i` of the list is healthy and below the limit.
  pub Eligible : List (LaneLoad d) → ℕ → Type 0
  Eligible lanes i =
      (c : LaneLoad d) × (get_elem? lanes i ≡ some c)
      × (c.healthy ≡ true)
      × (c.in_flight < stream_limit)

  is_candidate_sound :
      (c : LaneLoad d)
      → is_candidate d stream_limit c ≡ true
      → (c.healthy ≡ true) × (c.in_flight < stream_limit)
  unfolding is_candidate
  is_candidate_sound c h = ground arith

  -- The best so far is one of the lanes passed, or was there before.
  select_loop-Eligible :
      (i : ℕ) (cs : List (LaneLoad d)) (P : ℕ → Type 0) (best : Option (ℕ × d.Double))
      → ((k : ℕ) → Eligible cs k → P (i + k))
      → ((k : ℕ) (y : d.Double) → best ≡ some (k, y) → P k)
      → (j : ℕ) (x : d.Double) → select_loop d stream_limit i cs best ≡ some (j, x)
      → P j
  unfolding select_loop Eligible
  select_loop-Eligible i [] P best fits before j x h = before j x h
  select_loop-Eligible i (c ∷ cs) P best fits before j x h =
      let load = effective_load d c in
      let first = elim best as (λ _. Bool) [ none ↦ true | some b ↦ is_better d load b.1 ] in
      let now = is_candidate d stream_limit c && first in
      select_loop-Eligible (i + 1) cs P (if now then some (i, load) else best)
        (λ k e. subst P (omega arith) (fits (suc k) e))
        (if_holds (λ (o : Option (ℕ × d.Double)). (k : ℕ) (y : d.Double) → o ≡ some (k, y) → P k)
          now _ _
          (λ taken k y e.
            let ok = is_candidate_sound c (and_left (is_candidate d stream_limit c) first taken) in
            subst P (omega arith ∙ ap (λ b. b.0) (some-injective (i, load) (k, y) e))
              (fits 0 (c, refl, ok.0, ok.1)))
          (λ _. before))
        j x h

  abbrev IsOpen : LaneLoad d → Type 0
  IsOpen c = (c.healthy ≡ true) × (c.in_flight < stream_limit)

  not_candidate : (c : LaneLoad d) → (is_candidate d stream_limit c && true) ≡ false → ¬ IsOpen c
  unfolding is_candidate
  not_candidate c h is_open = ground arith

  -- With a best lane at hand the loop keeps one, and finds one where a lane is eligible.
  select_loop-finds :
      (i : ℕ) (cs : List (LaneLoad d)) (best : Option (ℕ × d.Double))
      → ((b : ℕ × d.Double) × (best ≡ some b)) ⊎ ((k : ℕ) × Eligible cs k)
      → (b : ℕ × d.Double) × (select_loop d stream_limit i cs best ≡ some b)
  unfolding select_loop Eligible is_candidate
  select_loop-finds i [] best (inl b) = b
  select_loop-finds i [] best (inr e) = absurd (none-ne-some e.1.0 e.1.1)
  select_loop-finds i (c ∷ cs) (some b) h = select_loop-finds (i + 1) cs _ (
      inl (
        if_holds (λ (o : Option (ℕ × d.Double)). (x : ℕ × d.Double) × (o ≡ some x))
          (is_candidate d stream_limit c && is_better d (effective_load d c) b.1) _ _
          (λ _. ((i, effective_load d c), refl)) (λ _. (b, refl))))
  select_loop-finds i (c ∷ cs) none (inl b) = absurd (none-ne-some b.0 b.1)
  select_loop-finds i (c ∷ cs) none (inr (zero, e)) =
      if_holds
        (λ (o : Option (ℕ × d.Double)).
          (x : ℕ × d.Double) × (select_loop d stream_limit (i + 1) cs o ≡ some x))
        (is_candidate d stream_limit c && true) _ _
        (λ _. select_loop-finds (i + 1) cs _ (inl ((i, effective_load d c), refl)))
        (λ no.
          absurd (not_candidate c no (subst IsOpen (sym (some-injective c e.0 e.1)) (e.2, e.3))))
  select_loop-finds i (c ∷ cs) none (inr (suc k, e)) =
      if_holds
        (λ (o : Option (ℕ × d.Double)).
          (x : ℕ × d.Double) × (select_loop d stream_limit (i + 1) cs o ≡ some x))
        (is_candidate d stream_limit c && true) _ _
        (λ _. select_loop-finds (i + 1) cs _ (inl ((i, effective_load d c), refl)))
        (λ _. select_loop-finds (i + 1) cs none (inr (k, e)))

  -- The lane that is chosen is one of the list, healthy, and below the stream limit, whatever
  -- the weights and the floating-point arithmetic, with and without the pin to the primary lane.
  pub select_least_loaded_lane-Eligible :
      (lanes : List (LaneLoad d)) (force_primary : Bool) (i : ℕ)
      → select_least_loaded_lane d lanes stream_limit force_primary ≡ some i
      → Eligible lanes i
  unfolding select_least_loaded_lane Eligible
  select_least_loaded_lane-Eligible [] force i h = absurd (none-ne-some i h)
  select_least_loaded_lane-Eligible (p ∷ rest) force i h =
      if_holds (λ (o : Option ℕ). o ≡ some i → Eligible (p ∷ rest) i) (force && p.healthy) _ _
        (λ pinned.
          if_holds (λ (o : Option ℕ). o ≡ some i → Eligible (p ∷ rest) i)
            (ltb p.in_flight stream_limit) _ _
            (λ below e.
              subst (Eligible (p ∷ rest)) (some-injective 0 i e)
                (p, refl, and_right force p.healthy pinned, ltb→lt p.in_flight stream_limit below))
            (λ _ e. absurd (none-ne-some i e)))
        (λ _. from_loop (select_loop d stream_limit 0 (p ∷ rest) none) (
          select_loop-Eligible 0 (p ∷ rest) (Eligible (p ∷ rest)) none
            (λ k e. subst (Eligible (p ∷ rest)) (omega arith) e)
            (λ k y e. absurd (none-ne-some (k, y) e))))
        h
    where
      from_loop :
          (o : Option (ℕ × d.Double))
          → ((j : ℕ) (x : d.Double) → o ≡ some (j, x) → Eligible (p ∷ rest) j)
          → index_of d o ≡ some i
          → Eligible (p ∷ rest) i
      from_loop none lem e = absurd (none-ne-some i e)
      from_loop (some b) lem e =
          subst (Eligible (p ∷ rest)) (some-injective b.0 i e) (lem b.0 b.1 refl)

  -- Without the pin, a lane is chosen whenever some lane of the list is healthy and below the
  -- stream limit.
  pub select_least_loaded_lane-finds :
      (lanes : List (LaneLoad d)) (k : ℕ)
      → Eligible lanes k
      → (i : ℕ) × (select_least_loaded_lane d lanes stream_limit false ≡ some i)
  unfolding select_least_loaded_lane Eligible
  select_least_loaded_lane-finds [] k e = absurd (none-ne-some e.0 e.1)
  select_least_loaded_lane-finds (p ∷ rest) k e =
      let found = select_loop-finds 0 (p ∷ rest) none (inr (k, e)) in
      (found.0.0, ap (index_of d) found.1)
