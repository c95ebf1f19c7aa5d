-- ===== src/Tuning/WriteCap/Steps.antt =====
-- One window of the write-cap controller.
use fast_clone.Prelude.{ℕ, ◌+◌, ◌≤◌, ◌<◌, ◌≡◌, max, true, Doubles, ◌/◌, Bool, false}
use fast_clone.Tuning.WriteCap.{
  AdjustReason, init, grow, hold, Sample, Controller, effective_max, deterioration, is_healthy,
}

-- The reasons for which the cap is halved.
abbrev pub is_halving : AdjustReason → Bool
is_halving init = false
is_halving grow = false
is_halving hold = false
is_halving _ = true

module _ (d : Doubles) where
  -- What a window does to a cap within its range.
  pub record Moves (prev : Controller d) (s : Sample d) (capacity : ℕ) (next : Controller d)
      : Type 0 where
    pub above_zero : 1 ≤ next.active_cap
    pub below_max : next.active_cap ≤ effective_max d capacity
    pub grows :
        prev.active_cap < next.active_cap
        → (1 ≤ prev.consecutive_healthy)
          × (is_healthy d prev s ≡ true)
          × (next.active_cap ≡ prev.active_cap + 1)
          × (next.last_reason ≡ grow)
    pub backs_off :
        is_halving (deterioration d prev s) ≡ true → next.active_cap ≡ max 1 (prev.active_cap / 2)
    pub falls :
        next.active_cap < prev.active_cap
        → (next.active_cap ≡ prev.active_cap / 2)
          × (next.consecutive_healthy ≡ 0)
          × (next.last_reason ≡ deterioration d prev s)
