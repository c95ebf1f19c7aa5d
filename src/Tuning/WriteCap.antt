-- ===== src/Tuning/WriteCap.antt =====
-- The controller of the active write workers, `NextWriteActiveCap` of
-- FastClone/transfer_tuning.cpp. Rates and latencies are doubles.
pub mod Steps
use fast_clone.Prelude.{
  ℕ, ◌+◌, ◌-◌, ◌*◌, ◌/◌, ◌%◌, ◌^◌, max, Bool, true, false, not, ◌&&◌, ◌||◌, if◌then◌else◌, ltb, leb,
  ◌==◌, Doubles,
}
use fast_clone.Tuning.{clamp, add_sat, active_cap_min, active_cap_max}

pub data AdjustReason : Type 0 where
  init : AdjustReason
  grow : AdjustReason
  hold : AdjustReason
  halve_backpressure : AdjustReason
  halve_budget : AdjustReason
  halve_rate_drop : AdjustReason
  halve_latency : AdjustReason
  halve_failure : AdjustReason

abbrev pub protect_windows : ℕ
protect_windows = 1

abbrev pub healthy_windows_to_grow : ℕ
healthy_windows_to_grow = 2

module _ (d : Doubles) where
  pub record Sample : Type 0 where
    pub backlog : ℕ
    pub io_in_flight_bytes : ℕ
    pub driver_outstanding_bytes : ℕ
    pub recv_soft_budget_bytes : ℕ
    pub completion_rate : d.Double
    pub latency_ewma_ns : d.Double
    pub backpressure_sleep : Bool
    pub write_failures : ℕ

  pub record Controller : Type 0 where
    pub active_cap : ℕ
    pub consecutive_healthy : ℕ
    pub prev_completion_rate : d.Double
    pub prev_latency_ewma_ns : d.Double
    pub have_prev : Bool
    pub last_reason : AdjustReason
    pub windows_since_change : ℕ

  unfoldable pub update_ewma : d.Double → d.Double → d.Double → d.Double
  update_ewma prev sample alpha =
      if d.less_eq prev (d.lit 0 1)
      then sample
      else d.add (d.mul alpha sample) (d.mul (d.sub (d.lit 1 1) alpha) prev)

  abbrev pub effective_max : ℕ → ℕ
  effective_max capacity = clamp capacity active_cap_min active_cap_max

  abbrev pub sample_pressure : Sample → ℕ
  sample_pressure s = add_sat s.io_in_flight_bytes s.driver_outstanding_bytes

  -- The reason to halve, and `hold` if there is none.
  unfoldable pub deterioration : Controller → Sample → AdjustReason
  deterioration prev s =
      let protected = ltb prev.windows_since_change protect_windows in
      if s.backpressure_sleep
      then halve_backpressure
      else if ltb s.recv_soft_budget_bytes (sample_pressure s)
      then halve_budget
      else if prev.have_prev
          && (ltb 0 s.backlog && (not protected && d.less s.completion_rate (d.lit 20 1)))
      then halve_rate_drop
      else if prev.have_prev
          && (ltb 0 s.backlog
              && (d.less (d.lit 0 1) prev.prev_latency_ewma_ns
                  && d.less (d.lit (15 * 10 ^ 9) 1) s.latency_ewma_ns))
      then halve_latency
      else if ltb 0 s.write_failures
      then halve_failure
      else hold

  unfoldable pub is_healthy : Controller → Sample → Bool
  is_healthy prev s =
      ltb prev.active_cap s.backlog
      && (not s.backpressure_sleep
          && (leb (sample_pressure s) s.recv_soft_budget_bytes
              && ((not prev.have_prev || d.less_eq prev.prev_completion_rate s.completion_rate)
                  && ((not prev.have_prev
                        || (d.less_eq prev.prev_latency_ewma_ns (d.lit 0 1)
                            || d.less_eq s.latency_ewma_ns
                                (d.mul prev.prev_latency_ewma_ns (d.lit 125 100))))
                      && d.less s.latency_ewma_ns (d.lit (30 * 10 ^ 9) 1)))))

  -- What both ends of the step share: the clamp and the remembered sample.
  close_window : Controller → Sample → ℕ → ℕ → ℕ → AdjustReason → Controller
  close_window prev s capacity new_cap healthy reason =
      let cap = clamp new_cap active_cap_min (effective_max capacity) in
      record {
        active_cap = cap;
        consecutive_healthy = healthy;
        prev_completion_rate = s.completion_rate;
        prev_latency_ewma_ns = s.latency_ewma_ns;
        have_prev = true;
        last_reason = reason;
        windows_since_change =
            if cap == prev.active_cap then (prev.windows_since_change + 1) % 2 ^ 32 else 0;
      }

  halve : Controller → Sample → ℕ → AdjustReason → Controller
  halve prev s capacity reason =
      close_window prev s capacity (max active_cap_min (prev.active_cap / 2)) 0 reason

  steady : Controller → Sample → ℕ → Controller
  steady prev s capacity =
      let streak = (prev.consecutive_healthy + 1) % 2 ^ 32 in
      if is_healthy prev s
      then if leb healthy_windows_to_grow streak && ltb prev.active_cap (effective_max capacity)
        then close_window prev s capacity ((prev.active_cap + 1) % 2 ^ 32) streak grow
        else close_window prev s capacity prev.active_cap streak hold
      else close_window prev s capacity prev.active_cap 0 hold

  unfoldable pub next_write_active_cap : Controller → Sample → ℕ → Controller
  unfolding close_window halve steady
  next_write_active_cap prev s capacity = elim (deterioration prev s) as (λ _. Controller) [
    | init ↦ steady prev s capacity
    | grow ↦ steady prev s capacity
    | hold ↦ steady prev s capacity
    | halve_backpressure ↦ halve prev s capacity halve_backpressure
    | halve_budget ↦ halve prev s capacity halve_budget
    | halve_rate_drop ↦ halve prev s capacity halve_rate_drop
    | halve_latency ↦ halve prev s capacity halve_latency
    | halve_failure ↦ halve prev s capacity halve_failure
  ]
