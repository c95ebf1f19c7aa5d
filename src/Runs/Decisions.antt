-- ===== src/Runs/Decisions.antt =====
-- Runs of the lane choice, the tuning, the comparison, the caches and the read gate.
use fast_clone.Prelude.{
  ℕ, ◌+◌, ◌-◌, ◌*◌, ◌/◌, ◌^◌, ◌≡◌, refl, List, [], ◌∷◌, Bool, true, false, some, pos, ltb, leb,
  arith, Doubles,
}
use fast_clone.Entry.{FileEntry}
use fast_clone.Lanes.{
  LaneLoad, is_candidate, is_better, effective_load, select_loop, select_least_loaded_lane,
}
use fast_clone.Lanes.Choice.{
  Eligible, select_least_loaded_lane-Eligible, select_least_loaded_lane-finds,
}
use fast_clone.Tuning.{TunedTransferOptions}
use fast_clone.Tuning.WriteCap.{
  hold, Sample, Controller, deterioration, is_healthy, next_write_active_cap,
}
use fast_clone.Compare.{strict}
use fast_clone.Compare.Decide.{SameBasis, compare_file-same, compare_file_strict}
use fast_clone.MemCache.{HashFingerprint, MemCache}
use fast_clone.MemCache.Lookup.{try_get-upsert}
use fast_clone.MemCache.History.{put, run_op, run_ops, Stored, try_get_sound}
use fast_clone.ReadGate.{acquire}
use fast_clone.ReadGate.Permits.{held_by, begin, Reach, opened, step, permits_kept}

-- Fixed-point numbers of three decimals for the doubles.
abbrev pub milli : Doubles
milli = record {
  Double = ℕ;
  lit = λ m n. m * 1000 / n;
  add = λ a b. a + b;
  sub = λ a b. a - b;
  mul = λ a b. a * b / 1000;
  div = λ a b. a * 1000 / b;
  less = ltb;
  less_eq = leb;
  truncate = λ a. a / 1000;
}

abbrev lane_of : Bool → ℕ → LaneLoad milli
lane_of healthy in_flight = record {
  healthy = healthy;
  in_flight = in_flight;
  weight = 1000;
  bias = 0;
}

abbrev lanes : List (LaneLoad milli)
lanes = lane_of true 4 ∷ lane_of false 0 ∷ lane_of true 2 ∷ []

chosen_lane : select_least_loaded_lane milli lanes 4 false ≡ some 2
unfolding select_least_loaded_lane select_loop is_candidate is_better effective_load
chosen_lane = refl

select_least_loaded_lane-Eligible_example : Eligible milli 4 lanes 2
select_least_loaded_lane-Eligible_example =
    select_least_loaded_lane-Eligible milli 4 lanes false 2 chosen_lane

select_least_loaded_lane-finds_example :
    (i : ℕ) × (select_least_loaded_lane milli lanes 4 false ≡ some i)
select_least_loaded_lane-finds_example =
    select_least_loaded_lane-finds milli 4 lanes 2 select_least_loaded_lane-Eligible_example

abbrev base_options : TunedTransferOptions
base_options = record { stream_limit = 4; chunk_size = 2 ^ 22 }

abbrev busy : Sample milli
busy = record {
  backlog = 40;
  io_in_flight_bytes = 100;
  driver_outstanding_bytes = 0;
  recv_soft_budget_bytes = 1000;
  completion_rate = 90000;
  latency_ewma_ns = 1000;
  backpressure_sleep = false;
  write_failures = 0;
}

abbrev warm : Controller milli
warm = record {
  active_cap = 8;
  consecutive_healthy = 1;
  prev_completion_rate = 0;
  prev_latency_ewma_ns = 0;
  have_prev = true;
  last_reason = hold;
  windows_since_change = 3;
}

grown_cap : (next_write_active_cap milli warm busy 16).active_cap ≡ 9
unfolding next_write_active_cap deterioration is_healthy
grown_cap = refl

abbrev path_a : List ℕ
path_a = 97 ∷ []

abbrev entry_at : ℕ → FileEntry
entry_at t = record {
  relative_path = path_a;
  is_directory = false;
  file_size = 10;
  mtime_ns = pos t;
}

compare_file-same_example :
    (l : FileEntry) × ((some (entry_at 7) ≡ some l)
      × SameBasis strict l (entry_at 9) true (1 ∷ []) (1 ∷ []))
compare_file-same_example =
    compare_file-same strict (some (entry_at 7)) (entry_at 9) true (1 ∷ []) (1 ∷ [])
      ((compare_file_strict (entry_at 7) (entry_at 9) true (1 ∷ []) (1 ∷ [])).1 (refl, refl, refl))

abbrev print_of : ℕ → HashFingerprint
print_of n = record { file_size = n; mtime_ns = pos 3 }

abbrev open_cache : MemCache (List ℕ)
open_cache = record { cache = []; hits = 0; misses = 0; enabled = true; configured = true }

abbrev kept_bytes : List ℕ
kept_bytes = 1 ∷ []

try_get_sound_example :
    Stored path_a (print_of 4) kept_bytes (put path_a (print_of 4) kept_bytes ∷ [])
unfolding run_ops run_op
try_get_sound_example =
    try_get_sound (put path_a (print_of 4) kept_bytes ∷ []) open_cache path_a (print_of 4)
      kept_bytes refl (try_get-upsert path_a (print_of 4) kept_bytes open_cache refl)

one_permit_taken : Reach 2 (record { available = 1; guards = record { held = true } ∷ [] })
unfolding acquire
one_permit_taken =
    step (record { available = 2; guards = [] })
      (record { available = 1; guards = record { held = true } ∷ [] }) opened
      (begin false 2 1 [] refl)

permits_kept_example : 1 + held_by (record { held = true } ∷ []) ≡ 2
permits_kept_example =
    permits_kept 2 (record { available = 1; guards = record { held = true } ∷ [] }) (omega arith)
      one_permit_taken
