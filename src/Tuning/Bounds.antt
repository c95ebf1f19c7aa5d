-- ===== src/Tuning/Bounds.antt =====
-- The ranges of the tuned sizes, and the backpressure as a number.
use fast_clone.Prelude.{
  ℕ, ◌+◌, ◌-◌, ◌*◌, ◌%◌, ◌^◌, ◌≤◌, ◌<◌, ◌≡◌, min, max, arith, Bool, false, ℤ, Doubles,
}
use fast_clone.Tuning.{
  TuningOptions, TunedTransferOptions, mib, kib, resolve_transfer_options, effective_chunk_size,
  compose_write_pressure, backpressure_sleep_us, flush_threshold,
}
use fast_clone.Tuning.Wan.{
  is_wan_rtt, hash_inflight_depth, delta_sig_inflight_depth, resolve_wan_tuning,
}

pub resolve_transfer_options_bounds :
    (o : TuningOptions)
    → let t = resolve_transfer_options o in
      (1 ≤ t.stream_limit)
      × (t.stream_limit ≤ 1024)
      × (64 * kib ≤ t.chunk_size)
      × (t.chunk_size ≤ 64 * mib)
unfolding resolve_transfer_options
resolve_transfer_options_bounds o = ground arith

pub effective_chunk_size_aligned :
    (configured streams : ℕ)
    → (effective_chunk_size configured streams % 4096 ≡ 0)
      × (4096 ≤ effective_chunk_size configured streams)
      × (configured < effective_chunk_size configured streams + 4096)
unfolding effective_chunk_size
effective_chunk_size_aligned configured streams = ground arith

pub flush_threshold_holds_chunk :
    (streams configured : ℕ)
    → configured < 2 ^ 32
    → effective_chunk_size configured streams
      ≤ flush_threshold streams (effective_chunk_size configured streams)
unfolding flush_threshold effective_chunk_size
flush_threshold_holds_chunk streams configured h = ground arith

-- For 64-bit inputs the composed pressure is their sum, held at 2^64 - 1.
pub compose_write_pressure_lem :
    (queued in_flight outstanding : ℕ)
    → queued < 2 ^ 64
    → in_flight < 2 ^ 64
    → outstanding < 2 ^ 64
    → compose_write_pressure queued in_flight outstanding
      ≡ min (2 ^ 64 - 1) (queued + in_flight + outstanding)
unfolding compose_write_pressure
compose_write_pressure_lem queued in_flight outstanding a b c = ground arith

-- More pressure, below 2^64, never shortens the sleep, and no sleep is longer than five
-- milliseconds.
pub backpressure_sleep_us_mono :
    (p q soft_limit : ℕ)
    → p ≤ q
    → q < 2 ^ 64
    → (backpressure_sleep_us p soft_limit ≤ backpressure_sleep_us q soft_limit)
      × (backpressure_sleep_us q soft_limit ≤ 5000)
unfolding backpressure_sleep_us
backpressure_sleep_us_mono p q soft_limit h k = ground arith

module _ (d : Doubles) where
  -- For a base of at most 1024 streams, the tuned streams are at least the base and at most the
  -- larger of the base and 16, the hash requests in flight are between 1024 and 65536, and the
  -- signature requests at most 8192, whatever the round trip, the hardware and the floating-
  -- point arithmetic.
  pub resolve_wan_tuning_bounds :
      (base : TunedTransferOptions) (auto : Bool) (rtt_ms : ℤ) (hw : ℕ)
      → base.stream_limit ≤ 1024
      → let t = resolve_wan_tuning d base auto rtt_ms hw in
        (base.stream_limit ≤ t.stream_limit)
        × (t.stream_limit ≤ max base.stream_limit 16)
        × (1024 ≤ t.max_in_flight_hash_requests)
        × (t.max_in_flight_hash_requests ≤ 65536)
        × (t.max_in_flight_delta_sig ≤ 8192)
  unfolding resolve_wan_tuning hash_inflight_depth delta_sig_inflight_depth
  resolve_wan_tuning_bounds base auto rtt_ms hw h = ground arith

  -- On a short round trip nothing changes: the base streams, the old depth and no limit.
  pub resolve_wan_tuning_lan :
      (base : TunedTransferOptions) (auto : Bool) (rtt_ms : ℤ) (hw : ℕ)
      → is_wan_rtt rtt_ms ≡ false
      → let t = resolve_wan_tuning d base auto rtt_ms hw in
        (t.stream_limit ≡ base.stream_limit)
        × (t.max_in_flight_hash_requests ≤ 8192)
        × (t.max_in_flight_delta_sig ≡ 0)
        × (t.wan_mode ≡ false)
  unfolding resolve_wan_tuning hash_inflight_depth delta_sig_inflight_depth
  resolve_wan_tuning_lan base auto rtt_ms hw h = ground arith
