-- ===== src/Tuning.antt =====
-- The transfer tuning of FastClone/transfer_tuning.cpp. `uint32_t` and `uint64_t` arithmetic
-- wraps where it can; a round-trip time is a signed number of milliseconds.
pub mod WriteCap
pub mod Wan
pub mod Bounds
use fast_clone.Prelude.{
  ℕ, ◌+◌, ◌-◌, ◌*◌, ◌/◌, ◌%◌, ◌^◌, min, max, Bool, true, false, if◌then◌else◌, ltb, leb,
}

pub record TunedTransferOptions : Type 0 where
  pub stream_limit : ℕ
  pub chunk_size : ℕ

-- The fields of `CliOptions` that the tuning reads.
pub record TuningOptions : Type 0 where
  pub stream_limit : ℕ
  pub chunk_size : ℕ
  pub stream_auto_tune : Bool
  pub chunk_auto_tune : Bool

abbrev pub kib : ℕ
kib = 1024

abbrev pub mib : ℕ
mib = 1024 * 1024

abbrev pub clamp : ℕ → ℕ → ℕ → ℕ
clamp x lo hi = if ltb x lo then lo else if ltb hi x then hi else x

abbrev auto_chunk : ℕ → ℕ
auto_chunk streams =
    if leb streams 8
    then 4 * mib
    else if leb streams 16
    then 2 * mib
    else if leb streams 32
    then mib
    else if leb streams 64
    then 512 * kib
    else 256 * kib

unfoldable pub resolve_transfer_options : TuningOptions → TunedTransferOptions
resolve_transfer_options o =
    let streams = if o.stream_auto_tune then 4 else o.stream_limit in
    let chunk = if o.chunk_auto_tune then auto_chunk streams else o.chunk_size in
    record { stream_limit = clamp streams 1 1024; chunk_size = clamp chunk (64 * kib) (64 * mib) }

-- `base & ~4095` clears the low twelve bits.
unfoldable pub effective_chunk_size : ℕ → ℕ → ℕ
effective_chunk_size configured streams =
    let base =
      if leb streams 16
      then max configured mib
      else if leb streams 32
      then max configured (512 * kib)
      else configured in
    max (base - base % 4096) 4096

unfoldable pub flush_threshold : ℕ → ℕ → ℕ
flush_threshold streams chunk =
    if leb streams 16
    then max (4 * mib) (chunk * 4 % 2 ^ 64)
    else if leb streams 32
    then max (2 * mib) (chunk * 2 % 2 ^ 64)
    else max (512 * kib) chunk

abbrev pub active_cap_initial : ℕ
active_cap_initial = 8

abbrev pub active_cap_min : ℕ
active_cap_min = 1

abbrev pub active_cap_max : ℕ
active_cap_max = 32

unfoldable pub write_worker_pool_max : ℕ → ℕ
write_worker_pool_max hardware_threads =
    clamp (max 1 hardware_threads) active_cap_initial active_cap_max

-- One saturating addition of 64 bits.
abbrev pub add_sat : ℕ → ℕ → ℕ
add_sat p x = if ltb (2 ^ 64 - 1 - x) p then 2 ^ 64 - 1 else (p + x) % 2 ^ 64

unfoldable pub compose_write_pressure : ℕ → ℕ → ℕ → ℕ
compose_write_pressure queued in_flight outstanding = add_sat (add_sat queued in_flight) outstanding

unfoldable pub backpressure_sleep_us : ℕ → ℕ → ℕ
backpressure_sleep_us pressure soft_limit =
    let over = pressure - soft_limit in
    let double_limit =
      if ltb ((2 ^ 64 - 1) / 2) soft_limit then 2 ^ 64 - 1 else soft_limit * 2 % 2 ^ 64 in
    if leb pressure soft_limit
    then 0
    else if ltb double_limit over
    then 5000
    else if ltb soft_limit over
    then 3000
    else if ltb (soft_limit / 2) over
    then 1500
    else if ltb (soft_limit / 4) over
    then 700
    else 300
