-- ===== src/Delta/Plan/Emit/LongRun.antt =====
-- A run of missing blocks of 4 GiB and more.
use fast_clone.Prelude.{◌+◌, ◌^◌, ◌%◌, ◌≤◌, ◌<◌, ◌≡◌, true, arith}
use fast_clone.Delta.Plan.{MissOp}
use fast_clone.Delta.Plan.Emit.{Emitted, flush_miss}
use fast_clone.Delta.Plan.Emit.Tiles.{miss_bytes, miss_bytes-append}

-- A run of missing blocks of 2^32 bytes or more, whose total fits 64 bits, adds its whole length
-- to the download, while the fetched range that stands for it is shorter by 2^32 bytes at least.
pub flush_miss_long_run :
    (e : Emitted)
    → e.in_run ≡ true
    → 2 ^ 32 ≤ e.run_bytes
    → e.download_bytes + e.run_bytes < 2 ^ 64
    → ((flush_miss e).download_bytes ≡ e.download_bytes + e.run_bytes)
      × (miss_bytes (flush_miss e).misses + 2 ^ 32 ≤ miss_bytes e.misses + e.run_bytes)
unfolding flush_miss
flush_miss_long_run e in_run long fits =
    let miss : MissOp = record { dest_offset_new = e.run_start; len = e.run_bytes % 2 ^ 32 } in
    let total = miss_bytes-append e.misses miss in rw (in_run) (omega arith, omega (arith, total))
