-- ===== src/Compare.antt =====
-- The comparison of a local with a remote file, FastClone/compare_phase.cpp and compare_phase.h.
-- The difference of two raw times wraps at 64 bits here; in C++ its overflow is undefined.
pub mod Pipeline
pub mod Decide
pub mod Mtime
use fast_clone.Prelude.{
  ℕ, ◌+◌, ◌-◌, ◌*◌, ◌/◌, ◌%◌, ◌^◌, Bool, true, false, not, ◌&&◌, if◌then◌else◌, ltb, leb, ◌==◌,
  Option, none, some, List, ℤ, pos, negsuc, ◌-ℤ◌, abs, ltb_ℤ, to_u64, from_u64, pos_part,
}
use fast_clone.Entry.{FileEntry, Hash256, hash_equals}

pub data CompareMode : Type 0 where
  fast : CompareMode
  strict : CompareMode
  size_only : CompareMode

pub data CompareCategory : Type 0 where
  same : CompareCategory
  diff : CompareCategory
  missing : CompareCategory
  extra : CompareCategory

pub record CompareOutcome : Type 0 where
  pub category : CompareCategory
  pub need_hash : Bool

abbrev pub likely_unix_ns_threshold : ℕ
likely_unix_ns_threshold = 500000000000000000

abbrev pub windows_epoch_diff_100ns : ℕ
windows_epoch_diff_100ns = 116444736000000000

abbrev pub mtime_tolerance_ns : ℕ
mtime_tolerance_ns = 2 * 1000 * 1000

-- `none` where the code returns false.
unfoldable pub try_normalize_mtime : ℤ → Option ℤ
try_normalize_mtime raw =
    let ticks = pos_part raw - windows_epoch_diff_100ns in
    if ltb_ℤ (pos likely_unix_ns_threshold) raw
    then some raw
    else if ltb_ℤ raw (pos windows_epoch_diff_100ns)
    then none
    else if ltb ((2 ^ 63 - 1) / 100) ticks
    then none
    else some (pos (ticks * 100))

unfoldable pub sub_i64 : ℤ → ℤ → ℤ
sub_i64 a b = from_u64 ((to_u64 a + 2 ^ 64 - to_u64 b) % 2 ^ 64)

unfoldable pub raw_within : ℤ → ℤ → Bool
unfolding sub_i64
raw_within a b = leb (abs (sub_i64 a b)) mtime_tolerance_ns

-- The raw times serve where one of the two has no normal form.
unfoldable pub within : Option ℤ → Option ℤ → ℤ → ℤ → Bool
within none r local_ns remote_ns = raw_within local_ns remote_ns
within (some l) none local_ns remote_ns = raw_within local_ns remote_ns
within (some l) (some r) local_ns remote_ns = raw_within l r

unfoldable pub mtime_within_tolerance : ℤ → ℤ → Bool
unfolding within
mtime_within_tolerance local_ns remote_ns =
    within (try_normalize_mtime local_ns) (try_normalize_mtime remote_ns) local_ns remote_ns

abbrev pub outcome : CompareCategory → Bool → CompareOutcome
outcome c h = record { category = c; need_hash = h }

unfoldable pub decide_compare : CompareMode → Option FileEntry → FileEntry → CompareOutcome
decide_compare mode none remote = outcome missing false
decide_compare mode (some local) remote =
    let by_mode = elim mode as (λ _. CompareOutcome) [
      | fast ↦
          if mtime_within_tolerance local.mtime_ns remote.mtime_ns
          then outcome same false
          else outcome same true
      | strict ↦ outcome same true
      | size_only ↦ outcome same false
    ] in
    if local.file_size == remote.file_size then by_mode else outcome diff false

unfoldable pub classify_by_hash : Bool → Hash256 → Hash256 → CompareCategory
classify_by_hash local_readable local_hash remote_hash =
    if local_readable && hash_equals local_hash remote_hash then same else diff
