-- ===== src/Check/Engine.antt =====
-- Parts of `RunCheck` of FastCheck/check_engine.cpp: how a verdict is recorded, how a check ends,
-- and how its two limits are tuned. Threads, frames and the walk for extra files are left out,
-- and so is the count of hashed bytes, which only the progress line prints.
pub mod Ending
use fast_clone.Prelude.{
  ℕ, ◌+◌, ◌*◌, ◌/◌, ◌%◌, ◌^◌, Bool, true, false, not, ◌&&◌, ◌||◌, if◌then◌else◌, ◌==◌, ltb, leb,
  min, max, List, [], ◌∷◌, ◌++◌, Option, none, some, pos, Doubles,
}
use fast_clone.Entry.{FileEntry}
use fast_clone.Compare.{
  CompareMode, fast, strict, size_only, CompareCategory, same, diff, missing, extra,
}
use fast_clone.Check.{
  Mode, fast_mode, strict_mode, size_only_mode, CheckOptions, ExitCode, identical, diff_found,
  conn_failed, local_precond_failed, interrupted,
}
use fast_clone.Check.Report.{CompareCounters, DiffEntry, CheckResult, passes_filter}

unfoldable pub to_compare_mode : Mode → CompareMode
to_compare_mode strict_mode = strict
to_compare_mode size_only_mode = size_only
to_compare_mode fast_mode = fast

unfoldable pub next_local_worker_cap : ℕ → ℕ → ℕ → ℕ → ℕ → ℕ
next_local_worker_cap current_cap max_cap task_queue_len local_in_flight read_fail_delta =
    if ltb 0 read_fail_delta
    then max 1 (current_cap / 2)
    else if ltb 0 task_queue_len && (leb current_cap local_in_flight && ltb current_cap max_cap)
    then current_cap + 1
    else current_cap

-- The two round-trip times are doubles; the decreased window is truncated.
unfoldable pub next_net_window : (d : Doubles) → ℕ → d.Double → d.Double → ℕ → ℕ → ℕ
next_net_window d current_window rtt_sample_us rtt_ewma_us window_min window_max =
    let decreased = d.truncate (d.mul (d.lit current_window 1) (d.lit 3 5)) in
    if d.less_eq rtt_ewma_us (d.lit 0 1)
    then current_window
    else if d.less_eq rtt_sample_us (d.mul rtt_ewma_us (d.lit 5 4))
    then min (current_window + 1) window_max
    else if d.less (d.mul rtt_ewma_us (d.lit 2 1)) rtt_sample_us
    then max window_min decreased
    else current_window

unfoldable pub resolve_max_hash_workers : ℕ → ℕ → ℕ
resolve_max_hash_workers hash_workers hardware_threads =
    if hash_workers == 0 then hardware_threads else max hash_workers (4 * hardware_threads % 2 ^ 64)

unfoldable pub new_result : CheckOptions → CheckResult
new_result o = record {
  counters = record {
    enumerated = 0;
    same_files = 0;
    diff_files = 0;
    missing_files = 0;
    extra_local = 0;
  };
  mode = o.mode;
  duration_ms = 0;
  is_partial = false;
  entries = [];
}

abbrev pub up : ℕ → ℕ
up n = (n + 1) % 2 ^ 64

unfoldable pub count_category : CompareCategory → CompareCounters → CompareCounters
count_category same c = record c { same_files = up c.same_files }
count_category diff c = record c { diff_files = up c.diff_files }
count_category missing c = record c { missing_files = up c.missing_files }
count_category extra c = record c { extra_local = up c.extra_local }

abbrev pub size_of : Option FileEntry → Option ℕ
size_of none = none
size_of (some e) = some e.file_size

abbrev pub remote_size_of : CompareCategory → FileEntry → Option ℕ
remote_size_of extra remote = none
remote_size_of _ remote = some remote.file_size

-- A file with its verdict, and whether it was hashed.
pub record Verdict : Type 0 where
  pub category : CompareCategory
  pub remote : FileEntry
  pub local : Option FileEntry
  pub hash_compared : Bool

abbrev pub listed : Verdict → DiffEntry
listed v = record {
  category = v.category;
  path = v.remote.relative_path;
  local_size = size_of v.local;
  remote_size = remote_size_of v.category v.remote;
  hash_compared = v.hash_compared;
}

unfoldable pub record_verdict : CheckOptions → Verdict → CheckResult → CheckResult
unfolding count_category passes_filter
record_verdict o v r =
    let t = record r { counters = count_category v.category r.counters } in
    if o.summary_only || not (passes_filter v.category o.filter)
    then t
    else record t { entries = r.entries ++ (listed v ∷ []) }

unfoldable pub record_all : CheckOptions → List Verdict → CheckResult → CheckResult
unfolding record_verdict
record_all o [] r = r
record_all o (v ∷ vs) r = record_all o vs (record_verdict o v r)

-- An extra file: the remote entry has its path alone.
unfoldable pub extra_verdict : List ℕ → Option FileEntry → Verdict
extra_verdict path local = record {
  category = extra;
  remote = record { relative_path = path; is_directory = false; file_size = 0; mtime_ns = pos 0 };
  local = local;
  hash_compared = false;
}

unfoldable pub extra_verdicts : List (List ℕ × Option FileEntry) → List Verdict
unfolding extra_verdict
extra_verdicts [] = []
extra_verdicts ((path, local) ∷ extras) = extra_verdict path local ∷ extra_verdicts extras

unfoldable pub has_no_change : CheckResult → Bool
has_no_change r =
    (r.counters.diff_files == 0)
    && ((r.counters.missing_files == 0) && (r.counters.extra_local == 0))

-- How the check went until its loop ended.
pub record Course : Type 0 where
  pub user_interrupted : Bool
  pub disconnected : Bool
  pub local_read_failed : Bool

-- The end of the check: the exit code and the result.
unfoldable pub conclude :
    CheckOptions → Course → List (List ℕ × Option FileEntry) → CheckResult → ExitCode × CheckResult
unfolding record_all extra_verdicts has_no_change
conclude o course extras r =
    let cut_short = record r { is_partial = true } in
    let whole = record_all o (extra_verdicts extras) r in
    if course.user_interrupted
    then (interrupted, cut_short)
    else if course.disconnected
    then (conn_failed, cut_short)
    else if course.local_read_failed
    then (local_precond_failed, cut_short)
    else (if has_no_change whole then identical else diff_found, whole)
