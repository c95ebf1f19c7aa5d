-- ===== src/Delta/Plan/Build.antt =====
-- `BuildPlan` of FastClone/delta.cpp.
pub mod Rebuild
use fast_clone.Prelude.{
  ℕ, ◌+◌, ◌∷◌, ◌||◌, List, [], Bool, true, false, Option, some, none, replicate, length,
  if◌then◌else◌, ◌==◌, leb,
}
use fast_clone.Delta.Signature.{SignatureSet}
use fast_clone.Delta.Weak.{weak_init}
use fast_clone.Delta.Project.{early_stop_prefix_bytes}
use fast_clone.Delta.Plan.{BuildOptions, DeltaPlan, DeltaStats}
use fast_clone.Delta.Plan.Candidates.{candidates}
use fast_clone.Delta.Plan.Scan.{Marks, Scan, window, scan_loop}
use fast_clone.Delta.Plan.Emit.{Emitted, emit}

abbrev no_stats : DeltaStats
no_stats = record {
  scanned_bytes = 0;
  matched_bytes = 0;
  strong_computations = 0;
  weak_candidate_hits = 0;
  early_stopped = false;
}

abbrev pub empty_plan : SignatureSet → DeltaPlan
empty_plan sig = record {
  copies = [];
  misses = [];
  download_bytes = 0;
  new_file_bytes = sig.file_size;
  stats = no_stats;
}

abbrev pub no_marks : SignatureSet → Marks
no_marks sig = record {
  matched = replicate sig.block_count false;
  matched_src = replicate sig.block_count 0;
  weak_candidate_hits = 0;
  strong_computations = 0;
}

-- The plan at the end of the scan.
unfoldable pub finish_plan : SignatureSet → Scan → Bool → DeltaPlan
finish_plan sig s early_stopped =
    let e = emit sig s.marks in
    let stats : DeltaStats = record {
      scanned_bytes = s.p;
      matched_bytes = s.matched_bytes;
      strong_computations = s.marks.strong_computations;
      weak_candidate_hits = s.marks.weak_candidate_hits;
      early_stopped = early_stopped;
    } in
    if early_stopped
    then record {
      copies = [];
      misses = [];
      download_bytes = sig.file_size;
      new_file_bytes = sig.file_size;
      stats = stats;
    }
    else record {
      copies = e.copies;
      misses = e.misses;
      download_bytes = e.download_bytes;
      new_file_bytes = sig.file_size;
      stats = stats;
    }

module _ (strong_hash : List ℕ → List ℕ) where
  unfoldable pub first_scan : SignatureSet → List ℕ → BuildOptions → Scan
  first_scan sig old opt = record {
    p = 0;
    next_eval =
        if opt.prefix_bytes_override == 0
        then early_stop_prefix_bytes (length old) sig.block_size
        else opt.prefix_bytes_override;
    w = weak_init (window old sig.block_size 0);
    matched_bytes = 0;
    marks = no_marks sig;
  }

  -- `none` when the rounds run out.
  unfoldable pub build_plan : SignatureSet → List ℕ → BuildOptions → Option DeltaPlan
  build_plan sig old opt =
      let start = first_scan sig old opt in
      if sig.block_count == 0 || sig.block_size == 0
      then some (empty_plan sig)
      else if leb sig.block_size (length old)
      then elim (scan_loop strong_hash sig old (candidates sig) opt (length old + 1) start)
          as (λ _. Option DeltaPlan) [
            | none ↦ none
            | some ended ↦ some (finish_plan sig ended.0 ended.1)
          ]
      else some (finish_plan sig start false)
