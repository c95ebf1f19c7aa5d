-- ===== src/Delta/Plan/Scan.antt =====
-- The scan of `BuildPlan` in FastClone/delta.cpp: one round probes the candidates of the
-- window's weak checksum, moves the window, and asks whether to stop early. The old file is a
-- list, and the strong hash is a parameter.
pub mod Sound
use fast_clone.Prelude.{
  ℕ, zero, suc, ◌+◌, ◌%◌, ◌^◌, List, [], ◌∷◌, Bool, true, false, ◌&&◌, Option, none, some, set,
  take, drop, length, if◌then◌else◌, ◌==◌, leb, ltb, bytes_eq,
}
use fast_clone.Delta.Signature.{SignatureSet}
use fast_clone.Delta.Weak.{RollingWeak, weak_value, weak_init, weak_roll, bucket_of}
use fast_clone.Delta.Project.{projected_rejected, early_stop_eval_stride}
use fast_clone.Delta.Plan.{BuildOptions, nth, block_at}
use fast_clone.Delta.Plan.Candidates.{Entry, Candidates, bucket_entries}

-- `matched`, `matchedSrc` and the counters.
pub record Marks : Type 0 where
  pub matched : List Bool
  pub matched_src : List ℕ
  pub weak_candidate_hits : ℕ
  pub strong_computations : ℕ

pub record Scan : Type 0 where
  pub p : ℕ
  pub next_eval : ℕ
  pub w : RollingWeak
  pub matched_bytes : ℕ
  pub marks : Marks

-- A round goes on or ends the scan, early or not.
pub data Next : Type 0 where
  go : Scan → Next
  stop : Scan → Bool → Next

unfoldable pub window : List ℕ → ℕ → ℕ → List ℕ
window old l p = take l (drop p old)

pub mark : Marks → ℕ → ℕ → Marks
mark m node p = record {
  matched = set m.matched node true;
  matched_src = set m.matched_src node p;
  weak_candidate_hits = m.weak_candidate_hits;
  strong_computations = m.strong_computations;
}

pub count_hit : Marks → Marks
count_hit m = record {
  matched = m.matched;
  matched_src = m.matched_src;
  weak_candidate_hits = (m.weak_candidate_hits + 1) % 2 ^ 64;
  strong_computations = m.strong_computations;
}

pub count_strong : Bool → Marks → Marks
count_strong computed m = record {
  matched = m.matched;
  matched_src = m.matched_src;
  weak_candidate_hits = m.weak_candidate_hits;
  strong_computations =
      if computed then m.strong_computations else (m.strong_computations + 1) % 2 ^ 64;
}

pub moved : Scan → ℕ → RollingWeak → ℕ → Marks → Scan
moved s p w matched_bytes marks = record {
  p = p;
  next_eval = s.next_eval;
  w = w;
  matched_bytes = matched_bytes;
  marks = marks;
}

module _ (strong_hash : List ℕ → List ℕ) (sig : SignatureSet) (old : List ℕ) where
  -- `std::equal` over the first `strongLen` bytes.
  unfoldable pub agrees : ℕ → ℕ → Bool
  agrees p node =
      bytes_eq (take sig.strong_len (strong_hash (window old sig.block_size p)))
        (take sig.strong_len (block_at sig node).strong)

  -- The loop over the bucket; `computed` says that the window's strong hash is at hand.
  pub probe : ℕ → ℕ → Bool → List Entry → Marks → Marks × Bool
  probe p weak32 computed [] m = (m, false)
  probe p weak32 computed (e ∷ es) m =
      let hit = count_hit m in
      let strong = count_strong computed hit in
      let passed = probe p weak32 computed es m in
      let taken = probe p weak32 computed es hit in
      let differs = probe p weak32 true es strong in
      if e.weak == weak32
      then if nth false m.matched e.block_index
        then taken
        else if agrees p e.block_index
        then (mark strong e.block_index p, true)
        else differs
      else passed

  pub check_early : BuildOptions → Scan → Next
  check_early opt s =
      if opt.enable_early_stop && leb s.next_eval s.p
      then if projected_rejected s.matched_bytes s.p (length old) sig.file_size
        then stop s true
        else go (record {
          p = s.p;
          next_eval = (s.p + early_stop_eval_stride) % 2 ^ 64;
          w = s.w;
          matched_bytes = s.matched_bytes;
          marks = s.marks;
        })
      else go s

  -- Past a matched block the window starts anew.
  pub advance_matched : BuildOptions → Scan → Marks → Next
  advance_matched opt s m =
      let l = sig.block_size in
      let p = (s.p + l) % 2 ^ 64 in
      let bytes = (s.matched_bytes + l) % 2 ^ 64 in
      if ltb (length old) ((p + l) % 2 ^ 64)
      then stop (moved s p s.w bytes m) false
      else check_early opt (moved s p (weak_init (window old l p)) bytes m)

  -- Else it rolls by one byte.
  pub advance_rolled : BuildOptions → Scan → Marks → Next
  advance_rolled opt s m =
      let l = sig.block_size in
      let rolled = weak_roll s.w (nth 0 old s.p) (nth 0 old (s.p + l)) l in
      if leb (length old) ((s.p + l) % 2 ^ 64)
      then stop (moved s s.p s.w s.matched_bytes m) false
      else check_early opt (moved s ((s.p + 1) % 2 ^ 64) rolled s.matched_bytes m)

  pub round : Candidates → BuildOptions → Scan → Next
  round c opt s =
      let weak32 = weak_value s.w in
      let probed = probe s.p weak32 false (bucket_entries c (bucket_of weak32)) s.marks in
      if probed.1 then advance_matched opt s probed.0 else advance_rolled opt s probed.0

  -- At most `fuel` rounds.
  pub scan_loop : Candidates → BuildOptions → ℕ → Scan → Option (Scan × Bool)
  scan_loop c opt zero s = none
  scan_loop c opt (suc fuel) s = elim (round c opt s) as (λ _. Option (Scan × Bool)) [
    | go next ↦ scan_loop c opt fuel next
    | stop last early ↦ some (last, early)
  ]
