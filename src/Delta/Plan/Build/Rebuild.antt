-- ===== src/Delta/Plan/Build/Rebuild.antt =====
-- A plan that the scan finishes rebuilds the new file.
use fast_clone.Prelude.{
  ℕ, zero, suc, ◌+◌, ◌*◌, ◌-◌, ◌^◌, ◌≤◌, ◌<◌, ◌≡◌, ◌⊎◌, inl, inr, refl, ap, sym, ◌∙◌, List, [],
  Bool, true, false, ◌||◌, Option, some, length, take, drop, min, arith, if_holds, length-replicate,
  replicate, leb, leb→le, ◌==◌, length-take, length-drop, bytes_eq_sound,
}
use mathlib.Core.Path.{subst}
use fast_clone.Delta.Signature.{SignatureSet}
use fast_clone.Delta.Plan.{BuildOptions, DeltaPlan, nth, block_at, block_len}
use fast_clone.Delta.Plan.Scan.{Scan, window, agrees}
use fast_clone.Delta.Plan.Scan.Sound.{MarksOk, scan_loop-ends}
use fast_clone.Delta.Plan.Emit.{emit}
use fast_clone.Delta.Plan.Emit.Tiles.{Copies, Rebuilds, miss_bytes, emit-Rebuilds}
use fast_clone.Delta.Plan.Candidates.{candidates}
use fast_clone.Delta.Plan.Build.{no_marks, finish_plan, first_scan, build_plan}

-- What `BuildPlan` takes for granted of a signature of a file that is not empty, in 32 bits.
pub record IsSignature (sig : SignatureSet) (new : List ℕ) : Type 0 where
  pub file_size_is : sig.file_size ≡ length new
  pub small : sig.file_size < 2 ^ 32
  pub narrow : sig.block_size < 2 ^ 32
  pub block_size_pos : 0 < sig.block_size
  pub block_count_pos : 0 < sig.block_count
  pub covered : (i : ℕ) → i < sig.block_count → i * sig.block_size < sig.file_size
  pub whole : sig.file_size ≤ sig.block_count * sig.block_size

-- Block `i` of the new file; the last one may be short.
abbrev pub block : SignatureSet → List ℕ → ℕ → List ℕ
block sig new i = take sig.block_size (drop (i * sig.block_size) new)

-- The strong checksum tells the windows of the old file from the blocks they differ from.
unfoldable pub NoCollision : (List ℕ → List ℕ) → SignatureSet → List ℕ → List ℕ → Type 0
NoCollision strong_hash sig old new =
    (i p : ℕ)
    → i < sig.block_count
    → p + sig.block_size ≤ length old
    → take sig.strong_len (strong_hash (take sig.block_size (drop p old)))
      ≡ take sig.strong_len (block_at sig i).strong
    → take sig.block_size (drop p old) ≡ block sig new i

-- Either the plan is given up, and counts as a download of the whole file, or it rebuilds it.
pub PlanOk : List ℕ → List ℕ → DeltaPlan → Type 0
PlanOk old new plan =
    ((plan.stats.early_stopped ≡ true)
      × (plan.copies ≡ [])
      × (plan.misses ≡ [])
      × (plan.download_bytes ≡ length new))
    ⊎ (Rebuilds old new plan.copies plan.misses (length new)
        × (plan.download_bytes ≡ miss_bytes plan.misses))

nth-replicate : (n i : ℕ) → nth false (replicate n false) i ≡ false
nth-replicate zero i = refl
nth-replicate (suc n) zero = refl
nth-replicate (suc n) (suc i) = nth-replicate n i

module _ (strong_hash : List ℕ → List ℕ) (sig : SignatureSet) (old new : List ℕ)
    (wf : IsSignature sig new) (room : length old < 2 ^ 63)
    (apart : NoCollision strong_hash sig old new) where
  -- What a mark promises.
  Found : ℕ → ℕ → Type 0
  Found i p =
      i < sig.block_count
      → (p + sig.block_size ≤ length old) × (take sig.block_size (drop p old) ≡ block sig new i)

  agrees-Found :
      (i p : ℕ)
      → p + sig.block_size ≤ length old
      → agrees strong_hash sig old p i ≡ true
      → Found i p
  unfolding Found agrees window NoCollision
  agrees-Found i p inside h = λ below. (inside, apart i p below inside (bytes_eq_sound _ _ h))

  -- A block that equals a full window is full, so the copy has its length.
  Found-Copies :
      (i p : ℕ)
      → i < sig.block_count
      → Found i p
      → Copies old new (record {
        src_offset_old = p;
        dest_offset_new = i * sig.block_size;
        len = block_len sig i;
      })
  unfolding Found block_len
  Found-Copies i p below found =
      let same = found below in
      let old_len : length (take sig.block_size (drop p old)) ≡ sig.block_size =
        omega (arith, length-take sig.block_size (drop p old), length-drop p old, same.0) in
      let new_len : length (block sig new i)
          ≡ min sig.block_size (length new - i * sig.block_size) =
        omega (
          arith,
          length-take sig.block_size (drop (i * sig.block_size) new),
          length-drop (i * sig.block_size) new,
        ) in
      let both : length (take sig.block_size (drop p old)) ≡ length (block sig new i) =
        ap length same.1 in
      let full : block_len sig i ≡ sig.block_size =
        omega (
          arith,
          old_len,
          new_len,
          both,
          wf.file_size_is,
          wf.small,
          wf.narrow,
          wf.covered i below,
        ) in
      subst
        (λ k. (p + k ≤ length old) × (take k (drop p old) ≡ take k (drop (i * sig.block_size) new)))
        (sym full) same

  no_marks-MarksOk : MarksOk Found (no_marks sig)
  unfolding Found
  no_marks-MarksOk = record {
    sizes = length-replicate sig.block_count false ∙ sym (length-replicate sig.block_count 0);
    sound = λ i h. absurd (cc (h, nth-replicate sig.block_count i));
  }

  finish_plan-PlanOk :
      (s : Scan) (early : Bool) → MarksOk Found s.marks → PlanOk old new (finish_plan sig s early)
  unfolding finish_plan PlanOk
  finish_plan-PlanOk s early ok =
      if_holds (PlanOk old new) early _ _ (λ h. inl (h, refl, refl, wf.file_size_is))
        (λ h.
          let emitted =
            emit-Rebuilds old new sig s.marks wf.small wf.narrow
              (λ i hit below. Found-Copies i (nth 0 s.marks.matched_src i) below (ok.sound i hit))
              wf.covered wf.whole in
          inr (
            subst (Rebuilds old new (emit sig s.marks).copies (emit sig s.marks).misses)
                wf.file_size_is emitted.0,
            emitted.1,
          ))

  -- For any signature whose block size, block count and file size fit together and fit 32 bits,
  -- any old file below 2^63 bytes, and a strong checksum without collisions between windows of
  -- the old file and blocks of the new one, `BuildPlan` ends within as many rounds as the old
  -- file has bytes, and one more, and its plan is given up early as a full download or covers
  -- the new file once, end to end, with copies that hold the new file's bytes.
  pub build_plan-PlanOk :
      (opt : BuildOptions)
      → (plan : DeltaPlan) × (build_plan strong_hash sig old opt ≡ some plan) × PlanOk old new plan
  unfolding build_plan first_scan
  build_plan-PlanOk opt =
      let start = first_scan strong_hash sig old opt in
      if_holds Result (sig.block_count == 0 || sig.block_size == 0) _ _
        (λ h. absurd (ground (arith, h, wf.block_count_pos, wf.block_size_pos)))
        (λ _.
          if_holds Result (leb sig.block_size (length old)) _ _
            (λ enough.
              let ended =
                scan_loop-ends Found strong_hash sig old room wf.narrow wf.block_size_pos
                  agrees-Found (candidates sig) opt (length old + 1) start
                  (record {
                    inside = omega (arith, leb→le sig.block_size (length old) enough);
                    marks_ok = no_marks-MarksOk;
                  })
                  (omega arith) in
              rw (ended.2)
                (finish_plan sig ended.0 ended.1, refl, finish_plan-PlanOk ended.0 ended.1 ended.3))
            (λ _.
              (finish_plan sig start false, refl, finish_plan-PlanOk start false no_marks-MarksOk)))
    where
      Result : Option DeltaPlan → Type 0
      Result o = (plan : DeltaPlan) × (o ≡ some plan) × PlanOk old new plan
