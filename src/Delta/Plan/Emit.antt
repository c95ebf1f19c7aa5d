-- ===== src/Delta/Plan/Emit.antt =====
-- The emission of `BuildPlan` in FastClone/delta.cpp: a copy for each matched block, and one
-- miss for each run of blocks that are not.
pub mod Tiles
pub mod LongRun
use fast_clone.Prelude.{
  ℕ, zero, suc, ◌+◌, ◌*◌, ◌%◌, ◌^◌, List, [], ◌∷◌, ◌++◌, Bool, true, false, if◌then◌else◌,
}
use fast_clone.Delta.Signature.{SignatureSet}
use fast_clone.Delta.Plan.{CopyOp, MissOp, nth, block_len}
use fast_clone.Delta.Plan.Scan.{Marks}

pub record Emitted : Type 0 where
  pub copies : List CopyOp
  pub misses : List MissOp
  pub download_bytes : ℕ
  pub run_start : ℕ
  pub run_bytes : ℕ
  pub in_run : Bool

-- The miss keeps 32 bits of the run's length, the total all 64.
pub flush_miss : Emitted → Emitted
flush_miss e =
    if e.in_run
    then record {
      copies = e.copies;
      misses =
          e.misses ++ (record { dest_offset_new = e.run_start; len = e.run_bytes % 2 ^ 32 } ∷ []);
      download_bytes = (e.download_bytes + e.run_bytes) % 2 ^ 64;
      run_start = e.run_start;
      run_bytes = 0;
      in_run = false;
    }
    else e

pub push_copy : CopyOp → Emitted → Emitted
push_copy c e = record {
  copies = e.copies ++ (c ∷ []);
  misses = e.misses;
  download_bytes = e.download_bytes;
  run_start = e.run_start;
  run_bytes = e.run_bytes;
  in_run = e.in_run;
}

pub extend_run : ℕ → ℕ → Emitted → Emitted
extend_run dest_off blen e = record {
  copies = e.copies;
  misses = e.misses;
  download_bytes = e.download_bytes;
  run_start = if e.in_run then e.run_start else dest_off;
  run_bytes = ((if e.in_run then e.run_bytes else 0) + blen) % 2 ^ 64;
  in_run = true;
}

pub emit_block : SignatureSet → Marks → ℕ → Emitted → Emitted
emit_block sig m i e =
    let dest_off = i * sig.block_size in
    let blen = block_len sig i in
    let copy : CopyOp = record {
      src_offset_old = nth 0 m.matched_src i;
      dest_offset_new = dest_off;
      len = blen;
    } in
    if nth false m.matched i then push_copy copy (flush_miss e) else extend_run dest_off blen e

pub emit_loop : SignatureSet → Marks → ℕ → ℕ → Emitted → Emitted
emit_loop sig m i zero e = e
emit_loop sig m i (suc n) e = emit_loop sig m (i + 1) n (emit_block sig m i e)

abbrev pub nothing_emitted : Emitted
nothing_emitted = record {
  copies = [];
  misses = [];
  download_bytes = 0;
  run_start = 0;
  run_bytes = 0;
  in_run = false;
}

unfoldable pub emit : SignatureSet → Marks → Emitted
emit sig m = flush_miss (emit_loop sig m 0 sig.block_count nothing_emitted)
