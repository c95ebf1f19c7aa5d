-- ===== src/Delta/Plan/Emit/Tiles.antt =====
-- The operations of a plan lie end to end over the new file, and the copies hold its bytes.
use fast_clone.Prelude.{
  ℕ, zero, suc, ◌+◌, ◌*◌, ◌%◌, ◌^◌, ◌≤◌, ◌<◌, ◌≡◌, refl, sym, ◌∙◌, List, [], ◌∷◌, ◌++◌, true, false,
  Bool-cases, inl, inr, length, take, drop, min, arith, if_holds,
}
use mathlib.Core.Path.{subst}
use fast_clone.Delta.Signature.{SignatureSet}
use fast_clone.Delta.Plan.{CopyOp, MissOp, nth, block_len}
use fast_clone.Delta.Plan.Scan.{Marks}
use fast_clone.Delta.Plan.Emit.{
  Emitted, flush_miss, push_copy, extend_run, emit_block, emit_loop, nothing_emitted, emit,
}

-- A copy of `len` bytes of the old file puts the bytes of the new one in place.
abbrev pub Copies : List ℕ → List ℕ → CopyOp → Type 0
Copies old new c =
    (c.src_offset_old + c.len ≤ length old)
    × (take c.len (drop c.src_offset_old old) ≡ take c.len (drop c.dest_offset_new new))

-- The copies and the fetched ranges, in the order of their lists, cover the first `n` bytes of
-- the new file once each.
pub data Rebuilds (old new : List ℕ) : List CopyOp → List MissOp → ℕ → Type 0 where
  start : Rebuilds old new [] [] 0
  copied :
      {cs : List CopyOp} {ms : List MissOp} {n : ℕ} (c : CopyOp)
      → Rebuilds old new cs ms n
      → c.dest_offset_new ≡ n
      → Copies old new c
      → Rebuilds old new (cs ++ (c ∷ [])) ms (n + c.len)
  fetched :
      {cs : List CopyOp} {ms : List MissOp} {n : ℕ} (m : MissOp)
      → Rebuilds old new cs ms n
      → m.dest_offset_new ≡ n
      → Rebuilds old new cs (ms ++ (m ∷ [])) (n + m.len)

unfoldable pub miss_bytes : List MissOp → ℕ
miss_bytes [] = 0
miss_bytes (m ∷ ms) = m.len + miss_bytes ms

pub miss_bytes-append :
    (ms : List MissOp) (m : MissOp) → miss_bytes (ms ++ (m ∷ [])) ≡ miss_bytes ms + m.len
unfolding miss_bytes
miss_bytes-append [] m = omega arith
miss_bytes-append (x ∷ ms) m = omega (arith, miss_bytes-append ms m)

-- The state of the emission once the first `here` bytes of the new file are dealt with.
pub record EmitOk (old new : List ℕ) (here : ℕ) (e : Emitted) : Type 0 where
  pub done : ℕ
  pub tiles : Rebuilds old new e.copies e.misses done
  pub run_open : e.in_run ≡ true → (e.run_start ≡ done) × (done + e.run_bytes ≡ here)
  pub run_closed : e.in_run ≡ false → done ≡ here
  pub total : e.download_bytes ≡ miss_bytes e.misses
  pub total_fits : e.download_bytes ≤ done

module _ (old new : List ℕ) where
  pub flush_miss-EmitOk :
      (here : ℕ) (e : Emitted)
      → here < 2 ^ 32
      → EmitOk old new here e
      → EmitOk old new here (flush_miss e) × ((flush_miss e).in_run ≡ false)
  unfolding flush_miss
  flush_miss-EmitOk here e small ok =
      if_holds (λ (f : Emitted). EmitOk old new here f × (f.in_run ≡ false)) e.in_run _ _
        (λ h.
          let run = ok.run_open h in
          let miss : MissOp = record {
            dest_offset_new = e.run_start;
            len = e.run_bytes % 2 ^ 32;
          } in
          (
            record {
              done = ok.done + miss.len;
              tiles = fetched miss ok.tiles run.0;
              run_open = λ k. absurd cc;
              run_closed = λ k. omega (arith, run.1);
              total =
                  omega (arith, ok.total, ok.total_fits, run.1, miss_bytes-append e.misses miss);
              total_fits = omega (arith, ok.total_fits, run.1);
            },
            refl,
          ))
        (λ h. (ok, h))

  pub push_copy-EmitOk :
      (here : ℕ) (e : Emitted) (c : CopyOp)
      → e.in_run ≡ false
      → c.dest_offset_new ≡ here
      → Copies old new c
      → EmitOk old new here e
      → EmitOk old new (here + c.len) (push_copy c e)
  unfolding push_copy
  push_copy-EmitOk here e c closed dest bytes ok = record {
    done = here + c.len;
    tiles =
        copied c (subst (Rebuilds old new e.copies e.misses) (ok.run_closed closed) ok.tiles) dest
          bytes;
    run_open = λ h. absurd (cc);
    run_closed = λ _. refl;
    total = ok.total;
    total_fits = omega (arith, ok.total_fits, ok.run_closed closed);
  }

  pub extend_run-EmitOk :
      (here blen : ℕ) (e : Emitted)
      → here + blen < 2 ^ 32
      → EmitOk old new here e
      → EmitOk old new (here + blen) (extend_run here blen e)
  unfolding extend_run
  extend_run-EmitOk here blen e small ok =
      elim (Bool-cases e.in_run) as (λ _. EmitOk old new (here + blen) (extend_run here blen e)) [
        | inl h ↦ rw (h) (record {
          done = ok.done;
          tiles = ok.tiles;
          run_open = λ _. ((ok.run_open h).0, omega (arith, (ok.run_open h).1));
          run_closed = λ k. absurd cc;
          total = ok.total;
          total_fits = ok.total_fits;
        })
        | inr h ↦ rw (h) (record {
          done = ok.done;
          tiles = ok.tiles;
          run_open = λ _. (sym (ok.run_closed h), omega (arith, ok.run_closed h));
          run_closed = λ k. absurd cc;
          total = ok.total;
          total_fits = ok.total_fits;
        })
      ]

  module _ (sig : SignatureSet) (m : Marks) (small : sig.file_size < 2 ^ 32)
      (narrow : sig.block_size < 2 ^ 32)
      (fits : (i : ℕ)
        → nth false m.matched i ≡ true
        → i < sig.block_count
        → Copies old new (record {
          src_offset_old = nth 0 m.matched_src i;
          dest_offset_new = i * sig.block_size;
          len = block_len sig i;
        }))
      (short : (i : ℕ) → i < sig.block_count → i * sig.block_size < sig.file_size)
      (full : sig.file_size ≤ sig.block_count * sig.block_size) where
    -- Where block `i` starts, or the end of the file.
    place : ℕ → ℕ
    place i = min (i * sig.block_size) sig.file_size

    place-small : (i : ℕ) → place i < 2 ^ 32
    unfolding place
    place-small i = omega arith

    place-block_len :
        (i : ℕ)
        → i < sig.block_count
        → (place i ≡ i * sig.block_size) × (place i + block_len sig i ≡ place (i + 1))
    unfolding block_len place
    place-block_len i h =
        let s = short i h in
        let step : (i + 1) * sig.block_size ≡ i * sig.block_size + sig.block_size = omega arith in
        (omega arith, omega arith)

    emit_block-EmitOk :
        (i : ℕ) (e : Emitted)
        → i < sig.block_count
        → EmitOk old new (place i) e
        → EmitOk old new (place (i + 1)) (emit_block sig m i e)
    unfolding emit_block
    emit_block-EmitOk i e h ok =
        let at = place-block_len i h in
        let below : place (i + 1) < 2 ^ 32 = place-small (i + 1) in
        let copy : CopyOp = record {
          src_offset_old = nth 0 m.matched_src i;
          dest_offset_new = i * sig.block_size;
          len = block_len sig i;
        } in
        subst (λ k. EmitOk old new k (emit_block sig m i e)) at.1
          (if_holds (EmitOk old new (place i + block_len sig i)) (nth false m.matched i) _ _
            (λ hit.
              let flushed = flush_miss-EmitOk (place i) e (place-small i) ok in
              push_copy-EmitOk (place i) (flush_miss e) copy flushed.1 (sym at.0) (fits i hit h)
                flushed.0)
            (λ _.
              subst
                (λ d. EmitOk old new (place i + block_len sig i) (extend_run d (block_len sig i) e))
                at.0 (extend_run-EmitOk (place i) (block_len sig i) e (omega (arith, at.1)) ok)))

    emit_loop-EmitOk :
        (n i : ℕ) (e : Emitted)
        → i + n ≤ sig.block_count
        → EmitOk old new (place i) e
        → EmitOk old new (place (i + n)) (emit_loop sig m i n e)
    unfolding emit_loop
    emit_loop-EmitOk zero i e h ok = subst (λ k. EmitOk old new (place k) e) (omega arith) ok
    emit_loop-EmitOk (suc n) i e h ok =
        subst (λ k. EmitOk old new (place k) (emit_loop sig m (i + 1) n (emit_block sig m i e)))
          (omega arith)
          (emit_loop-EmitOk n (i + 1) (emit_block sig m i e) (omega arith)
            (emit_block-EmitOk i e (omega arith) ok))

    -- The emitted operations rebuild the whole file, and the total is what they fetch.
    pub emit-Rebuilds :
        Rebuilds old new (emit sig m).copies (emit sig m).misses sig.file_size
        × ((emit sig m).download_bytes ≡ miss_bytes (emit sig m).misses)
    unfolding emit place miss_bytes
    emit-Rebuilds =
        let nothing_ok : EmitOk old new (place 0) nothing_emitted = record {
          done = 0;
          tiles = start;
          run_open = λ h. absurd cc;
          run_closed = λ _. omega arith;
          total = refl;
          total_fits = omega arith;
        } in
        let looped : EmitOk old new (place sig.block_count)
            (emit_loop sig m 0 sig.block_count nothing_emitted) =
          subst (λ k. EmitOk old new (place k) (emit_loop sig m 0 sig.block_count nothing_emitted))
            (omega arith)
            (emit_loop-EmitOk sig.block_count 0 nothing_emitted (omega arith) nothing_ok) in
        let ended =
          flush_miss-EmitOk (place sig.block_count)
            (emit_loop sig m 0 sig.block_count nothing_emitted) (place-small sig.block_count)
            looped in
        let whole : place sig.block_count ≡ sig.file_size = omega arith in
        (
          subst (Rebuilds old new (emit sig m).copies (emit sig m).misses)
              (ended.0.run_closed ended.1 ∙ whole) ended.0.tiles,
          ended.0.total,
        )
