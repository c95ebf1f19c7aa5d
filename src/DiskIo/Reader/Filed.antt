-- ===== src/DiskIo/Reader/Filed.antt =====
-- One call of the reader: its bytes are the next chunk of the file.
use fast_clone.Prelude.{
  ℕ, ◌+◌, ◌-◌, ◌≡◌, ◌⊎◌, refl, sym, ◌∙◌, min, true, false, ◌&&◌, ◌==◌, ==_iff, leb, List, [], ◌∷◌,
  some, length, take, drop, All, arith, Bool-cases, Option-cases, inl, inr, if_holds,
}
use fast_clone.Prelude.Assoc.{lookup, insert, erase, lookup-insert, lookup-erase}
use fast_clone.DiskIo.{IoCompletion}
use fast_clone.DiskIo.Reader.{
  SequentialReader, refill, emplace, arrive, Next, yields, fails, at_end, is_failure, hand_out,
  next_loop, next,
}
use mathlib.Core.Path.{subst}

-- A completion of a chunk of the file: it failed, or has the chunk's bytes.
abbrev pub IsChunk : List ℕ → ℕ → IoCompletion → Type 0
IsChunk content chunk c =
    (is_failure c.status ≡ true)
    ⊎ (c.bytes ≡ take (min chunk (length content - c.offset)) (drop c.offset content))

-- What the reader's other steps leave alone.
pub record SameStore (r t : SequentialReader) : Type 0 where
  pub same_chunk : t.chunk ≡ r.chunk
  pub same_size : t.file_size ≡ r.file_size
  pub same_yield : t.next_yield_offset ≡ r.next_yield_offset
  pub same_reordered : t.reordered ≡ r.reordered
  pub same_error : t.has_error ≡ r.has_error

pub refill-SameStore : (took : ℕ) (r : SequentialReader) → SameStore r (refill took r)
unfolding refill
refill-SameStore took r = ground arith

arrive-same :
    (cs : List IoCompletion) (r : SequentialReader)
    → ((arrive cs r).chunk ≡ r.chunk) × ((arrive cs r).next_yield_offset ≡ r.next_yield_offset)
unfolding arrive
arrive-same [] r = (refl, refl)
arrive-same (c ∷ cs) r = ground (
  arith,
  arrive-same cs (record r { in_flight = r.in_flight - 1; reordered = emplace c r.reordered }),
)

module _ (content : List ℕ) where
  -- What waits to be handed out is filed under its offset.
  pub record IsFiled (r : SequentialReader) : Type 0 where
    pub size : r.file_size ≡ length content
    pub filed :
        (o : ℕ) (c : IoCompletion)
        → lookup o r.reordered ≡ some c
        → (c.offset ≡ o) × IsChunk content r.chunk c

  abbrev pub Filed : ℕ → List (ℕ × IoCompletion) → Type 0
  Filed chunk m =
      (o : ℕ) (c : IoCompletion) → lookup o m ≡ some c → (c.offset ≡ o) × IsChunk content chunk c

  insert-Filed :
      (chunk : ℕ) (c : IoCompletion) (m : List (ℕ × IoCompletion))
      → IsChunk content chunk c
      → Filed chunk m
      → Filed chunk (insert c.offset c m)
  insert-Filed chunk c m good h o d e =
      let law = sym (lookup-insert c.offset o c m) ∙ e in
      elim (Bool-cases (c.offset == o)) [
        | inl own ↦
            let same : c ≡ d = ground (arith, law) in
            subst (λ x. (x.offset ≡ o) × IsChunk content chunk x) same
              ((==_iff c.offset o).0 own, good)
        | inr other ↦ h o d (ground (arith, law))
      ]

  emplace-Filed :
      (chunk : ℕ) (c : IoCompletion) (m : List (ℕ × IoCompletion))
      → IsChunk content chunk c
      → Filed chunk m
      → Filed chunk (emplace c m)
  unfolding emplace
  emplace-Filed chunk c m good h = elim (Option-cases (lookup c.offset m)) [
    | inl absent ↦ rw (absent, emplace) (insert-Filed chunk c m good h)
    | inr (old, e) ↦ rw (e, emplace) h
  ]

  erase-Filed :
      (chunk k : ℕ) (m : List (ℕ × IoCompletion)) → Filed chunk m → Filed chunk (erase k m)
  erase-Filed chunk k m h o d e =
      let law = sym (lookup-erase k o m) ∙ e in h o d (ground (arith, law))

  arrive-IsFiled :
      (cs : List IoCompletion) (r : SequentialReader)
      → All (IsChunk content r.chunk) cs
      → IsFiled r
      → IsFiled (arrive cs r)
  unfolding arrive
  arrive-IsFiled [] r good h = h
  arrive-IsFiled (c ∷ cs) r good h =
      arrive-IsFiled cs
        (record r { in_flight = r.in_flight - 1; reordered = emplace c r.reordered }) good.1
        (record { size = h.size; filed = emplace-Filed r.chunk c r.reordered good.0 h.filed })

  SameStore-IsFiled : (r t : SequentialReader) → SameStore r t → IsFiled r → IsFiled t
  SameStore-IsFiled r t s h = record {
    size = s.same_size ∙ h.size;
    filed = rw (s.same_reordered, s.same_chunk) h.filed;
  }

  -- What `next` returns: bytes are the next of the file, and the reader goes on behind them.
  abbrev pub Returns : ℕ → ℕ → Next → Type 0
  Returns chunk o (yields bytes t) =
      (bytes ≡ take (min chunk (length content - o)) (drop o content))
      × (t.next_yield_offset ≡ o + length bytes)
      × (t.chunk ≡ chunk)
      × IsFiled t
  Returns chunk o _ = Unit {0}

  chunk_bytes :
      (chunk o : ℕ) (c : IoCompletion)
      → c.offset ≡ o
      → is_failure c.status ≡ false
      → IsChunk content chunk c
      → c.bytes ≡ take (min chunk (length content - o)) (drop o content)
  chunk_bytes chunk o c own fine (inl failed) = cc
  chunk_bytes chunk o c own fine (inr bytes) = rw (← own) bytes

  hand_out-Returns :
      (took : ℕ) (c : IoCompletion) (r : SequentialReader)
      → IsFiled r
      → lookup r.next_yield_offset r.reordered ≡ some c
      → Returns r.chunk r.next_yield_offset (hand_out took c r)
  unfolding hand_out
  hand_out-Returns took c r h e =
      let (own, good) = h.filed r.next_yield_offset c e in
      elim (Bool-cases (is_failure c.status)) [
        | inl failed ↦ rw (failed, hand_out) tt
        | inr fine ↦
            let t = record r {
              reordered = erase r.next_yield_offset r.reordered;
              next_yield_offset = r.next_yield_offset + length c.bytes;
            } in
            let u = refill-SameStore took t in
            let left : IsFiled t = record {
              size = h.size;
              filed = erase-Filed r.chunk r.next_yield_offset r.reordered h.filed;
            } in
            let bytes : c.bytes
                ≡ take (min r.chunk (length content - r.next_yield_offset))
                    (drop r.next_yield_offset content) =
              chunk_bytes r.chunk r.next_yield_offset c own fine good in
            rw (fine, hand_out)
              (bytes, u.same_yield, u.same_chunk, SameStore-IsFiled t (refill took t) u left)
      ]

  next_loop-Returns :
      (batches : List (List IoCompletion)) (took : ℕ) (r : SequentialReader)
      → All (All (IsChunk content r.chunk)) batches
      → IsFiled r
      → Returns r.chunk r.next_yield_offset (next_loop batches took r)
  unfolding next_loop
  next_loop-Returns [] took r good h =
      elim (Option-cases (lookup r.next_yield_offset r.reordered)) [
        | inl absent ↦ rw (absent, next_loop) tt
        | inr (c, e) ↦ rw (e, next_loop) (hand_out-Returns took c r h e)
      ]
  next_loop-Returns (cs ∷ batches) took r good h =
      elim (Option-cases (lookup r.next_yield_offset r.reordered)) [
        | inl absent ↦
            let t = arrive cs r in
            let (same_chunk, same_yield) = arrive-same cs r in
            let later =
              next_loop-Returns batches took t (rw same_chunk good.1)
                (arrive-IsFiled cs r good.0 h) in
            let x = next_loop batches took t in
            let named = subst (λ n. Returns n t.next_yield_offset x) same_chunk later in
            let rest = subst (λ n. Returns r.chunk n x) same_yield named in
            rw (absent, next_loop)
              (if_holds (Returns r.chunk r.next_yield_offset)
                ((length cs == 0) && ((t.in_flight == 0) && leb t.file_size t.next_submit_offset))
                (at_end t) (next_loop batches took t) (λ e. tt) (λ e. rest))
        | inr (c, e) ↦ rw (e, next_loop) (hand_out-Returns took c r h e)
      ]

  pub next-Returns :
      (batches : List (List IoCompletion)) (first again : ℕ) (r : SequentialReader)
      → All (All (IsChunk content r.chunk)) batches
      → IsFiled r
      → Returns r.chunk r.next_yield_offset (next batches first again r)
  unfolding next
  next-Returns batches first again r good h =
      let t = refill first r in
      let u = refill-SameStore first r in
      let x = next_loop batches again t in
      let later =
        next_loop-Returns batches again t (rw u.same_chunk good) (SameStore-IsFiled r t u h) in
      let named = subst (λ n. Returns n t.next_yield_offset x) u.same_chunk later in
      let rest = subst (λ n. Returns r.chunk n x) u.same_yield named in
      if_holds (Returns r.chunk r.next_yield_offset) r.has_error (fails r) _ (λ e. tt)
        λ e.
          if_holds (Returns r.chunk r.next_yield_offset) (leb r.file_size r.next_yield_offset)
            (at_end r) x (λ e. tt) (λ e. rest)
