-- ===== src/DiskIo/Reader/InOrder.antt =====
-- However the completions are ordered, the reader hands out the file's bytes from the front.
use fast_clone.Prelude.{
  ℕ, ◌+◌, ◌-◌, ◌≡◌, refl, ap, ◌∙◌, min, List, [], ◌∷◌, ◌++◌, append_assoc, length, take, drop,
  take-append-drop, length-take, length-drop, drop-drop, All, arith,
}
use fast_clone.Prelude.Assoc.{lookup}
use fast_clone.DiskIo.{IoCompletion}
use fast_clone.DiskIo.Reader.{
  SequentialReader, new_reader, Next, yields, fails, at_end, blocks, next,
}
use fast_clone.DiskIo.Reader.Filed.{IsChunk, IsFiled, Returns, next-Returns}

-- One call of `next`: what its drains bring, and what the driver accepts of its two refills.
pub record Call : Type 0 where
  pub batches : List (List IoCompletion)
  pub first : ℕ
  pub again : ℕ

-- The bytes of calls one after another, up to the first that hands out none.
unfoldable pub read_calls : List Call → SequentialReader → List ℕ
unfolding next
read_calls [] r = []
read_calls (c ∷ cs) r = elim (next c.batches c.first c.again r) [
  | yields bytes t ↦ bytes ++ read_calls cs t
  | fails t ↦ []
  | at_end t ↦ []
  | blocks t ↦ []
]

abbrev pub AreChunks : List ℕ → ℕ → List Call → Type 0
AreChunks content chunk = All (λ c. All (All (IsChunk content chunk)) c.batches)

-- The chunk that was handed out, and what follows it.
chunk-prefix :
    (content more rest : List ℕ) (chunk o : ℕ) (bytes : List ℕ)
    → bytes ≡ take (min chunk (length content - o)) (drop o content)
    → more ++ rest ≡ drop (o + length bytes) content
    → (bytes ++ more) ++ rest ≡ drop o content
chunk-prefix content more rest chunk o bytes e h =
    let n = min chunk (length content - o) in
    let size : length bytes ≡ n =
      omega (arith, ap length e, length-take n (drop o content), length-drop o content) in
    let behind : drop (o + length bytes) content ≡ drop n (drop o content) =
      ap (λ k. drop (o + k) content) size ∙ drop-drop o n content in
    append_assoc bytes more rest
    ∙ ap (λ l. bytes ++ l) (h ∙ behind)
    ∙ ap (λ l. l ++ drop n (drop o content)) e
    ∙ take-append-drop n (drop o content)

abbrev and_then : List Call → Next → List ℕ
and_then cs (yields bytes t) = bytes ++ read_calls cs t
and_then cs _ = []

after_next :
    (content : List ℕ) (cs : List Call) (chunk o : ℕ)
    → ((t : SequentialReader)
        → t.chunk ≡ chunk
        → IsFiled content t
        → (rest : List ℕ) × (read_calls cs t ++ rest ≡ drop t.next_yield_offset content))
    → (n : Next) → Returns content chunk o n
    → (rest : List ℕ) × (and_then cs n ++ rest ≡ drop o content)
after_next content cs chunk o later (yields bytes t) h =
    let (rest, e) = later t h.2 h.3 in
    (
      rest,
      chunk-prefix content (read_calls cs t) rest chunk o bytes h.0
          (e ∙ ap (λ k. drop k content) h.1),
    )
after_next content cs chunk o later (fails t) h = (drop o content, refl)
after_next content cs chunk o later (at_end t) h = (drop o content, refl)
after_next content cs chunk o later (blocks t) h = (drop o content, refl)

read_calls-prefix :
    (content : List ℕ) (cs : List Call) (r : SequentialReader)
    → AreChunks content r.chunk cs
    → IsFiled content r
    → (rest : List ℕ) × (read_calls cs r ++ rest ≡ drop r.next_yield_offset content)
unfolding read_calls
read_calls-prefix content [] r good h = (drop r.next_yield_offset content, refl)
read_calls-prefix content (c ∷ cs) r good h =
    after_next content cs r.chunk r.next_yield_offset
      (λ t same filed. read_calls-prefix content cs t (rw same good.1) filed)
      (next c.batches c.first c.again r) (next-Returns content c.batches c.first c.again r good.0 h)

-- Whatever order completions come in, and however many requests the driver takes at a time:
-- where each completion is of the file and either failed or has the bytes of its chunk, the
-- bytes that a new reader hands out, call by call, are the front of the file.
pub read_calls_lem :
    (content : List ℕ) (file_id chunk_bytes read_ahead : ℕ) (cs : List Call)
    → AreChunks content (new_reader file_id (length content) chunk_bytes read_ahead).chunk cs
    → (rest : List ℕ) × (read_calls cs (new_reader file_id (length content) chunk_bytes read_ahead)
          ++ rest
        ≡ content)
unfolding new_reader lookup
read_calls_lem content file_id chunk_bytes read_ahead cs good =
    read_calls-prefix content cs (new_reader file_id (length content) chunk_bytes read_ahead) good
      (record { size = refl; filed = λ o c e. absurd (cc) })
