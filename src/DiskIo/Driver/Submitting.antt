-- ===== src/DiskIo/Driver/Submitting.antt =====
-- What a submitted batch does to the queues and to the counts of outstanding operations.
use fast_clone.Prelude.{
  ℕ, zero, suc, ◌+◌, ◌%◌, ◌^◌, ◌≤◌, ◌<◌, ◌≡◌, refl, ap, ◌∙◌, true, if◌then◌else◌, ◌==◌, List, [],
  ◌∷◌, ◌++◌, some, length, arith, Bool-cases, inl, inr, All, length-append, ◌⊎◌, ltb→lt,
}
use fast_clone.Prelude.Assoc.{lookup, insert, lookup-insert}
use fast_clone.DiskIo.{OpKind, read, write, IoRequest, IoDriverConfig}
use fast_clone.DiskIo.Driver.{outstanding_of, count_one, merge, Filling, accept, has_room, fill}
use fast_clone.DiskIo.Driver.Outstanding.{count, ids, counted}

-- The operations of a file in a batch's table, and of all.
unfoldable pub entry_sum : ℕ → List (ℕ × ℕ) → ℕ
entry_sum f [] = 0
entry_sum f ((g, n) ∷ m) = (if g == f then n else 0) + entry_sum f m

unfoldable pub total : List (ℕ × ℕ) → ℕ
total [] = 0
total ((g, n) ∷ m) = n + total m

entry_sum-le-total : (f : ℕ) (m : List (ℕ × ℕ)) → entry_sum f m ≤ total m
unfolding entry_sum total
entry_sum-le-total f [] = omega arith
entry_sum-le-total f ((g, n) ∷ m) = ground (arith, entry_sum-le-total f m)

abbrev pub AllPos : List (ℕ × ℕ) → Type 0
AllPos = All (λ e. 0 < e.1)

module _ (f : ℕ) where
  total-count_one : (m : List (ℕ × ℕ)) → total m + 1 < 2 ^ 32 → total (count_one f m) ≡ total m + 1
  unfolding total count_one
  total-count_one [] h = omega arith
  total-count_one ((g, n) ∷ m) h = ground (arith, total-count_one m)

  entry_sum-count_one :
      (g : ℕ) (m : List (ℕ × ℕ))
      → total m + 1 < 2 ^ 32
      → entry_sum g (count_one f m) ≡ entry_sum g m + (if f == g then 1 else 0)
  unfolding total entry_sum count_one
  entry_sum-count_one g [] h = ground arith
  entry_sum-count_one g ((k, n) ∷ m) h = ground (arith, entry_sum-count_one g m)

  AllPos-count_one : (m : List (ℕ × ℕ)) → total m + 1 < 2 ^ 32 → AllPos m → AllPos (count_one f m)
  unfolding total count_one
  AllPos-count_one [] h p = (omega arith, tt)
  AllPos-count_one ((g, n) ∷ m) h p = ground (arith, AllPos-count_one m)

-- The counts after one file's operations are added.
abbrev added : ℕ → ℕ → (ℕ → ℕ) → ℕ → ℕ
added k n a g = if k == g then a k + n else a g

counted-pos : (n : ℕ) → 0 < n → counted n ≡ some n
counted-pos zero h = absurd (omega arith)
counted-pos (suc n) h = refl

outstanding-counted : (f n : ℕ) (m : List (ℕ × ℕ)) → lookup f m ≡ counted n → outstanding_of f m ≡ n
outstanding-counted f zero m h = ground arith
outstanding-counted f (suc n) m h = ground arith

merge_one :
    (k n : ℕ) (m : List (ℕ × ℕ)) (a : ℕ → ℕ)
    → 0 < n
    → a k + n < 2 ^ 32
    → ((f : ℕ) → lookup f m ≡ counted (a f))
    → (g : ℕ) → lookup g (insert k ((outstanding_of k m + n) % 2 ^ 32) m) ≡ counted (added k n a g)
merge_one k n m a pos small h g =
    let old = outstanding-counted k (a k) m (h k) in
    let value : (outstanding_of k m + n) % 2 ^ 32 ≡ a k + n = omega arith in
    let full : counted (a k + n) ≡ some (a k + n) = counted-pos (a k + n) (omega arith) in
    lookup-insert k g ((outstanding_of k m + n) % 2 ^ 32) m ∙ ground (arith, value, full, h g)

-- Merging a table adds it.
pub merge-tracked :
    (delta m : List (ℕ × ℕ)) (a : ℕ → ℕ)
    → AllPos delta
    → ((f : ℕ) → lookup f m ≡ counted (a f))
    → ((f : ℕ) → a f + entry_sum f delta < 2 ^ 32)
    → (f : ℕ) → lookup f (merge delta m) ≡ counted (a f + entry_sum f delta)
unfolding merge entry_sum
merge-tracked [] m a pos h small f = h f ∙ ap counted (omega arith)
merge-tracked ((k, n) ∷ delta) m a pos h small f =
    let fits : a k + n < 2 ^ 32 = ground (arith, small k) in
    let later =
      merge-tracked delta (insert k ((outstanding_of k m + n) % 2 ^ 32) m) (added k n a) pos.1
        (merge_one k n m a pos.0 fits h) (λ g. ground (arith, small g)) f in
    later ∙ ap counted (ground arith)

-- What the loop over the batch keeps: the queues fit, and the table counts what was accepted.
pub record FillOk (cfg : IoDriverConfig) (s : Filling) : Type 0 where
  pub reads_fit : length s.reads ≤ cfg.max_read_queue
  pub writes_fit : length s.writes ≤ cfg.max_write_queue
  pub positive : AllPos s.delta
  pub bounded : total s.delta ≤ length s.reads + length s.writes

abbrev pub live_in : ℕ → Filling → ℕ
live_in f s = count f (ids s.reads) + count f (ids s.writes)

-- From one state of the loop to a later one, the queues have grown by what the table counts.
pub record Grown (s t : Filling) : Type 0 where
  pub per_file : (f : ℕ) → live_in f t + entry_sum f s.delta ≡ live_in f s + entry_sum f t.delta
  pub in_all :
      length t.reads + length t.writes + s.accepted ≡ length s.reads + length s.writes + t.accepted

count-snoc :
    (f : ℕ) (q : List IoRequest) (req : IoRequest)
    → count f (ids (q ++ (req ∷ []))) ≡ count f (ids q) + (if req.file_id == f then 1 else 0)
count-snoc f [] req = omega arith
count-snoc f (x ∷ q) req = omega (arith, count-snoc f q req)

OpKind-cases : (k : OpKind) → (k ≡ read) ⊎ (k ≡ write)
OpKind-cases read = inl refl
OpKind-cases write = inr refl

abbrev accepted_one : IoRequest → Filling → Filling
accepted_one req s = record (accept req s) {
  accepted = s.accepted + 1;
  delta = count_one req.file_id s.delta;
}

accepted_one-Grown :
    (req : IoRequest) (s : Filling) → total s.delta + 1 < 2 ^ 32 → Grown s (accepted_one req s)
accepted_one-Grown req s room =
    let law = λ (f : ℕ). entry_sum-count_one req.file_id f s.delta room in
    elim (OpKind-cases req.kind) [
      | inl e ↦ record {
        per_file = λ f. ground (arith, e, law f, count-snoc f s.reads req);
        in_all = ground (arith, e, length-append s.reads (req ∷ []));
      }
      | inr e ↦ record {
        per_file = λ f. ground (arith, e, law f, count-snoc f s.writes req);
        in_all = ground (arith, e, length-append s.writes (req ∷ []));
      }
    ]

accepted_one-FillOk :
    (cfg : IoDriverConfig) (req : IoRequest) (s : Filling)
    → total s.delta + 1 < 2 ^ 32
    → has_room cfg req s ≡ true
    → FillOk cfg s
    → FillOk cfg (accepted_one req s)
accepted_one-FillOk cfg req s room open_queue ok =
    let sum = total-count_one req.file_id s.delta room in
    let pos = AllPos-count_one req.file_id s.delta room ok.positive in
    elim (OpKind-cases req.kind) [
      | inl e ↦ ground (
        arith,
        e,
        sum,
        pos,
        length-append s.reads (req ∷ []),
        ltb→lt (length s.reads) cfg.max_read_queue,
      )
      | inr e ↦ ground (
        arith,
        e,
        sum,
        pos,
        length-append s.writes (req ∷ []),
        ltb→lt (length s.writes) cfg.max_write_queue,
      )
    ]

Grown-trans : (s t u : Filling) → Grown s t → Grown t u → Grown s u
Grown-trans s t u g h = record {
  per_file = λ f. let a = g.per_file f in let b = h.per_file f in omega arith;
  in_all = omega (arith, g.in_all, h.in_all);
}

room_left :
    (cfg : IoDriverConfig) (req : IoRequest) (s : Filling)
    → cfg.max_read_queue + cfg.max_write_queue < 2 ^ 32
    → FillOk cfg s
    → has_room cfg req s ≡ true
    → total s.delta + 1 < 2 ^ 32
room_left cfg req s h ok open_queue = elim (OpKind-cases req.kind) [
  | inl e ↦ ground (arith, e, ltb→lt (length s.reads) cfg.max_read_queue)
  | inr e ↦ ground (arith, e, ltb→lt (length s.writes) cfg.max_write_queue)
]

pub fill_lem :
    (cfg : IoDriverConfig) (batch : List IoRequest) (s : Filling)
    → cfg.max_read_queue + cfg.max_write_queue < 2 ^ 32
    → FillOk cfg s
    → FillOk cfg (fill cfg batch s) × Grown s (fill cfg batch s)
unfolding fill
fill_lem cfg [] s h ok = (
  record {
    reads_fit = ok.reads_fit;
    writes_fit = ok.writes_fit;
    positive = ok.positive;
    bounded = ok.bounded;
  },
  record { per_file = λ f. refl; in_all = refl },
)
fill_lem cfg (req ∷ batch) s h ok = elim (Bool-cases (has_room cfg req s)) [
  | inl open_queue ↦
      let room = room_left cfg req s h ok open_queue in
      let t = accepted_one req s in
      let later = fill_lem cfg batch t h (accepted_one-FillOk cfg req s room open_queue ok) in
      rw (open_queue, fill)
        (later.0, Grown-trans s t (fill cfg batch t) (accepted_one-Grown req s room) later.1)
  | inr full ↦
      rw (full, fill)
        (
          record {
            reads_fit = ok.reads_fit;
            writes_fit = ok.writes_fit;
            positive = ok.positive;
            bounded = ok.bounded;
          },
          record { per_file = λ f. refl; in_all = refl },
        )
]
