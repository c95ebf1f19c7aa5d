-- ===== src/DiskIo/Reader.antt =====
-- The sequential reader of FastClone/disk_io_driver.cpp: a window of reads over one file, whose
-- completions come in any order. How many requests the driver takes, and which completions each
-- drain brings, are given from outside; a drain after a wait is one batch with the drain before.
pub mod Filed
pub mod InOrder
pub mod Pull
use fast_clone.Prelude.{
  ℕ, zero, suc, ◌+◌, ◌-◌, ◌*◌, ◌^◌, min, Bool, true, false, ◌&&◌, if◌then◌else◌, ◌==◌, ltb, leb,
  List, [], ◌∷◌, ◌++◌, Option, none, some, length, get_elem?, take, drop,
}
use fast_clone.Prelude.Assoc.{lookup, insert, erase}
use fast_clone.DiskIo.{read, large, done, eof, cancelled, error, IoStatus, IoRequest, IoCompletion}

pub record SequentialReader : Type 0 where
  pub file_id : ℕ
  pub file_size : ℕ
  pub chunk : ℕ
  pub read_ahead : ℕ
  pub next_submit_offset : ℕ
  pub next_yield_offset : ℕ
  pub in_flight : ℕ
  pub has_error : Bool
  pub reordered : List (ℕ × IoCompletion)

unfoldable pub new_reader : ℕ → ℕ → ℕ → ℕ → SequentialReader
new_reader file_id file_size chunk_bytes read_ahead = record {
  file_id = file_id;
  file_size = file_size;
  chunk = if chunk_bytes == 0 then 2 ^ 20 else chunk_bytes;
  read_ahead = if read_ahead == 0 then 1 else read_ahead;
  next_submit_offset = 0;
  next_yield_offset = 0;
  in_flight = 0;
  has_error = false;
  reordered = [];
}

abbrev pub chunk_at : SequentialReader → ℕ → ℕ
chunk_at r offset = min r.chunk (r.file_size - offset)

-- The planned requests, `room` of them at most, and the offset behind the last.
unfoldable pub plan : ℕ → ℕ → SequentialReader → List IoRequest × ℕ
plan zero offset r = ([], offset)
plan (suc room) offset r =
    let size = chunk_at r offset in
    let (later, end_offset) = plan room (offset + size) r in
    if ltb offset r.file_size
    then (
      record {
        kind = read;
        file_id = r.file_id;
        offset = offset;
        size = size;
        prio = large;
        user_tag = offset;
        bytes = [];
      }
          ∷ later,
      end_offset,
    )
    else ([], offset)

-- `took` of the planned requests are accepted.
unfoldable pub refill : ℕ → SequentialReader → SequentialReader
unfolding plan
refill took r =
    let (batch, end_offset) = plan (r.read_ahead - r.in_flight) r.next_submit_offset r in
    elim (get_elem? batch took) [
      | some op ↦ record r { in_flight = r.in_flight + took; next_submit_offset = op.offset }
      | none ↦ record r { in_flight = r.in_flight + length batch; next_submit_offset = end_offset }
    ]

-- `emplace` keeps what is there.
unfoldable pub emplace : IoCompletion → List (ℕ × IoCompletion) → List (ℕ × IoCompletion)
unfolding lookup insert
emplace c m = elim (lookup c.offset m) [ some old ↦ m | none ↦ insert c.offset c m ]

unfoldable pub arrive : List IoCompletion → SequentialReader → SequentialReader
unfolding emplace
arrive [] r = r
arrive (c ∷ cs) r =
    arrive cs (record r { in_flight = r.in_flight - 1; reordered = emplace c r.reordered })

pub data Next : Type 0 where
  yields : List ℕ → SequentialReader → Next
  fails : SequentialReader → Next
  at_end : SequentialReader → Next
  blocks : SequentialReader → Next

abbrev pub is_failure : IoStatus → Bool
is_failure done = false
is_failure eof = true
is_failure cancelled = false
is_failure error = true

-- The completion of the next offset is there.
unfoldable pub hand_out : ℕ → IoCompletion → SequentialReader → Next
unfolding refill erase
hand_out took c r =
    let t = record r { reordered = erase r.next_yield_offset r.reordered } in
    if is_failure c.status
    then fails (record t { has_error = true })
    else yields c.bytes
        (refill took (record t { next_yield_offset = r.next_yield_offset + length c.bytes }))

-- The loop of `next`, over the batches that the drains bring; with none left it is still waiting.
unfoldable pub next_loop : List (List IoCompletion) → ℕ → SequentialReader → Next
unfolding hand_out arrive lookup
next_loop [] took r = elim (lookup r.next_yield_offset r.reordered) [
  | some c ↦ hand_out took c r
  | none ↦ blocks r
]
next_loop (cs ∷ batches) took r =
    let t = arrive cs r in
    let rest = next_loop batches took t in
    elim (lookup r.next_yield_offset r.reordered) [
      | some c ↦ hand_out took c r
      | none ↦
          if (length cs == 0) && ((t.in_flight == 0) && leb t.file_size t.next_submit_offset)
          then at_end t
          else rest
    ]

-- `first` and `again` are what the driver accepts of the two refills.
unfoldable pub next : List (List IoCompletion) → ℕ → ℕ → SequentialReader → Next
unfolding next_loop refill
next batches first again r =
    let rest = next_loop batches again (refill first r) in
    if r.has_error then fails r else if leb r.file_size r.next_yield_offset then at_end r else rest

-- The bytes that `pull` has got and not given: the rest of the carried chunk.
pub record Carry : Type 0 where
  pub carry : List ℕ
  pub carry_pos : ℕ

-- The copy of what is carried, as far as there is room.
unfoldable pub serve : ℕ → Carry → List ℕ → List ℕ × Carry
serve max_len s written =
    let size = min (length s.carry - s.carry_pos) (max_len - length written) in
    (written ++ take size (drop s.carry_pos s.carry), record s { carry_pos = s.carry_pos + size })

-- The loop of `pull`, over what `next` returns; an empty chunk is the end or an error, and so is
-- no chunk. It gives the bytes written, and what is left of the carried chunk and of the chunks.
unfoldable pub pull : ℕ → Carry → List (List ℕ) → List ℕ → List ℕ × Carry × List (List ℕ)
unfolding serve
pull max_len s [] written =
    let (given, t) = serve max_len s written in
    if leb max_len (length given)
    then (given, t, [])
    else (given, record { carry = []; carry_pos = 0 }, [])
pull max_len s (chunk ∷ chunks) written =
    let (given, t) = serve max_len s written in
    let fresh : Carry = record { carry = chunk; carry_pos = 0 } in
    let rest = pull max_len fresh chunks given in
    if leb max_len (length given)
    then (given, t, chunk ∷ chunks)
    else if length chunk == 0
    then (given, fresh, chunks)
    else rest
