-- ===== src/Wire/Frame.antt =====
-- Frames, FastClone/protocol.cpp: a nine-byte header (type, stream id, payload length) and the
-- payload. A socket is the bytes that were put on it; what the network does to a connection
-- (errors in the middle of a send) is not modelled. The numbers inside error messages are left out.
pub mod Send
pub mod Receive
use fast_clone.Prelude.{
  ℕ, zero, suc, ◌+◌, ◌-◌, ◌*◌, ◌%◌, ◌^◌, List, [], ◌∷◌, ◌++◌, Bool, true, false, not, ◌||◌, Option,
  none, some, min, Result, ok, throw, ◌>>=◌, ltb, leb, if◌then◌else◌, length, take, drop, get_elem?,
  set, replicate, String,
}
use fast_clone.Wire.Bytes.{le_bytes, le_value, read_chunk, push_back, insert_end, append_u32}
use fast_clone.Wire.MsgType.{is_known_msg_type}

pub record Frame : Type 0 where
  pub kind : ℕ
  pub stream_id : ℕ
  pub payload : List ℕ

abbrev pub header_size : ℕ
header_size = 9

abbrev pub max_sane_frame_payload : ℕ
max_sane_frame_payload = 2 ^ 30

-- `static_cast<uint32_t>(frame.payload.size())`
abbrev payload_len : Frame → ℕ
payload_len frame = length frame.payload % 2 ^ 32

unfoldable pub encode_header : Frame → Result (List ℕ)
encode_header frame =
    if not (is_known_msg_type frame.kind)
    then throw "EncodeHeader refusing to send corrupted frame"
    else ok (append_u32 (append_u32 (frame.kind ∷ []) frame.stream_id) (payload_len frame))

pub append_encoded_frame : List ℕ → Frame → List ℕ
append_encoded_frame out frame =
    insert_end
      (append_u32 (append_u32 (push_back out frame.kind) frame.stream_id) (payload_len frame))
      frame.payload

-- The wire bytes so far, and the counter behind `NetBytesSent`.
pub record Net : Type 0 where
  pub wire : List ℕ
  pub sent : ℕ

-- The buffers of one frame: the payload's only if it is not empty.
frame_buffers : List ℕ → List ℕ → List (List ℕ)
frame_buffers header [] = header ∷ []
frame_buffers header (b ∷ bs) = header ∷ (b ∷ bs) ∷ []

send_buffers_all : List ℕ → List (List ℕ) → List ℕ
send_buffers_all wire [] = wire
send_buffers_all wire (buffer ∷ buffers) = send_buffers_all (wire ++ buffer) buffers

unfoldable pub send_frame : Net → Frame → Result Net
unfolding frame_buffers send_buffers_all
send_frame net frame = do
  header ← encode_header frame
  ok (record {
    wire = send_buffers_all net.wire (frame_buffers header frame.payload);
    sent = (net.sent + (header_size + length frame.payload)) % 2 ^ 64;
  })

-- One group of frames: the buffers, and their size. It throws before any of them is sent.
gather : List Frame → Result (List (List ℕ) × ℕ)
gather [] = ok ([], 0)
gather (frame ∷ frames) = do
  header ← encode_header frame
  (buffers, bytes) ← gather frames
  ok (frame_buffers header frame.payload ++ buffers, header_size + length frame.payload + bytes)

abbrev frame_chunk : ℕ
frame_chunk = 256

-- A throw leaves the groups before it on the wire, uncounted. Each round takes a frame at least,
-- so as many rounds as there are frames are enough; `none` is a loop out of fuel.
send_groups : ℕ → Net → ℕ → List Frame → Net × Option (Result (Unit {0}))
send_groups fuel net total [] = (record net { sent = (net.sent + total) % 2 ^ 64 }, some (ok tt))
send_groups zero net total (frame ∷ frames) = (net, none)
send_groups (suc fuel) net total (frame ∷ frames) =
    elim (gather (take frame_chunk (frame ∷ frames))) [
      | throw e ↦ (net, some (throw e))
      | ok (buffers, bytes) ↦
          send_groups fuel (record net { wire = send_buffers_all net.wire buffers }) (total + bytes)
            (drop frame_chunk (frame ∷ frames))
    ]

pub send_frame_batch : Net → List Frame → Net × Option (Result (Unit {0}))
send_frame_batch net [] = (net, some (ok tt))
send_frame_batch net (frame ∷ frames) = send_groups (length (frame ∷ frames)) net 0 (frame ∷ frames)

pub record HistoryEntry : Type 0 where
  pub kind : ℕ
  pub stream_id : ℕ
  pub payload_len : ℕ
  pub used : Bool

abbrev pub history_size : ℕ
history_size = 32

-- A receiving thread: the bytes still to come, its history of frames, and its counters.
pub record Receiver : Type 0 where
  pub input : List ℕ
  pub history : List HistoryEntry
  pub history_pos : ℕ
  pub frame_index : ℕ
  pub byte_offset : ℕ
  pub net_received : ℕ

abbrev pub unused_entry : HistoryEntry
unused_entry = record { kind = 0; stream_id = 0; payload_len = 0; used = false }

-- A thread before its first frame.
abbrev pub fresh_receiver : List ℕ → Receiver
fresh_receiver input = record {
  input = input;
  history = replicate history_size unused_entry;
  history_pos = 0;
  frame_index = 0;
  byte_offset = 0;
  net_received = 0;
}

unfoldable pub record_recv_history : Receiver → ℕ → ℕ → ℕ → Receiver
record_recv_history r kind stream_id len = record r {
  history =
      set r.history (r.history_pos % history_size)
        (record { kind = kind; stream_id = stream_id; payload_len = len; used = true });
  history_pos = r.history_pos + 1;
}

unfoldable pub first_byte : List ℕ → ℕ
first_byte [] = 0
first_byte (b ∷ bs) = b

-- The payload of a frame whose header passed the test, and the thread's books on it.
unfoldable pub recv_payload : Receiver → ℕ → ℕ → ℕ → Result (Frame × Receiver)
unfolding record_recv_history
recv_payload r kind stream_id len = do
  (payload, rest) ← read_chunk "recv failed" len r.input
  let r' = record_recv_history r kind stream_id len
  ok (
    record { kind = kind; stream_id = stream_id; payload = payload },
    record r' {
      input = rest;
      frame_index = r'.frame_index + 1;
      byte_offset = (r'.byte_offset + (header_size + len)) % 2 ^ 64;
      net_received = (r'.net_received + (header_size + len)) % 2 ^ 64;
    },
  )

unfoldable pub recv_frame : Receiver → Result (Frame × Receiver)
unfolding first_byte recv_payload
recv_frame r = do
  (header, rest) ← read_chunk "recv failed" header_size r.input
  let kind = first_byte header
  let stream_id = le_value (take 4 (drop 1 header))
  let len = le_value (take 4 (drop 5 header))
  if not (is_known_msg_type kind) || ltb max_sane_frame_payload len
      then throw "RecvFrame desync: bad header"
      else recv_payload (record r { input = rest }) kind stream_id len

-- The retained entries, oldest first, as `DescribeRecentFrames` walks them.
walk_history : List HistoryEntry → ℕ → ℕ → List HistoryEntry
walk_history history start zero = []
walk_history history start (suc n) =
    let rest = walk_history history (start + 1) n in
    elim (get_elem? history (start % history_size)) [
      | none ↦ rest
      | some e ↦ if e.used then e ∷ rest else rest
    ]

pub recent_frames : Receiver → List HistoryEntry
unfolding walk_history
recent_frames r =
    walk_history r.history
      (if leb history_size r.history_pos then r.history_pos - history_size else 0)
      (min r.history_pos history_size)
