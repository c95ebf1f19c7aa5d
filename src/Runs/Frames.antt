-- ===== src/Runs/Frames.antt =====
-- Runs of the frame layer, FastClone/protocol.cpp.
use fast_clone.Prelude.{
  ℕ, ◌+◌, ◌%◌, ◌^◌, ◌≤◌, ◌≡◌, refl, List, [], ◌∷◌, ◌++◌, length, ok, throw, some, arith, Result,
}
use fast_clone.Wire.MsgType.{is_known_msg_type, msg_byte}
use fast_clone.Wire.Bytes.Lists.{concat_map, read_many}
use fast_clone.Wire.Frame.{
  Frame, Receiver, fresh_receiver, send_frame_batch, recv_frame, first_byte, max_sane_frame_payload,
  send_frame, encode_header, recv_payload, record_recv_history,
}
use fast_clone.Wire.Frame.Send.{
  IsKnown, frame_bytes, total_size, send_frame_batch_lem, header_bytes,
}
use fast_clone.Wire.Frame.Receive.{
  IsSendable, after_frame, recv_frame_lem, recv_frames, after_frames, batch_is_received,
  recv_frame_takes,
}
use fast_clone.Handshake.{Link, protocol_version, handshake_client_join}
use fast_clone.Codec.Handshake.{encode_session_join, decode_auth_ok}
use fast_clone.Handshake.Replies.{Joined, handshake_client_join-Joined}
use fast_clone.Wire.Bytes.{
  read_chunk, le_value, read_u16, read_string, read_trailing_byte, read_trailing_string,
  append_string, append_u16, append_u32, le_bytes,
}

abbrev hello_frame : Frame
hello_frame = record { kind = 1; stream_id = 0; payload = 70 ∷ 67 ∷ 54 ∷ [] }

abbrev empty_frame : Frame
empty_frame = record { kind = 2; stream_id = 7; payload = [] }

abbrev two_frames : List Frame
two_frames = hello_frame ∷ empty_frame ∷ []

hello-IsSendable : IsSendable hello_frame
unfolding is_known_msg_type
hello-IsSendable = record { known = refl; stream_id = omega arith; payload = omega arith }

empty-IsSendable : IsSendable empty_frame
unfolding is_known_msg_type
empty-IsSendable = record { known = refl; stream_id = omega arith; payload = omega arith }

batch_is_received_example :
    recv_frames 2
      (fresh_receiver (send_frame_batch (record { wire = []; sent = 0 }) two_frames).0.wire)
    ≡ ok (
      two_frames,
      after_frames (fresh_receiver (concat_map frame_bytes two_frames)) two_frames [],
    )
batch_is_received_example = batch_is_received two_frames (hello-IsSendable, (empty-IsSendable, tt))

send_frame_batch_lem_example : send_frame_batch (record { wire = 9 ∷ []; sent = 1 }) two_frames ≡ (
  record {
    wire = 9 ∷ concat_map frame_bytes two_frames;
    sent = (1 + total_size two_frames) % 2 ^ 64;
  },
  some (ok tt),
)
send_frame_batch_lem_example =
    send_frame_batch_lem (record { wire = 9 ∷ []; sent = 1 }) two_frames (omega arith)
      (hello-IsSendable.known, (empty-IsSendable.known, tt))

abbrev hello_receiver : Receiver
hello_receiver = fresh_receiver (frame_bytes hello_frame ++ (5 ∷ []))

recv_frame_takes_example :
    IsKnown hello_frame
    × (length hello_frame.payload ≤ max_sane_frame_payload)
    × (hello_receiver.input
        ≡ frame_bytes hello_frame ++ (after_frame hello_receiver hello_frame (5 ∷ [])).input)
unfolding frame_bytes header_bytes le_bytes
recv_frame_takes_example =
    recv_frame_takes hello_receiver (after_frame hello_receiver hello_frame (5 ∷ [])) hello_frame
      (ground arith) (recv_frame_lem hello_receiver hello_frame (5 ∷ []) hello-IsSendable refl)

-- The server's answers to a join: a Hello, and an AuthOk that acknowledges the session "s".
abbrev answers : List ℕ
answers =
    frame_bytes (record { kind = 1; stream_id = 0; payload = protocol_version })
    ++ frame_bytes (record { kind = 3; stream_id = 0; payload = 1 ∷ 1 ∷ 0 ∷ b's' ∷ 0 ∷ 0 ∷ [] })

abbrev before_join : Link
before_join = record { net = record { wire = []; sent = 0 }; receiver = fresh_receiver answers }

abbrev link_of : Result Link → Link
link_of (ok l) = l
link_of (throw message) = before_join

abbrev after_join : Link
unfolding handshake_client_join
after_join = link_of (handshake_client_join (b'p' ∷ []) (b's' ∷ []) before_join)

joined : handshake_client_join (b'p' ∷ []) (b's' ∷ []) before_join ≡ ok after_join
unfolding read_many record_recv_history handshake_client_join send_frame recv_frame
    encode_session_join decode_auth_ok msg_byte recv_payload encode_header is_known_msg_type
    frame_bytes read_chunk le_value first_byte header_bytes read_u16 read_string read_trailing_byte
    read_trailing_string append_string append_u16 append_u32 le_bytes
joined = refl

handshake_client_join-Joined_example : Joined (b's' ∷ []) before_join after_join
handshake_client_join-Joined_example =
    handshake_client_join-Joined (b'p' ∷ []) (b's' ∷ []) before_join after_join joined
