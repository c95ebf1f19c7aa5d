-- ===== src/Handshake/Replies.antt =====
-- What a server has answered where a handshake succeeds.
use fast_clone.Prelude.{
  ℕ, ◌≡◌, refl, Bool, true, false, not, List, [], length, Result, ok, ◌>>◌, bind_returns, ensure,
  arith, bytes_eq, bytes_eq_sound, ◌==◌, String,
}
use fast_clone.Wire.MsgType.{MsgType, hello, auth_ok, error, session_join, msg_byte}
use fast_clone.Wire.Frame.{Frame, recv_frame, send_frame}
use fast_clone.Codec.Handshake.{
  AuthOkRole, join_ack, AuthOkInfo, decode_auth_ok, encode_session_join, SessionJoinInfo,
}
use fast_clone.Handshake.{
  Link, protocol_version, cap_file_range, send_message, receive, is_kind, negotiate_hello_as_client,
  handshake_client_join, is_new,
}

-- A test that has been passed.
passed :
    {B : Type 0} {b : B} (test : Bool) (message : String) (rest : Result B)
    → (ensure test message >> rest) ≡ ok b
    → (test ≡ true) × (rest ≡ ok b)
passed true message rest h = (refl, h)
passed false message rest h = cc

receive_lem :
    (l t : Link) (frame : Frame)
    → receive l ≡ ok (frame, t)
    → recv_frame l.receiver ≡ ok (frame, t.receiver)
unfolding receive
receive_lem l t frame h =
    let ((f, r), last, got) = bind_returns (recv_frame l.receiver) h in ground (last, got, arith)

send_message-receiver :
    (kind : MsgType) (payload : List ℕ) (l t : Link)
    → send_message kind payload l ≡ ok t
    → t.receiver ≡ l.receiver
unfolding send_message
send_message-receiver kind payload l t h =
    let frame : Frame = record { kind = msg_byte kind; stream_id = 0; payload = payload } in
    let (net, last, sent) = bind_returns (send_frame l.net frame) h in ground (last, arith)

-- The Hello that came back.
pub record HelloBack (l t : Link) : Type 0 where
  pub back : Frame
  pub came : recv_frame l.receiver ≡ ok (back, t.receiver)
  pub is_hello : is_kind hello back ≡ true
  pub same_version : back.payload ≡ protocol_version

hello-HelloBack : (l t : Link) → negotiate_hello_as_client l ≡ ok t → HelloBack l t
unfolding negotiate_hello_as_client
hello-HelloBack l t h =
    let (greeted, h1, sent) = bind_returns (send_message hello protocol_version l) h in
    let ((back, heard), h2, got) = bind_returns (receive greeted) h1 in
    let (no_error, h3) = passed (not (is_kind error back)) _ _ h2 in
    let (is_hello, h4) = passed (is_kind hello back) _ _ h3 in
    let (same_version, h5) = passed (bytes_eq back.payload protocol_version) _ _ h4 in
    let came = receive_lem greeted heard back got in
    let same = send_message-receiver hello protocol_version l greeted sent in
    record {
      back = back;
      came = ground (came, same, h5, arith);
      is_hello = is_hello;
      same_version = bytes_eq_sound back.payload protocol_version same_version;
    }

-- What a join has received in the end.
pub record Joined (session_id : List ℕ) (l t : Link) : Type 0 where
  pub greeted : Link
  pub greeting : HelloBack l greeted
  pub reply : Frame
  pub info : AuthOkInfo
  pub came : recv_frame greeted.receiver ≡ ok (reply, t.receiver)
  pub accepted : is_kind auth_ok reply ≡ true
  pub decoded : decode_auth_ok reply.payload ≡ ok info
  pub acknowledged : info.role ≡ join_ack
  pub same_session : info.session_id ≡ session_id
  pub named : (length session_id == 0) ≡ false

not_new : (role : AuthOkRole) → not (is_new role) ≡ true → role ≡ join_ack
not_new role h = ground arith

abbrev join_claim : List ℕ → List ℕ → SessionJoinInfo
join_claim password session_id = record {
  session_id = session_id;
  password = password;
  capabilities = cap_file_range;
  extension_string = [];
}

-- A join that succeeds has received two frames: a Hello of the client's version, and an AuthOk
-- that acknowledges the very session that the client asked for, whose id is not empty.
pub handshake_client_join-Joined :
    (password session_id : List ℕ) (l t : Link)
    → handshake_client_join password session_id l ≡ ok t
    → Joined session_id l t
unfolding handshake_client_join
handshake_client_join-Joined password session_id l t h =
    let (greeted, h1, negotiated) = bind_returns (negotiate_hello_as_client l) h in
    let (payload, h2, encoded) =
      bind_returns (encode_session_join (join_claim password session_id)) h1 in
    let (claimed, h3, sent) = bind_returns (send_message session_join payload greeted) h2 in
    let ((reply, heard), h4, got) = bind_returns (receive claimed) h3 in
    let (accepted, h5) = passed (is_kind auth_ok reply) _ _ h4 in
    let (info, h6, decoded) = bind_returns (decode_auth_ok reply.payload) h5 in
    let (joins, h7) = passed (not (is_new info.role)) _ _ h6 in
    let (named, h8) = passed (not (length info.session_id == 0)) _ _ h7 in
    let (same_id, h9) = passed (bytes_eq info.session_id session_id) _ _ h8 in
    let came = receive_lem claimed heard reply got in
    let same = send_message-receiver session_join payload greeted claimed sent in
    let session = bytes_eq_sound info.session_id session_id same_id in
    record {
      greeted = greeted;
      greeting = hello-HelloBack l greeted negotiated;
      reply = reply;
      info = info;
      came = ground (came, same, h9, arith);
      accepted = accepted;
      decoded = decoded;
      acknowledged = not_new info.role joins;
      same_session = session;
      named = ground (named, session, arith);
    }
