-- ===== src/Handshake.antt =====
-- The client's and the server's sides of a new connection, FastClone/client_handshake.cpp: Hello,
-- then Auth, CheckAuth or SessionJoin. Texts that a message of an exception quotes are left out.
pub mod Replies
use fast_clone.Prelude.{
  ℕ, ◌+◌, Bool, true, false, not, ◌||◌, if◌then◌else◌, ◌==◌, bytes_eq, List, [], ◌∷◌, length,
  Result, ok, throw, ◌>>=◌, ◌>>◌, ensure,
}
use fast_clone.Wire.MsgType.{
  MsgType, msg_byte, hello, auth, auth_ok, session_join, check_auth, error,
}
use fast_clone.Wire.Frame.{Frame, Net, send_frame, Receiver, recv_frame}
use fast_clone.Codec.Handshake.{
  AuthOkRole, new_session, join_ack, AuthOkInfo, decode_auth_ok, encode_auth_claim, SessionJoinInfo,
  encode_session_join, CheckAuthInfo, encode_check_auth,
}

-- A connection: what is sent on it, and what comes in.
pub record Link : Type 0 where
  pub net : Net
  pub receiver : Receiver

abbrev pub protocol_version : List ℕ
protocol_version = b'F' ∷ b'C' ∷ b'7' ∷ []

abbrev pub cap_file_range : ℕ
cap_file_range = 2

unfoldable pub send_message : MsgType → List ℕ → Link → Result Link
send_message kind payload l = do
  net ← send_frame l.net (record { kind = msg_byte kind; stream_id = 0; payload = payload })
  ok (record l { net = net })

unfoldable pub receive : Link → Result (Frame × Link)
receive l = do
  (frame, receiver) ← recv_frame l.receiver
  ok (frame, record l { receiver = receiver })

abbrev pub is_kind : MsgType → Frame → Bool
is_kind kind frame = frame.kind == msg_byte kind

-- The mismatch is told to the client before the server gives up.
unfoldable pub negotiate_hello_as_server : List ℕ → Link → Result Link
unfolding receive send_message
negotiate_hello_as_server mismatch l = do
  (frame, heard) ← receive l
  ensure (is_kind hello frame) "Expected HELLO"
  answered ←
      send_message (if bytes_eq frame.payload protocol_version then hello else error)
        (if bytes_eq frame.payload protocol_version then protocol_version else mismatch) heard
  ensure (bytes_eq frame.payload protocol_version) "Protocol version mismatch"
  ok answered

unfoldable pub negotiate_hello_as_client : Link → Result Link
unfolding receive send_message
negotiate_hello_as_client l = do
  greeted ← send_message hello protocol_version l
  (back, heard) ← receive greeted
  ensure (not (is_kind error back)) "Server error"
  ensure (is_kind hello back) "Server HELLO missing"
  ensure (bytes_eq back.payload protocol_version) "Protocol version mismatch"
  ok heard

abbrev pub is_new : AuthOkRole → Bool
is_new new_session = true
is_new join_ack = false

-- The answer to Auth and to CheckAuth.
unfoldable pub receive_new_session : Link → Result (AuthOkInfo × Link)
unfolding receive
receive_new_session l = do
  (result, heard) ← receive l
  ensure (is_kind auth_ok result) "Server authentication rejected"
  info ← decode_auth_ok result.payload
  ensure (is_new info.role) "Protocol error: expected AuthOk role NewSession"
  ensure (not (length info.session_id == 0)) "Protocol error: empty sessionId"
  ok (info, heard)

unfoldable pub handshake_client_new : List ℕ → Link → Result (AuthOkInfo × Link)
unfolding negotiate_hello_as_client receive_new_session send_message
handshake_client_new password l = do
  greeted ← negotiate_hello_as_client l
  payload ← encode_auth_claim password cap_file_range []
  claimed ← send_message auth payload greeted
  receive_new_session claimed

unfoldable pub handshake_client_check : List ℕ → Link → Result (AuthOkInfo × Link)
unfolding negotiate_hello_as_client receive_new_session send_message
handshake_client_check password l = do
  greeted ← negotiate_hello_as_client l
  payload ← encode_check_auth (record { password = password; flags = 0 })
  claimed ← send_message check_auth payload greeted
  receive_new_session claimed

unfoldable pub handshake_client_join : List ℕ → List ℕ → Link → Result Link
unfolding negotiate_hello_as_client receive send_message
handshake_client_join password session_id l = do
  greeted ← negotiate_hello_as_client l
  payload ← encode_session_join (record {
    session_id = session_id;
    password = password;
    capabilities = cap_file_range;
    extension_string = [];
  })
  claimed ← send_message session_join payload greeted
  (result, heard) ← receive claimed
  ensure (is_kind auth_ok result) "Server rejected session join"
  info ← decode_auth_ok result.payload
  ensure (not (is_new info.role)) "Protocol error: expected AuthOk role JoinAck"
  ensure (not (length info.session_id == 0)) "Protocol error: empty sessionId"
  ensure (bytes_eq info.session_id session_id) "Protocol error: sessionId mismatch"
  ok heard
