-- ===== src/Codec/Handshake.antt =====
-- FastClone/protocol_codec.cpp, the messages that open a connection: AuthOk, Auth, SessionJoin and
-- CheckAuth. Fields that newer versions added stand last and are read while bytes remain.
pub mod RoundTrip
pub mod AuthClaim
use fast_clone.Prelude.{
  ℕ, zero, suc, ◌+◌, ◌*◌, ◌≤◌, ◌<◌, List, [], ◌∷◌, ◌++◌, Option, none, some, Bool, true, false, not,
  ◌||◌, Result, ok, throw, ◌>>=◌, ◌>>◌, ensure, ltb, leb, ◌==◌, if◌then◌else◌, length, take, drop,
  bytes_eq,
}
use fast_clone.Wire.Bytes.{
  Reader, push_back, append_u16, append_string, read_u16, read_string, read_trailing_byte,
  read_trailing_string,
}
use fast_clone.Wire.Bytes.Lists.{for_each, read_many}

pub data AuthOkRole : Type 0 where
  new_session join_ack : AuthOkRole

pub role_byte : AuthOkRole → ℕ
role_byte new_session = 0
role_byte join_ack = 1

pub record AdvertisedEndpoint : Type 0 where
  pub endpoint : List ℕ
  pub nic_group : ℕ

pub record AuthOkInfo : Type 0 where
  pub role : AuthOkRole
  pub session_id : List ℕ
  pub server_addrs : List AdvertisedEndpoint
  pub capabilities : ℕ
  pub extension_string : List ℕ

append_endpoint : List ℕ → AdvertisedEndpoint → Result (List ℕ)
append_endpoint payload addr = do
  payload' ← append_string payload addr.endpoint
  ok (append_u16 payload' addr.nic_group)

pub encode_auth_ok : AuthOkInfo → Result (List ℕ)
unfolding role_byte
encode_auth_ok info = do
  payload ← append_string (push_back [] (role_byte info.role)) info.session_id
  ensure (leb (length info.server_addrs) 65535) "AuthOk server address list too long"
  payload' ←
      for_each append_endpoint (append_u16 payload (length info.server_addrs)) info.server_addrs
  append_string (push_back payload' info.capabilities) info.extension_string

read_endpoint : Reader AdvertisedEndpoint
read_endpoint buf = do
  (endpoint, rest) ← read_string buf
  (group, rest') ← read_u16 rest
  ok (record { endpoint = endpoint; nic_group = group }, rest')

unfoldable pub decode_auth_ok : List ℕ → Result AuthOkInfo
unfolding read_endpoint
decode_auth_ok [] = throw "AuthOk payload too short"
decode_auth_ok (role_byte ∷ buf) = do
  (session_id, rest) ← read_string buf
  (addr_count, rest) ← read_u16 rest
  (addrs, rest) ← read_many read_endpoint addr_count rest
  let trailing = read_trailing_byte rest
  (extension, _) ← read_trailing_string trailing.1
  ok (record {
    role = if role_byte == 1 then join_ack else new_session;
    session_id = session_id;
    server_addrs = addrs;
    capabilities = trailing.0;
    extension_string = extension;
  })

pub record AuthClaimInfo : Type 0 where
  pub capabilities : ℕ
  pub extension_string : List ℕ

pub encode_auth_claim : List ℕ → ℕ → List ℕ → Result (List ℕ)
encode_auth_claim password capabilities extension_string =
    append_string (push_back password capabilities) extension_string

claim_extension : List ℕ → List ℕ
claim_extension [] = []
claim_extension (b0 ∷ []) = []
claim_extension (b0 ∷ b1 ∷ rest) =
    let ext_len = b0 + 256 * b1 in if leb ext_len (length rest) then take ext_len rest else []

-- `none` is the return value false: the password does not match.
pub decode_auth_claim : List ℕ → List ℕ → Option AuthClaimInfo
unfolding claim_extension
decode_auth_claim payload expected =
    let trailing = read_trailing_byte (drop (length expected) payload) in
    if ltb (length payload) (length expected)
      || not (bytes_eq expected (take (length expected) payload))
    then none
    else some (record { capabilities = trailing.0; extension_string = claim_extension trailing.1 })

pub record SessionJoinInfo : Type 0 where
  pub session_id : List ℕ
  pub password : List ℕ
  pub capabilities : ℕ
  pub extension_string : List ℕ

unfoldable pub encode_session_join : SessionJoinInfo → Result (List ℕ)
encode_session_join info = do
  payload ← append_string [] info.session_id
  payload' ← append_string payload info.password
  append_string (push_back payload' info.capabilities) info.extension_string

pub decode_session_join : List ℕ → Result SessionJoinInfo
decode_session_join payload = do
  (session_id, rest) ← read_string payload
  (password, rest) ← read_string rest
  let trailing = read_trailing_byte rest
  (extension, _) ← read_trailing_string trailing.1
  ok (record {
    session_id = session_id;
    password = password;
    capabilities = trailing.0;
    extension_string = extension;
  })

pub record CheckAuthInfo : Type 0 where
  pub password : List ℕ
  pub flags : ℕ

pub encode_check_auth : CheckAuthInfo → Result (List ℕ)
encode_check_auth info = do
  payload ← append_string [] info.password
  ok (push_back payload info.flags)

pub decode_check_auth : List ℕ → Result CheckAuthInfo
decode_check_auth payload = do
  (password, rest) ← read_string payload
  ok (record { password = password; flags = (read_trailing_byte rest).0 })
