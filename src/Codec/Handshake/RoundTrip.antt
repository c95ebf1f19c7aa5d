-- ===== src/Codec/Handshake/RoundTrip.antt =====
-- Every handshake message that encodes is decoded to itself, and the payload of a version that did
-- not know the trailing fields is decoded with their defaults.
use fast_clone.Prelude.{
  ℕ, ◌≤◌, ◌<◌, ◌^◌, ◌≡◌, refl, List, [], ◌∷◌, ◌++◌, arith, ok, ◌>>=◌, length, All, le→leb, ◌==◌,
  if◌then◌else◌,
}
use fast_clone.Wire.Bytes.{le_bytes, read_trailing_byte}
use fast_clone.Wire.Bytes.RoundTrip.{
  FitsU16, string_bytes, append_string_lem, read_string-string_bytes, wire_laws,
}
use fast_clone.Wire.Bytes.Lists.{for_each_lem, read_many_lem}
use fast_clone.Codec.Handshake.{
  AuthOkRole, new_session, join_ack, role_byte, AdvertisedEndpoint, AuthOkInfo, append_endpoint,
  encode_auth_ok, read_endpoint, decode_auth_ok, SessionJoinInfo, encode_session_join,
  decode_session_join, CheckAuthInfo, encode_check_auth, decode_check_auth,
}

-- A CheckAuth message whose password fits a string is decoded to itself.
pub check_auth_round_trip :
    (info : CheckAuthInfo)
    → FitsU16 info.password
    → (encode_check_auth info >>= decode_check_auth) ≡ ok info
unfolding encode_check_auth decode_check_auth read_trailing_byte
check_auth_round_trip info h = rw (
  append_string_lem [] info.password h,
  read_string-string_bytes info.password (info.flags ∷ []) h,
)

-- A SessionJoin message whose strings fit is decoded to itself.
pub session_join_round_trip :
    (info : SessionJoinInfo)
    → FitsU16 info.session_id
    → FitsU16 info.password
    → FitsU16 info.extension_string
    → (encode_session_join info >>= decode_session_join) ≡ ok info
unfolding encode_session_join decode_session_join read_trailing_byte
session_join_round_trip info h k e = simp (wire_laws, h, k, e)

-- An endpoint's bytes on the wire.
endpoint_bytes : AdvertisedEndpoint → List ℕ
endpoint_bytes a = string_bytes a.endpoint ++ le_bytes 2 a.nic_group

pub record EndpointFits (a : AdvertisedEndpoint) : Type 0 where
  pub endpoint : FitsU16 a.endpoint
  pub nic_group : a.nic_group < 2 ^ 16

append_endpoint_lem :
    (out : List ℕ) (a : AdvertisedEndpoint)
    → EndpointFits a
    → append_endpoint out a ≡ ok (out ++ endpoint_bytes a)
unfolding append_endpoint endpoint_bytes
append_endpoint_lem out a h = simp (wire_laws, h.endpoint)

read_endpoint-bytes :
    (a : AdvertisedEndpoint) (rest : List ℕ)
    → EndpointFits a
    → read_endpoint (endpoint_bytes a ++ rest) ≡ ok (a, rest)
unfolding read_endpoint endpoint_bytes
read_endpoint-bytes a rest h = simp (wire_laws, h.endpoint, h.nic_group)

-- What the length fields of AuthOk can hold.
pub record AuthOkFits (info : AuthOkInfo) : Type 0 where
  pub session_id : FitsU16 info.session_id
  pub addr_count : length info.server_addrs ≤ 65535
  pub addrs : All EndpointFits info.server_addrs
  pub extension_string : FitsU16 info.extension_string

role_back : (r : AuthOkRole) → (if role_byte r == 1 then join_ack else new_session) ≡ r
unfolding role_byte
role_back new_session = refl
role_back join_ack = refl

-- An AuthOk message within its length fields, with its list of endpoints, is decoded to itself.
pub auth_ok_round_trip :
    (info : AuthOkInfo) → AuthOkFits info → (encode_auth_ok info >>= decode_auth_ok) ≡ ok info
unfolding encode_auth_ok decode_auth_ok read_trailing_byte
auth_ok_round_trip info h =
    let count : length info.server_addrs < 2 ^ 16 = omega (arith, h.addr_count) in
    simp (
      wire_laws,
      h.session_id,
      h.extension_string,
      le→leb (length info.server_addrs) 65535 h.addr_count,
      for_each_lem EndpointFits endpoint_bytes append_endpoint append_endpoint_lem,
      read_many_lem EndpointFits endpoint_bytes read_endpoint read_endpoint-bytes,
      h.addrs,
      count,
      role_back,
    )
