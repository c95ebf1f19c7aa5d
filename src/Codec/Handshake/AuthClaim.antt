-- ===== src/Codec/Handshake/AuthClaim.antt =====
-- The server's reading of the Auth payload (`DecodeAuthClaim`).
use fast_clone.Prelude.{
  ℕ, ◌+◌, ◌*◌, ◌≡◌, ◌≢◌, ◌⊎◌, inl, inr, sym, List, [], ◌∷◌, ◌++◌, arith, none, some, Bool, true,
  false, ok, ◌>>=◌, ltb, not, ◌||◌, ◌%◌, ◌/◌, length, take, drop, bytes_eq, bytes_eq_refl,
  bytes_eq_sound, Bool-cases, take_append, drop_append, take_length, length-append,
  take-append-drop, append-nil,
}
use fast_clone.Wire.Bytes.{read_trailing_byte}
use fast_clone.Wire.Bytes.RoundTrip.{FitsU16, string_bytes, string_bytes_lem, wire_laws}
use fast_clone.Codec.Handshake.{
  AuthClaimInfo, encode_auth_claim, claim_extension, decode_auth_claim,
}

-- What `decode_auth_claim` makes of the bytes behind the password.
pub claim_fields : List ℕ → AuthClaimInfo
unfolding claim_extension
claim_fields rest = record {
  capabilities = (read_trailing_byte rest).0;
  extension_string = claim_extension (read_trailing_byte rest).1;
}

pub decode_auth_claim_prefix :
    (expected rest : List ℕ)
    → decode_auth_claim (expected ++ rest) expected ≡ some (claim_fields rest)
unfolding decode_auth_claim claim_fields
decode_auth_claim_prefix expected rest =
    rw (take_append expected rest, drop_append expected rest, bytes_eq_refl expected)
      (ground (arith, length-append expected rest))

decode_auth_claim_split :
    (payload expected rest : List ℕ)
    → payload ≡ expected ++ rest
    → decode_auth_claim payload expected ≡ some (claim_fields rest)
decode_auth_claim_split payload expected rest e = rw e (decode_auth_claim_prefix expected rest)

-- The test that the server makes.
mismatch : List ℕ → List ℕ → Bool
mismatch payload expected =
    ltb (length payload) (length expected)
    || not (bytes_eq expected (take (length expected) payload))

decode_mismatch :
    (payload expected : List ℕ)
    → mismatch payload expected ≡ true
    → decode_auth_claim payload expected ≡ none
unfolding decode_auth_claim mismatch
decode_mismatch payload expected h = ground arith

split_match :
    (payload expected : List ℕ)
    → mismatch payload expected ≡ false
    → payload ≡ expected ++ drop (length expected) payload
unfolding mismatch
split_match payload expected h = ground (
  arith,
  take-append-drop (length expected) payload,
  bytes_eq_sound expected (take (length expected) payload),
)

-- The server accepts an Auth payload exactly when it starts with the server's password: either
-- the payload is the password with further bytes, and the fields come from those bytes, or
-- decoding returns false and no such split exists.
pub auth_claim_accepts_exactly :
    (payload expected : List ℕ)
    → ((rest : List ℕ) × (payload ≡ expected ++ rest)
        × (decode_auth_claim payload expected ≡ some (claim_fields rest)))
      ⊎ ((decode_auth_claim payload expected ≡ none)
          × ((rest : List ℕ) → payload ≢ expected ++ rest))
auth_claim_accepts_exactly payload expected = elim (Bool-cases (mismatch payload expected)) [
  | inl bad ↦
      let refused = decode_mismatch payload expected bad in
      inr (refused, λ rest e. cc (refused, decode_auth_claim_split payload expected rest e))
  | inr good ↦
      let e = split_match payload expected good in
      inl (drop (length expected) payload, e, decode_auth_claim_split payload expected _ e)
]

claim_extension_lem : (s : List ℕ) → FitsU16 s → claim_extension (string_bytes s) ≡ s
unfolding claim_extension
claim_extension_lem s h =
    let len : length s % 256 + 256 * (length s / 256 % 256) ≡ length s = omega arith in
    rw (string_bytes_lem s, len) (ground (arith, take_length s))

-- The payload that a client builds, with an extension that fits a string, is accepted under its
-- own password, with its capability byte and its extension string.
pub auth_claim_round_trip :
    (password : List ℕ) (capabilities : ℕ) (extension : List ℕ)
    → FitsU16 extension
    → (encode_auth_claim password capabilities extension >>= λ payload.
        ok (decode_auth_claim payload password))
      ≡ ok (some (record { capabilities = capabilities; extension_string = extension }))
unfolding encode_auth_claim claim_fields read_trailing_byte
auth_claim_round_trip password capabilities extension h =
    simp (wire_laws, h, decode_auth_claim_prefix, claim_extension_lem)

-- A payload of the bare password, which older clients send, is accepted with the defaults.
pub auth_claim_legacy :
    (password : List ℕ)
    → decode_auth_claim password password
      ≡ some (record { capabilities = 0; extension_string = [] })
unfolding claim_fields claim_extension read_trailing_byte
auth_claim_legacy password =
    decode_auth_claim_split password password [] (sym (append-nil password))

-- A client's password need only begin with the server's: whatever follows is taken for the
-- trailing fields, and the claim, with an extension that fits a string, is accepted.
pub auth_claim_accepts_longer :
    (password more : List ℕ) (capabilities : ℕ) (extension : List ℕ)
    → FitsU16 extension
    → (info : AuthClaimInfo) × ((encode_auth_claim (password ++ more) capabilities extension
          >>= λ payload. ok (decode_auth_claim payload password))
        ≡ ok (some info))
unfolding encode_auth_claim
auth_claim_accepts_longer password more capabilities extension h = (
  claim_fields (more ++ (capabilities ∷ string_bytes extension)),
  simp (wire_laws, h, decode_auth_claim_prefix),
)
