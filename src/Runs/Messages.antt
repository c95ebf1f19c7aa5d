-- ===== src/Runs/Messages.antt =====
-- Runs of the codec, FastClone/protocol_codec.cpp.
use fast_clone.Prelude.{
  ℕ, ◌≡◌, ◌≢◌, ◌⊎◌, refl, List, [], ◌∷◌, ◌++◌, true, false, none, some, ok, ◌>>=◌, pos, negsuc,
  arith,
}
use fast_clone.Entry.{FileEntry, Hash256}
use fast_clone.Delta.Signature.{SignatureSet}
use fast_clone.Codec.Handshake.{join_ack, AuthOkInfo, decode_auth_claim, SessionJoinInfo}
use fast_clone.Codec.Handshake.AuthClaim.{claim_fields, auth_claim_accepts_exactly}
use fast_clone.Codec.Messages.{BatchFileRecord}
use fast_clone.Codec.Signatures.{encode_block_sig_response, decode_block_sig_response}
use fast_clone.Codec.Signatures.RoundTrip.{cut_sig, block_sig_response_round_trip}

abbrev path_ab : List ℕ
path_ab = 97 ∷ 47 ∷ 98 ∷ []

abbrev digest : Hash256
digest = 1 ∷ 2 ∷ 3 ∷ 4 ∷ 5 ∷ 6 ∷ 7 ∷ 8 ∷ 9 ∷ 10 ∷ 11 ∷ 12 ∷ 13 ∷ 14 ∷ 15 ∷ 16 ∷ []

abbrev one_block : SignatureSet
one_block = record {
  file_size = 5;
  block_size = 2048;
  block_count = 1;
  strong_len = 8;
  blocks = record { weak = 77; strong = digest } ∷ [];
}

block_sig_response_round_trip_example :
    (encode_block_sig_response path_ab digest one_block >>= decode_block_sig_response)
    ≡ ok (record { rel_path = path_ab; file_hash = digest; sig = cut_sig one_block })
block_sig_response_round_trip_example =
    block_sig_response_round_trip path_ab digest one_block (omega arith) refl (record {
      file_size = omega arith;
      block_size = omega arith;
      block_count = omega arith;
      strong_len = omega arith;
      counted = refl;
      blocks = (record { weak = omega arith; strong = refl }, tt);
    })

auth_claim_accepts_exactly_example :
    ((rest : List ℕ) × (path_ab ≡ (97 ∷ []) ++ rest)
      × (decode_auth_claim path_ab (97 ∷ []) ≡ some (claim_fields rest)))
    ⊎ ((decode_auth_claim path_ab (97 ∷ []) ≡ none)
        × ((rest : List ℕ) → path_ab ≢ (97 ∷ []) ++ rest))
auth_claim_accepts_exactly_example = auth_claim_accepts_exactly path_ab (97 ∷ [])

abbrev join_info : SessionJoinInfo
join_info = record {
  session_id = path_ab;
  password = 1 ∷ [];
  capabilities = 1;
  extension_string = [];
}

abbrev ok_info : AuthOkInfo
ok_info = record {
  role = join_ack;
  session_id = path_ab;
  server_addrs = record { endpoint = path_ab; nic_group = 2 } ∷ [];
  capabilities = 5;
  extension_string = 8 ∷ [];
}

abbrev entry_ab : FileEntry
entry_ab = record {
  relative_path = path_ab;
  is_directory = false;
  file_size = 12;
  mtime_ns = negsuc 4;
}

abbrev batch_files : List BatchFileRecord
batch_files =
    record { relative_path = path_ab; file_size = 3; mtime_ns = pos 9; server_ok = true } ∷ []
