-- ===== src/Wire/MsgType.antt =====
-- The message types of FastClone/protocol.h. A header byte need not be one of them, so a frame
-- holds the byte, and `is_known_msg_type` says whether it is one.
use fast_clone.Prelude.{ℕ, ◌≡◌, refl, String, List, [], ◌∷◌, Bool, true, false, ◌==◌, if◌then◌else◌}

pub data MsgType : Type 0 where
  hello auth auth_ok auth_fail session_join check_auth manifest_request manifest_entry : MsgType
  manifest_end manifest_progress hash_request hash_response block_sig_request : MsgType
  block_sig_response delta_range_open delta_range_chunk delta_range_end delta_error : MsgType
  file_open file_chunk file_end file_error file_batch_open file_batch_chunk file_batch_end : MsgType
  file_range_open file_range_data file_range_end sync_done file_range_error error : MsgType

unfoldable pub msg_byte : MsgType → ℕ
msg_byte hello = 1
msg_byte auth = 2
msg_byte auth_ok = 3
msg_byte auth_fail = 4
msg_byte session_join = 5
msg_byte check_auth = 6
msg_byte manifest_request = 10
msg_byte manifest_entry = 11
msg_byte manifest_end = 12
msg_byte manifest_progress = 13
msg_byte hash_request = 20
msg_byte hash_response = 21
msg_byte block_sig_request = 22
msg_byte block_sig_response = 23
msg_byte delta_range_open = 24
msg_byte delta_range_chunk = 25
msg_byte delta_range_end = 26
msg_byte delta_error = 27
msg_byte file_open = 30
msg_byte file_chunk = 31
msg_byte file_end = 32
msg_byte file_error = 33
msg_byte file_batch_open = 34
msg_byte file_batch_chunk = 35
msg_byte file_batch_end = 36
msg_byte file_range_open = 37
msg_byte file_range_data = 38
msg_byte file_range_end = 39
msg_byte sync_done = 40
msg_byte file_range_error = 41
msg_byte error = 255

msg_name : MsgType → String
msg_name hello = "Hello"
msg_name auth = "Auth"
msg_name auth_ok = "AuthOk"
msg_name auth_fail = "AuthFail"
msg_name session_join = "SessionJoin"
msg_name check_auth = "CheckAuth"
msg_name manifest_request = "ManifestRequest"
msg_name manifest_entry = "ManifestEntry"
msg_name manifest_end = "ManifestEnd"
msg_name manifest_progress = "ManifestProgress"
msg_name hash_request = "HashRequest"
msg_name hash_response = "HashResponse"
msg_name block_sig_request = "BlockSigRequest"
msg_name block_sig_response = "BlockSigResponse"
msg_name delta_range_open = "DeltaRangeOpen"
msg_name delta_range_chunk = "DeltaRangeChunk"
msg_name delta_range_end = "DeltaRangeEnd"
msg_name delta_error = "DeltaError"
msg_name file_open = "FileOpen"
msg_name file_chunk = "FileChunk"
msg_name file_end = "FileEnd"
msg_name file_error = "FileError"
msg_name file_batch_open = "FileBatchOpen"
msg_name file_batch_chunk = "FileBatchChunk"
msg_name file_batch_end = "FileBatchEnd"
msg_name file_range_open = "FileRangeOpen"
msg_name file_range_data = "FileRangeData"
msg_name file_range_end = "FileRangeEnd"
msg_name sync_done = "SyncDone"
msg_name file_range_error = "FileRangeError"
msg_name error = "Error"

-- The cases of the two switch statements, in their order.
pub msg_types : List MsgType
msg_types =
    hello ∷ auth ∷ auth_ok ∷ auth_fail ∷ session_join ∷ check_auth ∷ manifest_request
    ∷ manifest_entry ∷ manifest_end ∷ manifest_progress ∷ hash_request ∷ hash_response
    ∷ block_sig_request ∷ block_sig_response ∷ delta_range_open ∷ delta_range_chunk
    ∷ delta_range_end ∷ delta_error ∷ file_open ∷ file_chunk ∷ file_end ∷ file_error
    ∷ file_batch_open ∷ file_batch_chunk ∷ file_batch_end ∷ file_range_open ∷ file_range_data
    ∷ file_range_end ∷ sync_done ∷ file_range_error ∷ error ∷ []

name_in : ℕ → List MsgType → String
name_in b [] = "?"
name_in b (t ∷ ts) = let rest = name_in b ts in if msg_byte t == b then msg_name t else rest

known_in : ℕ → List MsgType → Bool
known_in b [] = false
known_in b (t ∷ ts) = let rest = known_in b ts in if msg_byte t == b then true else rest

pub msg_type_name : ℕ → String
unfolding name_in msg_byte msg_name msg_types
msg_type_name b = name_in b msg_types

unfoldable pub is_known_msg_type : ℕ → Bool
unfolding known_in msg_byte msg_types
is_known_msg_type b = known_in b msg_types

-- Every message type that the program sends is known.
pub is_known-msg_byte : (t : MsgType) → is_known_msg_type (msg_byte t) ≡ true
unfolding is_known_msg_type
is_known-msg_byte hello = refl
is_known-msg_byte auth = refl
is_known-msg_byte auth_ok = refl
is_known-msg_byte auth_fail = refl
is_known-msg_byte session_join = refl
is_known-msg_byte check_auth = refl
is_known-msg_byte manifest_request = refl
is_known-msg_byte manifest_entry = refl
is_known-msg_byte manifest_end = refl
is_known-msg_byte manifest_progress = refl
is_known-msg_byte hash_request = refl
is_known-msg_byte hash_response = refl
is_known-msg_byte block_sig_request = refl
is_known-msg_byte block_sig_response = refl
is_known-msg_byte delta_range_open = refl
is_known-msg_byte delta_range_chunk = refl
is_known-msg_byte delta_range_end = refl
is_known-msg_byte delta_error = refl
is_known-msg_byte file_open = refl
is_known-msg_byte file_chunk = refl
is_known-msg_byte file_end = refl
is_known-msg_byte file_error = refl
is_known-msg_byte file_batch_open = refl
is_known-msg_byte file_batch_chunk = refl
is_known-msg_byte file_batch_end = refl
is_known-msg_byte file_range_open = refl
is_known-msg_byte file_range_data = refl
is_known-msg_byte file_range_end = refl
is_known-msg_byte sync_done = refl
is_known-msg_byte file_range_error = refl
is_known-msg_byte error = refl
