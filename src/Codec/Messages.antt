-- ===== src/Codec/Messages.antt =====
-- FastClone/protocol_codec.cpp, the manifest, hash, file, batch and range messages.
pub mod RoundTrip
use fast_clone.Prelude.{
  ℕ, suc, ◌≤◌, List, [], ◌∷◌, ◌++◌, Bool, true, false, not, ℤ, Result, ok, throw, ◌>>=◌, ◌>>◌,
  ensure, leb, ◌==◌, if◌then◌else◌, length,
}
use fast_clone.Entry.{FileEntry, Hash256}
use fast_clone.Wire.Bytes.{
  Reader, push_back, insert_end, append_u16, append_u64, append_i64, append_string, read_u16,
  read_u64, read_i64, read_string, read_chunk,
}
use fast_clone.Wire.Bytes.Lists.{for_each, read_many}

abbrev pub flag_byte : Bool → ℕ
flag_byte b = if b then 1 else 0

abbrev pub flag_of : ℕ → Bool
flag_of b = not (b == 0)

pub encode_manifest_entry : FileEntry → Result (List ℕ)
encode_manifest_entry entry = do
  payload ← append_string (push_back [] (flag_byte entry.is_directory)) entry.relative_path
  ok (append_i64 (append_u64 payload entry.file_size) entry.mtime_ns)

pub decode_manifest_entry : List ℕ → Result FileEntry
decode_manifest_entry [] = throw "Manifest payload too short"
decode_manifest_entry (b ∷ buf) = do
  (relative_path, rest) ← read_string buf
  (file_size, rest) ← read_u64 rest
  (mtime_ns, _) ← read_i64 rest
  ok (record {
    relative_path = relative_path;
    is_directory = flag_of b;
    file_size = file_size;
    mtime_ns = mtime_ns;
  })

-- The path of a message that holds nothing else.
read_path : List ℕ → Result (List ℕ)
read_path payload = do (path, _) ← read_string payload; ok path

pub encode_hash_request : List ℕ → Result (List ℕ)
encode_hash_request rel_path = append_string [] rel_path

pub decode_hash_request : List ℕ → Result (List ℕ)
unfolding read_path
decode_hash_request payload = read_path payload

pub encode_file_open : List ℕ → Result (List ℕ)
encode_file_open rel_path = append_string [] rel_path

pub decode_file_open : List ℕ → Result (List ℕ)
unfolding read_path
decode_file_open payload = read_path payload

pub encode_block_sig_request : List ℕ → Result (List ℕ)
encode_block_sig_request rel_path = append_string [] rel_path

pub decode_block_sig_request : List ℕ → Result (List ℕ)
unfolding read_path
decode_block_sig_request payload = read_path payload

pub encode_delta_error : List ℕ → Result (List ℕ)
encode_delta_error rel_path = append_string [] rel_path

pub decode_delta_error : List ℕ → Result (List ℕ)
unfolding read_path
decode_delta_error payload = read_path payload

pub encode_file_range_error : List ℕ → Result (List ℕ)
encode_file_range_error rel_path = append_string [] rel_path

pub decode_file_range_error : List ℕ → Result (List ℕ)
unfolding read_path
decode_file_range_error payload = read_path payload

pub encode_hash_response : List ℕ → Hash256 → Result (List ℕ)
encode_hash_response rel_path hash = do
  payload ← append_string [] rel_path
  ok (insert_end payload hash)

pub decode_hash_response : List ℕ → Result (List ℕ × Hash256)
decode_hash_response payload = do
  (path, rest) ← read_string payload
  (hash, _) ← read_chunk "Hash response payload invalid" 16 rest
  ok (path, hash)

pub encode_file_batch_request : List (List ℕ) → Result (List ℕ)
encode_file_batch_request rel_paths = do
  ensure (leb (length rel_paths) 65535) "Batch request too large"
  for_each append_string (append_u16 [] (length rel_paths)) rel_paths

pub decode_file_batch_request : List ℕ → Result (List (List ℕ))
decode_file_batch_request payload = do
  (count, rest) ← read_u16 payload
  (rel_paths, _) ← read_many read_string count rest
  ok rel_paths

-- `absPath` is the server's own and never on the wire.
pub record BatchFileRecord : Type 0 where
  pub relative_path : List ℕ
  pub file_size : ℕ
  pub mtime_ns : ℤ
  pub server_ok : Bool

append_batch_file : List ℕ → BatchFileRecord → Result (List ℕ)
append_batch_file payload file = do
  payload ← append_string (push_back payload (flag_byte file.server_ok)) file.relative_path
  ok (append_i64 (append_u64 payload file.file_size) file.mtime_ns)

pub encode_file_batch_open_response : List BatchFileRecord → Result (List ℕ)
encode_file_batch_open_response files = do
  ensure (leb (length files) 65535) "Batch response too large"
  for_each append_batch_file (append_u16 [] (length files)) files

read_batch_file : Reader BatchFileRecord
read_batch_file [] = throw "Batch open response invalid"
read_batch_file (b ∷ buf) = do
  (relative_path, rest) ← read_string buf
  (file_size, rest) ← read_u64 rest
  (mtime_ns, rest) ← read_i64 rest
  ok (
    record {
      relative_path = relative_path;
      file_size = file_size;
      mtime_ns = mtime_ns;
      server_ok = flag_of b;
    },
    rest,
  )

pub decode_file_batch_open_response : List ℕ → Result (List BatchFileRecord)
decode_file_batch_open_response payload = do
  (count, rest) ← read_u16 payload
  (files, _) ← read_many read_batch_file count rest
  ok files

pub record DeltaRangeRequest : Type 0 where
  pub rel_path : List ℕ
  pub offset : ℕ
  pub length : ℕ

pub encode_delta_range_open : DeltaRangeRequest → Result (List ℕ)
encode_delta_range_open req = do
  payload ← append_string [] req.rel_path
  ok (append_u64 (append_u64 payload req.offset) req.length)

pub decode_delta_range_open : List ℕ → Result DeltaRangeRequest
decode_delta_range_open payload = do
  (rel_path, rest) ← read_string payload
  (offset, rest) ← read_u64 rest
  (len, _) ← read_u64 rest
  ok (record { rel_path = rel_path; offset = offset; length = len })

pub record FileRangeOpenReq : Type 0 where
  pub rel_path : List ℕ
  pub offset : ℕ
  pub length : ℕ

pub encode_file_range_open : FileRangeOpenReq → Result (List ℕ)
encode_file_range_open req = do
  payload ← append_string [] req.rel_path
  ok (append_u64 (append_u64 payload req.offset) req.length)

pub decode_file_range_open : List ℕ → Result FileRangeOpenReq
decode_file_range_open payload = do
  (rel_path, rest) ← read_string payload
  (offset, rest) ← read_u64 rest
  (len, _) ← read_u64 rest
  ok (record { rel_path = rel_path; offset = offset; length = len })
