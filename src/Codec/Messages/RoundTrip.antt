-- ===== src/Codec/Messages/RoundTrip.antt =====
-- The manifest, hash, file, batch and range messages are decoded to what was encoded.
use fast_clone.Prelude.{
  ℕ, String, sym, ◌≤◌, ◌<◌, ◌^◌, ◌≡◌, refl, List, [], ◌∷◌, ◌++◌, arith, Bool, true, false, not, ok,
  ◌>>=◌, length, All, append-nil, le→leb, ◌==◌, IsI64, to_u64,
}
use fast_clone.Entry.{FileEntry, Hash256}
use fast_clone.Wire.Bytes.{Reader, le_bytes, append_string, read_string, read_chunk}
use fast_clone.Wire.Bytes.RoundTrip.{
  FitsU16, string_bytes, append_string_lem, read_string-string_bytes, read_chunk-append, wire_laws,
}
use fast_clone.Wire.Bytes.Lists.{read_many, concat_map, for_each_lem, read_many_lem}
use fast_clone.Codec.Messages.{
  flag_byte, encode_manifest_entry, decode_manifest_entry, encode_hash_response,
  decode_hash_response, encode_file_batch_request, decode_file_batch_request, BatchFileRecord,
  append_batch_file, encode_file_batch_open_response, read_batch_file,
  decode_file_batch_open_response, encode_delta_range_open, decode_delta_range_open,
  encode_file_range_open, decode_file_range_open, encode_hash_request, decode_hash_request,
  encode_file_open, decode_file_open, encode_block_sig_request, decode_block_sig_request,
  encode_delta_error, decode_delta_error, encode_file_range_error, decode_file_range_error,
}

flag_back : (b : Bool) → not (flag_byte b == 0) ≡ b
flag_back true = refl
flag_back false = refl

-- What the fields of a manifest entry can hold on the wire.
pub record EntryFits (entry : FileEntry) : Type 0 where
  pub relative_path : FitsU16 entry.relative_path
  pub file_size : entry.file_size < 2 ^ 64
  pub mtime_ns : IsI64 entry.mtime_ns

-- A manifest entry whose path, size and signed time fit their fields is decoded to itself.
pub manifest_entry_round_trip :
    (entry : FileEntry)
    → EntryFits entry
    → (encode_manifest_entry entry >>= decode_manifest_entry) ≡ ok entry
unfolding encode_manifest_entry decode_manifest_entry
manifest_entry_round_trip entry h =
    simp (wire_laws, h.relative_path, h.file_size, h.mtime_ns, flag_back)

-- Each message that is a path alone.
pub path_round_trip :
    (path : List ℕ)
    → FitsU16 path
    → ((encode_hash_request path >>= decode_hash_request) ≡ ok path)
      × ((encode_file_open path >>= decode_file_open) ≡ ok path)
      × ((encode_block_sig_request path >>= decode_block_sig_request) ≡ ok path)
      × ((encode_delta_error path >>= decode_delta_error) ≡ ok path)
      × ((encode_file_range_error path >>= decode_file_range_error) ≡ ok path)
unfolding encode_hash_request decode_hash_request encode_file_open decode_file_open
    encode_block_sig_request decode_block_sig_request encode_delta_error decode_delta_error
    encode_file_range_error decode_file_range_error
path_round_trip path h = (
  simp (wire_laws, h),
  simp (wire_laws, h),
  simp (wire_laws, h),
  simp (wire_laws, h),
  simp (wire_laws, h),
)

read_hash_last :
    (m : String) (hash : Hash256) → length hash ≡ 16 → read_chunk m 16 hash ≡ ok (hash, [])
read_hash_last m hash h = rw append-nil at (read_chunk-append m 16 hash [] (sym h))

-- A hash answer carries the path and the sixteen bytes of the digest.
pub hash_response_round_trip :
    (path : List ℕ) (hash : Hash256)
    → FitsU16 path
    → length hash ≡ 16
    → (encode_hash_response path hash >>= decode_hash_response) ≡ ok (path, hash)
unfolding encode_hash_response decode_hash_response
hash_response_round_trip path hash h k = simp (wire_laws, h, k, read_hash_last)

read_many_last {ℓ κ} :
    {A : Type ℓ} (P : A → Type κ) (bytes : A → List ℕ) (read : Reader A)
    → ((x : A) (rest : List ℕ) → P x → read (bytes x ++ rest) ≡ ok (x, rest))
    → (xs : List A) → All P xs
    → read_many read (length xs) (concat_map bytes xs) ≡ ok (xs, [])
read_many_last P bytes read h xs p = rw append-nil at (read_many_lem P bytes read h xs [] p)

-- A batch request for at most 65535 paths that fit a string is decoded to the same paths in the
-- same order.
pub batch_request_round_trip :
    (paths : List (List ℕ))
    → length paths ≤ 65535
    → All FitsU16 paths
    → (encode_file_batch_request paths >>= decode_file_batch_request) ≡ ok paths
unfolding encode_file_batch_request decode_file_batch_request
batch_request_round_trip paths h p =
    let count : length paths < 2 ^ 16 = omega arith in
    simp (
      wire_laws,
      le→leb (length paths) 65535 h,
      for_each_lem FitsU16 string_bytes append_string append_string_lem,
      read_many_last FitsU16 string_bytes read_string read_string-string_bytes,
      p,
      count,
    )

batch_file_bytes : BatchFileRecord → List ℕ
batch_file_bytes f =
    flag_byte f.server_ok
    ∷ (string_bytes f.relative_path ++ (le_bytes 8 f.file_size ++ le_bytes 8 (to_u64 f.mtime_ns)))

pub record BatchFileFits (file : BatchFileRecord) : Type 0 where
  pub relative_path : FitsU16 file.relative_path
  pub file_size : file.file_size < 2 ^ 64
  pub mtime_ns : IsI64 file.mtime_ns

append_batch_file_lem :
    (out : List ℕ) (f : BatchFileRecord)
    → BatchFileFits f
    → append_batch_file out f ≡ ok (out ++ batch_file_bytes f)
unfolding append_batch_file batch_file_bytes
append_batch_file_lem out f h = simp (wire_laws, h.relative_path)

read_batch_file-bytes :
    (f : BatchFileRecord) (rest : List ℕ)
    → BatchFileFits f
    → read_batch_file (batch_file_bytes f ++ rest) ≡ ok (f, rest)
unfolding read_batch_file batch_file_bytes
read_batch_file-bytes f rest h =
    simp (wire_laws, h.relative_path, h.file_size, h.mtime_ns, flag_back)

-- A batch answer of at most 65535 records that fit their fields is decoded to the same records
-- in the same order.
pub batch_open_response_round_trip :
    (files : List BatchFileRecord)
    → length files ≤ 65535
    → All BatchFileFits files
    → (encode_file_batch_open_response files >>= decode_file_batch_open_response) ≡ ok files
unfolding encode_file_batch_open_response decode_file_batch_open_response
batch_open_response_round_trip files h p =
    let count : length files < 2 ^ 16 = omega arith in
    simp (
      wire_laws,
      le→leb (length files) 65535 h,
      for_each_lem BatchFileFits batch_file_bytes append_batch_file append_batch_file_lem,
      read_many_last BatchFileFits batch_file_bytes read_batch_file read_batch_file-bytes,
      p,
      count,
    )

-- Both range requests carry a path that fits a string, a 64-bit offset and a 64-bit length.
pub range_open_round_trip :
    (path : List ℕ) (offset len : ℕ)
    → FitsU16 path
    → offset < 2 ^ 64
    → len < 2 ^ 64
    → ((encode_delta_range_open (record { rel_path = path; offset = offset; length = len })
          >>= decode_delta_range_open)
        ≡ ok (record { rel_path = path; offset = offset; length = len }))
      × ((encode_file_range_open (record { rel_path = path; offset = offset; length = len })
            >>= decode_file_range_open)
          ≡ ok (record { rel_path = path; offset = offset; length = len }))
unfolding encode_delta_range_open decode_delta_range_open encode_file_range_open
    decode_file_range_open
range_open_round_trip path offset len h k l = (simp (wire_laws, h, k, l), simp (wire_laws, h, k, l))
