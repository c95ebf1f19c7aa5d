-- ===== src/Codec/Signatures.antt =====
-- FastClone/protocol_codec.cpp, the BlockSigResponse message: a file's hash and signature set.
pub mod RoundTrip
use fast_clone.Prelude.{
  ℕ, ◌-◌, List, [], ◌∷◌, ◌++◌, Result, ok, throw, ◌>>=◌, ◌>>◌, ensure, leb, ◌==◌, length, take,
  replicate,
}
use fast_clone.Entry.{Hash256}
use fast_clone.Delta.Signature.{BlockSig, SignatureSet}
use fast_clone.Wire.Bytes.{
  Reader, push_back, insert_end, append_u32, append_u64, append_string, read_u32, read_u64,
  read_string, read_chunk,
}
use fast_clone.Wire.Bytes.Lists.{for_each, read_many}

pub record BlockSigResponseInfo : Type 0 where
  pub rel_path : List ℕ
  pub file_hash : Hash256
  pub sig : SignatureSet

append_block_sig : ℕ → List ℕ → BlockSig → Result (List ℕ)
append_block_sig strong_len payload bs =
    ok (insert_end (append_u32 payload bs.weak) (take strong_len bs.strong))

pub encode_block_sig_response : List ℕ → Hash256 → SignatureSet → Result (List ℕ)
encode_block_sig_response rel_path file_hash sig = do
  ensure (leb sig.strong_len 16) "BlockSigResponse strongLen out of range"
  ensure (length sig.blocks == sig.block_count) "BlockSigResponse block count mismatch"
  payload ← append_string [] rel_path
  let payload = append_u64 (insert_end payload file_hash) sig.file_size
  let payload = append_u32 (append_u32 payload sig.block_size) sig.block_count
  for_each (append_block_sig sig.strong_len) (push_back payload sig.strong_len) sig.blocks

-- `bs.strong` starts as sixteen zero bytes, and the first `strong_len` are copied over.
read_block_sig : ℕ → Reader BlockSig
read_block_sig strong_len buf = do
  (weak, rest) ← read_u32 buf
  (strong, rest) ← read_chunk "BlockSigResponse strong checksum truncated" strong_len rest
  ok (record { weak = weak; strong = strong ++ replicate (16 - strong_len) 0 }, rest)

read_strong_len : Reader ℕ
read_strong_len [] = throw "BlockSigResponse payload truncated"
read_strong_len (b ∷ rest) = ok (b, rest)

pub decode_block_sig_response : List ℕ → Result BlockSigResponseInfo
unfolding read_strong_len
decode_block_sig_response payload = do
  (rel_path, rest) ← read_string payload
  (file_hash, rest) ← read_chunk "BlockSigResponse file hash truncated" 16 rest
  (file_size, rest) ← read_u64 rest
  (block_size, rest) ← read_u32 rest
  (block_count, rest) ← read_u32 rest
  (strong_len, rest) ← read_strong_len rest
  ensure (leb strong_len 16) "BlockSigResponse strongLen out of range"
  (blocks, _) ← read_many (read_block_sig strong_len) block_count rest
  ok (record {
    rel_path = rel_path;
    file_hash = file_hash;
    sig = record {
      file_size = file_size;
      block_size = block_size;
      block_count = block_count;
      strong_len = strong_len;
      blocks = blocks;
    };
  })
