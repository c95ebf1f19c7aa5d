-- ===== src/Codec/Signatures/RoundTrip.antt =====
-- A signature set crosses the wire with its strong checksums cut to the agreed length.
use fast_clone.Prelude.{
  ℕ, String, ◌-◌, ◌≤◌, ◌<◌, ◌^◌, ◌≡◌, sym, List, [], ◌++◌, map, arith, ok, ◌>>=◌, length, All,
  append-nil, le→leb, ==_iff, take, replicate, length-take,
}
use fast_clone.Entry.{Hash256}
use fast_clone.Delta.Signature.{BlockSig, SignatureSet}
use fast_clone.Wire.Bytes.{le_bytes}
use fast_clone.Wire.Bytes.RoundTrip.{FitsU16, read_chunk-append, wire_laws}
use fast_clone.Wire.Bytes.Lists.{read_many, concat_map, for_each_lem, read_many_view}
use fast_clone.Codec.Signatures.{
  append_block_sig, encode_block_sig_response, read_block_sig, read_strong_len,
  decode_block_sig_response,
}

-- What the client holds of a block: the strong checksum past `n` bytes is zero.
pub cut_block : ℕ → BlockSig → BlockSig
cut_block n bs = record bs { strong = take n bs.strong ++ replicate (16 - n) 0 }

pub cut_sig : SignatureSet → SignatureSet
cut_sig sig = record sig { blocks = map (cut_block sig.strong_len) sig.blocks }

pub record BlockFits (bs : BlockSig) : Type 0 where
  pub weak : bs.weak < 2 ^ 32
  pub strong : length bs.strong ≡ 16

block_bytes : ℕ → BlockSig → List ℕ
block_bytes n bs = le_bytes 4 bs.weak ++ take n bs.strong

append_block_sig_lem :
    (n : ℕ) (out : List ℕ) (bs : BlockSig)
    → BlockFits bs
    → append_block_sig n out bs ≡ ok (out ++ block_bytes n bs)
unfolding append_block_sig block_bytes
append_block_sig_lem n out bs h = simp wire_laws

read_block_sig-bytes :
    (n : ℕ) (bs : BlockSig) (rest : List ℕ)
    → n ≤ 16
    → BlockFits bs
    → read_block_sig n (block_bytes n bs ++ rest) ≡ ok (cut_block n bs, rest)
unfolding read_block_sig block_bytes cut_block
read_block_sig-bytes n bs rest k h =
    let chunk = λ (m : String).
      read_chunk-append m n (take n bs.strong) rest
        (omega (arith, length-take n bs.strong, h.strong)) in
    simp (wire_laws, h.weak, chunk)

read_blocks :
    (n : ℕ) (blocks : List BlockSig)
    → n ≤ 16
    → All BlockFits blocks
    → read_many (read_block_sig n) (length blocks) (concat_map (block_bytes n) blocks)
      ≡ ok (map (cut_block n) blocks, [])
read_blocks n blocks k h = rw append-nil at (
    read_many_view BlockFits (block_bytes n) (cut_block n) (read_block_sig n)
      (λ bs rest f. read_block_sig-bytes n bs rest k f) blocks [] h)

-- What the fields of a BlockSigResponse can hold, and what the encoder checks.
pub record SigFits (sig : SignatureSet) : Type 0 where
  pub file_size : sig.file_size < 2 ^ 64
  pub block_size : sig.block_size < 2 ^ 32
  pub block_count : sig.block_count < 2 ^ 32
  pub strong_len : sig.strong_len ≤ 16
  pub counted : length sig.blocks ≡ sig.block_count
  pub blocks : All BlockFits sig.blocks

-- A block signature answer whose path fits a string, whose hash has sixteen bytes and whose
-- fields fit their widths is decoded to the same answer, with every strong checksum cut to the
-- significant bytes and filled up with zeros.
pub block_sig_response_round_trip :
    (path : List ℕ) (hash : Hash256) (sig : SignatureSet)
    → FitsU16 path
    → length hash ≡ 16
    → SigFits sig
    → (encode_block_sig_response path hash sig >>= decode_block_sig_response)
      ≡ ok (record { rel_path = path; file_hash = hash; sig = cut_sig sig })
unfolding encode_block_sig_response decode_block_sig_response read_strong_len cut_sig
block_sig_response_round_trip path hash sig h k f = simp (
  wire_laws,
  h,
  f.file_size,
  f.block_size,
  f.block_count,
  le→leb sig.strong_len 16 f.strong_len,
  (==_iff (length sig.blocks) sig.block_count).1 f.counted,
  λ (m : String) (rest : List ℕ). read_chunk-append m 16 hash rest (sym k),
  for_each_lem BlockFits (block_bytes sig.strong_len) (append_block_sig sig.strong_len)
      (append_block_sig_lem sig.strong_len),
  rw f.counted at (read_blocks sig.strong_len sig.blocks f.strong_len f.blocks),
  f.blocks,
)
