-- ===== src/Wire/Bytes.antt =====
-- The Append* and Read* functions at the end of FastClone/protocol.cpp. A byte is a number below
-- 256. A buffer with a cursor is the list of the bytes that the cursor has not passed, so
-- `cursor + n <= buf.size()` reads `n ≤ length buf`. `v & 0xFF` is `v % 256`, `v >> 8` is `v / 256`,
-- and the `|` of bytes shifted to distinct places is their sum.
pub mod RoundTrip
pub mod Lists
use fast_clone.Prelude.{
  ℕ, zero, suc, ◌+◌, ◌*◌, ◌/◌, ◌%◌, ◌^◌, ◌<◌, String, List, [], ◌∷◌, ◌++◌, Result, ok, throw, ◌>>=◌,
  ◌>>◌, ensure, ltb, leb, if◌then◌else◌, length, take, drop, ℤ, to_u64, from_u64,
}

abbrev pub IsByte : ℕ → Type 0
IsByte b = b < 256

abbrev pub Reader {ℓ} : Type ℓ → Type ℓ
Reader A = List ℕ → Result (A × List ℕ)

-- The low `k` bytes of a value, lowest first.
unfoldable pub le_bytes : ℕ → ℕ → List ℕ
le_bytes zero v = []
le_bytes (suc k) v = (v % 256) ∷ le_bytes k (v / 256)

unfoldable pub le_value : List ℕ → ℕ
le_value [] = 0
le_value (b ∷ bs) = b + 256 * le_value bs

abbrev pub push_back : List ℕ → ℕ → List ℕ
push_back out b = out ++ b ∷ []

abbrev pub insert_end : List ℕ → List ℕ → List ℕ
insert_end out bs = out ++ bs

unfoldable pub append_u16 : List ℕ → ℕ → List ℕ
append_u16 out value = out ++ le_bytes 2 value

unfoldable pub append_u32 : List ℕ → ℕ → List ℕ
append_u32 out value = out ++ le_bytes 4 value

unfoldable pub append_u64 : List ℕ → ℕ → List ℕ
append_u64 out value = out ++ le_bytes 8 value

unfoldable pub append_i64 : List ℕ → ℤ → List ℕ
unfolding append_u64
append_i64 out value = append_u64 out (to_u64 value)

-- `Ensure(cursor + n <= buf.size(), message)`, then the next `n` bytes.
unfoldable pub read_chunk : String → ℕ → Reader (List ℕ)
read_chunk message n buf = do ensure (leb n (length buf)) message; ok (take n buf, drop n buf)

read_uint : String → ℕ → Reader ℕ
unfolding read_chunk le_value
read_uint message n buf = do (bs, rest) ← read_chunk message n buf; ok (le_value bs, rest)

unfoldable pub read_u16 : Reader ℕ
unfolding read_uint
read_u16 = read_uint "ReadU16 out of range" 2

unfoldable pub read_u32 : Reader ℕ
unfolding read_uint
read_u32 = read_uint "ReadU32 out of range" 4

unfoldable pub read_u64 : Reader ℕ
unfolding read_uint
read_u64 = read_uint "ReadU64 out of range" 8

unfoldable pub read_i64 : Reader ℤ
unfolding read_u64
read_i64 buf = do (v, rest) ← read_u64 buf; ok (from_u64 v, rest)

unfoldable pub append_string : List ℕ → List ℕ → Result (List ℕ)
unfolding append_u16 le_bytes
append_string out value =
    if ltb 65535 (length value)
    then throw "String too long"
    else ok (append_u16 out (length value) ++ value)

unfoldable pub read_string : Reader (List ℕ)
unfolding read_u16
read_string buf = do (len, rest) ← read_u16 buf; read_chunk "ReadString out of range" len rest

-- `if (cursor < payload.size()) field = payload[cursor++];` with the field's default 0.
unfoldable pub read_trailing_byte : List ℕ → ℕ × List ℕ
read_trailing_byte [] = (0, [])
read_trailing_byte (b ∷ rest) = (b, rest)

-- `if (cursor < payload.size()) field = ReadString(payload, cursor);` with the default "".
unfoldable pub read_trailing_string : Reader (List ℕ)
unfolding read_string
read_trailing_string [] = ok ([], [])
read_trailing_string (b ∷ rest) = read_string (b ∷ rest)
