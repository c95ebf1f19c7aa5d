-- ===== src/Wire/Bytes/RoundTrip.antt =====
-- What is appended is read back, and the readers fail on exactly the short buffers.
use native.Mathlib.Nat.{pow-suc}
use fast_clone.Prelude.{
  ℕ, zero, suc, ◌+◌, ◌*◌, ◌/◌, ◌%◌, ◌^◌, ◌≤◌, ◌<◌, ◌≡◌, refl, ap, sym, ◌∙◌, String, List, [], ◌∷◌,
  ◌++◌, arith, Result, ok, throw, ◌>>=◌, ltb, leb, le→leb, length, take, drop, length-append,
  take_append, drop_append, append_assoc, append-nil, take-append-drop, length-take, length-drop,
  All, ℤ, to_u64, from_u64, IsI64, to_u64_bound, from_u64-to_u64, Bool-cases, inl, inr, leb→le,
}
use fast_clone.Wire.Bytes.{
  IsByte, le_bytes, le_value, append_u16, append_u32, append_u64, append_i64, read_chunk, read_uint,
  read_u16, read_u32, read_u64, read_i64, append_string, read_string, read_trailing_string,
}

pub length-le_bytes : (k v : ℕ) → length (le_bytes k v) ≡ k
unfolding le_bytes
length-le_bytes zero v = refl
length-le_bytes (suc k) v = ap suc (length-le_bytes k (v / 256))

div_bound : (k v : ℕ) → v < 256 ^ suc k → v / 256 < 256 ^ k
div_bound k v h = omega (arith, pow-suc 256 k)

pub le_value-le_bytes : (k v : ℕ) → v < 256 ^ k → le_value (le_bytes k v) ≡ v
unfolding le_bytes le_value
le_value-le_bytes zero v h = omega arith
le_value-le_bytes (suc k) v h = omega (arith, le_value-le_bytes k (v / 256) (div_bound k v h))

pub le_bytes-IsByte : (k v : ℕ) → All IsByte (le_bytes k v)
unfolding le_bytes
le_bytes-IsByte zero v = tt
le_bytes-IsByte (suc k) v = (omega arith, le_bytes-IsByte k (v / 256))

pub le_bytes-le_value : (bs : List ℕ) → All IsByte bs → le_bytes (length bs) (le_value bs) ≡ bs
unfolding le_bytes le_value
le_bytes-le_value [] h = refl
le_bytes-le_value (b ∷ bs) h =
    let low : (b + 256 * le_value bs) % 256 ≡ b = omega arith in
    let high : (b + 256 * le_value bs) / 256 ≡ le_value bs = omega arith in
    rw (low, high, le_bytes-le_value bs h.1)

pub read_chunk-append :
    (m : String) (n : ℕ) (xs ys : List ℕ) → n ≡ length xs → read_chunk m n (xs ++ ys) ≡ ok (xs, ys)
unfolding read_chunk
read_chunk-append m n xs ys e =
    rw e (ground (arith, length-append xs ys, take_append xs ys, drop_append xs ys))

read_uint-le_bytes :
    (m : String) (k v : ℕ) (rest : List ℕ)
    → v < 256 ^ k
    → read_uint m k (le_bytes k v ++ rest) ≡ ok (v, rest)
unfolding read_uint
read_uint-le_bytes m k v rest h =
    rw (read_chunk-append m k (le_bytes k v) rest (sym (length-le_bytes k v)))
      (ap (λ (x : ℕ). ok (x, rest)) (le_value-le_bytes k v h))

pub read_u16-le_bytes :
    (v : ℕ) (rest : List ℕ) → v < 2 ^ 16 → read_u16 (le_bytes 2 v ++ rest) ≡ ok (v, rest)
unfolding read_u16
read_u16-le_bytes v rest h = read_uint-le_bytes _ 2 v rest h

pub read_u32-le_bytes :
    (v : ℕ) (rest : List ℕ) → v < 2 ^ 32 → read_u32 (le_bytes 4 v ++ rest) ≡ ok (v, rest)
unfolding read_u32
read_u32-le_bytes v rest h = read_uint-le_bytes _ 4 v rest h

pub read_u64-le_bytes :
    (v : ℕ) (rest : List ℕ) → v < 2 ^ 64 → read_u64 (le_bytes 8 v ++ rest) ≡ ok (v, rest)
unfolding read_u64
read_u64-le_bytes v rest h = read_uint-le_bytes _ 8 v rest h

pub read_i64-le_bytes :
    (v : ℤ) (rest : List ℕ) → IsI64 v → read_i64 (le_bytes 8 (to_u64 v) ++ rest) ≡ ok (v, rest)
unfolding read_i64
read_i64-le_bytes v rest h =
    rw (read_u64-le_bytes (to_u64 v) rest (to_u64_bound v h))
      (ap (λ (x : ℤ). ok (x, rest)) (from_u64-to_u64 v h))

-- A string's bytes on the wire.
pub string_bytes : List ℕ → List ℕ
string_bytes s = le_bytes 2 (length s) ++ s

abbrev pub FitsU16 : List ℕ → Type 0
FitsU16 s = length s ≤ 65535

pub append_string_lem :
    (out s : List ℕ) → FitsU16 s → append_string out s ≡ ok (out ++ string_bytes s)
unfolding append_string string_bytes
append_string_lem out s h = ground (arith, append_assoc out (le_bytes 2 (length s)) s)

pub append_string_throws :
    (out s : List ℕ) → 65535 < length s → append_string out s ≡ throw "String too long"
unfolding append_string
append_string_throws out s h = ground arith

pub read_string-string_bytes :
    (s rest : List ℕ) → FitsU16 s → read_string (string_bytes s ++ rest) ≡ ok (s, rest)
unfolding read_string string_bytes
read_string-string_bytes s rest h =
    rw
      (
        append_assoc (le_bytes 2 (length s)) s rest,
        read_u16-le_bytes (length s) (s ++ rest) (omega arith),
      )
      (read_chunk-append _ (length s) s rest refl)

pub read_trailing_string-string_bytes :
    (s rest : List ℕ) → FitsU16 s → read_trailing_string (string_bytes s ++ rest) ≡ ok (s, rest)
unfolding read_trailing_string string_bytes le_bytes
read_trailing_string-string_bytes s rest h = read_string-string_bytes s rest h

-- The same where the string ends the buffer.
pub read_trailing_string_last :
    (s : List ℕ) → FitsU16 s → read_trailing_string (string_bytes s) ≡ ok (s, [])
read_trailing_string_last s h = rw append-nil at (read_trailing_string-string_bytes s [] h)

pub read_string_last : (s : List ℕ) → FitsU16 s → read_string (string_bytes s) ≡ ok (s, [])
read_string_last s h = rw append-nil at (read_string-string_bytes s [] h)

pub read_u64_last : (v : ℕ) → v < 2 ^ 64 → read_u64 (le_bytes 8 v) ≡ ok (v, [])
read_u64_last v h = rw append-nil at (read_u64-le_bytes v [] h)

pub read_i64_last : (v : ℤ) → IsI64 v → read_i64 (le_bytes 8 (to_u64 v)) ≡ ok (v, [])
read_i64_last v h = rw append-nil at (read_i64-le_bytes v [] h)

pub append_u16_lem : (out : List ℕ) (v : ℕ) → append_u16 out v ≡ out ++ le_bytes 2 v
unfolding append_u16
append_u16_lem out v = refl

pub append_u32_lem : (out : List ℕ) (v : ℕ) → append_u32 out v ≡ out ++ le_bytes 4 v
unfolding append_u32
append_u32_lem out v = refl

pub append_u64_lem : (out : List ℕ) (v : ℕ) → append_u64 out v ≡ out ++ le_bytes 8 v
unfolding append_u64
append_u64_lem out v = refl

pub append_i64_lem : (out : List ℕ) (v : ℤ) → append_i64 out v ≡ out ++ le_bytes 8 (to_u64 v)
unfolding append_i64
append_i64_lem out v = refl

-- `simp` with these and the range hypotheses runs an encoder and the decoder behind it.
pub ruleset wire_laws = (
  append_u16_lem, append_u32_lem, append_u64_lem, append_i64_lem, append_string_lem, append_assoc,
  read_u16-le_bytes, read_u32-le_bytes, read_u64-le_bytes, read_i64-le_bytes, read_u64_last,
  read_i64_last, read_string-string_bytes, read_string_last, read_trailing_string-string_bytes,
  read_trailing_string_last,
)

pub string_bytes_lem : (s : List ℕ) → string_bytes s ≡ (length s % 256) ∷ (length s / 256 % 256) ∷ s
unfolding string_bytes le_bytes
string_bytes_lem s = refl

-- A chunk that is read has the length asked for, and the rest is what follows it.
pub read_chunk_takes :
    (m : String) (n : ℕ) (buf xs rest : List ℕ)
    → read_chunk m n buf ≡ ok (xs, rest)
    → (length xs ≡ n) × (length buf ≡ n + length rest)
unfolding read_chunk
read_chunk_takes m n buf xs rest e = ground (arith, length-take n buf, length-drop n buf)

pub read_chunk-prefix :
    (m : String) (n : ℕ) (buf xs rest : List ℕ)
    → read_chunk m n buf ≡ ok (xs, rest)
    → (xs ≡ take n buf) × (buf ≡ xs ++ rest)
unfolding read_chunk
read_chunk-prefix m n buf xs rest e =
    let parts : (take n buf ≡ xs) × (drop n buf ≡ rest) = ground arith in
    (sym parts.0, sym (take-append-drop n buf) ∙ cc (parts.0, parts.1))
