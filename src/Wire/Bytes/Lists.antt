-- ===== src/Wire/Bytes/Lists.antt =====
-- The `for` loops of FastClone/protocol_codec.cpp: append every element of a vector, read `count`
-- elements.
use fast_clone.Prelude.{
  map, ℕ, zero, suc, ◌≡◌, refl, List, [], ◌∷◌, ◌++◌, Result, ok, ◌>>=◌, length, All, append-nil,
  append_assoc, sym, ap,
}
use fast_clone.Wire.Bytes.{Reader}

module _ {ℓ} {A : Type ℓ} where
  pub for_each : (List ℕ → A → Result (List ℕ)) → List ℕ → List A → Result (List ℕ)
  for_each write out [] = ok out
  for_each write out (x ∷ xs) = do out' ← write out x; for_each write out' xs

  unfoldable pub read_many : Reader A → ℕ → Reader (List A)
  read_many read zero buf = ok ([], buf)
  read_many read (suc n) buf = do
    (x, rest) ← read buf
    (xs, rest') ← read_many read n rest
    ok (x ∷ xs, rest')

  unfoldable pub concat_map : (A → List ℕ) → List A → List ℕ
  concat_map bytes [] = []
  concat_map bytes (x ∷ xs) = bytes x ++ concat_map bytes xs

  -- An element with the bytes `bytes x` is written at the end and read at the front.
  module _ {κ} (P : A → Type κ) (bytes : A → List ℕ) where
    pub for_each_lem :
        (write : List ℕ → A → Result (List ℕ))
        → ((out : List ℕ) (x : A) → P x → write out x ≡ ok (out ++ bytes x))
        → (out : List ℕ) (xs : List A) → All P xs
        → for_each write out xs ≡ ok (out ++ concat_map bytes xs)
    unfolding for_each concat_map
    for_each_lem write h out [] p = ap ok (sym (append-nil out))
    for_each_lem write h out (x ∷ xs) p =
        rw (h out x p.0, for_each_lem write h (out ++ bytes x) xs p.1)
          (ap ok (append_assoc out (bytes x) (concat_map bytes xs)))

    pub read_many_lem :
        (read : Reader A)
        → ((x : A) (rest : List ℕ) → P x → read (bytes x ++ rest) ≡ ok (x, rest))
        → (xs : List A) (rest : List ℕ) → All P xs
        → read_many read (length xs) (concat_map bytes xs ++ rest) ≡ ok (xs, rest)
    unfolding read_many concat_map
    read_many_lem read h [] rest p = refl
    read_many_lem read h (x ∷ xs) rest p = rw (
      append_assoc (bytes x) (concat_map bytes xs) rest,
      h x (concat_map bytes xs ++ rest) p.0,
      read_many_lem read h xs rest p.1,
    )

    -- The same where what is read is a view of what was written.
    pub read_many_view :
        (view : A → A) (read : Reader A)
        → ((x : A) (rest : List ℕ) → P x → read (bytes x ++ rest) ≡ ok (view x, rest))
        → (xs : List A) (rest : List ℕ) → All P xs
        → read_many read (length xs) (concat_map bytes xs ++ rest) ≡ ok (map view xs, rest)
    unfolding read_many concat_map
    read_many_view view read h [] rest p = refl
    read_many_view view read h (x ∷ xs) rest p = rw (
      append_assoc (bytes x) (concat_map bytes xs) rest,
      h x (concat_map bytes xs ++ rest) p.0,
      read_many_view view read h xs rest p.1,
    )
