-- ===== src/Delta/Weak/Rolling.antt =====
-- Rolling the window by one byte gives what the sum over the new window gives.
use fast_clone.Prelude.{ℕ, suc, ◌+◌, ◌*◌, ◌%◌, ◌^◌, ◌≡◌, refl, List, [], ◌∷◌, ◌++◌, arith, length}
use fast_clone.Wire.Bytes.{IsByte}
use fast_clone.Delta.Weak.{RollingWeak, weak_loop, weak_init, weak_roll}

-- The plain sum, and the sum with weights `k + 1`, `k + 2`, ….
pub sum : List ℕ → ℕ
sum [] = 0
sum (x ∷ xs) = x + sum xs

pub weighted : ℕ → List ℕ → ℕ
weighted k [] = 0
weighted k (x ∷ xs) = (k + 1) * x + weighted (k + 1) xs

-- The checksum without intermediate overflow.
pub weak_spec : List ℕ → RollingWeak
weak_spec window = record { s1 = sum window % 2 ^ 16; s2 = weighted 0 window % 2 ^ 16 }

weak_loop_lem :
    (xs : List ℕ) (j s1 s2 : ℕ)
    → ((weak_loop xs j s1 s2).s1 ≡ (s1 + sum xs) % 2 ^ 16)
      × ((weak_loop xs j s1 s2).s2 ≡ (s2 + weighted j xs) % 2 ^ 16)
unfolding weak_loop sum weighted
weak_loop_lem [] j s1 s2 = omega arith
weak_loop_lem (x ∷ xs) j s1 s2 =
    let ih = weak_loop_lem xs (j + 1) ((s1 + x) % 2 ^ 32) ((s2 + (j + 1) * x % 2 ^ 32) % 2 ^ 32) in
    (omega (arith, ih.0), omega (arith, ih.1))

-- Wrapping at 2^32 on the way does not show in the sixteen bits that are kept.
pub weak_init_lem : (window : List ℕ) → weak_init window ≡ weak_spec window
unfolding weak_init weak_spec
weak_init_lem window = ground (arith, weak_loop_lem window 0 0 0)

weighted-shift : (k : ℕ) (xs : List ℕ) → weighted (k + 1) xs ≡ weighted k xs + sum xs
unfolding weighted sum
weighted-shift k [] = refl
weighted-shift k (x ∷ xs) = omega (arith, weighted-shift (k + 1) xs)

weighted-snoc :
    (k : ℕ) (xs : List ℕ) (y : ℕ)
    → weighted k (xs ++ y ∷ []) ≡ weighted k xs + (k + length xs + 1) * y
unfolding weighted
weighted-snoc k [] y = omega arith
weighted-snoc k (x ∷ xs) y = omega (arith, weighted-snoc (k + 1) xs y)

sum-snoc : (xs : List ℕ) (y : ℕ) → sum (xs ++ y ∷ []) ≡ sum xs + y
unfolding sum
sum-snoc [] y = omega arith
sum-snoc (x ∷ xs) y = omega (arith, sum-snoc xs y)

roll_spec :
    (out_byte in_byte : ℕ) (mid : List ℕ)
    → IsByte out_byte
    → weak_roll (weak_spec (out_byte ∷ mid)) out_byte in_byte (suc (length mid))
      ≡ weak_spec (mid ++ in_byte ∷ [])
unfolding weak_roll weak_spec sum weighted
roll_spec out_byte in_byte mid h =
    ground (arith, sum-snoc mid in_byte, weighted-snoc 0 mid in_byte, weighted-shift 0 mid)

-- Advancing the window by one byte in constant time gives the checksum that is computed from the
-- new window, when the byte that leaves is a byte.
pub weak_roll_lem :
    (out_byte in_byte : ℕ) (mid : List ℕ)
    → IsByte out_byte
    → weak_roll (weak_init (out_byte ∷ mid)) out_byte in_byte (length (out_byte ∷ mid))
      ≡ weak_init (mid ++ in_byte ∷ [])
weak_roll_lem out_byte in_byte mid h =
    rw (weak_init_lem (out_byte ∷ mid), weak_init_lem (mid ++ in_byte ∷ []))
      (roll_spec out_byte in_byte mid h)
