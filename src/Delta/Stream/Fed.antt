-- ===== src/Delta/Stream/Fed.antt =====
-- What the parts of the signer's state stand for.
use fast_clone.Prelude.{
  ℕ, zero, suc, ◌+◌, ◌*◌, ◌%◌, ◌^◌, ◌<◌, ◌≡◌, refl, ap, sym, ◌∙◌, List, [], ◌∷◌, ◌++◌, length, drop,
  arith,
}
use fast_clone.Delta.Weak.{weak_loop}
use fast_clone.Delta.Sign.{sign_block, sign_blocks}
use fast_clone.Delta.Stream.{StreamHash, WeakSums, add_bytes}

module _ (h : StreamHash) where
  -- The state was reset and has been fed these bytes, in pieces.
  pub data Fed : h.State → List ℕ → Type 0 where
    begun : Fed h.reset []
    more :
        (s : h.State) (bytes piece : List ℕ) → Fed s bytes → Fed (h.feed s piece) (bytes ++ piece)

-- The sums in three variables go where the loop of `WeakInit` goes.
pub add_bytes-weak_loop :
    (xs ys : List ℕ) (w : WeakSums)
    → w.j + length xs < 2 ^ 32
    → weak_loop (xs ++ ys) w.j w.s1 w.s2
      ≡ weak_loop ys (add_bytes xs w).j (add_bytes xs w).s1 (add_bytes xs w).s2
unfolding weak_loop add_bytes
add_bytes-weak_loop [] ys w small = refl
add_bytes-weak_loop (x ∷ xs) ys w small =
    let w' : WeakSums = record {
      s1 = (w.s1 + x) % 2 ^ 32;
      s2 = (w.s2 + (w.j + 1) % 2 ^ 32 * x % 2 ^ 32) % 2 ^ 32;
      j = (w.j + 1) % 2 ^ 32;
    } in
    let place : w.j + 1 ≡ (w.j + 1) % 2 ^ 32 = omega arith in
    ap (λ k. weak_loop (xs ++ ys) k ((w.s1 + x) % 2 ^ 32) ((w.s2 + k * x % 2 ^ 32) % 2 ^ 32)) place
    ∙ add_bytes-weak_loop xs ys w' (omega arith)

pub add_bytes-j :
    (xs : List ℕ) (w : WeakSums) → w.j + length xs < 2 ^ 32 → (add_bytes xs w).j ≡ w.j + length xs
unfolding add_bytes
add_bytes-j [] w small = omega arith
add_bytes-j (x ∷ xs) w small =
    add_bytes-j xs
      (record {
        s1 = (w.s1 + x) % 2 ^ 32;
        s2 = (w.s2 + (w.j + 1) % 2 ^ 32 * x % 2 ^ 32) % 2 ^ 32;
        j = (w.j + 1) % 2 ^ 32;
      })
      (omega arith)
    ∙ omega arith

drop_none : (m : ℕ) → Path (List ℕ) (drop m []) []
drop_none zero = refl
drop_none (suc m) = refl

pub drop-drop : (m n : ℕ) (xs : List ℕ) → drop m (drop n xs) ≡ drop (n + m) xs
drop-drop m zero xs = let same : m ≡ 0 + m = omega arith in ap (λ k. drop k xs) same
drop-drop m (suc n) [] = drop_none m ∙ sym (drop_none (suc n + m))
drop-drop m (suc n) (x ∷ xs) =
    let next : suc (n + m) ≡ suc n + m = omega arith in
    drop-drop m n xs ∙ ap (λ k. drop k (x ∷ xs)) next

-- The blocks up to the next one.
pub sign_blocks-suc :
    (strong_hash : List ℕ → List ℕ) (bytes : List ℕ) (size j n : ℕ)
    → sign_blocks strong_hash bytes size j (n + 1)
      ≡ sign_blocks strong_hash bytes size j n ++ sign_blocks strong_hash bytes size (j + n) 1
unfolding sign_blocks
sign_blocks-suc strong_hash bytes size j zero =
    let one : 0 + 1 ≡ 1 = omega arith in
    let here : j ≡ j + 0 = omega arith in
    ap (sign_blocks strong_hash bytes size j) one
    ∙ ap (λ k. sign_blocks strong_hash bytes size k 1) here
sign_blocks-suc strong_hash bytes size j (suc n) =
    let up : suc n + 1 ≡ suc (n + 1) = omega arith in
    let there : j + 1 + n ≡ j + suc n = omega arith in
    ap (sign_blocks strong_hash bytes size j) up
    ∙ ap (◌∷◌ (sign_block strong_hash bytes size j)) (
        sign_blocks-suc strong_hash bytes size (j + 1) n
        ∙ ap
            (λ k.
              sign_blocks strong_hash bytes size (j + 1) n
              ++ sign_blocks strong_hash bytes size k 1)
            there)
