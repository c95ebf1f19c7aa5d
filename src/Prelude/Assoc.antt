-- ===== src/Prelude/Assoc.antt =====
-- Maps from numbers as association lists: what a `std::unordered_map` is used for.
use Prim.Native.Nat.{ℕ}
use mathlib.Core.Path.{◌≡◌, refl}
use mathlib.Core.List.{List, [], ◌∷◌}
use mathlib.Core.Option.{Option, none, some}
use native.Mathlib.Omega.{arith}
use fast_clone.Prelude.Tests.{◌==◌, if◌then◌else◌}

module _ {ℓ} {A : Type ℓ} where
  unfoldable pub lookup : ℕ → List (ℕ × A) → Option A
  lookup key [] = none
  lookup key (entry ∷ rest) =
      let later = lookup key rest in if entry.0 == key then some entry.1 else later

  -- `map[key] = value`.
  unfoldable pub insert : ℕ → A → List (ℕ × A) → List (ℕ × A)
  insert key value [] = (key, value) ∷ []
  insert key value (entry ∷ rest) =
      let later = insert key value rest in
      if entry.0 == key then (key, value) ∷ rest else entry ∷ later

  unfoldable pub erase : ℕ → List (ℕ × A) → List (ℕ × A)
  erase key [] = []
  erase key (entry ∷ rest) =
      let later = erase key rest in if entry.0 == key then later else entry ∷ later

  pub lookup-insert :
      (key other : ℕ) (value : A) (map : List (ℕ × A))
      → lookup other (insert key value map)
        ≡ (if key == other then some value else lookup other map)
  unfolding insert lookup
  lookup-insert key other value [] = refl
  lookup-insert key other value (entry ∷ rest) = ground (lookup-insert key other value rest, arith)

  pub lookup-erase :
      (key other : ℕ) (map : List (ℕ × A))
      → lookup other (erase key map) ≡ (if key == other then none else lookup other map)
  unfolding erase lookup
  lookup-erase key other [] = ground arith
  lookup-erase key other (entry ∷ rest) = ground (lookup-erase key other rest, arith)
