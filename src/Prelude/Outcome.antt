-- ===== src/Prelude/Outcome.antt =====
-- A C++ function that may throw `std::runtime_error(message)`.
use Prim.Native.String.{String}
use mathlib.Core.Path.{◌≡◌, refl}
use mathlib.Core.Bool.{Bool, true, false}

pub data Result {ℓ} (A : Type ℓ) : Type ℓ where
  ok : A → Result A
  throw : String → Result A

infixl 5 ◌>>=◌ ◌>>◌
abbrev pub ◌>>=◌ {ℓ κ} : {A : Type ℓ} {B : Type κ} → Result A → (A → Result B) → Result B
ok a >>= f = f a
throw e >>= f = throw e

abbrev pub ◌>>◌ {ℓ} : {B : Type ℓ} → Result (Unit {0}) → Result B → Result B
m >> k = m >>= λ _. k

abbrev pub ensure : Bool → String → Result (Unit {0})
ensure true e = ok tt
ensure false e = throw e

-- A chain that returns: its first call returned, and so did the rest on that value.
pub bind_returns {ℓ κ} :
    {V : Type ℓ} {W : Type κ} {w : W} {rest : V → Result W} (first : Result V)
    → (first >>= rest) ≡ ok w
    → (v : V) × (rest v ≡ ok w) × (first ≡ ok v)
bind_returns (throw message) returned = cc
bind_returns (ok v) returned = (v, returned, refl)
