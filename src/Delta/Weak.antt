-- ===== src/Delta/Weak.antt =====
-- The rolling weak checksum of FastClone/delta.cpp. `WeakInit(p, L)` reads the `L` bytes of a
-- window, which is a list here. `uint32_t` arithmetic wraps at 2^32.
pub mod Rolling
use Prim.Native.Nat.{bit_xor}
use fast_clone.Prelude.{ℕ, ◌+◌, ◌-◌, ◌*◌, ◌/◌, ◌%◌, ◌^◌, List, [], ◌∷◌}

pub record RollingWeak : Type 0 where
  pub s1 : ℕ
  pub s2 : ℕ

abbrev pub weak_value : RollingWeak → ℕ
weak_value w = w.s2 % 2 ^ 16 * 2 ^ 16 + w.s1 % 2 ^ 16

-- The loop, from position `j` on.
unfoldable pub weak_loop : List ℕ → ℕ → ℕ → ℕ → RollingWeak
weak_loop [] j s1 s2 = record { s1 = s1 % 2 ^ 16; s2 = s2 % 2 ^ 16 }
weak_loop (x ∷ xs) j s1 s2 =
    weak_loop xs (j + 1) ((s1 + x) % 2 ^ 32) ((s2 + (j + 1) * x % 2 ^ 32) % 2 ^ 32)

unfoldable pub weak_init : List ℕ → RollingWeak
unfolding weak_loop
weak_init window = weak_loop window 0 0 0

unfoldable pub weak_roll : RollingWeak → ℕ → ℕ → ℕ → RollingWeak
weak_roll w out_byte in_byte l = record {
  s1 = ((w.s1 + in_byte) % 2 ^ 32 + 2 ^ 32 - out_byte) % 2 ^ 32 % 2 ^ 16;
  s2 = ((w.s2 + l * in_byte % 2 ^ 32) % 2 ^ 32 + 2 ^ 32 - w.s1) % 2 ^ 32 % 2 ^ 16;
}

unfoldable pub bucket_of : ℕ → ℕ
bucket_of weak32 = bit_xor (weak32 / 2 ^ 16) (weak32 % 2 ^ 16) % 2 ^ 16
