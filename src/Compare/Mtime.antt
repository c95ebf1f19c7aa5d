-- ===== src/Compare/Mtime.antt =====
-- Normalised times, and the tolerance as a relation.
use fast_clone.Prelude.{
  ℕ, ◌+◌, ◌-◌, ◌*◌, ◌/◌, ◌^◌, ◌≤◌, ◌≡◌, refl, ap, Option, none, some, ℤ, pos, negsuc, IsI64, abs,
  arith, leb,
}
use fast_clone.Compare.{
  windows_epoch_diff_100ns, mtime_tolerance_ns, try_normalize_mtime, sub_i64, raw_within, within,
  mtime_within_tolerance,
}

-- A FILETIME of a Unix time, counted in units of 100 ns and small enough that its nanoseconds
-- fit 63 bits, is normalised to the nanoseconds of that time.
pub try_normalize_mtime_filetime :
    (unix_100ns : ℕ)
    → unix_100ns ≤ (2 ^ 63 - 1) / 100
    → try_normalize_mtime (pos (windows_epoch_diff_100ns + unix_100ns))
      ≡ some (pos (unix_100ns * 100))
unfolding try_normalize_mtime
try_normalize_mtime_filetime unix_100ns h = ground arith

sub_i64-abs : (a b : ℤ) → IsI64 a → IsI64 b → abs (sub_i64 a b) ≡ abs (sub_i64 b a)
unfolding sub_i64
sub_i64-abs (pos a) (pos b) h k = ground arith
sub_i64-abs (pos a) (negsuc b) h k = ground arith
sub_i64-abs (negsuc a) (pos b) h k = ground arith
sub_i64-abs (negsuc a) (negsuc b) h k = ground arith

try_normalize_mtime-IsI64 : (a b : ℤ) → IsI64 a → try_normalize_mtime a ≡ some b → IsI64 b
unfolding try_normalize_mtime
try_normalize_mtime-IsI64 (pos a) b h e = ground arith
try_normalize_mtime-IsI64 (negsuc a) b h e = ground arith

raw_within_sym : (a b : ℤ) → IsI64 a → IsI64 b → raw_within a b ≡ raw_within b a
unfolding raw_within
raw_within_sym a b h k = ap (λ n. leb n mtime_tolerance_ns) (sub_i64-abs a b h k)

within_sym :
    (l r : Option ℤ) (a b : ℤ)
    → ((x : ℤ) → l ≡ some x → IsI64 x)
    → ((x : ℤ) → r ≡ some x → IsI64 x)
    → IsI64 a
    → IsI64 b
    → within l r a b ≡ within r l b a
unfolding within
within_sym none none a b hl hr h k = raw_within_sym a b h k
within_sym none (some y) a b hl hr h k = raw_within_sym a b h k
within_sym (some x) none a b hl hr h k = raw_within_sym a b h k
within_sym (some x) (some y) a b hl hr h k = raw_within_sym x y (hl x refl) (hr y refl)

-- For two 64-bit times, whether they agree does not depend on which of the two is the local one.
pub mtime_within_tolerance_sym :
    (a b : ℤ) → IsI64 a → IsI64 b → mtime_within_tolerance a b ≡ mtime_within_tolerance b a
unfolding mtime_within_tolerance
mtime_within_tolerance_sym a b h k =
    within_sym (try_normalize_mtime a) (try_normalize_mtime b) a b
      (λ x. try_normalize_mtime-IsI64 a x h) (λ x. try_normalize_mtime-IsI64 b x k) h k
