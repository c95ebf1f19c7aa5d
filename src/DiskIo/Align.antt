-- ===== src/DiskIo/Align.antt =====
-- The alignment arithmetic of FastClone/disk_io_align.cpp, on uint64_t values and uint32_t
-- alignments. The sizes of pages and blocks come from the system.
use fast_clone.Prelude.{
  ℕ, ◌+◌, ◌-◌, ◌*◌, ◌/◌, ◌%◌, ◌^◌, ◌≤◌, ◌<◌, ◌≡◌, max, Bool, true, not, ◌&&◌, if◌then◌else◌, ◌==◌,
  arith, Bool-cases, inl, inr, Option, none, some, List,
}
use native.Mathlib.Nat.{mod-add-div, mod-lt, mod-le, mul-mod_right, mod-eq_of_lt}
use fast_clone.Prelude.Assoc.{lookup, insert}

pub record AlignInfo : Type 0 where
  pub page_size : ℕ
  pub device_block_size : ℕ
  pub io_granularity : ℕ

unfoldable pub make_align_info : ℕ → ℕ → AlignInfo
make_align_info page block =
    let page_size = if page == 0 then block else page in
    let device_block_size = if block == 0 then page_size else block in
    record {
      page_size = page_size;
      device_block_size = device_block_size;
      io_granularity = max page_size device_block_size;
    }

unfoldable pub align_down : ℕ → ℕ → ℕ
align_down value alignment = if alignment == 0 then value else value - value % alignment

unfoldable pub align_up : ℕ → ℕ → ℕ
align_up value alignment =
    let rem = value % alignment in
    if alignment == 0
    then value
    else if rem == 0
    then value
    else (value + (alignment - rem)) % 2 ^ 64

unfoldable pub is_aligned : ℕ → ℕ → Bool
is_aligned value alignment = not (alignment == 0) && (value % alignment == 0)

-- `QueryAlign`: the volume of the path, if it is known, then what the system says of the volume.
-- A volume is asked once; a path with no known volume is asked each time and never kept.
unfoldable pub query_align :
    Option ℕ → ℕ × ℕ → List (ℕ × AlignInfo) → AlignInfo × List (ℕ × AlignInfo)
query_align none asked cache = (make_align_info asked.0 asked.1, cache)
query_align (some key) asked cache = elim (lookup key cache) [
  | some info ↦ (info, cache)
  | none ↦ let info = make_align_info asked.0 asked.1 in (info, insert key info cache)
]

multiple_below : (value alignment : ℕ) → value - value % alignment ≡ alignment * (value / alignment)
multiple_below value alignment = let e = mod-add-div value alignment in omega arith

multiple_above :
    (value alignment : ℕ)
    → 0 < alignment
    → value + (alignment - value % alignment) ≡ alignment * (value / alignment + 1)
multiple_above value alignment positive =
    let e = mod-add-div value alignment in
    let below : value % alignment < alignment = mod-lt value positive in
    let d : alignment * (value / alignment + 1) ≡ alignment * (value / alignment) + alignment =
      grind arith in
    omega arith

below_mod : (value alignment : ℕ) → (value - value % alignment) % alignment ≡ 0
below_mod value alignment =
    rw (multiple_below value alignment) (mul-mod_right alignment (value / alignment))

above_mod :
    (value alignment : ℕ)
    → 0 < alignment
    → (value + (alignment - value % alignment)) % alignment ≡ 0
above_mod value alignment positive =
    rw (multiple_above value alignment positive) (mul-mod_right alignment (value / alignment + 1))

-- A value and a positive alignment that together are at most 2^64: the aligned value below is at
-- most the value, the one above at least, both less than an alignment away, and both are
-- aligned.
pub align_bounds :
    (value alignment : ℕ)
    → 0 < alignment
    → value + alignment ≤ 2 ^ 64
    → (align_down value alignment ≤ value)
      × (value < align_down value alignment + alignment)
      × (value ≤ align_up value alignment)
      × (align_up value alignment < value + alignment)
      × (is_aligned (align_down value alignment) alignment ≡ true)
      × (is_aligned (align_up value alignment) alignment ≡ true)
unfolding align_down align_up is_aligned
align_bounds value alignment positive fits =
    let below : value % alignment < alignment = mod-lt value positive in
    let down = below_mod value alignment in
    let up = above_mod value alignment positive in
    let least : value % alignment ≤ value = mod-le value alignment in
    elim (Bool-cases (value % alignment == 0)) [
      | inl whole ↦ ground arith
      | inr part ↦
          let room : value + (alignment - value % alignment) < 2 ^ 64 = ground arith in
          let id : (value + (alignment - value % alignment)) % 2 ^ 64
              ≡ value + (alignment - value % alignment) =
            mod-eq_of_lt room in
          rw (id, part) (ground arith)
    ]
