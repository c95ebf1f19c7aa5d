-- ===== src/Entry.antt =====
-- The data of FastClone/file_index.h that the components exchange: a file's metadata and its hash.
-- A path is its UTF-8 bytes.
use fast_clone.Prelude.{ℕ, List, Bool, ℤ, bytes_eq}

pub record FileEntry : Type 0 where
  pub relative_path : List ℕ
  pub is_directory : Bool
  pub file_size : ℕ
  pub mtime_ns : ℤ

-- `std::array<uint8_t, 16>`: the raw XXH3_128 digest.
abbrev pub Hash256 : Type 0
Hash256 = List ℕ

unfoldable pub hash_equals : Hash256 → Hash256 → Bool
hash_equals a b = bytes_eq a b
