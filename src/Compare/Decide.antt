-- ===== src/Compare/Decide.antt =====
-- What a verdict says of the two files.
use fast_clone.Prelude.{
  ◌≡◌, ◌↔◌, refl, Bool, true, ◌⊎◌, inl, Option, none, some, arith, bytes_eq_refl, bytes_eq_sound,
  if◌then◌else◌,
}
use fast_clone.Entry.{FileEntry, Hash256, hash_equals}
use fast_clone.Compare.{
  CompareMode, fast, strict, size_only, CompareCategory, same, missing, decide_compare,
  classify_by_hash, mtime_within_tolerance,
}

-- A comparison to its end: the hashes are read where the metadata leaves it open.
pub compare_file :
    CompareMode → Option FileEntry → FileEntry → Bool → Hash256 → Hash256 → CompareCategory
compare_file mode local remote readable local_hash remote_hash =
    let o = decide_compare mode local remote in
    if o.need_hash then classify_by_hash readable local_hash remote_hash else o.category

-- What the verdict `same` rests on.
abbrev pub SameBasis : CompareMode → FileEntry → FileEntry → Bool → Hash256 → Hash256 → Type 0
SameBasis mode l remote readable local_hash remote_hash =
    (l.file_size ≡ remote.file_size)
    × ((mode ≡ size_only)
        ⊎ (((mode ≡ fast) × (mtime_within_tolerance l.mtime_ns remote.mtime_ns ≡ true))
            ⊎ ((readable ≡ true) × (local_hash ≡ remote_hash))))

-- A file is called the same only if it exists locally with the remote size, and the mode looks
-- at sizes alone, or the mode is fast and the times agree within the tolerance, or the local
-- file was readable and the hashes are equal.
pub compare_file-same :
    (mode : CompareMode) (local : Option FileEntry) (remote : FileEntry) (readable : Bool)
    (local_hash remote_hash : Hash256)
    → compare_file mode local remote readable local_hash remote_hash ≡ same
    → (l : FileEntry) × ((local ≡ some l) × SameBasis mode l remote readable local_hash remote_hash)
unfolding compare_file decide_compare classify_by_hash hash_equals
compare_file-same mode none remote readable lh rh h = cc
compare_file-same fast (some l) remote readable lh rh h =
    let basis : SameBasis fast l remote readable lh rh = ground (arith, bytes_eq_sound lh rh) in
    (l, (refl, basis))
compare_file-same strict (some l) remote readable lh rh h =
    let basis : SameBasis strict l remote readable lh rh = ground (arith, bytes_eq_sound lh rh) in
    (l, (refl, basis))
compare_file-same size_only (some l) remote readable lh rh h =
    let basis : SameBasis size_only l remote readable lh rh = (ground arith, inl refl) in
    (l, (refl, basis))

-- In strict mode a local file is called the same exactly when the sizes are equal, it is
-- readable, and the hashes are equal; the times play no part.
pub compare_file_strict :
    (l remote : FileEntry) (readable : Bool) (local_hash remote_hash : Hash256)
    → (compare_file strict (some l) remote readable local_hash remote_hash ≡ same)
      ↔ ((l.file_size ≡ remote.file_size) × (readable ≡ true) × (local_hash ≡ remote_hash))
unfolding compare_file decide_compare classify_by_hash hash_equals
compare_file_strict l remote readable lh rh = ground (arith, bytes_eq_sound lh rh, bytes_eq_refl lh)

pub compare_file_missing :
    (mode : CompareMode) (local : Option FileEntry) (remote : FileEntry) (readable : Bool)
    (local_hash remote_hash : Hash256)
    → (compare_file mode local remote readable local_hash remote_hash ≡ missing) ↔ (local ≡ none)
unfolding compare_file decide_compare classify_by_hash hash_equals
compare_file_missing mode none remote readable lh rh = ((λ _. refl), (λ _. refl))
compare_file_missing fast (some l) remote readable lh rh = ((λ h. absurd (ground arith)), (λ h. cc))
compare_file_missing strict (some l) remote readable lh rh =
    ((λ h. absurd (ground arith)), (λ h. cc))
compare_file_missing size_only (some l) remote readable lh rh =
    ((λ h. absurd (ground arith)), (λ h. cc))
