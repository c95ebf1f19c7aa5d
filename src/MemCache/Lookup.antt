-- ===== src/MemCache/Lookup.antt =====
-- What a lookup returns: what was last stored for the path, under the same fingerprint.
use mathlib.Core.Path.{subst}
use mathlib.Core.Option.{none-ne-some}
use fast_clone.Prelude.{
  ℕ, ◌≡◌, inl, inr, refl, ap, sym, ◌∙◌, true, false, List, [], ◌∷◌, Option, none, some, ℤ, pos,
  negsuc, pos_part, neg_part, bytes_eq, bytes_eq_refl, bytes_eq_sound, arith, if◌then◌else◌,
  Bool-cases,
}
use fast_clone.MemCache.{
  HashFingerprint, same_fingerprint, find, erase, insert, Cached, MemCache, try_get, upsert, answer,
}

same_fingerprint_refl : (a : HashFingerprint) → same_fingerprint a a ≡ true
same_fingerprint_refl a = ground arith

eq_parts : (x y : ℤ) → pos_part x ≡ pos_part y → neg_part x ≡ neg_part y → x ≡ y
eq_parts (pos m) (pos n) h k = ap pos h
eq_parts (pos m) (negsuc n) h k = absurd (omega arith)
eq_parts (negsuc m) (pos n) h k = absurd (omega arith)
eq_parts (negsuc m) (negsuc n) h k = ap negsuc (omega arith)

pub same_fingerprint_sound : (a b : HashFingerprint) → same_fingerprint a b ≡ true → a ≡ b
same_fingerprint_sound a b h =
    let sizes : a.file_size ≡ b.file_size = ground arith in
    let times : a.mtime_ns ≡ b.mtime_ns =
      eq_parts a.mtime_ns b.mtime_ns (ground arith) (ground arith) in
    ground (arith, sizes, times)

module _ {ℓ} {V : Type ℓ} where
  find-erase_same : (es : List (List ℕ × V)) (path : List ℕ) → find (erase es path) path ≡ none
  unfolding find erase
  find-erase_same [] path = refl
  find-erase_same (e ∷ es) path = ground (arith, find-erase_same es path)

  find-erase_other :
      (es : List (List ℕ × V)) (path other : List ℕ)
      → bytes_eq path other ≡ false
      → find (erase es path) other ≡ find es other
  unfolding find erase
  find-erase_other [] path other h = refl
  find-erase_other (e ∷ es) path other h =
      elim (Bool-cases (bytes_eq e.0 path))
        as (λ _.
          find (if bytes_eq e.0 path then erase es path else e ∷ erase es path) other
          ≡ (if bytes_eq e.0 other then some e.1 else find es other)) [
            | inl here ↦
                let apart : bytes_eq e.0 other ≡ false =
                  ap (λ x. bytes_eq x other) (bytes_eq_sound e.0 path here) ∙ h in
                rw (here, apart) (find-erase_other es path other h)
            | inr there ↦ rw (there) (
                ap (λ rest. if bytes_eq e.0 other then some e.1 else rest)
                  (find-erase_other es path other h))
          ]

  pub find-insert_same :
      (es : List (List ℕ × V)) (path : List ℕ) (v : V) → find (insert es path v) path ≡ some v
  unfolding find insert
  find-insert_same es path v = ground (arith, bytes_eq_refl path)

  pub find-insert_other :
      (es : List (List ℕ × V)) (path other : List ℕ) (v : V)
      → bytes_eq path other ≡ false
      → find (insert es path v) other ≡ find es other
  unfolding find insert
  find-insert_other es path other v h = rw (h) (find-erase_other es path other h)

  pub find-erase_sound :
      (es : List (List ℕ × V)) (path other : List ℕ) (v : V)
      → find (erase es path) other ≡ some v
      → find es other ≡ some v
  find-erase_sound es path other v h =
      elim (Bool-cases (bytes_eq path other)) as (λ _. find es other ≡ some v) [
        | inl same ↦
            let here : find (erase es path) other ≡ none =
              subst (λ p. find (erase es path) p ≡ none) (bytes_eq_sound path other same)
                (find-erase_same es path) in
            absurd (none-ne-some v (sym here ∙ h))
        | inr apart ↦ sym (find-erase_other es path other apart) ∙ h
      ]

module _ {ℓ} {V : Type ℓ} where
  -- What the lookup returns of the entry of the path.
  unfoldable pub kept_of : HashFingerprint → Option (Cached V) → Option V
  kept_of fp none = none
  kept_of fp (some e) = if same_fingerprint e.fingerprint fp then some e.kept else none

  answer-kept_of :
      (o : Option (Cached V)) (path : List ℕ) (fp : HashFingerprint) (c : MemCache V)
      → (answer o path fp c).0 ≡ kept_of fp o
  unfolding answer kept_of
  answer-kept_of none path fp c = refl
  answer-kept_of (some e) path fp c = ground arith

  pub try_get-kept_of :
      (path : List ℕ) (fp : HashFingerprint) (c : MemCache V)
      → (try_get path fp c).0 ≡ (if c.enabled then kept_of fp (find c.cache path) else none)
  unfolding try_get
  try_get-kept_of path fp c =
      elim (Bool-cases c.enabled)
        as (λ _.
          (try_get path fp c).0 ≡ (if c.enabled then kept_of fp (find c.cache path) else none)) [
            | inl h ↦ rw (h) (answer-kept_of (find c.cache path) path fp _)
            | inr h ↦ rw (h) refl
          ]

  -- In an enabled cache a lookup right after a store, for the same path and fingerprint, returns
  -- what was stored.
  pub try_get-upsert :
      (path : List ℕ) (fp : HashFingerprint) (v : V) (c : MemCache V)
      → c.enabled ≡ true
      → (try_get path fp (upsert path fp v c)).0 ≡ some v
  unfolding upsert kept_of
  try_get-upsert path fp v c h =
      rw
        (
          try_get-kept_of path fp (upsert path fp v c),
          h,
          find-insert_same,
          same_fingerprint_refl fp,
        )
        refl

  -- A store for one path does not change what a lookup of another path returns.
  pub try_get-upsert_other :
      (path other : List ℕ) (fp fq : HashFingerprint) (v : V) (c : MemCache V)
      → bytes_eq path other ≡ false
      → (try_get other fq (upsert path fp v c)).0 ≡ (try_get other fq c).0
  unfolding upsert
  try_get-upsert_other path other fp fq v c h =
      try_get-kept_of other fq (upsert path fp v c)
      ∙ (elim (Bool-cases c.enabled)
          as (λ _.
            (if (upsert path fp v c).enabled
              then kept_of fq (find (upsert path fp v c).cache other)
              else none)
            ≡ (if c.enabled then kept_of fq (find c.cache other) else none)) [
              | inl e ↦ rw (e) (
                  ap (kept_of fq) (
                    find-insert_other c.cache path other (record { fingerprint = fp; kept = v }) h))
              | inr e ↦ rw (e) refl
            ])
      ∙ sym (try_get-kept_of other fq c)
