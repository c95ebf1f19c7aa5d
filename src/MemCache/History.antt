-- ===== src/MemCache/History.antt =====
-- Over a whole session: a hash is served only if it was stored for that path and fingerprint.
use mathlib.Core.Path.{subst, ap₂}
use mathlib.Core.Option.{none-ne-some, some-injective}
use fast_clone.Prelude.{
  ℕ, ◌≡◌, ◌⊎◌, inl, inr, refl, ap, sym, ◌∙◌, not, List, [], ◌∷◌, Option, none, some, bytes_eq,
  bytes_eq_sound, if_holds, if◌then◌else◌, Bool-cases,
}
use fast_clone.MemCache.{
  HashFingerprint, same_fingerprint, find, erase, insert, Cached, MemCache, try_get, upsert, answer,
}
use fast_clone.MemCache.Lookup.{
  same_fingerprint_sound, find-erase_sound, find-insert_same, find-insert_other, kept_of,
  try_get-kept_of,
}

-- The operations of a session, in the order in which they take the mutex.
pub data Op (V : Type 0) : Type 0 where
  get : List ℕ → HashFingerprint → Op V
  put : List ℕ → HashFingerprint → V → Op V

module _ {V : Type 0} where
  unfoldable pub run_op : Op V → MemCache V → MemCache V
  run_op (get path fp) c = (try_get path fp c).1
  run_op (put path fp v) c = upsert path fp v c

  unfoldable pub run_ops : List (Op V) → MemCache V → MemCache V
  run_ops [] c = c
  run_ops (o ∷ os) c = run_ops os (run_op o c)

  -- The store `put path fp v` is among the operations.
  pub Stored : List ℕ → HashFingerprint → V → List (Op V) → Type 0
  Stored path fp v [] = ⊥
  Stored path fp v (o ∷ os) = (o ≡ put path fp v) ⊎ Stored path fp v os

  answer_cache :
      (o : Option (Cached V)) (path : List ℕ) (fp : HashFingerprint) (c : MemCache V)
      → ((answer o path fp c).1.cache ≡ c.cache)
        ⊎ ((answer o path fp c).1.cache ≡ erase c.cache path)
  unfolding answer
  answer_cache none path fp c = inl refl
  answer_cache (some e) path fp c =
      if_holds
        (λ (r : Option V × MemCache V). (r.1.cache ≡ c.cache) ⊎ (r.1.cache ≡ erase c.cache path))
        (same_fingerprint e.fingerprint fp) _ _ (λ _. inl refl) (λ _. inr refl)

  -- An operation keeps what the map holds, drops it, or is the store of it.
  run_op_sound :
      (o : Op V) (c : MemCache V) (path : List ℕ) (e : Cached V)
      → find (run_op o c).cache path ≡ some e
      → (find c.cache path ≡ some e) ⊎ (o ≡ put path e.fingerprint e.kept)
  unfolding run_op try_get upsert
  run_op_sound (get p fp) c path e =
      if_holds
        (λ (r : Option V × MemCache V).
          find r.1.cache path ≡ some e
          → (find c.cache path ≡ some e) ⊎ (get p fp ≡ put path e.fingerprint e.kept))
        (not c.enabled) _ _ (λ _ h. inl h)
        (λ _ h.
          elim (answer_cache (find c.cache p) p fp c)
            as (λ _. (find c.cache path ≡ some e) ⊎ (get p fp ≡ put path e.fingerprint e.kept)) [
              | inl same ↦ inl (subst (λ es. find es path ≡ some e) same h)
              | inr cut ↦
                  inl
                    (find-erase_sound c.cache p path e (subst (λ es. find es path ≡ some e) cut h))
            ])
  run_op_sound (put p fp v) c path e =
      if_holds
        (λ (r : MemCache V).
          find r.cache path ≡ some e
          → (find c.cache path ≡ some e) ⊎ (put p fp v ≡ put path e.fingerprint e.kept))
        (not c.enabled) _ _ (λ _ h. inl h)
        (λ _ h.
          let entry : Cached V = record { fingerprint = fp; kept = v } in
          elim (Bool-cases (bytes_eq p path))
            as (λ _. (find c.cache path ≡ some e) ⊎ (put p fp v ≡ put path e.fingerprint e.kept)) [
              | inl same ↦
                  let here : find (insert c.cache p entry) path ≡ some entry =
                    subst (λ q. find (insert c.cache p entry) q ≡ some entry)
                      (bytes_eq_sound p path same) (find-insert_same c.cache p entry) in
                  let is_entry : entry ≡ e = some-injective entry e (sym here ∙ h) in
                  inr (
                    ap (λ q. put q fp v) (bytes_eq_sound p path same)
                    ∙ ap (λ (x : Cached V). put path x.fingerprint x.kept) is_entry)
              | inr apart ↦ inl (sym (find-insert_other c.cache p path entry apart) ∙ h)
            ])

  run_ops_sound :
      (os : List (Op V)) (c : MemCache V) (path : List ℕ) (e : Cached V)
      → find (run_ops os c).cache path ≡ some e
      → (find c.cache path ≡ some e) ⊎ Stored path e.fingerprint e.kept os
  unfolding run_ops Stored
  run_ops_sound [] c path e h = inl h
  run_ops_sound (o ∷ os) c path e h =
      elim (run_ops_sound os (run_op o c) path e h)
        as (λ _.
          (find c.cache path ≡ some e)
          ⊎ ((o ≡ put path e.fingerprint e.kept) ⊎ Stored path e.fingerprint e.kept os)) [
            | inl before ↦
                elim (run_op_sound o c path e before)
                  as (λ _.
                    (find c.cache path ≡ some e)
                    ⊎ ((o ≡ put path e.fingerprint e.kept) ⊎ Stored path e.fingerprint e.kept os)) [
                      | inl first ↦ inl first
                      | inr store ↦ inr (inl store)
                    ]
            | inr later ↦ inr (inr later)
          ]

  kept_of_sound :
      (fp : HashFingerprint) (o : Option (Cached V)) (v : V)
      → kept_of fp o ≡ some v
      → o ≡ some (record { fingerprint = fp; kept = v })
  unfolding kept_of
  kept_of_sound fp none v h = absurd (none-ne-some v h)
  kept_of_sound fp (some e) v h =
      elim (Bool-cases (same_fingerprint e.fingerprint fp))
        as (λ _. Path (Option (Cached V)) (some e) (some (record { fingerprint = fp; kept = v }))) [
          | inl same ↦
              let served : some e.kept ≡ some v =
                ap (λ b. if b then some e.kept else none) (sym same) ∙ h in
              ap some (
                ap₂ entry_of (same_fingerprint_sound e.fingerprint fp same)
                  (some-injective e.kept v served))
          | inr other ↦
              absurd (none-ne-some v (ap (λ b. if b then some e.kept else none) (sym other) ∙ h))
        ]
    where
      entry_of : HashFingerprint → V → Cached V
      entry_of f k = record { fingerprint = f; kept = k }

  -- Over any sequence of lookups and stores that starts from an empty cache, a lookup returns a
  -- value only if that value was stored for the same path under the same fingerprint.
  pub try_get_sound :
      (os : List (Op V)) (c : MemCache V) (path : List ℕ) (fp : HashFingerprint) (v : V)
      → c.cache ≡ []
      → (try_get path fp (run_ops os c)).0 ≡ some v
      → Stored path fp v os
  unfolding find
  try_get_sound os c path fp v empty h =
      let last = run_ops os c in
      let value : (if last.enabled then kept_of fp (find last.cache path) else none) ≡ some v =
        sym (try_get-kept_of path fp last) ∙ h in
      let held : kept_of fp (find last.cache path) ≡ some v =
        elim (Bool-cases last.enabled) as (λ _. kept_of fp (find last.cache path) ≡ some v) [
          | inl on ↦
              ap (λ b. if b then kept_of fp (find last.cache path) else none) (sym on) ∙ value
          | inr off ↦ absurd (
              none-ne-some v
                (ap (λ b. if b then kept_of fp (find last.cache path) else none) (sym off) ∙ value))
        ] in
      let entry : Cached V = record { fingerprint = fp; kept = v } in
      elim (run_ops_sound os c path entry (kept_of_sound fp (find last.cache path) v held))
        as (λ _. Stored path fp v os) [
          | inl before ↦ absurd (none-ne-some entry (ap (λ es. find es path) (sym empty) ∙ before))
          | inr stored ↦ stored
        ]
