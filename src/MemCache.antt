-- ===== src/MemCache.antt =====
-- The in-memory caches of FastClone/hash_memcache.cpp: file hashes, and block signatures. The two
-- classes differ in what they keep, so the operations are written once, over the kept type `V`,
-- and named twice. Each operation runs under the cache's mutex, hence as one step.
pub mod Lookup
pub mod History
use fast_clone.Prelude.{
  ℕ, ◌+◌, ◌%◌, ◌^◌, Bool, true, false, not, ◌&&◌, if◌then◌else◌, ◌==◌, List, [], ◌∷◌, Option, none,
  some, ℤ, pos_part, neg_part, bytes_eq, Result, ok, throw,
}
use fast_clone.Entry.{Hash256}
use fast_clone.Delta.Signature.{SignatureSet}

pub record HashFingerprint : Type 0 where
  pub file_size : ℕ
  pub mtime_ns : ℤ

abbrev pub same_fingerprint : HashFingerprint → HashFingerprint → Bool
same_fingerprint a b =
    (a.file_size == b.file_size)
    && ((pos_part a.mtime_ns == pos_part b.mtime_ns)
        && (neg_part a.mtime_ns == neg_part b.mtime_ns))

module _ {ℓ} {V : Type ℓ} where
  -- The hash map: the entry of a path, if it has one.
  unfoldable pub find : List (List ℕ × V) → List ℕ → Option V
  find [] path = none
  find (e ∷ es) path = let rest = find es path in if bytes_eq e.0 path then some e.1 else rest

  unfoldable pub erase : List (List ℕ × V) → List ℕ → List (List ℕ × V)
  erase [] path = []
  erase (e ∷ es) path = let rest = erase es path in if bytes_eq e.0 path then rest else e ∷ rest

  unfoldable pub insert : List (List ℕ × V) → List ℕ → V → List (List ℕ × V)
  insert es path v = (path, v) ∷ erase es path

pub record Cached {ℓ} (V : Type ℓ) : Type ℓ where
  pub fingerprint : HashFingerprint
  pub kept : V

pub record MemCache {ℓ} (V : Type ℓ) : Type ℓ where
  pub cache : List (List ℕ × Cached V)
  pub hits : ℕ
  pub misses : ℕ
  pub enabled : Bool
  pub configured : Bool

module _ {ℓ} {V : Type ℓ} where
  abbrev pub fresh : MemCache V
  fresh = record { cache = []; hits = 0; misses = 0; enabled = false; configured = false }

  unfoldable pub configure : Bool → MemCache V → Result (MemCache V)
  configure on c =
      if c.configured && (if c.enabled then not on else on)
      then throw "memcache already configured with different mode"
      else ok (record {
        cache = c.cache;
        hits = c.hits;
        misses = c.misses;
        enabled = on;
        configured = true;
      })

  abbrev pub missed : MemCache V → List (List ℕ × Cached V) → MemCache V
  missed c cache = record {
    cache = cache;
    hits = c.hits;
    misses = (c.misses + 1) % 2 ^ 64;
    enabled = c.enabled;
    configured = c.configured;
  }

  -- What the lookup makes of the entry that the map holds.
  unfoldable pub answer :
      Option (Cached V) → List ℕ → HashFingerprint → MemCache V → Option V × MemCache V
  answer none path fp c = (none, missed c c.cache)
  answer (some e) path fp c =
      if same_fingerprint e.fingerprint fp
      then (
        some e.kept,
        record {
          cache = c.cache;
          hits = (c.hits + 1) % 2 ^ 64;
          misses = c.misses;
          enabled = c.enabled;
          configured = c.configured;
        },
      )
      else (none, missed c (erase c.cache path))

  unfoldable pub try_get : List ℕ → HashFingerprint → MemCache V → Option V × MemCache V
  unfolding answer
  try_get path fp c = if not c.enabled then (none, c) else answer (find c.cache path) path fp c

  unfoldable pub upsert : List ℕ → HashFingerprint → V → MemCache V → MemCache V
  upsert path fp v c = if not c.enabled then c else record {
    cache = insert c.cache path (record { fingerprint = fp; kept = v });
    hits = c.hits;
    misses = c.misses;
    enabled = c.enabled;
    configured = c.configured;
  }

-- `ServerHashMemCache` keeps a file's hash.
pub hash_try_get : List ℕ → HashFingerprint → MemCache Hash256 → Option Hash256 × MemCache Hash256
hash_try_get = try_get

pub hash_upsert : List ℕ → HashFingerprint → Hash256 → MemCache Hash256 → MemCache Hash256
hash_upsert = upsert

-- `BlockSigMemCache` keeps a file's hash and its signature.
abbrev pub SigValue : Type 0
SigValue = Hash256 × SignatureSet

pub sig_configure : Bool → MemCache SigValue → Result (MemCache SigValue)
sig_configure = configure

pub sig_try_get : List ℕ → HashFingerprint → MemCache SigValue → Option SigValue × MemCache SigValue
sig_try_get = try_get

pub sig_upsert : List ℕ → HashFingerprint → SigValue → MemCache SigValue → MemCache SigValue
sig_upsert = upsert
