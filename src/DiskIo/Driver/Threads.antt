-- ===== src/DiskIo/Driver/Threads.antt =====
-- The threads that use the driver, each between two of its critical sections, and the back end.
use fast_clone.Prelude.{ℕ, ◌+◌, ◌≤◌, ◌≡◌, refl, ap, ◌∙◌, List, [], ◌∷◌, ◌++◌, length, arith}
use fast_clone.DiskIo.{IoRequest, IoCompletion}
use fast_clone.DiskIo.Driver.{Driver}
use fast_clone.DiskIo.Driver.Outstanding.{count, ids, completed_ids, count-append}

-- What a thread still has to do: `submit` to count what it accepted; `PickAndSubmit` to hand its
-- request to the back end, to deliver the failure of one that was refused, and to give the slot
-- back; the scheduler to deliver the completions that it reaped, some done and some left, and to
-- count them; `requestCancel` to deliver what it flushed and to count it; `releaseFile` to clean up.
pub data Phase : Type 0 where
  counting_queued : ℕ → Phase
  handing : IoRequest → Phase
  refusing : IoRequest → Phase
  returning_slot : Phase
  reaping : List IoCompletion → List IoCompletion → Phase
  tallying : List IoCompletion → Phase
  flushing : List IoCompletion → ℕ → Phase
  releasing : ℕ → Phase

-- The driver, the requests that the back end has taken and not completed, how many it refused,
-- and the threads.
pub record World : Type 0 where
  pub driver : Driver
  pub backend : List IoRequest
  pub refused : ℕ
  pub threads : List Phase

-- The files of the requests that a thread holds, neither queued nor with the back end.
abbrev pub held : Phase → List ℕ
held (handing op) = op.file_id ∷ []
held (refusing op) = op.file_id ∷ []
held (reaping done left) = completed_ids left
held (flushing left n) = completed_ids left
held _ = []

-- The slots in flight that a thread is to give back.
abbrev pub slots : Phase → ℕ
slots (handing op) = 1
slots (refusing op) = 1
slots returning_slot = 1
slots (reaping done left) = length done + length left
slots _ = 0

-- The flushed requests that a thread is to deliver.
abbrev pub flush_left : Phase → ℕ
flush_left (flushing left n) = length left
flush_left _ = 0

-- The requests that are queued and not counted as that yet.
abbrev pub uncounted : Phase → ℕ
uncounted (counting_queued n) = n
uncounted _ = 0

-- The requests that have left the queues, are not with the back end, were not refused, and are
-- not counted as ended yet.
abbrev pub owed : Phase → ℕ
owed (handing op) = 1
owed (reaping done left) = length done + length left
owed (tallying done) = length done
owed (flushing left n) = n
owed _ = 0

abbrev pub sum_of : (Phase → ℕ) → List Phase → ℕ
sum_of m [] = 0
sum_of m (p ∷ ts) = m p + sum_of m ts

abbrev pub held_ids : List Phase → List ℕ
held_ids [] = []
held_ids (p ∷ ts) = held p ++ held_ids ts

abbrev pub held_of : ℕ → Phase → ℕ
held_of f p = count f (held p)

pub count-held_ids : (f : ℕ) (ts : List Phase) → count f (held_ids ts) ≡ sum_of (held_of f) ts
count-held_ids f [] = refl
count-held_ids f (p ∷ ts) =
    omega (arith, count-append f (held p) (held_ids ts), count-held_ids f ts)

-- The files of the operations under way.
abbrev pub live : World → List ℕ
live w = (ids w.driver.read_q ++ ids w.driver.write_q) ++ (ids w.backend ++ held_ids w.threads)

pub count-live :
    (f : ℕ) (w : World)
    → count f (live w)
      ≡ count f (ids w.driver.read_q)
        + count f (ids w.driver.write_q)
        + count f (ids w.backend)
        + sum_of (held_of f) w.threads
count-live f w =
    let outer =
      count-append f (ids w.driver.read_q ++ ids w.driver.write_q)
        (ids w.backend ++ held_ids w.threads) in
    let queues = count-append f (ids w.driver.read_q) (ids w.driver.write_q) in
    let rest = count-append f (ids w.backend) (held_ids w.threads) in
    omega (arith, count-held_ids f w.threads)

count-completed : (f : ℕ) (cs : List IoCompletion) → count f (completed_ids cs) ≤ length cs
count-completed f [] = omega arith
count-completed f (c ∷ cs) = ground (arith, count-completed f cs)

held-bound : (f : ℕ) (p : Phase) → held_of f p ≤ slots p + flush_left p
held-bound f (handing op) = ground arith
held-bound f (refusing op) = ground arith
held-bound f (reaping done left) = omega (arith, count-completed f left)
held-bound f (flushing left n) = omega (arith, count-completed f left)
held-bound f (counting_queued n) = omega arith
held-bound f returning_slot = omega arith
held-bound f (tallying done) = omega arith
held-bound f (releasing g) = omega arith

pub threads-bound :
    (f : ℕ) (ts : List Phase) → sum_of (held_of f) ts ≤ sum_of slots ts + sum_of flush_left ts
threads-bound f [] = omega arith
threads-bound f (p ∷ ts) = omega (arith, held-bound f p, threads-bound f ts)

-- From one list of threads to the other, some phases have gone and others have come.
pub record Change (ts us gone come : List Phase) : Type 0 where
  pub sums : (m : Phase → ℕ) → sum_of m ts + sum_of m come ≡ sum_of m us + sum_of m gone

sum_of-middle :
    (m : Phase → ℕ) (before after : List Phase) (p : Phase)
    → sum_of m (before ++ (p ∷ after)) ≡ m p + sum_of m (before ++ after)
sum_of-middle m [] after p = refl
sum_of-middle m (x ∷ before) after p = omega (arith, sum_of-middle m before after p)

pub starts_thread : (ts : List Phase) (q : Phase) → Change ts (q ∷ ts) [] (q ∷ [])
starts_thread ts q = record { sums = λ m. omega arith }

module _ (ts before after : List Phase) (p : Phase) (e : ts ≡ before ++ (p ∷ after)) where
  pub ends_thread : Change ts (before ++ after) (p ∷ []) []
  ends_thread = record {
    sums = λ m. omega (arith, ap (sum_of m) e ∙ sum_of-middle m before after p);
  }

  pub goes_on : (q : Phase) → Change ts (before ++ (q ∷ after)) (p ∷ []) (q ∷ [])
  goes_on q = record {
    sums = λ m.
        omega
          (arith, ap (sum_of m) e ∙ sum_of-middle m before after p, sum_of-middle m before after q);
  }

-- What the back end completes: for each completion one of the requests it took, and no request
-- twice.
pub data Completes : List IoCompletion → List IoRequest → List IoRequest → Type 0 where
  nothing : (b : List IoRequest) → Completes [] b b
  one :
      (c : IoCompletion) (cs : List IoCompletion) (op : IoRequest)
      (b before after rest : List IoRequest)
      → b ≡ before ++ (op ∷ after)
      → c.file_id ≡ op.file_id
      → Completes cs (before ++ after) rest
      → Completes (c ∷ cs) b rest
