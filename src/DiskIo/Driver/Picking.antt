-- ===== src/DiskIo/Driver/Picking.antt =====
-- What picking the next request does to the driver.
use fast_clone.Prelude.{
  ℕ, suc, ◌+◌, ◌<◌, ◌≡◌, ◌⊎◌, refl, ap, false, if◌then◌else◌, ◌==◌, List, [], ◌∷◌, ◌++◌, some,
  length, arith, Option-cases, inl, inr,
}
use fast_clone.DiskIo.{IoRequest, IoDriverConfig}
use fast_clone.DiskIo.Queues.{pop_prefer_small}
use fast_clone.DiskIo.Queues.Fairness.{pop_prefer_small_lem}
use fast_clone.DiskIo.Driver.{Driver, pick}
use fast_clone.DiskIo.Driver.Outstanding.{count, ids}

-- A request taken out of a queue: the rest of the queue is the queue without it.
pub record TakenOut (q : List IoRequest) (op : IoRequest) (rest : List IoRequest) : Type 0 where
  pub counts : (f : ℕ) → count f (ids q) ≡ (if op.file_id == f then 1 else 0) + count f (ids rest)
  pub lengths : length q ≡ suc (length rest)

taken_between :
    (before after : List IoRequest) (op : IoRequest)
    → TakenOut (before ++ (op ∷ after)) op (before ++ after)
taken_between [] after op = record { counts = λ f. refl; lengths = refl }
taken_between (x ∷ before) after op =
    let t = taken_between before after op in
    record { counts = λ f. let c = t.counts f in omega arith; lengths = ap suc t.lengths }

pop-TakenOut :
    (q : List IoRequest) (op : IoRequest) (rest : List IoRequest)
    → pop_prefer_small q ≡ some (op, rest)
    → TakenOut q op rest
pop-TakenOut q op rest h = elim (pop_prefer_small_lem q op rest h) [
  | inl (before, after, whole, left, large, small) ↦
      rw (whole, left) (taken_between before after op)
  | inr front ↦ rw front.0 (taken_between [] rest op)
]

-- What a picked request changes.
pub record Picked (cfg : IoDriverConfig) (d : Driver) (op : IoRequest) (t : Driver) : Type 0 where
  pub running : d.is_cancelled ≡ false
  pub room : d.in_flight < cfg.max_in_flight
  pub from_queue :
      (TakenOut d.read_q op t.read_q × (t.write_q ≡ d.write_q))
      ⊎ (TakenOut d.write_q op t.write_q × (t.read_q ≡ d.read_q))
  pub flight : t.in_flight ≡ d.in_flight + 1
  pub same_completions : t.completions ≡ d.completions
  pub same_outstanding : t.file_outstanding ≡ d.file_outstanding
  pub same_pending : t.pending_release ≡ d.pending_release
  pub same_cancelled : t.is_cancelled ≡ d.is_cancelled
  pub same_queued : t.counters.queued ≡ d.counters.queued
  pub same_completed : t.counters.completed ≡ d.counters.completed
  pub same_failed : t.counters.failed ≡ d.counters.failed
  pub same_cancelled_ops : t.counters.cancelled_ops ≡ d.counters.cancelled_ops

pub pick-Picked :
    (cfg : IoDriverConfig) (d : Driver) (op : IoRequest) (t : Driver)
    → pick cfg d ≡ some (op, t)
    → Picked cfg d op t
unfolding pick
pick-Picked cfg d op t h = elim (Option-cases (pop_prefer_small d.read_q)) [
  | inl no_read ↦ elim (Option-cases (pop_prefer_small d.write_q)) [
    | inl no_write ↦ ground arith
    | inr (w, e) ↦ ground (arith, pop-TakenOut d.write_q w.0 w.1 e)
  ]
  | inr (r, e) ↦ elim (Option-cases (pop_prefer_small d.write_q)) [
    | inl no_write ↦ ground (arith, pop-TakenOut d.read_q r.0 r.1 e)
    | inr (w, e2) ↦
        ground (arith, pop-TakenOut d.read_q r.0 r.1 e, pop-TakenOut d.write_q w.0 w.1 e2)
  ]
]
