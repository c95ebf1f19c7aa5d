-- ===== src/DiskIo/Queues.antt =====
-- The driver's choice of the next request, FastClone/disk_io_driver.cpp: the fair share of the two
-- queues, and small requests first.
pub mod Fairness
use fast_clone.Prelude.{
  ℕ, ◌-◌, Bool, true, false, ◌&&◌, if◌then◌else◌, ◌==◌, ltb, List, [], ◌∷◌, Option, none, some,
}
use fast_clone.DiskIo.{Prio, small, large, IoRequest, IoDriverConfig}

abbrev pub is_small : Prio → Bool
is_small small = true
is_small large = false

abbrev pub behind :
    IoRequest → Option (IoRequest × List IoRequest) → Option (IoRequest × List IoRequest)
behind r none = none
behind r (some (s, q)) = some (s, r ∷ q)

-- The loop over the queue: the first small request, and the queue without it.
unfoldable pub take_small : List IoRequest → Option (IoRequest × List IoRequest)
take_small [] = none
take_small (r ∷ q) =
    let rest = behind r (take_small q) in if is_small r.prio then some (r, q) else rest

-- The callers ask for a request of a queue that has one.
unfoldable pub pop_prefer_small : List IoRequest → Option (IoRequest × List IoRequest)
pop_prefer_small [] = none
pop_prefer_small (r ∷ q) = elim (take_small (r ∷ q)) [
  | some found ↦ some found
  | none ↦ some (r, q)
]

pub record Credits : Type 0 where
  pub read_credit : ℕ
  pub write_credit : ℕ

unfoldable pub full_credits : IoDriverConfig → Credits
full_credits cfg = record {
  read_credit = if cfg.read_weight == 0 then 1 else cfg.read_weight;
  write_credit = if cfg.write_weight == 0 then 1 else cfg.write_weight;
}

unfoldable pub refill : IoDriverConfig → Credits → Credits
unfolding full_credits
refill cfg c = if c.read_credit == 0 && c.write_credit == 0 then full_credits cfg else c

-- Whether a read is next, where `have_r` and `have_w` tell which queues have a request; and the
-- credits after it. A credit of 0 stays 0.
unfoldable pub pick_side : IoDriverConfig → Bool → Bool → Credits → Bool × Credits
unfolding refill
pick_side cfg have_r have_w c =
    let both = have_r && have_w in
    let fresh = if both then refill cfg c else c in
    let is_read = if both then ltb 0 fresh.read_credit else have_r in
    if is_read
    then (true, record fresh { read_credit = fresh.read_credit - 1 })
    else (false, record fresh { write_credit = fresh.write_credit - 1 })
