-- ===== src/Runs/Disk.antt =====
-- Runs of the disk driver, its completions and the sequential reader.
use fast_clone.Prelude.{
  ℕ, ◌+◌, ◌≤◌, ◌≡◌, ◌⊎◌, inr, refl, true, false, min, List, [], ◌∷◌, ◌++◌, length, arith, some,
  none,
}
use fast_clone.DiskIo.Completions.History
use fast_clone.DiskIo.Reader.InOrder
use fast_clone.DiskIo.{read, Prio, small, large, done, IoRequest, IoCompletion, IoDriverConfig}
use fast_clone.DiskIo.Completions.{no_completions}
use fast_clone.DiskIo.Completions.History.{
  enqueue, drain_all, drain_file, calls, queue_calls, queue_call, for_file, not_for_file, calls_lem,
}
use fast_clone.DiskIo.Driver.{Driver, new_driver, submit, pick, release_file, enqueue_completion}
use fast_clone.DiskIo.Driver.Threads.{World, handing, reaping, nothing, one}
use fast_clone.DiskIo.Driver.Accounting.{Accounts, submitted}
use fast_clone.DiskIo.Driver.Steps.{
  Step, Reach, starts, start, after_step, submits, picks, takes, reaps, delivers_reaped,
  defers_release,
}
use fast_clone.DiskIo.Driver.Kept.{driver-Accounts}
use fast_clone.DiskIo.Driver.Release.{Forgotten}
use fast_clone.DiskIo.Driver.Released.{called, Later, here, then_step, release_file_lem}
use fast_clone.DiskIo.Queues.{full_credits, pop_prefer_small, take_small}
use fast_clone.DiskIo.Queues.Fairness.{
  AllSame, busy_sides, share, FirstSmall, AllLarge, busy_sides_fair, full_credits-Within,
  pop_prefer_small_lem,
}
use fast_clone.DiskIo.Reader.{new_reader, Carry, pull}
use fast_clone.DiskIo.Reader.InOrder.{read_calls, read_calls_lem, AreChunks}
use fast_clone.DiskIo.Reader.Pull.{waiting, pull_lem}

abbrev request : ℕ → ℕ → Prio → IoRequest
request file_id offset prio = record {
  kind = read;
  file_id = file_id;
  offset = offset;
  size = 2;
  prio = prio;
  user_tag = offset;
  bytes = [];
}

abbrev completion : ℕ → ℕ → List ℕ → IoCompletion
completion file_id offset bytes = record {
  kind = read;
  file_id = file_id;
  offset = offset;
  requested = 2;
  transferred = length bytes;
  status = done;
  user_tag = offset;
  bytes = bytes;
}

abbrev config : IoDriverConfig
config = record {
  max_read_queue = 4;
  max_write_queue = 4;
  read_weight = 2;
  write_weight = 1;
  max_in_flight = 3;
  record_schedule = true;
}

-- Two completions of two files, a drain of one, another arrival, and a drain of all.
abbrev traffic : List History.Call
traffic =
    enqueue (completion 1 0 (10 ∷ []))
    ∷ enqueue (completion 2 0 (20 ∷ []))
    ∷ drain_file 1
    ∷ enqueue (completion 1 2 (11 ∷ []))
    ∷ drain_all
    ∷ []

traffic_out :
    queue_calls traffic []
    ≡ []
      ∷ []
      ∷ (completion 1 0 (10 ∷ []) ∷ [])
      ∷ []
      ∷ (completion 2 0 (20 ∷ []) ∷ completion 1 2 (11 ∷ []) ∷ [])
      ∷ []
unfolding queue_calls queue_call for_file not_for_file
traffic_out = refl

calls_lem_example : calls traffic no_completions ≡ queue_calls traffic []
calls_lem_example = calls_lem traffic

-- A request of file 1 is queued, and the file is released before the request went out.
abbrev asked : IoRequest
asked = request 1 0 large

abbrev answered : IoCompletion
answered = completion 1 0 (10 ∷ 11 ∷ [])

abbrev queued : World
queued = submitted config (asked ∷ []) (start config)

queued-Reach : Reach config queued
queued-Reach = after_step (start config) queued starts (submits (asked ∷ []))

abbrev released : World
released = called 1 queued

abbrev sent : Driver
sent = elim (pick config released.driver) [ some (op, t) ↦ t | none ↦ released.driver ]

abbrev in_hand : World
in_hand = record released { driver = sent; threads = handing asked ∷ released.threads }

abbrev with_backend : World
with_backend = record in_hand { backend = asked ∷ []; threads = released.threads }

abbrev reaped : World
reaped = record with_backend {
  backend = [];
  threads = reaping [] (answered ∷ []) ∷ released.threads;
}

abbrev settled : World
settled = record reaped {
  driver = enqueue_completion answered reaped.driver;
  threads = reaping (answered ∷ []) [] ∷ released.threads;
}

picked_up : Step config released in_hand
unfolding new_driver submit release_file pick full_credits take_small
picked_up = picks asked sent refl

until_settled : Later config 1 released settled
unfolding new_driver submit release_file pick enqueue_completion take_small
until_settled =
    let held : Later config 1 released in_hand =
      then_step released in_hand here picked_up (omega arith) in
    let out : Later config 1 released with_backend =
      then_step in_hand with_backend held (takes [] released.threads asked refl) (omega arith) in
    let back : Later config 1 released reaped =
      then_step with_backend reaped out
        (reaps (answered ∷ []) []
          (one answered [] asked (asked ∷ []) [] [] [] refl refl (nothing [])))
        (omega arith) in
    then_step reaped settled back (delivers_reaped [] released.threads [] [] answered refl)
      (omega arith)

in_hand-Reach : Reach config in_hand
unfolding new_driver submit release_file
in_hand-Reach =
    after_step released in_hand
      (after_step queued released queued-Reach (defers_release 1 released.driver refl)) picked_up

driver-Accounts_example : Accounts config in_hand
driver-Accounts_example = driver-Accounts config in_hand (omega arith) in_hand-Reach

release_file_lem_example : Forgotten 1 settled.driver
unfolding new_driver submit release_file pick enqueue_completion take_small
release_file_lem_example =
    release_file_lem config 1 queued settled (omega arith) queued-Reach until_settled refl refl

-- The small request of file 2 overtakes the large one of file 1.
abbrev overtaken : List IoRequest
overtaken = request 1 0 large ∷ request 2 0 small ∷ []

pop_prefer_small_lem_example :
    FirstSmall overtaken (request 2 0 small) (request 1 0 large ∷ [])
    ⊎ ((overtaken ≡ request 2 0 small ∷ request 1 0 large ∷ []) × AllLarge overtaken)
unfolding pop_prefer_small take_small
pop_prefer_small_lem_example =
    pop_prefer_small_lem overtaken (request 2 0 small) (request 1 0 large ∷ []) refl

busy_sides_fair_example :
    (AllSame true (busy_sides config 4 (full_credits config))
      → 4 ≤ share config.read_weight + share config.read_weight)
    × (AllSame false (busy_sides config 4 (full_credits config)) → 4 ≤ share config.write_weight)
busy_sides_fair_example =
    busy_sides_fair config 4 (full_credits config) (full_credits-Within config)

-- A file of five bytes in chunks of two, whose completions come last first.
abbrev content : List ℕ
content = 1 ∷ 2 ∷ 3 ∷ 4 ∷ 5 ∷ []

abbrev late_first : List IoCompletion
late_first =
    completion 7 4 (5 ∷ []) ∷ completion 7 2 (3 ∷ 4 ∷ []) ∷ completion 7 0 (1 ∷ 2 ∷ []) ∷ []

abbrev three_calls : List InOrder.Call
three_calls =
    record { batches = late_first ∷ []; first = 3; again = 0 }
    ∷ record { batches = []; first = 0; again = 0 }
    ∷ record { batches = []; first = 0; again = 0 }
    ∷ []

all_read : read_calls three_calls (new_reader 7 5 2 4) ≡ content
unfolding read_calls new_reader
all_read = refl

late_first-AreChunks : AreChunks content (new_reader 7 5 2 4).chunk three_calls
unfolding new_reader
late_first-AreChunks = (((inr refl, (inr refl, (inr refl, tt))), tt), (tt, (tt, tt)))

read_calls_lem_example :
    (rest : List ℕ) × (read_calls three_calls (new_reader 7 5 2 4) ++ rest ≡ content)
read_calls_lem_example = read_calls_lem content 7 2 4 three_calls late_first-AreChunks

abbrev chunks_read : List (List ℕ)
chunks_read = (1 ∷ 2 ∷ 3 ∷ []) ∷ (4 ∷ 5 ∷ []) ∷ []

abbrev nothing_carried : Carry
nothing_carried = record { carry = []; carry_pos = 0 }

pull_lem_example :
    ((pull 4 nothing_carried chunks_read []).0
        ++ waiting
            (pull 4 nothing_carried chunks_read []).1
            (pull 4 nothing_carried chunks_read []).2
      ≡ waiting nothing_carried chunks_read)
    × (length (pull 4 nothing_carried chunks_read []).0
        ≡ min 4 (length (waiting nothing_carried chunks_read)))
pull_lem_example = pull_lem 4 nothing_carried chunks_read (omega arith, (omega arith, tt))
