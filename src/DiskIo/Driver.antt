-- ===== src/DiskIo/Driver.antt =====
-- The driver of FastClone/disk_io_driver.cpp: its queues, credits, completions and counters. Each
-- function is one critical section of its mutexes, or the part of one behind which no other
-- thread can tell the difference; Driver/Steps has the order in which a thread runs them. The back
-- end holds the requests that it took and has not completed; what it answers is the environment's
-- choice.
pub mod Outstanding
pub mod Threads
pub mod Submitting
pub mod Picking
pub mod Accounting
pub mod Settling
pub mod Counting
pub mod Steps
pub mod Kept
pub mod Release
pub mod Deliveries
pub mod Settled
pub mod Released
use fast_clone.Prelude.{
  ℕ, ◌+◌, ◌-◌, ◌%◌, ◌^◌, Bool, true, false, not, ◌&&◌, ◌||◌, if◌then◌else◌, ◌==◌, ltb, leb, List,
  [], ◌∷◌, ◌++◌, Option, none, some, length,
}
use fast_clone.Prelude.Assoc.{lookup, insert, erase}
use fast_clone.DiskIo.{
  OpKind, read, write, IoStatus, eof, cancelled, error, IoRequest, IoCompletion, IoDriverConfig,
}
use fast_clone.DiskIo.Queues.{pop_prefer_small, Credits, full_credits, pick_side}
use fast_clone.DiskIo.Completions.{
  Completions, no_completions, push_completion, release_file_locked,
}

pub record IoCounters : Type 0 where
  pub queued : ℕ
  pub submitted : ℕ
  pub completed : ℕ
  pub cancelled_ops : ℕ
  pub failed : ℕ
  pub read_submitted : ℕ
  pub write_submitted : ℕ
  pub bytes_read : ℕ
  pub bytes_written : ℕ

pub record Driver : Type 0 where
  pub read_q : List IoRequest
  pub write_q : List IoRequest
  pub credits : Credits
  pub is_cancelled : Bool
  pub stop : Bool
  pub in_flight : ℕ
  pub completions : Completions
  pub file_outstanding : List (ℕ × ℕ)
  pub pending_release : List ℕ
  pub counters : IoCounters
  pub schedule_log : List OpKind

abbrev pub no_counters : IoCounters
no_counters = record {
  queued = 0;
  submitted = 0;
  completed = 0;
  cancelled_ops = 0;
  failed = 0;
  read_submitted = 0;
  write_submitted = 0;
  bytes_read = 0;
  bytes_written = 0;
}

unfoldable pub new_driver : IoDriverConfig → Driver
unfolding full_credits
new_driver cfg = record {
  read_q = [];
  write_q = [];
  credits = full_credits cfg;
  is_cancelled = false;
  stop = false;
  in_flight = 0;
  completions = no_completions;
  file_outstanding = [];
  pending_release = [];
  counters = no_counters;
  schedule_log = [];
}

abbrev pub outstanding_of : ℕ → List (ℕ × ℕ) → ℕ
outstanding_of f m = elim (lookup f m) [ some n ↦ n | none ↦ 0 ]

-- `++outstandingDelta[fid]`.
unfoldable pub count_one : ℕ → List (ℕ × ℕ) → List (ℕ × ℕ)
count_one f [] = (f, 1) ∷ []
count_one f ((g, n) ∷ m) =
    let rest = count_one f m in if g == f then (g, (n + 1) % 2 ^ 32) ∷ m else (g, n) ∷ rest

-- The loop over the batch: what the queues become, what is left of the batch, how many requests
-- were accepted, and how many of each file. It stops at the first request whose queue is full.
pub record Filling : Type 0 where
  pub reads : List IoRequest
  pub writes : List IoRequest
  pub batch : List IoRequest
  pub accepted : ℕ
  pub delta : List (ℕ × ℕ)

abbrev pub accept : IoRequest → Filling → Filling
accept req s = elim req.kind [
  | read ↦ record s { reads = s.reads ++ (req ∷ []) }
  | write ↦ record s { writes = s.writes ++ (req ∷ []) }
]

abbrev pub has_room : IoDriverConfig → IoRequest → Filling → Bool
has_room cfg req s = elim req.kind [
  | read ↦ ltb (length s.reads) cfg.max_read_queue
  | write ↦ ltb (length s.writes) cfg.max_write_queue
]

unfoldable pub fill : IoDriverConfig → List IoRequest → Filling → Filling
unfolding count_one
fill cfg [] s = record s { batch = [] }
fill cfg (req ∷ batch) s =
    let t = accept req s in
    let rest =
      fill cfg batch
        (record t { accepted = s.accepted + 1; delta = count_one req.file_id s.delta }) in
    if has_room cfg req s then rest else record s { batch = req ∷ batch }

-- `fileOutstanding_[file] += n` for each file of the batch.
unfoldable pub merge : List (ℕ × ℕ) → List (ℕ × ℕ) → List (ℕ × ℕ)
unfolding lookup insert
merge [] m = m
merge ((f, n) ∷ delta) m = merge delta (insert f ((outstanding_of f m + n) % 2 ^ 32) m)

-- `submit` until it lets go of the queues: the rest of the batch, how many requests were accepted,
-- and the driver. The counts of outstanding operations are merged inside that section.
unfoldable pub submit : IoDriverConfig → List IoRequest → Driver → List IoRequest × ℕ × Driver
unfolding fill merge
submit cfg batch d =
    let start : Filling = record {
      reads = d.read_q;
      writes = d.write_q;
      batch = batch;
      accepted = 0;
      delta = [];
    } in
    let s = fill cfg batch start in
    if d.is_cancelled || d.stop then (batch, 0, d) else (
      s.batch,
      s.accepted,
      record d {
        read_q = s.reads;
        write_q = s.writes;
        file_outstanding = merge s.delta d.file_outstanding;
      },
    )

-- Its later section, which counts the accepted requests.
unfoldable pub count_queued : ℕ → Driver → Driver
count_queued n d = record d { counters = record d.counters { queued = d.counters.queued + n } }

unfoldable pub contains : ℕ → List ℕ → Bool
contains f [] = false
contains f (g ∷ l) = let rest = contains f l in if g == f then true else rest

unfoldable pub remove : ℕ → List ℕ → List ℕ
remove f [] = []
remove f (g ∷ l) = let rest = remove f l in if g == f then rest else g ∷ rest

-- `--it->second == 0` erases the entry.
unfoldable pub count_delivery : ℕ → List (ℕ × ℕ) → List (ℕ × ℕ)
unfolding lookup insert erase
count_delivery f m = elim (lookup f m) [
  | none ↦ m
  | some n ↦ if n - 1 == 0 then erase f m else insert f (n - 1) m
]

abbrev pub is_outstanding : ℕ → List (ℕ × ℕ) → Bool
is_outstanding f m = elim (lookup f m) [ some n ↦ true | none ↦ false ]

-- `EnqueueCompletion`: the completion is queued, then one operation of its file is settled, and
-- with the last one a release that waited for it is carried out.
unfoldable pub enqueue_completion : IoCompletion → Driver → Driver
unfolding push_completion count_delivery contains remove release_file_locked lookup
enqueue_completion c d =
    let f = c.file_id in
    let pushed = push_completion c d.completions in
    let left = count_delivery f d.file_outstanding in
    let t = record d { completions = pushed; file_outstanding = left } in
    if is_outstanding f left
    then t
    else if contains f d.pending_release
    then record t {
      completions = release_file_locked f pushed;
      pending_release = remove f d.pending_release;
    }
    else t

-- The first part of `PickAndSubmit`: the request that is next, if one may go out.
unfoldable pub pick : IoDriverConfig → Driver → Option (IoRequest × Driver)
unfolding pick_side pop_prefer_small
pick cfg d =
    let have_r = ltb 0 (length d.read_q) in
    let have_w = ltb 0 (length d.write_q) in
    let (is_read, credits) = pick_side cfg have_r have_w d.credits in
    let side = if is_read then read else write in
    let counted = record d.counters {
      submitted = d.counters.submitted + 1;
      read_submitted = if is_read then d.counters.read_submitted + 1 else d.counters.read_submitted;
      write_submitted =
          if is_read then d.counters.write_submitted else d.counters.write_submitted + 1;
    } in
    let t = record d {
      credits = credits;
      in_flight = d.in_flight + 1;
      counters = counted;
      schedule_log = if cfg.record_schedule then d.schedule_log ++ (side ∷ []) else d.schedule_log;
    } in
    if d.is_cancelled || leb cfg.max_in_flight d.in_flight
    then none
    else if not have_r && not have_w
    then none
    else if is_read
    then elim (pop_prefer_small d.read_q) [
      | some (op, q) ↦ some (op, record t { read_q = q })
      | none ↦ none
    ]
    else elim (pop_prefer_small d.write_q) [
      | some (op, q) ↦ some (op, record t { write_q = q })
      | none ↦ none
    ]

abbrev pub completion_of : IoStatus → IoRequest → IoCompletion
completion_of status op = record {
  kind = op.kind;
  file_id = op.file_id;
  offset = op.offset;
  requested = op.size;
  transferred = 0;
  status = status;
  user_tag = op.user_tag;
  bytes = [];
}

-- Its last section, behind the completion that stands for a hard failure of the back end.
unfoldable pub give_slot_back : Driver → Driver
give_slot_back d = record d { in_flight = d.in_flight - 1 }

-- The counting of one reaped completion.
unfoldable pub tally : IoCompletion → IoCounters → IoCounters
tally c n = elim c.status [
  | error ↦ record n { failed = n.failed + 1 }
  | cancelled ↦ record n { cancelled_ops = n.cancelled_ops + 1 }
  | _ ↦ elim c.kind [
    | read ↦ record n { completed = n.completed + 1; bytes_read = n.bytes_read + c.transferred }
    | write ↦ record n {
      completed = n.completed + 1;
      bytes_written = n.bytes_written + c.transferred;
    }
  ]
]

unfoldable pub tally_all : List IoCompletion → IoCounters → IoCounters
unfolding tally
tally_all [] n = n
tally_all (c ∷ cs) n = tally_all cs (tally c n)

-- The scheduler's two sections behind the delivery of what it reaped: the slots, and the counters.
unfoldable pub land : ℕ → Driver → Driver
land got d = record d { in_flight = d.in_flight - got }

unfoldable pub count_reaped : List IoCompletion → Driver → Driver
unfolding tally_all
count_reaped cs d = record d { counters = tally_all cs d.counters }

abbrev pub flushed : List IoRequest → List IoCompletion
flushed [] = []
flushed (op ∷ q) = completion_of cancelled op ∷ flushed q

-- `requestCancel` until it lets go of the queues: the completions that it is to deliver, and the
-- driver; none where it was cancelled before.
unfoldable pub request_cancel : Driver → Option (List IoCompletion × Driver)
request_cancel d =
    if d.is_cancelled
    then none
    else some (
      flushed d.read_q ++ flushed d.write_q,
      record d { is_cancelled = true; read_q = []; write_q = [] },
    )

-- Its last section, which counts what was flushed.
unfoldable pub count_flushed : ℕ → Driver → Driver
count_flushed n d = record d {
  counters = record d.counters { cancelled_ops = d.counters.cancelled_ops + n };
}

-- `releaseFile`, its first section: whether the file is to be cleaned up at once, and the driver,
-- in which the release is registered if it is not.
unfoldable pub release_file : ℕ → Driver → Bool × Driver
unfolding lookup contains
release_file f d =
    if is_outstanding f d.file_outstanding
    then (
      false,
      record d {
        pending_release =
            if contains f d.pending_release then d.pending_release else f ∷ d.pending_release;
      },
    )
    else (true, d)

-- Its second section, where it is.
unfoldable pub release_now : ℕ → Driver → Driver
unfolding release_file_locked
release_now f d = record d { completions = release_file_locked f d.completions }
