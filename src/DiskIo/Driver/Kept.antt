-- ===== src/DiskIo/Driver/Kept.antt =====
-- Every step of the driver's threads keeps the accounting.
use fast_clone.Prelude.{
  ℕ, zero, suc, ◌<◌, ◌≡◌, refl, true, false, if◌then◌else◌, ◌==◌, Bool, List, [], ◌∷◌, ◌++◌,
  length-append, arith, Bool-cases, inl, inr, ==_iff, ◌⊎◌,
}
use fast_clone.Prelude.Assoc.{lookup}
use fast_clone.DiskIo.{IoRequest, IoCompletion, IoDriverConfig, error}
use fast_clone.DiskIo.Completions.{Completions}
use fast_clone.DiskIo.Completions.OneQueue.{IsOneQueue, no_completions-IsOneQueue}
use fast_clone.DiskIo.Completions.Drain.{release_file_locked-Drained, drain_for_file-Drained}
use fast_clone.DiskIo.Completions.DrainAll.{drain_completions_lem}
use fast_clone.DiskIo.Driver.{
  Driver, new_driver, completion_of, release_file, release_now, contains, is_outstanding,
}
use fast_clone.DiskIo.Driver.Outstanding.{count, counted}
use fast_clone.DiskIo.Driver.Picking.{pick-Picked}
use fast_clone.DiskIo.Driver.Threads.{
  counting_queued, handing, refusing, returning_slot, reaping, tallying, flushing, releasing, World,
  live, starts_thread, ends_thread, goes_on,
}
use fast_clone.DiskIo.Driver.Accounting.{FitsU32, Accounts, submit-Accounts, picked-Accounts}
use fast_clone.DiskIo.Driver.Settling.{Delivers, delivered-Accounts, request_cancel-Accounts}
use fast_clone.DiskIo.Driver.Steps.{
  Step, submits, counts_queued, picks, takes, refuses, delivers_failure, gives_slot_back, reaps,
  delivers_reaped, lands, counts_reaped, cancels, delivers_flushed, counts_flushed,
  releases_at_once, defers_release, releases, drains, drains_file, stops, start, Reach, starts,
  after_step,
}
use fast_clone.DiskIo.Driver.Counting.{
  count_queued-Accounts, refuses-Accounts, gives_slot_back-Accounts, lands-Accounts,
  counts_reaped-Accounts, counts_flushed-Accounts, takes-Accounts, reaps-Accounts, release_begins,
  release_ends,
}

start-Accounts : (cfg : IoDriverConfig) → Accounts cfg (start cfg)
unfolding new_driver contains lookup
start-Accounts cfg = record {
  tracks = record {
    tracked = λ f. refl;
    releases = λ f h. absurd (cc);
    one_queue = no_completions-IsOneQueue;
  };
  flight = refl;
  reads_fit = omega arith;
  writes_fit = omega arith;
  flight_fits = omega arith;
  flushed_queues = λ h. (refl, refl);
  nothing_flushed = λ h. refl;
  conserved = refl;
}

-- Only the completions change, and they stay one queue.
completions-Accounts :
    (cfg : IoDriverConfig) (w : World) (q : Completions)
    → Accounts cfg w
    → IsOneQueue q
    → Accounts cfg (record w { driver = record w.driver { completions = q } })
completions-Accounts cfg w q a h = record {
  tracks = record { tracked = a.tracks.tracked; releases = a.tracks.releases; one_queue = h };
  flight = a.flight;
  reads_fit = a.reads_fit;
  writes_fit = a.writes_fit;
  flight_fits = a.flight_fits;
  flushed_queues = a.flushed_queues;
  nothing_flushed = a.nothing_flushed;
  conserved = a.conserved;
}

stops-Accounts :
    (cfg : IoDriverConfig) (w : World)
    → Accounts cfg w
    → Accounts cfg (record w { driver = record w.driver { stop = true } })
stops-Accounts cfg w a = record {
  tracks = record {
    tracked = a.tracks.tracked;
    releases = a.tracks.releases;
    one_queue = a.tracks.one_queue;
  };
  flight = a.flight;
  reads_fit = a.reads_fit;
  writes_fit = a.writes_fit;
  flight_fits = a.flight_fits;
  flushed_queues = a.flushed_queues;
  nothing_flushed = a.nothing_flushed;
  conserved = a.conserved;
}

pub outstanding-pos :
    (f n : ℕ) (m : List (ℕ × ℕ)) → lookup f m ≡ counted n → is_outstanding f m ≡ true → 0 < n
outstanding-pos f zero m h e = ground arith
outstanding-pos f (suc n) m h e = omega arith

registered :
    (f g : ℕ) (l : List ℕ) (n : ℕ)
    → (contains g l ≡ true → 0 < n)
    → ((f == g) ≡ true → 0 < n)
    → contains g (if contains f l then l else f ∷ l) ≡ true
    → 0 < n
unfolding contains
registered f g l n old new h = ground arith

-- A release that is registered, where an operation of the file is under way.
abbrev pub registered_release : ℕ → Driver → Driver
registered_release f d = record d {
  pending_release =
      if contains f d.pending_release then d.pending_release else f ∷ d.pending_release;
}

pub release_file-cases :
    (f : ℕ) (d t : Driver) (at_once : Bool)
    → release_file f d ≡ (at_once, t)
    → ((at_once ≡ true) × (t ≡ d) × (is_outstanding f d.file_outstanding ≡ false))
      ⊎ ((at_once ≡ false)
          × (t ≡ registered_release f d)
          × (is_outstanding f d.file_outstanding ≡ true))
unfolding release_file
release_file-cases f d t at_once h = elim (Bool-cases (is_outstanding f d.file_outstanding)) [
  | inl waiting ↦ inr (ground arith, ground arith, waiting)
  | inr settled ↦ inl (ground arith, ground arith, settled)
]

registered-Accounts :
    (cfg : IoDriverConfig) (w : World) (f : ℕ)
    → Accounts cfg w
    → is_outstanding f w.driver.file_outstanding ≡ true
    → Accounts cfg (record w { driver = registered_release f w.driver })
registered-Accounts cfg w f a waiting =
    let pos =
      outstanding-pos f (count f (live w)) w.driver.file_outstanding (a.tracks.tracked f) waiting in
    record {
      tracks = record {
        tracked = a.tracks.tracked;
        releases = λ g h.
            registered f g w.driver.pending_release (count g (live w)) (a.tracks.releases g)
              (λ e. rw (← (==_iff f g).0 e) pos) h;
        one_queue = a.tracks.one_queue;
      };
      flight = a.flight;
      reads_fit = a.reads_fit;
      writes_fit = a.writes_fit;
      flight_fits = a.flight_fits;
      flushed_queues = a.flushed_queues;
      nothing_flushed = a.nothing_flushed;
      conserved = a.conserved;
    }

pub failure-Delivers :
    (op : IoRequest) → Delivers (completion_of error op) (refusing op) returning_slot
failure-Delivers op = record {
  delivered = λ f. refl;
  same_slots = refl;
  less_flush = omega arith;
  same_uncounted = refl;
  same_owed = refl;
}

pub reaped-Delivers :
    (c : IoCompletion) (made left : List IoCompletion)
    → Delivers c (reaping made (c ∷ left)) (reaping (made ++ (c ∷ [])) left)
reaped-Delivers c made left =
    let size = length-append made (c ∷ []) in
    record {
      delivered = λ f. refl;
      same_slots = omega (arith, size);
      less_flush = omega arith;
      same_uncounted = refl;
      same_owed = omega (arith, size);
    }

pub flushed-Delivers :
    (c : IoCompletion) (left : List IoCompletion) (n : ℕ)
    → Delivers c (flushing (c ∷ left) n) (flushing left n)
flushed-Delivers c left n = record {
  delivered = λ f. refl;
  same_slots = refl;
  less_flush = omega arith;
  same_uncounted = refl;
  same_owed = refl;
}

Step-Accounts :
    (cfg : IoDriverConfig) (v w : World)
    → FitsU32 cfg
    → Accounts cfg v
    → Step cfg v w
    → Accounts cfg w
unfolding release_now
Step-Accounts cfg v _ fits a (submits batch) = submit-Accounts cfg batch v fits a
Step-Accounts cfg v _ fits a (counts_queued before after n e) =
    count_queued-Accounts cfg v a _ n (ends_thread v.threads before after (counting_queued n) e)
Step-Accounts cfg v _ fits a (picks op t h) =
    picked-Accounts cfg v op t a (pick-Picked cfg v.driver op t h)
Step-Accounts cfg v _ fits a (takes before after op e) =
    takes-Accounts cfg v a _ op (ends_thread v.threads before after (handing op) e)
Step-Accounts cfg v _ fits a (refuses before after op e) =
    refuses-Accounts cfg v a _ op (goes_on v.threads before after (handing op) e (refusing op))
Step-Accounts cfg v _ fits a (delivers_failure before after op e) =
    delivered-Accounts cfg v (completion_of error op) _ (refusing op) returning_slot a
      (goes_on v.threads before after (refusing op) e returning_slot) (failure-Delivers op)
Step-Accounts cfg v _ fits a (gives_slot_back before after e) =
    gives_slot_back-Accounts cfg v a _ (ends_thread v.threads before after returning_slot e)
Step-Accounts cfg v _ fits a (reaps cs rest made) =
    reaps-Accounts cfg v a _ cs rest made (starts_thread v.threads (reaping [] cs))
Step-Accounts cfg v _ fits a (delivers_reaped before after made left c e) =
    delivered-Accounts cfg v c _ (reaping made (c ∷ left)) (reaping (made ++ (c ∷ [])) left) a
      (goes_on v.threads before after (reaping made (c ∷ left)) e (reaping (made ++ (c ∷ [])) left))
      (reaped-Delivers c made left)
Step-Accounts cfg v _ fits a (lands before after made e) =
    lands-Accounts cfg v a _ made
      (goes_on v.threads before after (reaping made []) e (tallying made))
Step-Accounts cfg v _ fits a (counts_reaped before after made e) =
    counts_reaped-Accounts cfg v a _ made (ends_thread v.threads before after (tallying made) e)
Step-Accounts cfg v _ fits a (cancels cs t h) = request_cancel-Accounts cfg v cs t h a
Step-Accounts cfg v _ fits a (delivers_flushed before after c left n e) =
    delivered-Accounts cfg v c _ (flushing (c ∷ left) n) (flushing left n) a
      (goes_on v.threads before after (flushing (c ∷ left) n) e (flushing left n))
      (flushed-Delivers c left n)
Step-Accounts cfg v _ fits a (counts_flushed before after n e) =
    counts_flushed-Accounts cfg v a _ n (ends_thread v.threads before after (flushing [] n) e)
Step-Accounts cfg v _ fits a (releases_at_once f t h) =
    elim (release_file-cases f v.driver t true h) [
      | inl now ↦ rw now.1 (release_begins cfg v a _ f (starts_thread v.threads (releasing f)))
      | inr later ↦ absurd (cc)
    ]
Step-Accounts cfg v _ fits a (defers_release f t h) =
    elim (release_file-cases f v.driver t false h) [
      | inl now ↦ absurd (cc)
      | inr later ↦ rw later.1 (registered-Accounts cfg v f a later.2)
    ]
Step-Accounts cfg v _ fits a (releases before after f e) =
    let ended_world = record v { threads = before ++ after } in
    completions-Accounts cfg ended_world _
      (release_ends cfg v a _ f (ends_thread v.threads before after (releasing f) e))
      (release_file_locked-Drained f v.driver.completions a.tracks.one_queue).valid
Step-Accounts cfg v _ fits a drains =
    completions-Accounts cfg v _ a
      (drain_completions_lem v.driver.completions a.tracks.one_queue).valid
Step-Accounts cfg v _ fits a (drains_file f) =
    completions-Accounts cfg v _ a
      (drain_for_file-Drained f v.driver.completions a.tracks.one_queue).1.valid
Step-Accounts cfg v _ fits a stops = stops-Accounts cfg v a

-- In every state between the critical sections of the driver's threads, in whatever order these
-- run, for queue bounds and a limit in flight that sum below 2^32: per file, the outstanding
-- count is the number of requests queued, with the back end or held by a thread; the queues and
-- the operations in flight are within their bounds; those in flight are the ones with the back
-- end and the slots that threads are to give back; a cancelled driver has empty queues; a
-- release waits only for a file with such requests; the completions are one queue; and every
-- request that was queued, counted or about to be, is counted as completed, failed or cancelled,
-- was refused by the back end, is with the back end, is still queued, or is held by a thread
-- that is to count it.
pub driver-Accounts :
    (cfg : IoDriverConfig) (w : World) → FitsU32 cfg → Reach cfg w → Accounts cfg w
driver-Accounts cfg _ fits starts = start-Accounts cfg
driver-Accounts cfg _ fits (after_step v w r s) =
    Step-Accounts cfg v w fits (driver-Accounts cfg v fits r) s
