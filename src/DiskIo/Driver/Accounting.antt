-- ===== src/DiskIo/Driver/Accounting.antt =====
-- The accounting of every accepted request, and what a submission and a choice do to it.
use fast_clone.Prelude.{
  ℕ, suc, ◌+◌, ◌^◌, ◌≤◌, ◌<◌, ◌≡◌, sym, ap, ◌∙◌, true, false, ◌||◌, List, [], ◌∷◌, ◌++◌, length,
  arith, Bool-cases, inl, inr,
}
use fast_clone.Prelude.Assoc.{lookup}
use fast_clone.DiskIo.{IoRequest, IoDriverConfig}
use fast_clone.DiskIo.Driver.{Driver, Filling, fill, submit, contains}
use fast_clone.DiskIo.Driver.Outstanding.{count, ids, count-append, counted, Tracks, Tracks-same}
use fast_clone.DiskIo.Driver.Submitting.{entry_sum, merge-tracked, FillOk, Grown, fill_lem, total}
use fast_clone.DiskIo.Driver.Picking.{Picked}
use fast_clone.DiskIo.Driver.Threads.{
  counting_queued, handing, World, held_of, slots, flush_left, uncounted, owed, sum_of, live,
  count-live, threads-bound, held_ids, count-held_ids,
}

abbrev pub FitsU32 : IoDriverConfig → Type 0
FitsU32 cfg = cfg.max_read_queue + cfg.max_write_queue + cfg.max_in_flight < 2 ^ 32

-- Every request that was accepted is somewhere.
abbrev pub Conserved : World → Type 0
Conserved w =
    w.driver.counters.queued + sum_of uncounted w.threads
    ≡ w.driver.counters.completed
      + w.driver.counters.failed
      + w.driver.counters.cancelled_ops
      + w.refused
      + length w.backend
      + length w.driver.read_q
      + length w.driver.write_q
      + sum_of owed w.threads

-- What holds between the critical sections.
pub record Accounts (cfg : IoDriverConfig) (w : World) : Type 0 where
  pub tracks : Tracks (live w) w.driver
  pub flight : w.driver.in_flight ≡ length w.backend + sum_of slots w.threads
  pub reads_fit : length w.driver.read_q ≤ cfg.max_read_queue
  pub writes_fit : length w.driver.write_q ≤ cfg.max_write_queue
  pub flight_fits : w.driver.in_flight ≤ cfg.max_in_flight
  pub flushed_queues :
      w.driver.is_cancelled ≡ true → (w.driver.read_q ≡ []) × (w.driver.write_q ≡ [])
  pub nothing_flushed : w.driver.is_cancelled ≡ false → sum_of flush_left w.threads ≡ 0
  pub conserved : Conserved w

-- The counts depend on three fields only.
pub Tracks-moved :
    (l : List ℕ) (d t : Driver)
    → t.completions ≡ d.completions
    → t.file_outstanding ≡ d.file_outstanding
    → t.pending_release ≡ d.pending_release
    → Tracks l d
    → Tracks l t
Tracks-moved l d t e1 e2 e3 h = record {
  tracked = λ f. ap (lookup f) e2 ∙ h.tracked f;
  releases = λ f r. h.releases f (sym (ap (contains f) e3) ∙ r);
  one_queue = rw e1 h.one_queue;
}

-- Two drivers that differ in their counters, their slots and their credits only.
pub record Untouched (d t : Driver) : Type 0 where
  pub reads : t.read_q ≡ d.read_q
  pub writes : t.write_q ≡ d.write_q
  pub completions : t.completions ≡ d.completions
  pub outstanding : t.file_outstanding ≡ d.file_outstanding
  pub pending : t.pending_release ≡ d.pending_release
  pub cancel : t.is_cancelled ≡ d.is_cancelled

-- A step that moves requests between the back end and the threads, and counts them.
pub Untouched-Accounts :
    (cfg : IoDriverConfig) (w v : World)
    → Accounts cfg w
    → Untouched w.driver v.driver
    → ((f : ℕ)
        → count f (ids w.backend) + sum_of (held_of f) w.threads
          ≡ count f (ids v.backend) + sum_of (held_of f) v.threads)
    → v.driver.in_flight ≡ length v.backend + sum_of slots v.threads
    → v.driver.in_flight ≤ w.driver.in_flight
    → sum_of flush_left v.threads ≤ sum_of flush_left w.threads
    → Conserved v
    → Accounts cfg v
Untouched-Accounts cfg w v a u same flight fewer flush total = record {
  tracks = Tracks-moved (live v) w.driver v.driver u.completions u.outstanding u.pending (
      Tracks-same (live w) (live v) w.driver
        (λ f. omega (
          arith,
          same f,
          count-live f w,
          count-live f v,
          ap (λ q. count f (ids q)) u.reads,
          ap (λ q. count f (ids q)) u.writes,
        ))
        a.tracks);
  flight = flight;
  reads_fit = omega (arith, a.reads_fit, ap length u.reads);
  writes_fit = omega (arith, a.writes_fit, ap length u.writes);
  flight_fits = omega (arith, a.flight_fits, fewer);
  flushed_queues =
      λ h. let q = a.flushed_queues (sym u.cancel ∙ h) in (u.reads ∙ q.0, u.writes ∙ q.1);
  nothing_flushed = λ h. omega (arith, a.nothing_flushed (sym u.cancel ∙ h), flush);
  conserved = total;
}

count-le-length : (f : ℕ) (q : List IoRequest) → count f (ids q) ≤ length q
count-le-length f [] = omega arith
count-le-length f (x ∷ q) = ground (arith, count-le-length f q)

abbrev starting : List IoRequest → Driver → Filling
starting batch d = record {
  reads = d.read_q;
  writes = d.write_q;
  batch = batch;
  accepted = 0;
  delta = [];
}

-- A submission, whose thread has still to count what was accepted.
abbrev pub submitted : IoDriverConfig → List IoRequest → World → World
submitted cfg batch w =
    let result = submit cfg batch w.driver in
    record w { driver = result.2; threads = counting_queued result.1 ∷ w.threads }

module _ (cfg : IoDriverConfig) (batch : List IoRequest) (w : World) (fits : FitsU32 cfg)
    (a : Accounts cfg w) where
  abbrev filled : Filling
  filled = fill cfg batch (starting batch w.driver)

  filled_lem : FillOk cfg filled × Grown (starting batch w.driver) filled
  unfolding total
  filled_lem =
      let start : FillOk cfg (starting batch w.driver) = record {
        reads_fit = a.reads_fit;
        writes_fit = a.writes_fit;
        positive = tt;
        bounded = omega arith;
      } in
      fill_lem cfg batch (starting batch w.driver) (omega arith) start

  -- The files under way in the queues that the loop leaves.
  abbrev live_after : List ℕ
  live_after = (ids filled.reads ++ ids filled.writes) ++ (ids w.backend ++ held_ids w.threads)

  count-live_after :
      (f : ℕ)
      → count f live_after
        ≡ count f (ids filled.reads)
          + count f (ids filled.writes)
          + count f (ids w.backend)
          + sum_of (held_of f) w.threads
  count-live_after f =
      let rest = ids w.backend ++ held_ids w.threads in
      let outer = count-append f (ids filled.reads ++ ids filled.writes) rest in
      let inner = count-append f (ids filled.reads) (ids filled.writes) in
      let behind = count-append f (ids w.backend) (held_ids w.threads) in
      omega (arith, count-held_ids f w.threads)

  count-grown : (f : ℕ) → count f live_after ≡ count f (live w) + entry_sum f filled.delta
  unfolding entry_sum
  count-grown f =
      let grown = filled_lem.1.per_file f in omega (arith, count-live f w, count-live_after f)

  small_after :
      w.driver.is_cancelled ≡ false → (f : ℕ) → count f (live w) + entry_sum f filled.delta < 2 ^ 32
  small_after open_driver f =
      let r = count-le-length f filled.reads in
      let wr = count-le-length f filled.writes in
      let b = count-le-length f w.backend in
      let held = threads-bound f w.threads in
      let none_flushed = a.nothing_flushed open_driver in
      let ok = filled_lem.0 in
      omega (
        arith,
        count-live_after f,
        count-grown f,
        ok.reads_fit,
        ok.writes_fit,
        a.flight,
        a.flight_fits,
      )

  submit_open :
      (w.driver.is_cancelled || w.driver.stop) ≡ false → Accounts cfg (submitted cfg batch w)
  unfolding submit
  submit_open running =
      let merged =
        merge-tracked filled.delta w.driver.file_outstanding (λ f. count f (live w))
          filled_lem.0.positive a.tracks.tracked (small_after (ground (arith, running))) in
      rw (running, submit)
        (record {
          tracks = record {
            tracked = λ f. merged f ∙ ap counted (sym (count-grown f));
            releases = λ f h. omega (arith, a.tracks.releases f h, count-grown f);
            one_queue = a.tracks.one_queue;
          };
          flight = omega (arith, a.flight);
          reads_fit = filled_lem.0.reads_fit;
          writes_fit = filled_lem.0.writes_fit;
          flight_fits = a.flight_fits;
          flushed_queues = λ h. ground (arith, running);
          nothing_flushed = λ h. omega (arith, a.nothing_flushed h);
          conserved = omega (arith, a.conserved, filled_lem.1.in_all);
        })

  pub submit-Accounts : Accounts cfg (submitted cfg batch w)
  unfolding submit
  submit-Accounts = elim (Bool-cases (w.driver.is_cancelled || w.driver.stop)) [
    | inl closed ↦
        rw (closed, submit)
          (record {
            tracks = a.tracks;
            flight = omega (arith, a.flight);
            reads_fit = a.reads_fit;
            writes_fit = a.writes_fit;
            flight_fits = a.flight_fits;
            flushed_queues = a.flushed_queues;
            nothing_flushed = λ h. omega (arith, a.nothing_flushed h);
            conserved = omega (arith, a.conserved);
          })
    | inr running ↦ submit_open running
  ]

module _ (cfg : IoDriverConfig) (w : World) (op : IoRequest) (t : Driver) (a : Accounts cfg w)
    (p : Picked cfg w.driver op t) where
  -- The thread that picked the request holds it.
  abbrev pub picked : World
  picked = record w { driver = t; threads = handing op ∷ w.threads }

  count-picked : (f : ℕ) → count f (live w) ≡ count f (live picked)
  count-picked f =
      let old = count-live f w in
      let new = count-live f picked in
      elim p.from_queue [
        | inl r ↦ omega (arith, r.0.counts f, ap (λ q. count f (ids q)) r.1)
        | inr v ↦ omega (arith, v.0.counts f, ap (λ q. count f (ids q)) v.1)
      ]

  picked_lengths :
      (length w.driver.read_q + length w.driver.write_q ≡ suc (length t.read_q + length t.write_q))
      × (length t.read_q ≤ length w.driver.read_q)
      × (length t.write_q ≤ length w.driver.write_q)
  picked_lengths = elim p.from_queue [
    | inl r ↦ ground (arith, r.0.lengths, ap length r.1)
    | inr v ↦ ground (arith, v.0.lengths, ap length v.1)
  ]

  pub picked-Accounts : Accounts cfg picked
  picked-Accounts = record {
    tracks =
        Tracks-moved _ w.driver t p.same_completions p.same_outstanding p.same_pending
          (Tracks-same (live w) (live picked) w.driver count-picked a.tracks);
    flight = omega (arith, p.flight, a.flight);
    reads_fit = omega (arith, a.reads_fit, picked_lengths.1);
    writes_fit = omega (arith, a.writes_fit, picked_lengths.2);
    flight_fits = omega (arith, p.flight, p.room);
    flushed_queues = λ h. cc (p.running, p.same_cancelled);
    nothing_flushed = λ h. omega (arith, a.nothing_flushed p.running);
    conserved = omega (
      arith, a.conserved, picked_lengths.0, p.same_queued, p.same_completed, p.same_failed,
      p.same_cancelled_ops,
    );
  }
