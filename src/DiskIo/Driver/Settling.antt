-- ===== src/DiskIo/Driver/Settling.antt =====
-- The critical sections behind the queues keep the accounting: deliveries of completions, the
-- hand-over to the back end, reaping, cancellation, and the late counts.
use fast_clone.Prelude.{
  ℕ, ◌+◌, ◌≤◌, ◌≡◌, refl, sym, ap, ◌∙◌, true, if◌then◌else◌, ◌==◌, List, [], ◌∷◌, ◌++◌, some,
  length, arith, Bool-cases, inl, inr, length-append, suc,
}
use fast_clone.DiskIo.{IoRequest, IoCompletion, IoDriverConfig}
use fast_clone.DiskIo.Driver.{
  Driver, IoCounters, request_cancel, tally, tally_all, flushed, enqueue_completion,
}
use fast_clone.DiskIo.Driver.Outstanding.{
  count, ids, completed_ids, count-append, ids-append, Tracks-same, enqueue_completion-Tracks,
  SameQueues, enqueue_completion-SameQueues,
}
use fast_clone.DiskIo.Driver.Threads.{
  Phase, flushing, World, held_of, slots, flush_left, uncounted, owed, live, count-live, Change,
  Completes, nothing, one,
}
use fast_clone.DiskIo.Driver.Accounting.{Accounts, Tracks-moved}

-- Every operation that ended, by its counters.
abbrev pub ended : IoCounters → ℕ
ended n = n.completed + n.failed + n.cancelled_ops

abbrev pub queued_of : IoCounters → ℕ
queued_of n = n.queued

-- A thread that delivers a completion goes from one phase to another, and holds one request less.
pub record Delivers (c : IoCompletion) (p q : Phase) : Type 0 where
  pub delivered : (f : ℕ) → held_of f p ≡ (if c.file_id == f then 1 else 0) + held_of f q
  pub same_slots : slots q ≡ slots p
  pub less_flush : flush_left q ≤ flush_left p
  pub same_uncounted : uncounted q ≡ uncounted p
  pub same_owed : owed q ≡ owed p

module _ (cfg : IoDriverConfig) (w : World) (c : IoCompletion) (us : List Phase) (p q : Phase)
    (a : Accounts cfg w) (ch : Change w.threads us (p ∷ []) (q ∷ [])) (v : Delivers c p q) where
  abbrev pub delivered_to : World
  delivered_to = record w { driver = enqueue_completion c w.driver; threads = us }

  -- The files under way behind the delivery.
  abbrev pub live_behind : List ℕ
  live_behind = live (record w { threads = us })

  pub count-delivered : (f : ℕ) → count f (live w) ≡ count f (c.file_id ∷ live_behind)
  count-delivered f = omega (
    arith,
    count-live f w,
    count-live f (record w { threads = us }),
    ch.sums (held_of f),
    v.delivered f,
  )

  pub live-delivered :
      SameQueues w.driver (enqueue_completion c w.driver) → live delivered_to ≡ live_behind
  live-delivered s = cc (s.same_reads, s.same_writes)

  pub delivered-Accounts : Accounts cfg delivered_to
  delivered-Accounts =
      let s = enqueue_completion-SameQueues c w.driver in
      let before =
        Tracks-same (live w) (c.file_id ∷ live_behind) w.driver count-delivered a.tracks in
      let settled = enqueue_completion-Tracks c live_behind w.driver before in
      record {
        tracks = rw (live-delivered s) settled;
        flight = omega (arith, a.flight, s.same_flight, ch.sums slots, v.same_slots);
        reads_fit = omega (arith, a.reads_fit, ap length s.same_reads);
        writes_fit = omega (arith, a.writes_fit, ap length s.same_writes);
        flight_fits = omega (arith, a.flight_fits, s.same_flight);
        flushed_queues = λ h.
            let l = a.flushed_queues (sym s.same_cancelled ∙ h) in
            (s.same_reads ∙ l.0, s.same_writes ∙ l.1);
        nothing_flushed = λ h.
            omega (
              arith,
              a.nothing_flushed (sym s.same_cancelled ∙ h),
              ch.sums flush_left,
              v.less_flush,
            );
        conserved = omega (
          arith,
          a.conserved,
          ch.sums uncounted,
          ch.sums owed,
          v.same_uncounted,
          v.same_owed,
          ap length s.same_reads,
          ap length s.same_writes,
          ap queued_of s.same_counters,
          ap ended s.same_counters,
        );
      }

pub Completes-counts :
    (cs : List IoCompletion) (b rest : List IoRequest)
    → Completes cs b rest
    → (f : ℕ) → count f (ids b) ≡ count f (completed_ids cs) + count f (ids rest)
Completes-counts _ _ _ (nothing b) f = omega arith
Completes-counts _ _ _ (one c cs op b before after rest e same more) f =
    let later = Completes-counts cs (before ++ after) rest more f in
    let whole = ap (count f) (ap ids e ∙ ids-append before (op ∷ after)) in
    let split = count-append f (ids before) (op.file_id ∷ ids after) in
    let left = ap (count f) (ids-append before after) in
    let split' = count-append f (ids before) (ids after) in ground (arith, same)

pub Completes-lengths :
    (cs : List IoCompletion) (b rest : List IoRequest)
    → Completes cs b rest
    → length b ≡ length cs + length rest
Completes-lengths _ _ _ (nothing b) = omega arith
Completes-lengths _ _ _ (one c cs op b before after rest e same more) = omega (
  arith,
  Completes-lengths cs (before ++ after) rest more,
  ap length e,
  length-append before (op ∷ after),
  length-append before after,
)

tally-ended :
    (c : IoCompletion) (n : IoCounters)
    → ((tally c n).queued ≡ n.queued) × (ended (tally c n) ≡ ended n + 1)
unfolding tally
tally-ended c n = ground arith

pub tally_all-ended :
    (cs : List IoCompletion) (n : IoCounters)
    → ((tally_all cs n).queued ≡ n.queued) × (ended (tally_all cs n) ≡ ended n + length cs)
unfolding tally_all
tally_all-ended [] n = omega arith
tally_all-ended (c ∷ cs) n =
    let first = tally-ended c n in
    let later = tally_all-ended cs (tally c n) in
    (later.0 ∙ first.0, omega (arith, later.1, first.1))

completed_ids-flushed : (q : List IoRequest) → completed_ids (flushed q) ≡ ids q
completed_ids-flushed [] = refl
completed_ids-flushed (op ∷ q) = ap (◌∷◌ op.file_id) (completed_ids-flushed q)

length-flushed : (q : List IoRequest) → length (flushed q) ≡ length q
length-flushed [] = refl
length-flushed (op ∷ q) = ap suc (length-flushed q)

completed_ids-append :
    (xs ys : List IoCompletion) → completed_ids (xs ++ ys) ≡ completed_ids xs ++ completed_ids ys
completed_ids-append [] ys = refl
completed_ids-append (x ∷ xs) ys = ap (◌∷◌ x.file_id) (completed_ids-append xs ys)

-- A cancellation, whose thread has still to deliver what it took from the queues.
abbrev pub cancelled_with : List IoCompletion → Driver → World → World
cancelled_with cs t w = record w { driver = t; threads = flushing cs (length cs) ∷ w.threads }

pub request_cancel-Accounts :
    (cfg : IoDriverConfig) (w : World) (cs : List IoCompletion) (t : Driver)
    → request_cancel w.driver ≡ some (cs, t)
    → Accounts cfg w
    → Accounts cfg (cancelled_with cs t w)
unfolding request_cancel
request_cancel-Accounts cfg w cs t e a = elim (Bool-cases w.driver.is_cancelled) [
  | inl already ↦ ground arith
  | inr running ↦
      let d = w.driver in
      let off : Driver = record d { is_cancelled = true; read_q = []; write_q = [] } in
      let all : List IoCompletion = flushed d.read_q ++ flushed d.write_q in
      let what : (all ≡ cs) × (off ≡ t) = ground arith in
      let names : (f : ℕ)
          → count f (completed_ids all) ≡ count f (ids d.read_q) + count f (ids d.write_q) =
        λ f.
          ap (count f) (
            completed_ids-append (flushed d.read_q) (flushed d.write_q)
            ∙ cc (completed_ids-flushed d.read_q, completed_ids-flushed d.write_q))
          ∙ count-append f (ids d.read_q) (ids d.write_q) in
      let size : length all ≡ length d.read_q + length d.write_q = omega (
        arith,
        length-append (flushed d.read_q) (flushed d.write_q),
        length-flushed d.read_q,
        length-flushed d.write_q,
      ) in
      rw (← what.0, ← what.1)
        (record {
          tracks = Tracks-moved _ d off refl refl refl (
              Tracks-same (live w) (live (cancelled_with all off w)) d
                (λ f.
                  omega (arith, names f, count-live f w, count-live f (cancelled_with all off w)))
                a.tracks);
          flight = omega (arith, a.flight);
          reads_fit = omega arith;
          writes_fit = omega arith;
          flight_fits = a.flight_fits;
          flushed_queues = λ h. (refl, refl);
          nothing_flushed = λ h. absurd (cc);
          conserved = omega (arith, a.conserved, size);
        })
]
