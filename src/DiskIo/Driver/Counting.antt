-- ===== src/DiskIo/Driver/Counting.antt =====
-- The steps that move no completion keep the accounting: the late counts, the slots, and the
-- hand-over to the back end.
use fast_clone.Prelude.{
  ℕ, ◌+◌, ◌-◌, ◌≡◌, refl, List, [], ◌∷◌, ◌++◌, length, length-append, arith, ap, ◌∙◌, ◌≤◌,
}
use fast_clone.DiskIo.{IoRequest, IoCompletion, IoDriverConfig}
use fast_clone.DiskIo.Driver.{
  Driver, count_queued, give_slot_back, land, count_reaped, count_flushed, tally_all, IoCounters,
}
use fast_clone.DiskIo.Driver.Outstanding.{count, ids, ids-append, count-append}
use fast_clone.DiskIo.Driver.Threads.{
  Phase, counting_queued, handing, refusing, returning_slot, reaping, tallying, flushing, releasing,
  World, held_of, slots, flush_left, uncounted, owed, sum_of, Change, Completes,
}
use fast_clone.DiskIo.Driver.Accounting.{Accounts, Untouched, Untouched-Accounts}
use fast_clone.DiskIo.Driver.Settling.{ended, Completes-counts, Completes-lengths, tally_all-ended}

same_driver : (d : Driver) → Untouched d d
same_driver d = record {
  reads = refl;
  writes = refl;
  completions = refl;
  outstanding = refl;
  pending = refl;
  cancel = refl;
}

-- A world in which the counters, the slots and the refusals have changed, and the threads.
abbrev recounted : IoCounters → ℕ → ℕ → List Phase → World → World
recounted k n r us w = record w {
  driver = record w.driver { counters = k; in_flight = n };
  refused = r;
  threads = us;
}

-- Steps that end a thread, or take it to another phase, and move no completion.
module _ (cfg : IoDriverConfig) (w : World) (a : Accounts cfg w) (us : List Phase) where
  -- No request moves, and the counters change by what the phases say.
  recounted-Accounts :
      (k : IoCounters) (n r : ℕ) (gone come : List Phase)
      → Change w.threads us gone come
      → ((f : ℕ) → sum_of (held_of f) gone ≡ sum_of (held_of f) come)
      → n + sum_of slots gone ≡ w.driver.in_flight + sum_of slots come
      → n ≤ w.driver.in_flight
      → sum_of flush_left come ≤ sum_of flush_left gone
      → k.queued + sum_of uncounted come + ended w.driver.counters + w.refused + sum_of owed gone
        ≡ w.driver.counters.queued + sum_of uncounted gone + ended k + r + sum_of owed come
      → Accounts cfg (recounted k n r us w)
  recounted-Accounts k n r gone come ch same slot fewer flush balance =
      Untouched-Accounts cfg w (recounted k n r us w) a
        (record {
          reads = refl;
          writes = refl;
          completions = refl;
          outstanding = refl;
          pending = refl;
          cancel = refl;
        })
        (λ f. omega (arith, ch.sums (held_of f), same f)) (omega (arith, a.flight, ch.sums slots))
        fewer (omega (arith, ch.sums flush_left))
        (omega (arith, a.conserved, ch.sums uncounted, ch.sums owed))

  pub count_queued-Accounts :
      (n : ℕ)
      → Change w.threads us (counting_queued n ∷ []) []
      → Accounts cfg (record w { driver = count_queued n w.driver; threads = us })
  unfolding count_queued
  count_queued-Accounts n ch =
      recounted-Accounts (count_queued n w.driver).counters w.driver.in_flight w.refused
        (counting_queued n ∷ []) [] ch (λ f. refl) refl (omega arith) (omega arith) (omega arith)

  pub refuses-Accounts :
      (op : IoRequest)
      → Change w.threads us (handing op ∷ []) (refusing op ∷ [])
      → Accounts cfg (record w { refused = w.refused + 1; threads = us })
  refuses-Accounts op ch =
      recounted-Accounts w.driver.counters w.driver.in_flight (w.refused + 1) (handing op ∷ [])
        (refusing op ∷ []) ch (λ f. refl) refl (omega arith) (omega arith) (omega arith)

  pub gives_slot_back-Accounts :
      Change w.threads us (returning_slot ∷ []) []
      → Accounts cfg (record w { driver = give_slot_back w.driver; threads = us })
  unfolding give_slot_back
  gives_slot_back-Accounts ch =
      let slot : 1 ≤ w.driver.in_flight = omega (arith, a.flight, ch.sums slots) in
      recounted-Accounts w.driver.counters (w.driver.in_flight - 1) w.refused (returning_slot ∷ [])
        [] ch (λ f. refl) (omega arith) (omega arith) (omega arith) (omega arith)

  pub lands-Accounts :
      (made : List IoCompletion)
      → Change w.threads us (reaping made [] ∷ []) (tallying made ∷ [])
      → Accounts cfg (record w { driver = land (length made) w.driver; threads = us })
  unfolding land
  lands-Accounts made ch =
      let slot : length made ≤ w.driver.in_flight = omega (arith, a.flight, ch.sums slots) in
      recounted-Accounts w.driver.counters (w.driver.in_flight - length made) w.refused
        (reaping made [] ∷ []) (tallying made ∷ []) ch (λ f. refl) (omega arith) (omega arith)
        (omega arith) (omega arith)

  pub counts_reaped-Accounts :
      (made : List IoCompletion)
      → Change w.threads us (tallying made ∷ []) []
      → Accounts cfg (record w { driver = count_reaped made w.driver; threads = us })
  unfolding count_reaped
  counts_reaped-Accounts made ch =
      let n = tally_all-ended made w.driver.counters in
      recounted-Accounts (tally_all made w.driver.counters) w.driver.in_flight w.refused
        (tallying made ∷ []) [] ch (λ f. refl) refl (omega arith) (omega arith)
        (omega (arith, n.0, n.1))

  pub counts_flushed-Accounts :
      (n : ℕ)
      → Change w.threads us (flushing [] n ∷ []) []
      → Accounts cfg (record w { driver = count_flushed n w.driver; threads = us })
  unfolding count_flushed
  counts_flushed-Accounts n ch =
      recounted-Accounts (count_flushed n w.driver).counters w.driver.in_flight w.refused
        (flushing [] n ∷ []) [] ch (λ f. refl) refl (omega arith) (omega arith) (omega arith)

  -- A request goes to the back end.
  pub takes-Accounts :
      (op : IoRequest)
      → Change w.threads us (handing op ∷ []) []
      → Accounts cfg (record w { backend = w.backend ++ (op ∷ []); threads = us })
  takes-Accounts op ch =
      let size = length-append w.backend (op ∷ []) in
      let taken = λ (f : ℕ).
        ap (count f) (ids-append w.backend (op ∷ []))
        ∙ count-append f (ids w.backend) (op.file_id ∷ []) in
      Untouched-Accounts cfg w (record w { backend = w.backend ++ (op ∷ []); threads = us }) a
        (same_driver w.driver) (λ f. omega (arith, ch.sums (held_of f), taken f))
        (omega (arith, a.flight, ch.sums slots, size)) (omega arith)
        (omega (arith, ch.sums flush_left))
        (omega (arith, a.conserved, ch.sums uncounted, ch.sums owed, size))

  pub reaps-Accounts :
      (cs : List IoCompletion) (rest : List IoRequest)
      → Completes cs w.backend rest
      → Change w.threads us [] (reaping [] cs ∷ [])
      → Accounts cfg (record w { backend = rest; threads = us })
  reaps-Accounts cs rest made ch =
      let size = Completes-lengths cs w.backend rest made in
      Untouched-Accounts cfg w (record w { backend = rest; threads = us }) a (same_driver w.driver)
        (λ f. omega (arith, ch.sums (held_of f), Completes-counts cs w.backend rest made f))
        (omega (arith, a.flight, ch.sums slots, size)) (omega arith)
        (omega (arith, ch.sums flush_left))
        (omega (arith, a.conserved, ch.sums uncounted, ch.sums owed, size))

  -- Threads that hold nothing come and go.
  pub release_begins :
      (f : ℕ) → Change w.threads us [] (releasing f ∷ []) → Accounts cfg (record w { threads = us })
  release_begins f ch =
      recounted-Accounts w.driver.counters w.driver.in_flight w.refused [] (releasing f ∷ []) ch
        (λ f. refl) refl (omega arith) (omega arith) (omega arith)

  pub release_ends :
      (f : ℕ) → Change w.threads us (releasing f ∷ []) [] → Accounts cfg (record w { threads = us })
  release_ends f ch =
      recounted-Accounts w.driver.counters w.driver.in_flight w.refused (releasing f ∷ []) [] ch
        (λ f. refl) refl (omega arith) (omega arith) (omega arith)
