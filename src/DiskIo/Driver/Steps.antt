-- ===== src/DiskIo/Driver/Steps.antt =====
-- The steps of the driver's threads, each a critical section.
use fast_clone.Prelude.{ℕ, ◌+◌, ◌≡◌, true, false, List, [], ◌∷◌, ◌++◌, some, length}
use fast_clone.DiskIo.{IoRequest, IoCompletion, IoDriverConfig, error}
use fast_clone.DiskIo.Completions.{drain_completions, drain_completions_for_file}
use fast_clone.DiskIo.Driver.{
  Driver, new_driver, count_queued, pick, completion_of, give_slot_back, land, count_reaped,
  request_cancel, count_flushed, release_file, release_now, enqueue_completion,
}
use fast_clone.DiskIo.Driver.Threads.{
  Phase, counting_queued, handing, refusing, returning_slot, reaping, tallying, flushing, releasing,
  World, Completes,
}
use fast_clone.DiskIo.Driver.Accounting.{submitted}
use fast_clone.DiskIo.Driver.Settling.{cancelled_with}

-- A step starts a thread in its first phase, or takes one from its phase to the next, or ends it.
pub data Step (cfg : IoDriverConfig) (w : World) : World → Type 0 where
  -- `submit`. With nothing accepted the code skips the count, which then adds nothing.
  submits : (batch : List IoRequest) → Step cfg w (submitted cfg batch w)
  counts_queued :
      (before after : List Phase) (n : ℕ)
      → w.threads ≡ before ++ (counting_queued n ∷ after)
      → Step cfg w (record w { driver = count_queued n w.driver; threads = before ++ after })
  -- `PickAndSubmit`.
  picks :
      (op : IoRequest) (t : Driver)
      → pick cfg w.driver ≡ some (op, t)
      → Step cfg w (record w { driver = t; threads = handing op ∷ w.threads })
  takes :
      (before after : List Phase) (op : IoRequest)
      → w.threads ≡ before ++ (handing op ∷ after)
      → Step cfg w (record w { backend = w.backend ++ (op ∷ []); threads = before ++ after })
  refuses :
      (before after : List Phase) (op : IoRequest)
      → w.threads ≡ before ++ (handing op ∷ after)
      → Step cfg w (record w { refused = w.refused + 1; threads = before ++ (refusing op ∷ after) })
  delivers_failure :
      (before after : List Phase) (op : IoRequest)
      → w.threads ≡ before ++ (refusing op ∷ after)
      → Step cfg w (record w {
        driver = enqueue_completion (completion_of error op) w.driver;
        threads = before ++ (returning_slot ∷ after);
      })
  gives_slot_back :
      (before after : List Phase)
      → w.threads ≡ before ++ (returning_slot ∷ after)
      → Step cfg w (record w { driver = give_slot_back w.driver; threads = before ++ after })
  -- The scheduler.
  reaps :
      (cs : List IoCompletion) (rest : List IoRequest)
      → Completes cs w.backend rest
      → Step cfg w (record w { backend = rest; threads = reaping [] cs ∷ w.threads })
  delivers_reaped :
      (before after : List Phase) (done left : List IoCompletion) (c : IoCompletion)
      → w.threads ≡ before ++ (reaping done (c ∷ left) ∷ after)
      → Step cfg w (record w {
        driver = enqueue_completion c w.driver;
        threads = before ++ (reaping (done ++ (c ∷ [])) left ∷ after);
      })
  lands :
      (before after : List Phase) (done : List IoCompletion)
      → w.threads ≡ before ++ (reaping done [] ∷ after)
      → Step cfg w (record w {
        driver = land (length done) w.driver;
        threads = before ++ (tallying done ∷ after);
      })
  counts_reaped :
      (before after : List Phase) (done : List IoCompletion)
      → w.threads ≡ before ++ (tallying done ∷ after)
      → Step cfg w (record w { driver = count_reaped done w.driver; threads = before ++ after })
  -- `requestCancel`.
  cancels :
      (cs : List IoCompletion) (t : Driver)
      → request_cancel w.driver ≡ some (cs, t)
      → Step cfg w (cancelled_with cs t w)
  delivers_flushed :
      (before after : List Phase) (c : IoCompletion) (left : List IoCompletion) (n : ℕ)
      → w.threads ≡ before ++ (flushing (c ∷ left) n ∷ after)
      → Step cfg w (record w {
        driver = enqueue_completion c w.driver;
        threads = before ++ (flushing left n ∷ after);
      })
  counts_flushed :
      (before after : List Phase) (n : ℕ)
      → w.threads ≡ before ++ (flushing [] n ∷ after)
      → Step cfg w (record w { driver = count_flushed n w.driver; threads = before ++ after })
  -- `releaseFile`.
  releases_at_once :
      (f : ℕ) (t : Driver)
      → release_file f w.driver ≡ (true, t)
      → Step cfg w (record w { driver = t; threads = releasing f ∷ w.threads })
  defers_release :
      (f : ℕ) (t : Driver)
      → release_file f w.driver ≡ (false, t)
      → Step cfg w (record w { driver = t })
  releases :
      (before after : List Phase) (f : ℕ)
      → w.threads ≡ before ++ (releasing f ∷ after)
      → Step cfg w (record w { driver = release_now f w.driver; threads = before ++ after })
  -- The drains, and the destructor's `stop_ = true`.
  drains : Step cfg w (record w {
    driver = record w.driver { completions = (drain_completions w.driver.completions).1 };
  })
  drains_file :
      (f : ℕ)
      → Step cfg w (record w {
        driver = record w.driver {
          completions = (drain_completions_for_file f w.driver.completions).1;
        };
      })
  stops : Step cfg w (record w { driver = record w.driver { stop = true } })

abbrev pub start : IoDriverConfig → World
start cfg = record { driver = new_driver cfg; backend = []; refused = 0; threads = [] }

pub data Reach (cfg : IoDriverConfig) : World → Type 0 where
  starts : Reach cfg (start cfg)
  after_step : (v w : World) → Reach cfg v → Step cfg v w → Reach cfg w
