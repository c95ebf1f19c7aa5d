-- ===== src/Compare/Pipeline/Steps.antt =====
-- The threads of the pipeline: its caller, and workers that go through their rounds.
use fast_clone.Prelude.{ℕ, ◌≡◌, List, [], ◌∷◌, ◌++◌, Option, length}
use fast_clone.Entry.{FileEntry}
use fast_clone.Compare.Pipeline.{
  ComparePipelineConfig, ComparedItem, ComparePipeline, new_pipeline, enqueue, flush, drain,
  stop_pipeline, set_active_cap, takes, claim, compare_batch, push_results, count_results,
  give_slot_back,
}

-- A worker that holds a slot: with its batch, with results that are pushed and not yet added to
-- the count, and with all done.
pub data Phase : Type 0 where
  claimed : List FileEntry → Phase
  pushed : ℕ → Phase
  counted : Phase

-- The pipeline, its workers that hold a slot, all that the caller enqueued, and all it drained.
pub record World : Type 0 where
  pub pipeline : ComparePipeline
  pub workers : List Phase
  pub sent : List FileEntry
  pub handed : List ComparedItem

abbrev pub start : World
start = record { pipeline = new_pipeline; workers = []; sent = []; handed = [] }

-- The files that a probe looks at may change, so each batch has a probe of its own.
pub data Step (cfg : ComparePipelineConfig) (w : World) : World → Type 0 where
  enqueues :
      (e : FileEntry)
      → Step cfg w (record w { pipeline = enqueue e w.pipeline; sent = w.sent ++ (e ∷ []) })
  flushes : Step cfg w (record w { pipeline = flush w.pipeline })
  drains :
      Step cfg w
        (record w { pipeline = (drain w.pipeline).1; handed = w.handed ++ (drain w.pipeline).0 })
  sets_cap : (cap : ℕ) → Step cfg w (record w { pipeline = set_active_cap cap w.pipeline })
  stops : Step cfg w (record w { pipeline = stop_pipeline w.pipeline })
  claims :
      (batch : List FileEntry) (p : ComparePipeline)
      → claim cfg w.pipeline ≡ takes batch p
      → Step cfg w (record w { pipeline = p; workers = claimed batch ∷ w.workers })
  pushes :
      (probe : List ℕ → Option (Option FileEntry)) (batch : List FileEntry)
      (before after : List Phase)
      → w.workers ≡ before ++ (claimed batch ∷ after)
      → Step cfg w (record w {
        pipeline = push_results (compare_batch cfg.mode probe batch) w.pipeline;
        workers = before ++ (pushed (length batch) ∷ after);
      })
  counts :
      (n : ℕ) (before after : List Phase)
      → w.workers ≡ before ++ (pushed n ∷ after)
      → Step cfg w (record w {
        pipeline = count_results n w.pipeline;
        workers = before ++ (counted ∷ after);
      })
  gives_back :
      (before after : List Phase)
      → w.workers ≡ before ++ (counted ∷ after)
      → Step cfg w (record w { pipeline = give_slot_back w.pipeline; workers = before ++ after })

pub data Reach (cfg : ComparePipelineConfig) : World → Type 0 where
  starts : Reach cfg start
  after_step : (v w : World) → Reach cfg v → Step cfg v w → Reach cfg w
