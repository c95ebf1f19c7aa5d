-- ===== src/Runs/Pipelines.antt =====
-- Runs of the compare pipeline.
use fast_clone.Prelude.{
  ℕ, ◌+◌, ◌≡◌, refl, true, false, List, [], ◌∷◌, ◌++◌, Option, none, some, pos, length, arith,
}
use fast_clone.Entry.{FileEntry}
use fast_clone.Compare.{strict}
use fast_clone.Compare.Pipeline.{
  ComparePipelineConfig, ComparePipeline, new_pipeline, enqueue, flush, in_flight, claim, takes,
}
use fast_clone.Compare.Pipeline.Steps.{
  World, start, claimed, Reach, starts, after_step, enqueues, flushes, claims,
}
use fast_clone.Compare.Pipeline.Kept.{Kept, claimed_by, pipeline_keeps}
use fast_clone.Compare.Pipeline.Stopping.{in_flight_lem, work, remotes, work_ends}

abbrev settings : ComparePipelineConfig
settings = record { mode = strict; worker_count = 2; batch_pop = 2 }

abbrev entry_named : ℕ → FileEntry
entry_named n = record {
  relative_path = n ∷ [];
  is_directory = false;
  file_size = 10;
  mtime_ns = pos 7;
}

-- One entry is enqueued, flushed and claimed by a worker.
abbrev buffered : World
buffered = record start {
  pipeline = enqueue (entry_named 97) start.pipeline;
  sent = entry_named 97 ∷ [];
}

abbrev queued_up : World
queued_up = record buffered { pipeline = flush buffered.pipeline }

abbrev taken_pipeline : ComparePipeline
taken_pipeline = record queued_up.pipeline { tasks = []; active_workers = 1 }

abbrev at_work : World
at_work = record queued_up {
  pipeline = taken_pipeline;
  workers = claimed (entry_named 97 ∷ []) ∷ [];
}

first_claim : claim settings queued_up.pipeline ≡ takes (entry_named 97 ∷ []) taken_pipeline
unfolding claim enqueue flush
first_claim = refl

at_work-Reach : Reach settings at_work
at_work-Reach =
    after_step queued_up at_work
      (after_step buffered queued_up (after_step start buffered starts (enqueues (entry_named 97)))
        flushes)
      (claims (entry_named 97 ∷ []) taken_pipeline first_claim)

pipeline_keeps_example : Kept settings at_work
pipeline_keeps_example = pipeline_keeps settings at_work at_work-Reach

in_flight_lem_example :
    in_flight taken_pipeline
    ≡ length taken_pipeline.dispatch_buffer
      + length taken_pipeline.tasks
      + length (claimed_by at_work.workers)
      + length taken_pipeline.results
in_flight_lem_example = in_flight_lem settings at_work at_work-Reach (omega arith)

-- A stopped pipeline with three tasks, none of which is there locally.
abbrev stopped_pipeline : ComparePipeline
stopped_pipeline = record new_pipeline {
  tasks = entry_named 97 ∷ entry_named 98 ∷ entry_named 99 ∷ [];
  stop = true;
}

abbrev no_file : List ℕ → Option (Option FileEntry)
no_file path = some none

work_ends_example :
    (t : ComparePipeline) × (work 4 settings no_file stopped_pipeline ≡ some t)
    × (t.tasks ≡ [])
    × (remotes t.results ≡ remotes stopped_pipeline.results ++ stopped_pipeline.tasks)
work_ends_example = work_ends 4 settings no_file stopped_pipeline refl (omega arith) (omega arith)
