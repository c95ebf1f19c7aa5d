-- ===== src/Compare/Pipeline.antt =====
-- The comparison pipeline of FastClone/compare_pipeline.cpp and compare_pipeline.h. A worker's
-- round is four steps, as its mutexes and atomics cut it: it claims a batch, pushes the results,
-- adds them to the count, and gives its slot back. Notifying the others changes no state.
pub mod Steps
pub mod Kept
pub mod Stopping
use fast_clone.Prelude.{
  ℕ, zero, suc, ◌+◌, ◌-◌, ◌%◌, ◌^◌, min, Bool, true, false, not, ◌&&◌, ◌||◌, if◌then◌else◌, ◌==◌,
  ltb, leb, List, [], ◌∷◌, ◌++◌, Option, none, some, length, take, drop,
}
use fast_clone.Entry.{FileEntry}
use fast_clone.Compare.{CompareMode, CompareOutcome, decide_compare}

pub record ComparePipelineConfig : Type 0 where
  pub mode : CompareMode
  pub worker_count : ℕ
  pub batch_pop : ℕ

pub record ComparedItem : Type 0 where
  pub remote : FileEntry
  pub local : Option FileEntry
  pub outcome : CompareOutcome

-- What the threads share. `issued`, `drained` and `pending` are of type size_t.
pub record ComparePipeline : Type 0 where
  pub tasks : List FileEntry
  pub dispatch_buffer : List FileEntry
  pub results : List ComparedItem
  pub issued : ℕ
  pub drained : ℕ
  pub pending : ℕ
  pub stop : Bool
  pub active_cap : ℕ
  pub active_workers : ℕ

abbrev pub new_pipeline : ComparePipeline
new_pipeline = record {
  tasks = [];
  dispatch_buffer = [];
  results = [];
  issued = 0;
  drained = 0;
  pending = 0;
  stop = false;
  active_cap = 0;
  active_workers = 0;
}

unfoldable pub enqueue : FileEntry → ComparePipeline → ComparePipeline
enqueue remote p = record p {
  dispatch_buffer = p.dispatch_buffer ++ (remote ∷ []);
  issued = (p.issued + 1) % 2 ^ 64;
}

unfoldable pub flush : ComparePipeline → ComparePipeline
flush p = record p { tasks = p.tasks ++ p.dispatch_buffer; dispatch_buffer = [] }

-- The drained items, and the pipeline.
unfoldable pub drain : ComparePipeline → List ComparedItem × ComparePipeline
drain p =
    let n = length p.results in
    if n == 0 then ([], p) else (
      p.results,
      record p {
        results = [];
        pending = (p.pending + (2 ^ 64 - n % 2 ^ 64)) % 2 ^ 64;
        drained = (p.drained + n) % 2 ^ 64;
      },
    )

unfoldable pub in_flight : ComparePipeline → ℕ
in_flight p = if leb p.drained p.issued then p.issued - p.drained else 0

unfoldable pub has_results : ComparePipeline → Bool
has_results p = not (p.pending == 0)

unfoldable pub stop_pipeline : ComparePipeline → ComparePipeline
stop_pipeline p = record p { stop = true }

unfoldable pub set_active_cap : ℕ → ComparePipeline → ComparePipeline
set_active_cap cap p = record p { active_cap = cap }

-- Whether a worker has a slot: a cap of 0 is no cap.
abbrev pub below_cap : ComparePipeline → Bool
below_cap p = (p.active_cap == 0) || ltb p.active_workers p.active_cap

abbrev pub has_tasks : ComparePipeline → Bool
has_tasks p = not (length p.tasks == 0)

-- What a worker does at the head of its loop, under the mutex of the tasks.
pub data Claim : Type 0 where
  waits : Claim
  exits : Claim
  tries_again : Claim
  takes : List FileEntry → ComparePipeline → Claim

unfoldable pub claim : ComparePipelineConfig → ComparePipeline → Claim
claim cfg p =
    let n = min cfg.batch_pop (length p.tasks) in
    if not (p.stop || (has_tasks p && below_cap p))
    then waits
    else if p.stop && not (has_tasks p)
    then exits
    else if not p.stop && not (below_cap p)
    then tries_again
    else takes (take n p.tasks)
        (record p { tasks = drop n p.tasks; active_workers = (p.active_workers + 1) % 2 ^ 32 })

-- The probe of a path finds an entry or none, or throws, which counts as none.
abbrev pub found_by : (List ℕ → Option (Option FileEntry)) → FileEntry → Option FileEntry
found_by probe remote = elim (probe remote.relative_path) [ some local ↦ local | none ↦ none ]

unfoldable pub compare_batch :
    CompareMode → (List ℕ → Option (Option FileEntry)) → List FileEntry → List ComparedItem
compare_batch mode probe [] = []
compare_batch mode probe (remote ∷ batch) =
    let local = found_by probe remote in
    let item : ComparedItem = record {
      remote = remote;
      local = local;
      outcome = decide_compare mode local remote;
    } in
    item ∷ compare_batch mode probe batch

unfoldable pub push_results : List ComparedItem → ComparePipeline → ComparePipeline
push_results items p = record p { results = p.results ++ items }

unfoldable pub count_results : ℕ → ComparePipeline → ComparePipeline
count_results n p = record p { pending = (p.pending + n) % 2 ^ 64 }

unfoldable pub give_slot_back : ComparePipeline → ComparePipeline
give_slot_back p = record p { active_workers = (p.active_workers + (2 ^ 32 - 1)) % 2 ^ 32 }
