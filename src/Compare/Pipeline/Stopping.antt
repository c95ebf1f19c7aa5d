-- ===== src/Compare/Pipeline/Stopping.antt =====
-- The count in flight, the cap, and the end of a worker's loop.
use fast_clone.Prelude.{
  ℕ, zero, suc, ◌+◌, ◌%◌, ◌^◌, ◌≤◌, ◌<◌, ◌≡◌, ◌⊎◌, refl, ap, min, true, false, List, [], ◌∷◌, ◌++◌,
  append_assoc, append-nil, Option, none, some, length, length-take, length-drop, take, drop,
  take-append-drop, arith, inl, inr,
}
use fast_clone.Entry.{FileEntry}
use fast_clone.Compare.{CompareMode}
use fast_clone.Compare.Pipeline.{
  ComparePipelineConfig, ComparedItem, ComparePipeline, waits, exits, tries_again, takes, claim,
  compare_batch, push_results, count_results, give_slot_back, in_flight,
}
use fast_clone.Compare.Pipeline.Steps.{World, Reach}
use fast_clone.Compare.Pipeline.Kept.{count, count_items, claimed_by, pipeline_keeps}

count_all : (l : List FileEntry) → count (λ e. true) l ≡ length l
count_all [] = refl
count_all (e ∷ l) = omega (arith, count_all l)

count_all_items : (l : List ComparedItem) → count_items (λ e. true) l ≡ length l
count_all_items [] = refl
count_all_items (i ∷ l) = omega (arith, count_all_items l)

-- Where fewer than 2^64 entries were enqueued, what `InFlight` says is the number of entries
-- that are buffered, queued, claimed by a worker or waiting in the results.
pub in_flight_lem :
    (cfg : ComparePipelineConfig) (w : World)
    → Reach cfg w
    → length w.sent < 2 ^ 64
    → in_flight w.pipeline
      ≡ length w.pipeline.dispatch_buffer
        + length w.pipeline.tasks
        + length (claimed_by w.workers)
        + length w.pipeline.results
unfolding in_flight
in_flight_lem cfg w r small =
    let k = pipeline_keeps cfg w r in
    let all = k.entries (λ e. true) in
    let p = w.pipeline in
    let total : length w.sent
        ≡ length p.dispatch_buffer
          + length p.tasks
          + length (claimed_by w.workers)
          + length p.results
          + length w.handed =
      omega (
        arith,
        all,
        count_all w.sent,
        count_all p.dispatch_buffer,
        count_all p.tasks,
        count_all (claimed_by w.workers),
        count_all_items p.results,
        count_all_items w.handed,
      ) in
    ground (arith, total, k.issued, k.drained)

-- With fewer than 2^32 - 1 workers at work and a positive batch size, a batch that is taken has
-- an entry at least and `batch_pop` at most, one more worker is at work, and in a running
-- pipeline with a cap these are within the cap.
pub claim_bounds :
    (cfg : ComparePipelineConfig) (p t : ComparePipeline) (batch : List FileEntry)
    → claim cfg p ≡ takes batch t
    → 0 < cfg.batch_pop
    → p.active_workers + 1 < 2 ^ 32
    → (0 < length batch)
      × (length batch ≤ cfg.batch_pop)
      × (t.active_workers ≡ p.active_workers + 1)
      × (p.stop ≡ false → 0 < p.active_cap → t.active_workers ≤ p.active_cap)
unfolding claim
claim_bounds cfg p t batch h positive small =
    ground (arith, length-take (min cfg.batch_pop (length p.tasks)) p.tasks)

abbrev pub remotes : List ComparedItem → List FileEntry
remotes [] = []
remotes (i ∷ l) = i.remote ∷ remotes l

-- A worker's loop by itself, on fuel: `none` where the fuel is out or it would wait.
unfoldable pub work :
    ℕ
    → ComparePipelineConfig
    → (List ℕ → Option (Option FileEntry))
    → ComparePipeline
    → Option ComparePipeline
unfolding claim compare_batch push_results count_results give_slot_back
work zero cfg probe p = none
work (suc fuel) cfg probe p = elim (claim cfg p) [
  | waits ↦ none
  | exits ↦ some p
  | tries_again ↦ work fuel cfg probe p
  | takes batch t ↦
      let items = compare_batch cfg.mode probe batch in
      work fuel cfg probe (give_slot_back (count_results (length items) (push_results items t)))
]

-- The pipeline behind a batch that a worker has gone through.
abbrev worked :
    ComparePipelineConfig
    → (List ℕ → Option (Option FileEntry))
    → List FileEntry
    → ComparePipeline
    → ComparePipeline
worked cfg probe batch t =
    let items = compare_batch cfg.mode probe batch in
    give_slot_back (count_results (length items) (push_results items t))

remotes-compare_batch :
    (mode : CompareMode) (probe : List ℕ → Option (Option FileEntry)) (batch : List FileEntry)
    → remotes (compare_batch mode probe batch) ≡ batch
unfolding compare_batch
remotes-compare_batch mode probe [] = refl
remotes-compare_batch mode probe (e ∷ batch) = ap (◌∷◌ e) (remotes-compare_batch mode probe batch)

remotes-append : (xs ys : List ComparedItem) → remotes (xs ++ ys) ≡ remotes xs ++ remotes ys
remotes-append [] ys = refl
remotes-append (x ∷ xs) ys = ap (◌∷◌ x.remote) (remotes-append xs ys)

abbrev after_claim : ComparePipelineConfig → ComparePipeline → ComparePipeline
after_claim cfg p = record p {
  tasks = drop (min cfg.batch_pop (length p.tasks)) p.tasks;
  active_workers = (p.active_workers + 1) % 2 ^ 32;
}

claim_stopped :
    (cfg : ComparePipelineConfig) (p : ComparePipeline)
    → p.stop ≡ true
    → ((p.tasks ≡ []) × (claim cfg p ≡ exits))
      ⊎ ((0 < length p.tasks)
          × (claim cfg p
              ≡ takes (take (min cfg.batch_pop (length p.tasks)) p.tasks) (after_claim cfg p)))
unfolding claim
claim_stopped cfg p stopped = ground arith

-- Once the pipeline is stopped, a worker alone ends within as many rounds as there are tasks,
-- and one more, for a positive batch size: no task is left, and the results have got one for
-- each task, in their order.
pub work_ends :
    (fuel : ℕ) (cfg : ComparePipelineConfig) (probe : List ℕ → Option (Option FileEntry))
    (p : ComparePipeline)
    → p.stop ≡ true
    → 0 < cfg.batch_pop
    → length p.tasks < fuel
    → (t : ComparePipeline) × (work fuel cfg probe p ≡ some t)
      × (t.tasks ≡ [])
      × (remotes t.results ≡ remotes p.results ++ p.tasks)
unfolding work give_slot_back count_results push_results
work_ends zero cfg probe p stopped positive enough = absurd (omega arith)
work_ends (suc fuel) cfg probe p stopped positive enough = elim (claim_stopped cfg p stopped) [
  | inl ended ↦
      (p, ground (arith, ended.1), ended.0, ground (arith, ended.0, append-nil (remotes p.results)))
  | inr more ↦
      let n = min cfg.batch_pop (length p.tasks) in
      let batch = take n p.tasks in
      let q = worked cfg probe batch (after_claim cfg p) in
      let fewer : length q.tasks < fuel = omega (arith, length-drop n p.tasks, more.0) in
      let (t, e, none_left, results) = work_ends fuel cfg probe q stopped positive fewer in
      let split = remotes-append p.results (compare_batch cfg.mode probe batch) in
      let named = remotes-compare_batch cfg.mode probe batch in
      let whole = append_assoc (remotes p.results) batch (drop n p.tasks) in
      (
        t,
        ground (arith, more.1, e),
        none_left,
        cc (results, split, named, whole, take-append-drop n p.tasks),
      )
]
