-- ===== src/Compare/Pipeline/Kept.antt =====
-- Nothing is lost or made up between what the caller enqueues and what it drains.
use fast_clone.Prelude.{
  ℕ, suc, ◌+◌, ◌%◌, ◌^◌, ◌≡◌, refl, ap, ◌∙◌, min, Bool, if◌then◌else◌, ◌==◌, List, [], ◌∷◌, ◌++◌,
  Option, length, take-append-drop, length-append, All, arith, Bool-cases, inl, inr, append-nil,
}
use fast_clone.Entry.{FileEntry}
use fast_clone.Compare.{CompareMode, decide_compare}
use fast_clone.Compare.Pipeline.{
  ComparePipelineConfig, ComparedItem, ComparePipeline, enqueue, flush, drain, stop_pipeline,
  set_active_cap, takes, claim, compare_batch, push_results, count_results, give_slot_back,
}
use fast_clone.Compare.Pipeline.Steps.{
  Phase, claimed, pushed, counted, World, start, Step, enqueues, flushes, drains, sets_cap, stops,
  claims, pushes, counts, gives_back, Reach, starts, after_step,
}

-- How many entries a predicate holds of: two lists that agree for every predicate have the same
-- entries, each as often.
abbrev pub count : (FileEntry → Bool) → List FileEntry → ℕ
count q [] = 0
count q (e ∷ l) = (if q e then 1 else 0) + count q l

abbrev pub count_items : (FileEntry → Bool) → List ComparedItem → ℕ
count_items q [] = 0
count_items q (i ∷ l) = (if q i.remote then 1 else 0) + count_items q l

abbrev pub batch_of : Phase → List FileEntry
batch_of (claimed batch) = batch
batch_of (pushed n) = []
batch_of counted = []

abbrev pub claimed_by : List Phase → List FileEntry
claimed_by [] = []
claimed_by (w ∷ ws) = batch_of w ++ claimed_by ws

-- The results that are pushed and not yet added to the count.
abbrev not_added : Phase → ℕ
not_added (claimed batch) = 0
not_added (pushed n) = n
not_added counted = 0

abbrev uncounted : List Phase → ℕ
uncounted [] = 0
uncounted (w ∷ ws) = not_added w + uncounted ws

abbrev pub IsDecided : CompareMode → ComparedItem → Type 0
IsDecided mode i = i.outcome ≡ decide_compare mode i.local i.remote

pub record Kept (cfg : ComparePipelineConfig) (w : World) : Type 0 where
  pub entries :
      (q : FileEntry → Bool)
      → count q w.sent
        ≡ count q w.pipeline.dispatch_buffer
          + count q w.pipeline.tasks
          + count q (claimed_by w.workers)
          + count_items q w.pipeline.results
          + count_items q w.handed
  pub decided : All (IsDecided cfg.mode) w.pipeline.results × All (IsDecided cfg.mode) w.handed
  pub issued : w.pipeline.issued ≡ length w.sent % 2 ^ 64
  pub drained : w.pipeline.drained ≡ length w.handed % 2 ^ 64
  pub pending :
      (w.pipeline.pending + uncounted w.workers) % 2 ^ 64 ≡ length w.pipeline.results % 2 ^ 64
  pub slots : w.pipeline.active_workers ≡ length w.workers % 2 ^ 32

count-append :
    (q : FileEntry → Bool) (xs ys : List FileEntry) → count q (xs ++ ys) ≡ count q xs + count q ys
count-append q [] ys = omega arith
count-append q (x ∷ xs) ys = omega (arith, count-append q xs ys)

count_items-append :
    (q : FileEntry → Bool) (xs ys : List ComparedItem)
    → count_items q (xs ++ ys) ≡ count_items q xs + count_items q ys
count_items-append q [] ys = omega arith
count_items-append q (x ∷ xs) ys = omega (arith, count_items-append q xs ys)

All-append {ℓ κ} :
    {A : Type ℓ} (P : A → Type κ) (xs ys : List A) → All P xs → All P ys → All P (xs ++ ys)
All-append P [] ys h k = k
All-append P (x ∷ xs) ys h k = (h.0, All-append P xs ys h.1 k)

claimed_by-middle :
    (q : FileEntry → Bool) (before after : List Phase) (x : Phase)
    → count q (claimed_by (before ++ (x ∷ after)))
      ≡ count q (batch_of x) + count q (claimed_by (before ++ after))
claimed_by-middle q [] after x = count-append q (batch_of x) (claimed_by after)
claimed_by-middle q (w ∷ before) after x =
    let old = count-append q (batch_of w) (claimed_by (before ++ (x ∷ after))) in
    let new = count-append q (batch_of w) (claimed_by (before ++ after)) in
    omega (arith, claimed_by-middle q before after x)

uncounted-middle :
    (before after : List Phase) (x : Phase)
    → uncounted (before ++ (x ∷ after)) ≡ not_added x + uncounted (before ++ after)
uncounted-middle [] after x = refl
uncounted-middle (w ∷ before) after x = omega (arith, uncounted-middle before after x)

length-middle :
    (before after : List Phase) (x : Phase)
    → length (before ++ (x ∷ after)) ≡ suc (length (before ++ after))
length-middle before after x =
    omega (arith, length-append before (x ∷ after), length-append before after)

compare_batch-counts :
    (mode : CompareMode) (probe : List ℕ → Option (Option FileEntry)) (batch : List FileEntry)
    → ((q : FileEntry → Bool) → count_items q (compare_batch mode probe batch) ≡ count q batch)
      × All (IsDecided mode) (compare_batch mode probe batch)
      × (length (compare_batch mode probe batch) ≡ length batch)
unfolding compare_batch
compare_batch-counts mode probe [] = (λ q. refl, tt, refl)
compare_batch-counts mode probe (e ∷ batch) =
    let (c, d, l) = compare_batch-counts mode probe batch in
    (λ q. omega (arith, c q), (refl, d), ap suc l)

start-Kept : (cfg : ComparePipelineConfig) → Kept cfg start
start-Kept cfg = record {
  entries = λ q. refl;
  decided = (tt, tt);
  issued = refl;
  drained = refl;
  pending = refl;
  slots = refl;
}

-- What a claim takes.
record Taken (p : ComparePipeline) (batch : List FileEntry) (t : ComparePipeline) : Type 0 where
  cut : batch ++ t.tasks ≡ p.tasks
  rest : t ≡ record p { tasks = t.tasks; active_workers = (p.active_workers + 1) % 2 ^ 32 }

claim-Taken :
    (cfg : ComparePipelineConfig) (p : ComparePipeline) (batch : List FileEntry)
    (t : ComparePipeline)
    → claim cfg p ≡ takes batch t
    → Taken p batch t
unfolding claim
claim-Taken cfg p batch t h =
    let n = min cfg.batch_pop (length p.tasks) in ground (arith, take-append-drop n p.tasks)

module _ (cfg : ComparePipelineConfig) (w : World) (k : Kept cfg w) where
  enqueues-Kept :
      (e : FileEntry)
      → Kept cfg (record w { pipeline = enqueue e w.pipeline; sent = w.sent ++ (e ∷ []) })
  unfolding enqueue
  enqueues-Kept e = record {
    entries = λ q.
        let a = count-append q w.sent (e ∷ []) in
        let b = count-append q w.pipeline.dispatch_buffer (e ∷ []) in
        let c = k.entries q in omega arith;
    decided = k.decided;
    issued = omega (arith, k.issued, length-append w.sent (e ∷ []));
    drained = k.drained;
    pending = k.pending;
    slots = k.slots;
  }

  flushes-Kept : Kept cfg (record w { pipeline = flush w.pipeline })
  unfolding flush
  flushes-Kept = record {
    entries = λ q.
        let a = count-append q w.pipeline.tasks w.pipeline.dispatch_buffer in
        let c = k.entries q in omega arith;
    decided = k.decided;
    issued = k.issued;
    drained = k.drained;
    pending = k.pending;
    slots = k.slots;
  }

  drains-Kept :
      Kept cfg
        (record w { pipeline = (drain w.pipeline).1; handed = w.handed ++ (drain w.pipeline).0 })
  unfolding drain
  drains-Kept = elim (Bool-cases (length w.pipeline.results == 0)) [
    | inl none_ready ↦
        let e : drain w.pipeline ≡ ([], w.pipeline) = ground arith in rw (e, append-nil) k
    | inr ready ↦
        rw (ready, drain)
          (record {
            entries = λ q.
                let a = count_items-append q w.handed w.pipeline.results in
                let c = k.entries q in omega arith;
            decided = (
              tt,
              All-append (IsDecided cfg.mode) w.handed w.pipeline.results k.decided.1 k.decided.0,
            );
            issued = k.issued;
            drained = omega (arith, k.drained, length-append w.handed w.pipeline.results);
            pending = omega (arith, k.pending);
            slots = k.slots;
          })
  ]

  claims-Kept :
      (batch : List FileEntry) (p : ComparePipeline)
      → claim cfg w.pipeline ≡ takes batch p
      → Kept cfg (record w { pipeline = p; workers = claimed batch ∷ w.workers })
  claims-Kept batch p h =
      let t = claim-Taken cfg w.pipeline batch p h in
      record {
        entries = λ q.
            let a = count-append q batch p.tasks in
            let b = count-append q batch (claimed_by w.workers) in
            let c = k.entries q in
            omega (
              arith,
              ap (count q) t.cut,
              ap (λ r. count q r.dispatch_buffer) t.rest,
              ap (λ r. count_items q r.results) t.rest,
            );
        decided = rw (ap (λ r. r.results) t.rest) k.decided;
        issued = ap (λ r. r.issued) t.rest ∙ k.issued;
        drained = ap (λ r. r.drained) t.rest ∙ k.drained;
        pending =
            omega (arith, k.pending, ap (λ r. r.pending) t.rest, ap (λ r. length r.results) t.rest);
        slots = omega (arith, k.slots, ap (λ r. r.active_workers) t.rest);
      }

  pushes-Kept :
      (probe : List ℕ → Option (Option FileEntry)) (batch : List FileEntry)
      (before after : List Phase)
      → w.workers ≡ before ++ (claimed batch ∷ after)
      → Kept cfg (record w {
        pipeline = push_results (compare_batch cfg.mode probe batch) w.pipeline;
        workers = before ++ (pushed (length batch) ∷ after);
      })
  unfolding push_results
  pushes-Kept probe batch before after h =
      let items = compare_batch cfg.mode probe batch in
      let (c, d, l) = compare_batch-counts cfg.mode probe batch in
      let r = w.pipeline.results in
      record {
        entries = λ q.
            let old = ap (λ ws. count q (claimed_by ws)) h in
            let a = claimed_by-middle q before after (claimed batch) in
            let b = claimed_by-middle q before after (pushed (length batch)) in
            let i = count_items-append q r items in let e = k.entries q in omega (arith, c q);
        decided = (All-append (IsDecided cfg.mode) r items k.decided.0 d, k.decided.1);
        issued = k.issued;
        drained = k.drained;
        pending = omega (
          arith,
          k.pending,
          l,
          length-append r items,
          ap uncounted h,
          uncounted-middle before after (claimed batch),
          uncounted-middle before after (pushed (length batch)),
        );
        slots = omega (
          arith,
          k.slots,
          ap length h,
          length-middle before after (claimed batch),
          length-middle before after (pushed (length batch)),
        );
      }

  counts-Kept :
      (n : ℕ) (before after : List Phase)
      → w.workers ≡ before ++ (pushed n ∷ after)
      → Kept cfg (record w {
        pipeline = count_results n w.pipeline;
        workers = before ++ (counted ∷ after);
      })
  unfolding count_results
  counts-Kept n before after h = record {
    entries = λ q.
        let old = ap (λ ws. count q (claimed_by ws)) h in
        let a = claimed_by-middle q before after (pushed n) in
        let b = claimed_by-middle q before after counted in let e = k.entries q in omega arith;
    decided = k.decided;
    issued = k.issued;
    drained = k.drained;
    pending = omega (
      arith,
      k.pending,
      ap uncounted h,
      uncounted-middle before after (pushed n),
      uncounted-middle before after counted,
    );
    slots = omega (
      arith,
      k.slots,
      ap length h,
      length-middle before after (pushed n),
      length-middle before after counted,
    );
  }

  gives_back-Kept :
      (before after : List Phase)
      → w.workers ≡ before ++ (counted ∷ after)
      → Kept cfg (record w { pipeline = give_slot_back w.pipeline; workers = before ++ after })
  unfolding give_slot_back
  gives_back-Kept before after h = record {
    entries = λ q.
        let old = ap (λ ws. count q (claimed_by ws)) h in
        let a = claimed_by-middle q before after counted in let e = k.entries q in omega arith;
    decided = k.decided;
    issued = k.issued;
    drained = k.drained;
    pending = omega (arith, k.pending, ap uncounted h, uncounted-middle before after counted);
    slots = omega (arith, k.slots, ap length h, length-middle before after counted);
  }

Step-Kept : (cfg : ComparePipelineConfig) (v w : World) → Kept cfg v → Step cfg v w → Kept cfg w
unfolding stop_pipeline set_active_cap
Step-Kept cfg v _ k (enqueues e) = enqueues-Kept cfg v k e
Step-Kept cfg v _ k flushes = flushes-Kept cfg v k
Step-Kept cfg v _ k drains = drains-Kept cfg v k
Step-Kept cfg v _ k (sets_cap cap) = record {
  entries = k.entries;
  decided = k.decided;
  issued = k.issued;
  drained = k.drained;
  pending = k.pending;
  slots = k.slots;
}
Step-Kept cfg v _ k stops = record {
  entries = k.entries;
  decided = k.decided;
  issued = k.issued;
  drained = k.drained;
  pending = k.pending;
  slots = k.slots;
}
Step-Kept cfg v _ k (claims batch p h) = claims-Kept cfg v k batch p h
Step-Kept cfg v _ k (pushes probe batch before after h) =
    pushes-Kept cfg v k probe batch before after h
Step-Kept cfg v _ k (counts n before after h) = counts-Kept cfg v k n before after h
Step-Kept cfg v _ k (gives_back before after h) = gives_back-Kept cfg v k before after h

-- In every state that enqueuing, flushing, draining, stopping, changes of the cap and the
-- workers' rounds lead to, in any order: the enqueued entries are, each as often, those
-- buffered, queued, claimed, in the results and drained; every result has the verdict of its two
-- entries; `issued`, `drained` and, with what is still to be added, `pending` are the counts of
-- entries, modulo 2^64; and `active_workers` is the number of workers at work, modulo 2^32.
pub pipeline_keeps : (cfg : ComparePipelineConfig) (w : World) → Reach cfg w → Kept cfg w
pipeline_keeps cfg _ starts = start-Kept cfg
pipeline_keeps cfg _ (after_step v w r s) = Step-Kept cfg v w (pipeline_keeps cfg v r) s
