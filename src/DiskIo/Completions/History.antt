-- ===== src/DiskIo/Completions/History.antt =====
-- Sequences of calls on the completions, against one plain queue.
use fast_clone.Prelude.{ℕ, ◌≡◌, refl, ap, ◌∙◌, if◌then◌else◌, ◌==◌, List, [], ◌∷◌, ◌++◌, arith}
use fast_clone.DiskIo.{IoCompletion}
use fast_clone.DiskIo.Completions.{
  PendingCompletion, Completions, no_completions, order_link, push_completion, drain_completions,
  contents, drain_completions_for_file, release_file_locked,
}
use fast_clone.DiskIo.Completions.OneQueue.{
  of_file, not_of_file, IsOneQueue, no_completions-IsOneQueue, push_completion-IsOneQueue,
}
use fast_clone.DiskIo.Completions.Drain.{
  Drained, release_file_locked-Drained, drain_for_file-Drained,
}
use fast_clone.DiskIo.Completions.DrainAll.{drain_completions_lem}

-- A call on the driver that touches the completions.
pub data Call : Type 0 where
  enqueue : IoCompletion → Call
  drain_all : Call
  drain_file : ℕ → Call
  release : ℕ → Call

-- What the call hands out, and the state it leaves.
unfoldable pub call : Call → Completions → List IoCompletion × Completions
call (enqueue c) s = ([], push_completion c s)
call drain_all s = drain_completions s
call (drain_file f) s = drain_completions_for_file f s
call (release f) s = ([], release_file_locked f s)

unfoldable pub calls : List Call → Completions → List (List IoCompletion)
unfolding call
calls [] s = []
calls (c ∷ cs) s = let (given, t) = call c s in given ∷ calls cs t

-- The same calls on one plain queue of completions.
unfoldable pub for_file : ℕ → List IoCompletion → List IoCompletion
for_file f [] = []
for_file f (c ∷ q) = let rest = for_file f q in if c.file_id == f then c ∷ rest else rest

unfoldable pub not_for_file : ℕ → List IoCompletion → List IoCompletion
not_for_file f [] = []
not_for_file f (c ∷ q) = let rest = not_for_file f q in if c.file_id == f then rest else c ∷ rest

unfoldable pub queue_call : Call → List IoCompletion → List IoCompletion × List IoCompletion
unfolding for_file not_for_file
queue_call (enqueue c) q = ([], q ++ (c ∷ []))
queue_call drain_all q = (q, [])
queue_call (drain_file f) q = (for_file f q, not_for_file f q)
queue_call (release f) q = ([], not_for_file f q)

unfoldable pub queue_calls : List Call → List IoCompletion → List (List IoCompletion)
unfolding queue_call
queue_calls [] q = []
queue_calls (c ∷ cs) q = let (given, rest) = queue_call c q in given ∷ queue_calls cs rest

contents-of_file :
    (f : ℕ) (q : List PendingCompletion) → contents (of_file f q) ≡ for_file f (contents q)
unfolding of_file for_file
contents-of_file f [] = refl
contents-of_file f (pc ∷ q) = ground (arith, contents-of_file f q)

contents-not_of_file :
    (f : ℕ) (q : List PendingCompletion) → contents (not_of_file f q) ≡ not_for_file f (contents q)
unfolding not_of_file not_for_file
contents-not_of_file f [] = refl
contents-not_of_file f (pc ∷ q) = ground (arith, contents-not_of_file f q)

contents-append : (q r : List PendingCompletion) → contents (q ++ r) ≡ contents q ++ contents r
contents-append [] r = refl
contents-append (pc ∷ q) r = ap (◌∷◌ pc.completion) (contents-append q r)

-- One call answers as on the plain queue, and leaves the state as the plain queue.
record Answers (r : List IoCompletion × Completions) (q : List IoCompletion × List IoCompletion)
    : Type 0 where
  given : r.0 ≡ q.0
  left : contents r.1.order ≡ q.1
  valid : IsOneQueue r.1

Drained-left :
    (f : ℕ) (s t : Completions)
    → Drained f s t
    → contents t.order ≡ not_for_file f (contents s.order)
Drained-left f s t d = ap contents d.left ∙ contents-not_of_file f s.order

pushed_left :
    (c : IoCompletion) (s : Completions)
    → contents (push_completion c s).order ≡ contents s.order ++ (c ∷ [])
unfolding push_completion order_link
pushed_left c s = contents-append s.order (record { node = s.next_node; completion = c } ∷ [])

call-Answers :
    (c : Call) (s : Completions)
    → IsOneQueue s
    → Answers (call c s) (queue_call c (contents s.order))
unfolding call queue_call
call-Answers (enqueue c) s h = record {
  given = refl;
  left = pushed_left c s;
  valid = push_completion-IsOneQueue c s h;
}
call-Answers drain_all s h =
    let d = drain_completions_lem s h in
    record { given = d.given; left = ap contents d.left; valid = d.valid }
call-Answers (drain_file f) s h =
    let d = drain_for_file-Drained f s h in
    record {
      given = d.0 ∙ contents-of_file f s.order;
      left = Drained-left f s (drain_completions_for_file f s).1 d.1;
      valid = d.1.valid;
    }
call-Answers (release f) s h =
    let d = release_file_locked-Drained f s h in
    record { given = refl; left = Drained-left f s (release_file_locked f s) d; valid = d.valid }

calls_from :
    (cs : List Call) (s : Completions)
    → IsOneQueue s
    → calls cs s ≡ queue_calls cs (contents s.order)
unfolding calls queue_calls
calls_from [] s h = refl
calls_from (c ∷ cs) s h =
    let a = call-Answers c s h in
    cc (a.given, ap (queue_calls cs) a.left, calls_from cs (call c s).1 a.valid)

-- Whatever calls follow one another on a new driver, arrivals, drains of all files or of one,
-- and releases of files, the queues per file and the order list hand out what one plain queue
-- does, from which a drain of a file takes that file's completions and a release drops them.
pub calls_lem : (cs : List Call) → calls cs no_completions ≡ queue_calls cs []
calls_lem cs = calls_from cs no_completions no_completions-IsOneQueue
