-- ===== src/DiskIo/Completions.antt =====
-- The driver's completions that no caller has taken yet, FastClone/disk_io_driver.cpp: a queue per
-- file, and the order of arrival over all files. An order list's links name its nodes one after
-- another, so it is the list of its nodes here; a node's address is a number. The mutex makes each
-- call one step. Waking a waiting thread changes none of this and is left out.
pub mod OneQueue
pub mod Drain
pub mod DrainAll
pub mod History
use fast_clone.Prelude.{
  ℕ, zero, suc, ◌+◌, ◌-◌, Bool, true, false, if◌then◌else◌, ◌==◌, List, [], ◌∷◌, ◌++◌, Option, none,
  some, length,
}
use fast_clone.Prelude.Assoc.{lookup, insert, erase}
use fast_clone.DiskIo.{IoCompletion}

pub record PendingCompletion : Type 0 where
  pub node : ℕ
  pub completion : IoCompletion

abbrev pub file_of : PendingCompletion → ℕ
file_of pc = pc.completion.file_id

pub record Completions : Type 0 where
  pub completions_by_file : List (ℕ × List PendingCompletion)
  pub order : List PendingCompletion
  pub order_count : ℕ
  pub next_node : ℕ  -- the address of the next node

abbrev pub no_completions : Completions
no_completions = record { completions_by_file = []; order = []; order_count = 0; next_node = 0 }

abbrev pub queue_of : ℕ → List (ℕ × List PendingCompletion) → List PendingCompletion
queue_of file_id m = elim (lookup file_id m) [ some q ↦ q | none ↦ [] ]

unfoldable pub order_link : PendingCompletion → Completions → Completions
order_link pc s = record s { order = s.order ++ (pc ∷ []); order_count = s.order_count + 1 }

unfoldable pub is_linked : ℕ → List PendingCompletion → Bool
is_linked n [] = false
is_linked n (pc ∷ order) = let rest = is_linked n order in if pc.node == n then true else rest

unfoldable pub unlink : ℕ → List PendingCompletion → List PendingCompletion
unlink n [] = []
unlink n (pc ∷ order) = let rest = unlink n order in if pc.node == n then order else pc ∷ rest

-- A node that is in no list is left alone.
unfoldable pub order_unlink : PendingCompletion → Completions → Completions
unfolding is_linked unlink
order_unlink pc s =
    if is_linked pc.node s.order
    then record s { order = unlink pc.node s.order; order_count = s.order_count - 1 }
    else s

-- `EnqueueCompletion`, up to the settlement.
unfoldable pub push_completion : IoCompletion → Completions → Completions
unfolding order_link lookup insert
push_completion c s =
    let pc : PendingCompletion = record { node = s.next_node; completion = c } in
    let q = queue_of c.file_id s.completions_by_file in
    order_link pc (record s {
      completions_by_file = insert c.file_id (q ++ (pc ∷ [])) s.completions_by_file;
      next_node = s.next_node + 1;
    })

-- A file's queue after its first node is gone: an empty one is dropped.
unfoldable pub put_queue :
    ℕ
    → List PendingCompletion
    → List (ℕ × List PendingCompletion)
    → List (ℕ × List PendingCompletion)
unfolding insert erase
put_queue file_id [] m = erase file_id m
put_queue file_id (pc ∷ q) m = insert file_id (pc ∷ q) m

-- One round of `drainCompletions`: the head of the order list, and what is handed out for it.
unfoldable pub drain_head : PendingCompletion → Completions → List IoCompletion × Completions
unfolding order_unlink put_queue lookup
drain_head pc s =
    let t = order_unlink pc s in
    elim (queue_of (file_of pc) t.completions_by_file) [
      | [] ↦ ([], t)
      | first ∷ q ↦ (
        first.completion ∷ [],
        record t { completions_by_file = put_queue (file_of pc) q t.completions_by_file },
      )
    ]

-- Its loop, on fuel: every round takes a node off the order list.
unfoldable pub drain_loop : ℕ → Completions → List IoCompletion → List IoCompletion × Completions
unfolding drain_head
drain_loop zero s out = (out, s)
drain_loop (suc fuel) s out = elim s.order [
  | [] ↦ (out, s)
  | pc ∷ order ↦ let (given, t) = drain_head pc s in drain_loop fuel t (out ++ given)
]

unfoldable pub drain_completions : Completions → List IoCompletion × Completions
unfolding drain_loop
drain_completions s = drain_loop (suc (length s.order)) s []

-- The loop over one file's nodes, which unlinks each.
unfoldable pub unlink_all : List PendingCompletion → Completions → Completions
unfolding order_unlink
unlink_all [] s = s
unlink_all (pc ∷ q) s = unlink_all q (order_unlink pc s)

abbrev pub contents : List PendingCompletion → List IoCompletion
contents [] = []
contents (pc ∷ q) = pc.completion ∷ contents q

unfoldable pub drain_completions_for_file : ℕ → Completions → List IoCompletion × Completions
unfolding unlink_all lookup erase
drain_completions_for_file file_id s = elim (lookup file_id s.completions_by_file) [
  | none ↦ ([], s)
  | some q ↦
      let t = unlink_all q s in
      (contents q, record t { completions_by_file = erase file_id t.completions_by_file })
]

unfoldable pub release_file_locked : ℕ → Completions → Completions
unfolding unlink_all lookup erase
release_file_locked file_id s = elim (lookup file_id s.completions_by_file) [
  | none ↦ s
  | some q ↦
      let t = unlink_all q s in
      record t { completions_by_file = erase file_id t.completions_by_file }
]

unfoldable pub bytes_of : List PendingCompletion → ℕ
bytes_of [] = 0
bytes_of (pc ∷ q) = length pc.completion.bytes + bytes_of q

unfoldable pub retained_bytes : List (ℕ × List PendingCompletion) → ℕ
unfolding bytes_of
retained_bytes [] = 0
retained_bytes ((f, q) ∷ m) = bytes_of q + retained_bytes m
