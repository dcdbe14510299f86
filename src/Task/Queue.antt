-- ===== src/Task/Queue.antt =====
-- src/ctx_weft/core/orchestrator/task/queue.py: the LIFO queue with dependencies. A method that
-- mutates the queue returns the new queue; the proofs are in the modules below.
pub mod Pop
pub mod Blocking
pub mod Freeing
mod Tests
use ctx_weft.Base.{
  ℕ, String, Option, none, some, Bool, true, false, not, ◌&&◌, ◌||◌, List, [], ◌∷◌, ◌++◌, ◌==◌, map,
  mem, add, difference, discard, update, nonempty, any, all, length, if◌then◌else◌,
}

pub record QueueEntry : Type 0 where
  pub task_id : String
  pub session_id : String
  pub priority : ℕ
  pub blocked_by : List String

pub record TaskQueue : Type 0 where
  -- `_entries`, the top of the stack last
  pub entries : List QueueEntry
  -- `_succeeded` and `_running`
  pub succeeded : List String
  pub running : List String

abbrev pub empty : TaskQueue
empty = record { entries = []; succeeded = []; running = [] }

-- `entry.blocked_by -= self._succeeded`
unfoldable pub refresh : List String → QueueEntry → QueueEntry
refresh succeeded entry = record entry { blocked_by = difference entry.blocked_by succeeded }

unfoldable pub push : QueueEntry → TaskQueue → TaskQueue
unfolding refresh
push entry q = record q { entries = q.entries ++ refresh q.succeeded entry ∷ [] }

-- The optional predicate `skip` of `pop`.
abbrev pub Skip : Type 0
Skip = Option (QueueEntry → Bool)

-- The two tests of the loop body of `pop`, on an entry that has been refreshed.
unfoldable pub eligible : List String → Skip → QueueEntry → Bool
eligible running skip entry =
    if nonempty entry.blocked_by || mem entry.task_id running
    then false
    else (elim skip [ none ↦ true | some f ↦ not (f entry) ])

-- One round of the loop of `pop`, at `entry`, after the rounds for the entries above it: when one of
-- those was popped, the loop has ended.
unfoldable pub pop_round :
    List String
    → List String
    → Skip
    → QueueEntry
    → Option QueueEntry × List QueueEntry
    → Option QueueEntry × List QueueEntry
unfolding refresh eligible
pop_round succeeded running skip entry (some popped, above) = (some popped, entry ∷ above)
pop_round succeeded running skip entry (none, above) =
    let fresh = refresh succeeded entry in
    if eligible running skip fresh then (some fresh, above) else (none, fresh ∷ above)

-- The loop of `pop`, from the last entry down: the entry popped, if any, and the entries left.
unfoldable pub pop_loop :
    List String → List String → Skip → List QueueEntry → Option QueueEntry × List QueueEntry
unfolding pop_round
pop_loop succeeded running skip [] = (none, [])
pop_loop succeeded running skip (entry ∷ above) =
    pop_round succeeded running skip entry (pop_loop succeeded running skip above)

-- The end of `pop`: the task popped is marked as running.
unfoldable pub pop_end :
    TaskQueue → Option QueueEntry × List QueueEntry → Option QueueEntry × TaskQueue
pop_end q (none, left) = (none, record q { entries = left })
pop_end q (some entry, left) =
    (some entry, record q { entries = left; running = add entry.task_id q.running })

unfoldable pub pop : Skip → TaskQueue → Option QueueEntry × TaskQueue
unfolding pop_loop pop_end
pop skip q = pop_end q (pop_loop q.succeeded q.running skip q.entries)

-- The body of the loop of `replace_dependencies`.
unfoldable pub replace_in : List String → String → QueueEntry → QueueEntry
replace_in old_ids successor_id entry =
    if any (λ d. mem d old_ids) entry.blocked_by
    then record entry { blocked_by = add successor_id (difference entry.blocked_by old_ids) }
    else entry

unfoldable pub replace_dependencies : List String → String → TaskQueue → TaskQueue
unfolding replace_in
replace_dependencies old_ids successor_id q = record q {
  entries = map (replace_in old_ids successor_id) q.entries;
}

unfoldable pub mark_running : String → TaskQueue → TaskQueue
mark_running task_id q = record q { running = add task_id q.running }

unfoldable pub unmark_running : String → TaskQueue → TaskQueue
unmark_running task_id q = record q { running = discard task_id q.running }

unfoldable pub seed_succeeded : List String → TaskQueue → TaskQueue
seed_succeeded task_ids q = record q { succeeded = update q.succeeded task_ids }

-- `entry.blocked_by.discard(task_id)`
unfoldable pub unblock : String → QueueEntry → QueueEntry
unblock task_id entry = record entry { blocked_by = discard task_id entry.blocked_by }

unfoldable pub mark_complete : String → TaskQueue → TaskQueue
unfolding unblock
mark_complete task_id q = record {
  entries = map (unblock task_id) q.entries;
  succeeded = add task_id q.succeeded;
  running = discard task_id q.running;
}

unfoldable pub mark_failed : String → TaskQueue → TaskQueue
mark_failed task_id q = record q { running = discard task_id q.running }

-- The loop of `cancel`: the entries left, and whether one was taken out.
unfoldable pub cancel_loop : String → List QueueEntry → Bool × List QueueEntry
cancel_loop task_id [] = (false, [])
cancel_loop task_id (entry ∷ rest) =
    let (found, left) = cancel_loop task_id rest in
    if entry.task_id == task_id then (true, rest) else (found, entry ∷ left)

unfoldable pub cancel : String → TaskQueue → Bool × TaskQueue
unfolding cancel_loop
cancel task_id q =
    let (found, left) = cancel_loop task_id q.entries in (found, record q { entries = left })

unfoldable pub drain_pending : TaskQueue → List String × TaskQueue
drain_pending q = (map (λ e. e.task_id) q.entries, record q { entries = [] })

unfoldable pub pending_count : TaskQueue → ℕ
pending_count q = length q.entries

unfoldable pub has_pending : TaskQueue → Bool
has_pending q = nonempty q.entries

unfoldable pub all_blocked : TaskQueue → Bool
all_blocked q =
    if not (nonempty q.entries) then false else all (λ e. nonempty e.blocked_by) q.entries

unfoldable pub peek_all : TaskQueue → List QueueEntry
peek_all q = q.entries
