-- ===== src/Task/Threshold.antt =====
-- src/ctx_weft/core/orchestrator/task/failure_threshold.py: which task goes into which group when the
-- failure threshold of a session is reached. A loop that appends to lists is a recursion that returns
-- them; the proofs are in the modules below.
pub mod Loops
pub mod Groups
use ctx_weft.Base.{
  String, Option, none, some, Bool, true, false, not, ◌&&◌, ◌||◌, List, [], ◌∷◌, ◌++◌, ◌==◌, mem,
  is_some, if◌then◌else◌,
}
use ctx_weft.Base.Dict.{Dict, lookup, values}
use ctx_weft.Task.Status.{is_terminal, is_suspended}
use ctx_weft.Task.Model.{Task}

-- `t.parent_task_id is None`
abbrev pub is_root : Task → Bool
is_root t = not (is_some t.parent_task_id)

abbrev pub is_started : Task → Bool
is_started t = is_some t.started_at

-- `bool(t.started_at and t.parent_task_id)`
unfoldable pub has_dispatch_frame : Task → Bool
has_dispatch_frame t =
    is_started t && (elim t.parent_task_id [ none ↦ false | some parent ↦ not (parent == "") ])

pub record TripPlan : Type 0 where
  pub cancel_queued : List String
  pub cancel_suspended : List String
  pub signal_inflight : List String
  pub ack_task_ids : List String
  pub cancel_now_ids : List String
  pub fail_roots : List String
  pub signal_roots : List String

-- `xs.append(x)` under a test, in a loop that goes on to `rest`.
abbrev pub append_if : Bool → String → List String → List String
append_if b x rest = if b then x ∷ rest else rest

-- The body of the first loop, over the entries drained from the queue: `cancel_queued` and
-- `cancel_now`.
unfoldable pub visit_pending :
    String → Option Task → List String × List String → List String × List String
visit_pending tid none (queued, now) = (queued, now)
visit_pending tid (some t) (queued, now) =
    if is_root t then (queued, now) else (tid ∷ queued, append_if (is_started t) tid now)

unfoldable pub pending_loop : Dict Task → List String → List String × List String
unfolding visit_pending lookup
pending_loop tasks [] = ([], [])
pending_loop tasks (tid ∷ rest) = visit_pending tid (lookup tid tasks) (pending_loop tasks rest)

-- What the second loop collects.
pub record Swept : Type 0 where
  pub suspended : List String
  pub inflight : List String
  pub acks : List String
  pub now : List String

-- The body of the second loop, over all tasks.
unfoldable pub visit_child : List String → Task → Swept → Swept
visit_child running_ids t s =
    if is_root t
    then s
    else if is_suspended t.status
    then record s { suspended = t.id ∷ s.suspended; now = append_if (is_started t) t.id s.now }
    else if mem t.id running_ids
    then record s {
      inflight = t.id ∷ s.inflight;
      acks = append_if (has_dispatch_frame t) t.id s.acks;
    }
    else s

unfoldable pub child_loop : List String → List Task → Swept
unfolding visit_child
child_loop running_ids [] = record { suspended = []; inflight = []; acks = []; now = [] }
child_loop running_ids (t ∷ ts) = visit_child running_ids t (child_loop running_ids ts)

-- The third loop: `fail_roots` and `signal_roots`.
unfoldable pub visit_root :
    List String → Task → List String × List String → List String × List String
visit_root running_ids t (fails, signals) =
    if not (is_root t) || is_terminal t.status
    then (fails, signals)
    else (t.id ∷ fails, append_if (mem t.id running_ids) t.id signals)

unfoldable pub root_loop : List String → List Task → List String × List String
unfolding visit_root
root_loop running_ids [] = ([], [])
root_loop running_ids (t ∷ ts) = visit_root running_ids t (root_loop running_ids ts)

-- `plan_threshold_trip(tasks, pending_ids=…, running_ids=…)`
unfoldable pub plan_threshold_trip : Dict Task → List String → List String → TripPlan
unfolding pending_loop child_loop root_loop values
plan_threshold_trip tasks pending_ids running_ids =
    let (queued, now) = pending_loop tasks pending_ids in
    let swept = child_loop running_ids (values tasks) in
    let (fails, signals) = root_loop running_ids (values tasks) in
    record {
      cancel_queued = queued;
      cancel_suspended = swept.suspended;
      signal_inflight = swept.inflight;
      ack_task_ids = swept.acks;
      cancel_now_ids = now ++ swept.now;
      fail_roots = fails;
      signal_roots = signals;
    }
