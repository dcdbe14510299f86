-- ===== src/Task/Outcome.antt =====
-- src/ctx_weft/core/orchestrator/task/manager.py, `apply_run_outcome`, `_decide_and_write` and
-- `_apply_disposition`: the part of the task manager that turns the end of a run into the state of a
-- task. The emission of the event, which stands between the last two, is a step that succeeds; the
-- other methods that `apply_run_outcome` goes over to are named in its result.
pub mod Budget
pub mod Sticky
use ctx_weft.Base.{
  ℕ, String, Option, none, some, Bool, true, false, List, [], ◌∷◌, ◌==◌, not, ◌&&◌, ◌>>=◌,
  if◌then◌else◌,
}
use ctx_weft.Base.Dict.{Dict, lookup, insert}
use ctx_weft.Base.Value.{Value, Payload, null, flag, num, text, list, dict}
use ctx_weft.Event.Types
use ctx_weft.Event.Types.{type_name}
use ctx_weft.Task.Status.{is_terminal, status_word}
use ctx_weft.Task.Model.{Task}
use ctx_weft.Task.Disposition.{
  Disposition, RunOutcome, RunOutcomeKind, kind_task_switched, kind_completed, kind_awaiting_human,
  kind_suspended_on_children, kind_interrupted, kind_canceled, disposition_for,
}

-- `disp.payload["outputs"] = outcome.outputs`, for a disposition that the observer brought along.
unfoldable pub with_outputs : RunOutcome → Disposition → Disposition
unfolding type_name insert
with_outputs outcome disp =
    if disp.event_type == type_name Types.task_finished
    then record disp { payload = insert "outputs" outcome.outputs disp.payload }
    else disp

-- `disposition_for` with the task's own budget, or the manager's where there is no such task.
unfoldable pub budgeted : RunOutcome → ℕ → Option Task → Disposition
budgeted outcome task_max_retries none = disposition_for outcome 0 task_max_retries
budgeted outcome task_max_retries (some task) =
    disposition_for outcome task.retry_count task.max_retries

-- The decision of `_decide_and_write`: a disposition that the observer settled wins.
unfoldable pub decide : RunOutcome → ℕ → Option Task → Disposition
unfolding with_outputs budgeted
decide outcome task_max_retries task = elim outcome.observe_disposition [
  | none ↦ budgeted outcome task_max_retries task
  | some disp ↦ with_outputs outcome disp
]

-- `disp.payload["retry_count"]`; none is the exception for a key that is missing, or is no number from 0 on. The
-- status that the source has written by then is not kept here.
unfoldable pub number_at : String → Payload → Option ℕ
unfolding lookup
number_at key payload = elim (lookup key payload) [ some (num n) ↦ some n | _ ↦ none ]

-- `outcome.error or task.error`
unfoldable pub error_or : String → Option String → Option String
error_or error old = if error == "" then old else some error

-- The last step of `_apply_disposition`: the cause goes with an interrupted task.
unfoldable pub keep_cause : RunOutcome → RunOutcomeKind → Task → Task
unfolding error_or
keep_cause outcome kind_interrupted task = record task {
  error = error_or outcome.error task.error;
  error_code = error_or outcome.error_code task.error_code;
}
keep_cause outcome _ task = task

-- `_apply_disposition` on a task that the table has.
unfoldable pub apply_disposition : RunOutcome → Disposition → Task → Option Task
unfolding keep_cause number_at type_name
apply_disposition outcome disp task =
    if disp.event_type == type_name Types.task_requeued
    then (elim (number_at "retry_count" disp.payload) [
      | none ↦ none
      | some n ↦
          some (
            keep_cause outcome outcome.kind (record task { status = disp.status; retry_count = n }))
    ])
    else some (keep_cause outcome outcome.kind (record task { status = disp.status }))

-- What the manager knows of a task when its run ends: whether it is in `_pending_threshold_roots`,
-- what `_task_tree_cancel_reason` finds for it, whether one of its emissions in `_pending_emissions`
-- has a callback, and the present time with its text.
pub record Standing : Type 0 where
  pub threshold_root : Bool
  pub cancel_reason : String
  pub undelivered : Bool
  pub now : ℕ
  pub now_text : String

-- Where `apply_run_outcome` ends: it returns the status as it is, goes over to another method, or
-- emits the event of a disposition, whose callback leaves the task like this.
pub data Ending : Type 0 where
  stays : Task → Ending
  fail_threshold_root : Ending
  apply_task_switch : Ending
  commit_task_cancellation : Payload → Ending
  publish_emission : Ending
  settled : Disposition → Task → Ending

-- `if task.switched_to_task_id`
unfoldable pub is_switched : Task → Bool
is_switched task = not (task.switched_to_task_id == "")

-- `disp.status == "CANCELED" and cancel_reason`
unfoldable pub is_tree_cancel : Standing → Disposition → Bool
is_tree_cancel standing disp =
    (status_word disp.status == "CANCELED") && not (standing.cancel_reason == "")

-- The two updates of the payload before the emission
unfoldable pub annotated : Standing → RunOutcome → Disposition → Disposition
unfolding insert is_tree_cancel status_word
annotated standing outcome disp =
    let payload =
      if is_tree_cancel standing disp
      then insert "finished_at" (text standing.now_text)
          (insert "reason" (text standing.cancel_reason) disp.payload)
      else disp.payload in
    record disp {
      payload =
          if outcome.observe_id == ""
          then payload
          else insert "observe_id" (text outcome.observe_id) payload;
    }

unfoldable pub note_cancel : Standing → Disposition → Task → Task
unfolding is_tree_cancel status_word
note_cancel standing disp task =
    if is_tree_cancel standing disp
    then record task { error = some standing.cancel_reason; finished_at = some standing.now }
    else task

-- The emission of a disposition, and its callback
unfoldable pub settle_as : Standing → RunOutcome → Task → Disposition → Option Ending
unfolding annotated note_cancel apply_disposition
settle_as standing outcome task disp =
    let emitted = annotated standing outcome disp in
    apply_disposition outcome emitted (note_cancel standing disp task) >>= λ task'.
    some (settled emitted task')

-- The rest of `apply_run_outcome`, past its guards
unfoldable pub settle : Standing → RunOutcome → Task → Option Ending
unfolding settle_as decide
settle standing outcome task =
    settle_as standing outcome task (decide outcome task.max_retries (some task))

-- The payload of a cancellation
unfoldable pub cancellation_payload : Standing → RunOutcome → Task → Payload
unfolding insert
cancellation_payload standing outcome task =
    let payload = (disposition_for outcome task.retry_count task.max_retries).payload in
    if standing.cancel_reason == ""
    then payload
    else insert "reason" (text standing.cancel_reason) payload

-- The guards, before what comes after them
unfoldable pub unless_switched : Task → Option Ending → Option Ending
unfolding is_switched
unless_switched task rest = if is_switched task then some (stays task) else rest

unfoldable pub unless_terminal : Task → Option Ending → Option Ending
unfolding is_terminal
unless_terminal task rest = if is_terminal task.status then some (stays task) else rest

unfoldable pub unless_undelivered : Standing → Option Ending → Option Ending
unless_undelivered standing rest = if standing.undelivered then some publish_emission else rest

-- `apply_run_outcome` by the kind of the outcome, for a task that is no threshold root
unfoldable pub apply_kind : Standing → RunOutcome → Task → RunOutcomeKind → Option Ending
unfolding unless_switched unless_terminal unless_undelivered settle cancellation_payload
apply_kind standing outcome task kind_task_switched =
    unless_terminal task (unless_switched task (some apply_task_switch))
apply_kind standing outcome task kind_completed =
    unless_switched task (unless_undelivered standing (settle standing outcome task))
apply_kind standing outcome task kind_canceled = unless_terminal task (
    unless_switched task
      (some (commit_task_cancellation (cancellation_payload standing outcome task))))
apply_kind standing outcome task _ =
    unless_terminal task
      (unless_switched task (unless_undelivered standing (settle standing outcome task)))

-- `apply_run_outcome` for a task that the table has; none is the exception for a payload without its
-- count of retries.
unfoldable pub apply_run_outcome : Standing → RunOutcome → Task → Option Ending
unfolding apply_kind
apply_run_outcome standing outcome task =
    if standing.threshold_root
    then some fail_threshold_root
    else apply_kind standing outcome task outcome.kind
