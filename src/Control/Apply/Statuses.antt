-- ===== src/Control/Apply/Statuses.antt =====
-- src/ctx_weft/core/control/reducers.py, `_apply`: the state of a task, and what ends it.
use ctx_weft.Base.{
  ℕ, String, Option, none, some, Bool, true, false, List, [], ◌∷◌, ◌==◌, ◌&&◌, ◌||◌, ◌>>=◌,
  starts_with, if◌then◌else◌,
}
use ctx_weft.Base.Value.{Value, Fields, null, dict, field, end, find, is_text}
use ctx_weft.Base.Value.Reading.{as_text, as_texts, truthy, required_text}
use ctx_weft.Event.Types
use ctx_weft.Event.Types.{type_name}
use ctx_weft.Event.Record.{Event}
use ctx_weft.Control.Views.{RunStateView, TaskView}
use ctx_weft.Control.Blob.Times.{Times}
use ctx_weft.Control.Apply.Update.{value_at, as_fields, text_at, with_task, nonempty_or}
use ctx_weft.Control.Apply.Sessions.{new_prompt, count_outcome}
use ctx_weft.Control.Apply.Agents.{agent_cancel_reason}

-- `TaskRequeued`: the task waits again, without what it had produced.
unfoldable pub requeue : Fields → TaskView → Option TaskView
unfolding value_at new_prompt
requeue fs t = new_prompt (value_at "user_prompt" fs) t.user_prompt >>= λ prompt.
    some (record t { status = "PENDING"; outputs = null; user_prompt = prompt })

abbrev pub show_status : String → RunStateView → RunStateView
show_status status v = record v { task_status = status }

unfoldable pub apply_requeued : String → Fields → RunStateView → Option RunStateView
unfolding with_task requeue
apply_requeued id fs v = with_task id (requeue fs) v >>= λ w. some (show_status "PENDING" w)

-- `TaskHumanResolved` on the task
abbrev pub release_task : TaskView → Option TaskView
release_task t = some (record t { status = "PENDING"; outputs = null })

unfoldable pub apply_human_resolved : String → RunStateView → Option RunStateView
unfolding with_task
apply_human_resolved id v = with_task id release_task v >>= λ w. some (show_status "PENDING" w)

-- A task that the new one replaces.
unfoldable pub replace_task : String → Fields → TaskView → Option TaskView
unfolding find as_text
replace_task successor_id fs t = as_text "" (find "switch_reason" fs) >>= λ reason.
    some (record t {
      status = "REVIEWING";
      switched_to_task_id = successor_id;
      switch_reason = reason;
    })

unfoldable pub replace_tasks : String → Fields → List String → RunStateView → Option RunStateView
unfolding with_task replace_task
replace_tasks successor_id fs [] v = some v
replace_tasks successor_id fs (id ∷ ids) v =
    with_task id (replace_task successor_id fs) v >>= λ w. replace_tasks successor_id fs ids w

unfoldable pub rewire : Fields → RunStateView → Option RunStateView
unfolding with_task as_texts
rewire end v = some v
rewire (field id deps rest) v =
    with_task id (λ t. as_texts (some deps) >>= λ ids. some (record t { dag_deps = ids })) v
    >>= λ w. rewire rest w

-- `successor["task"]["id"]`
unfoldable pub successor_id : Value → Option String
unfolding find required_text
successor_id (dict fs) = elim (find "task" fs) [
  | some (dict task) ↦ required_text "id" task
  | _ ↦ none
]
successor_id _ = none

-- What a switch of topic does to the tasks that are replaced.
unfoldable pub apply_replaced : Fields → RunStateView → Option RunStateView
unfolding find value_at truthy as_texts as_fields successor_id replace_tasks rewire
apply_replaced fs v =
    if truthy (value_at "replaced_task_ids" fs)
    then (do
      successor ← successor_id (value_at "successor" fs)
      replaced ← as_texts (find "replaced_task_ids" fs)
      switched ← replace_tasks successor fs replaced v
      rewired ← as_fields (find "rewired_dependencies" fs)
      rewire rewired switched)
    else some v

-- The new state, and the agent of a task that starts.
unfoldable pub move_task : String → String → Fields → TaskView → Option TaskView
unfolding find as_text type_name
move_task type status fs t =
    if type == type_name Types.task_started
    then (as_text "" (find "assigned_agent_id" fs) >>= λ assigned. some (record t {
      status = status;
      assigned_agent_id = if assigned == "" then t.assigned_agent_id else assigned;
    }))
    else some (record t { status = status })

-- `(task.error or "").startswith(AGENT_CANCEL_REASON)`
unfoldable pub is_agent_cancel : Option String → Bool
is_agent_cancel none = false
is_agent_cancel (some e) = starts_with e agent_cancel_reason

unfoldable pub keep_failure : String → Fields → TaskView → Option TaskView
unfolding find type_name value_at is_text is_agent_cancel
keep_failure type fs t = do
  code ← text_at "error_code" fs
  message ← text_at "error_message" fs
  let explicit_cancel =
      type == type_name Types.task_interrupted
      && is_text "crash_recovery" (value_at "reason" fs)
      && is_agent_cancel t.error
  some (record t {
    error_code = nonempty_or code t.error_code;
    error = if explicit_cancel then t.error else nonempty_or message t.error;
  })

module _ (times : Times) where
  -- `datetime.fromisoformat(p["finished_at"]) if p.get("finished_at") else ev.timestamp`
  unfoldable pub end_time : ℕ → String → Option ℕ
  end_time timestamp s = if s == "" then some timestamp else times.fromisoformat s

  unfoldable pub keep_cancel : ℕ → Fields → TaskView → Option TaskView
  unfolding find end_time
  keep_cancel timestamp fs t = do
    stamp ← text_at "finished_at" fs
    finished_at ← end_time timestamp stamp
    code ← text_at "error_code" fs
    blocker ← text_at "blocked_by_task_id" fs
    reason ← text_at "reason" fs
    message ← text_at "error_message" fs
    some (record t {
      finalized = false;
      finished_at = some finished_at;
      error_code = nonempty_or code t.error_code;
      blocked_by_task_id = if code == "" then t.blocked_by_task_id else nonempty_or blocker none;
      error = nonempty_or reason (nonempty_or message t.error);
    })

  -- What a task keeps of its end.
  unfoldable pub keep_end : String → ℕ → Fields → TaskView → Option TaskView
  unfolding find type_name keep_failure keep_cancel
  keep_end type timestamp fs t =
      if type == type_name Types.task_finished
      then some (record t { outputs = elim (find "outputs" fs) [ none ↦ t.outputs | some v ↦ v ] })
      else if type == type_name Types.task_failed || type == type_name Types.task_interrupted
      then keep_failure type fs t
      else if type == type_name Types.task_canceled
      then keep_cancel timestamp fs t
      else some t

  -- The branch for the types in `TASK_STATUS_BY_EVENT`, after a successor has been created.
  unfoldable pub apply_status :
      String → String → String → Event → Fields → RunStateView → Option RunStateView
  unfolding type_name apply_replaced with_task move_task count_outcome keep_end
  apply_status type status id ev fs v = do
    replaced ← if type == type_name Types.task_reviewing then apply_replaced fs v else some v
    moved ← with_task id (move_task type status fs) replaced
    counted ← count_outcome type ev.session_id fs (show_status status moved)
    with_task id (keep_end type ev.timestamp fs) counted

abbrev pub finalize_task : ℕ → TaskView → Option TaskView
finalize_task timestamp t = some (record t { finished_at = some timestamp; finalized = true })

unfoldable pub apply_finalized : String → ℕ → RunStateView → Option RunStateView
unfolding with_task
apply_finalized id timestamp v = with_task id (finalize_task timestamp) v
