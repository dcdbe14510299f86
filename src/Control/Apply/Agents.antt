-- ===== src/Control/Apply/Agents.antt =====
-- src/ctx_weft/core/control/reducers.py, `_apply`: agents.
use ctx_weft.Base.{
  String, Option, none, some, Bool, not, ◌==◌, ◌&&◌, ◌>>=◌, starts_with, if◌then◌else◌,
}
use ctx_weft.Base.Dict.{lookup, insert}
use ctx_weft.Base.Value.{Fields, find}
use ctx_weft.Base.Value.Reading.{as_text}
use ctx_weft.Event.Types
use ctx_weft.Event.Types.{type_name}
use ctx_weft.Task.Status.{is_terminal_word}
use ctx_weft.Control.Views.{RunStateView, TaskView, AgentView}
use ctx_weft.Control.Apply.Update.{with_task, with_slot, first_of}

-- `AGENT_CANCEL_REASON`
abbrev pub agent_cancel_reason : String
agent_cancel_reason = "cancel_agent:"

-- One of the three guarded writes of `AgentInstantiated`.
abbrev pub fill_slot : String → String → (AgentView → AgentView) → RunStateView → RunStateView
fill_slot value aid f v = if value == "" then v else with_slot aid f v

unfoldable pub apply_instantiated : String → Fields → RunStateView → Option RunStateView
unfolding find as_text with_slot
apply_instantiated aid fs v = do
  template_id ← as_text "" (find "template_id" fs)
  account ← as_text "" (find "llm_account" fs)
  model ← as_text "" (find "llm_model" fs)
  some (
      fill_slot model aid (λ a. record a { llm_model = model })
        (fill_slot account aid (λ a. record a { llm_account = account })
          (fill_slot template_id aid (λ a. record a { template_id = template_id }) v)))

unfoldable pub apply_llm_changed : String → Fields → RunStateView → Option RunStateView
unfolding find as_text with_slot
apply_llm_changed aid fs v = do
  account ← as_text "" (find "llm_account" fs)
  model ← as_text "" (find "llm_model" fs)
  some (with_slot aid (λ a. record a { llm_account = account; llm_model = model }) v)

abbrev pub is_terminated : AgentView → Bool
is_terminated a = a.status == "terminated"

-- A task that its agent's end takes along keeps the cause.
unfoldable pub blame_task : String → TaskView → TaskView
unfolding is_terminal_word
blame_task reason t =
    if not (is_terminal_word t.status) && starts_with reason agent_cancel_reason
    then record t { error = some reason }
    else t

unfoldable pub blame : String → Option String → String → RunStateView → Option RunStateView
unfolding type_name with_task blame_task
blame type none reason v = some v
blame type (some task_id) reason v =
    if type == type_name Types.agent_terminated && not (task_id == "")
    then with_task task_id (λ t. some (blame_task reason t)) v
    else some v

-- The agent that an event with this status, reason and task leaves.
abbrev pub moved_agent : String → String → Option String → AgentView → AgentView
moved_agent status reason task_id a = record a {
  status = status;
  status_reason = reason;
  current_task_id = first_of task_id a.current_task_id;
}

-- The branch for the five states; `status` is the word for the event's type.
unfoldable pub apply_agent_status :
    String → String → String → Option String → Fields → RunStateView → Option RunStateView
unfolding find as_text lookup insert blame
apply_agent_status type status aid task_id fs v = elim (lookup aid v.agents) [
  | none ↦ some v
  | some a ↦
      if is_terminated a
      then some v
      else (as_text "" (find "reason" fs) >>= λ reason.
          blame type task_id reason
            (record v { agents = insert aid (moved_agent status reason task_id a) v.agents }))
]
