-- ===== src/Control/Apply/Created.antt =====
-- src/ctx_weft/core/control/reducers.py, `_apply`: the branch for `TaskCreated`.
use ctx_weft.Base.{◌+◌, String, Option, none, some, false, ◌==◌, is_some, ◌>>=◌, if◌then◌else◌}
use ctx_weft.Base.Dict.{Dict, lookup, insert}
use ctx_weft.Base.Value.{Fields, text, dict, end, find}
use ctx_weft.Base.Value.Reading.{as_text, as_num, as_flag, as_texts, as_value}
use ctx_weft.Content.Json.{content_from_jsonable}
use ctx_weft.Event.Record.{Event}
use ctx_weft.Task.Model.{default_port_for}
use ctx_weft.Control.Views.{RunStateView, TaskView, AgentView, new_task_view}
use ctx_weft.Control.Apply.Update.{as_fields, text_at, nonempty_or}
use ctx_weft.Control.Apply.Agents.{is_terminated}

-- `TaskView(id=task_id, …)` of the payload's task
unfoldable pub created_task : String → Event → Fields → Option TaskView
unfolding find as_text as_num as_flag as_texts as_value default_port_for
created_task id ev fs = do
  status ← as_text "PENDING" (find "status" fs)
  title ← as_text "" (find "title" fs)
  description ← as_text "" (find "description" fs)
  assigned_agent_id ← as_text "" (find "assigned_agent_id" fs)
  creator_agent_id ← as_text "" (find "creator_agent_id" fs)
  parent_task_id ← as_text "" (find "parent_task_id" fs)
  user_prompt ← content_from_jsonable (as_value (text "") (find "user_prompt" fs))
  unattended ← as_flag false (find "unattended" fs)
  port_key ← as_text (default_port_for unattended) (find "port_key" fs)
  origin_tool_call_id ← as_text "" (find "origin_tool_call_id" fs)
  replaces_task_id ← as_text "" (find "replaces_task_id" fs)
  switched_to_task_id ← as_text "" (find "switched_to_task_id" fs)
  switch_reason ← as_text "" (find "switch_reason" fs)
  origin_tool_name ← as_text "" (find "origin_tool_name" fs)
  dag_deps ← as_texts (find "dag_deps" fs)
  priority ← as_num 5 (find "priority" fs)
  max_retries ← as_num 3 (find "max_retries" fs)
  some (record (new_task_view id ev.session_id status) {
    title = title;
    description = description;
    assigned_agent_id = assigned_agent_id;
    creator_agent_id = creator_agent_id;
    parent_task_id = parent_task_id;
    user_prompt = user_prompt;
    unattended = unattended;
    port_key = port_key;
    origin_tool_call_id = origin_tool_call_id;
    replaces_task_id = replaces_task_id;
    switched_to_task_id = switched_to_task_id;
    switch_reason = switch_reason;
    origin_tool_name = origin_tool_name;
    settings_raw = as_value (dict end) (find "settings" fs);
    dag_deps = dag_deps;
    priority = priority;
    max_retries = max_retries;
    tenant_id = if ev.tenant_id == "" then "default" else ev.tenant_id;
    created_at = some ev.timestamp;
  })

-- The agent that the task is assigned to now has it as its current one.
unfoldable pub assign : String → String → Dict AgentView → Dict AgentView
unfolding lookup insert
assign agent_id task_id agents = if agent_id == "" then agents else (elim (lookup agent_id agents) [
  | none ↦ agents
  | some a ↦
      if is_terminated a
      then agents
      else insert agent_id (record a { current_task_id = some task_id }) agents
])

-- A task that is new is counted; one that is there already is written over.
unfoldable pub add_task : String → TaskView → RunStateView → RunStateView
unfolding lookup insert assign
add_task id t v = record v {
  tasks_total = if is_some (lookup id v.tasks) then v.tasks_total else v.tasks_total + 1;
  tasks = insert id t v.tasks;
  task_id = if v.task_id == "" then id else v.task_id;
  agents = assign t.assigned_agent_id id v.agents;
}

unfoldable pub create : Option String → Event → Fields → RunStateView → Option RunStateView
unfolding created_task add_task
create none ev fs v = some v
create (some id) ev fs v =
    if id == "" then some v else (created_task id ev fs >>= λ t. some (add_task id t v))

unfoldable pub apply_created : Event → Fields → RunStateView → Option RunStateView
unfolding find create as_fields
apply_created ev fs v = do
  task_data ← as_fields (find "task" fs)
  id ← text_at "id" task_data
  create (nonempty_or id ev.task_id) ev task_data v
