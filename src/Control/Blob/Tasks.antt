-- ===== src/Control/Blob/Tasks.antt =====
-- src/ctx_weft/core/control/reducers.py: the entries of `serialize_view` and `deserialize_view` for tasks.
use ctx_weft.Base.{◌≡◌, refl, Option, some, true, false, [], ◌∷◌, ◌>>=◌}
use ctx_weft.Base.Value.{
  Value, Fields, Payload, null, flag, num, text, list, dict, end, texts, to_fields, find,
}
use ctx_weft.Base.Value.Reading.{
  as_text, as_num, as_flag, as_optional, as_texts, as_value, required_text, optional_text, of_dict,
  of_items-texts, as_optional-optional_text,
}
use ctx_weft.Content.Json.{
  content_to_jsonable, content_from_jsonable, content_from_jsonable-content_to_jsonable,
}
use ctx_weft.Task.Model.{default_port_for}
use ctx_weft.Control.Views.{TaskView}
use ctx_weft.Control.Blob.Times.{Times, IsTimes, write_time, read_time, read_time-write_time}

module _ (times : Times) where
  unfoldable pub task_entries : TaskView → Payload
  unfolding optional_text
  task_entries t =
      ("id", text t.id)
      ∷ ("session_id", text t.session_id)
      ∷ ("details_complete", flag t.details_complete)
      ∷ ("status", text t.status)
      ∷ ("title", text t.title)
      ∷ ("description", text t.description)
      ∷ ("assigned_agent_id", text t.assigned_agent_id)
      ∷ ("creator_agent_id", text t.creator_agent_id)
      ∷ ("parent_task_id", text t.parent_task_id)
      ∷ ("user_prompt", content_to_jsonable t.user_prompt)
      ∷ ("unattended", flag t.unattended)
      ∷ ("port_key", text t.port_key)
      ∷ ("origin_tool_call_id", text t.origin_tool_call_id)
      ∷ ("replaces_task_id", text t.replaces_task_id)
      ∷ ("switched_to_task_id", text t.switched_to_task_id)
      ∷ ("switch_reason", text t.switch_reason)
      ∷ ("origin_tool_name", text t.origin_tool_name)
      ∷ ("settings_raw", t.settings_raw)
      ∷ ("dag_deps", list (texts t.dag_deps))
      ∷ ("priority", num t.priority)
      ∷ ("max_retries", num t.max_retries)
      ∷ ("tenant_id", text t.tenant_id)
      ∷ ("outputs", t.outputs)
      ∷ ("error", optional_text t.error)
      ∷ ("error_code", optional_text t.error_code)
      ∷ ("blocked_by_task_id", optional_text t.blocked_by_task_id)
      ∷ ("created_at", write_time times t.created_at)
      ∷ ("finished_at", write_time times t.finished_at)
      ∷ ("finalized", flag t.finalized)
      ∷ []

  unfoldable pub write_task : TaskView → Value
  unfolding to_fields task_entries
  write_task t = dict (to_fields (task_entries t))

  unfoldable pub task_from : Fields → Option TaskView
  unfolding find as_text as_num as_flag as_texts required_text as_value default_port_for
  task_from fs = do
    id ← required_text "id" fs
    session_id ← as_text "" (find "session_id" fs)
    details_complete ← as_flag true (find "details_complete" fs)
    status ← as_text "UNKNOWN" (find "status" fs)
    title ← as_text "" (find "title" fs)
    description ← as_text "" (find "description" fs)
    assigned_agent_id ← as_text "" (find "assigned_agent_id" fs)
    creator_agent_id ← as_text "" (find "creator_agent_id" fs)
    parent_task_id ← as_text "" (find "parent_task_id" fs)
    user_prompt ← content_from_jsonable (as_value (text "") (find "user_prompt" fs))
    unattended ← as_flag false (find "unattended" fs)
    port_key ← as_text (default_port_for unattended) (find "port_key" fs)
    origin_tool_call_id ← as_text "" (find "origin_tool_call_id" fs)
    replaces_task_id ← as_text "" (find "replaces_task_id" fs)
    switched_to_task_id ← as_text "" (find "switched_to_task_id" fs)
    switch_reason ← as_text "" (find "switch_reason" fs)
    origin_tool_name ← as_text "" (find "origin_tool_name" fs)
    let settings_raw = as_value (dict end) (find "settings_raw" fs)
    dag_deps ← as_texts (find "dag_deps" fs)
    priority ← as_num 5 (find "priority" fs)
    max_retries ← as_num 3 (find "max_retries" fs)
    tenant_id ← as_text "default" (find "tenant_id" fs)
    let outputs = as_value (null) (find "outputs" fs)
    error ← as_optional (find "error" fs)
    error_code ← as_optional (find "error_code" fs)
    blocked_by_task_id ← as_optional (find "blocked_by_task_id" fs)
    created_at ← read_time times (find "created_at" fs)
    finished_at ← read_time times (find "finished_at" fs)
    finalized ← as_flag false (find "finalized" fs)
    some (record {
      id = id;
      session_id = session_id;
      details_complete = details_complete;
      status = status;
      title = title;
      description = description;
      assigned_agent_id = assigned_agent_id;
      creator_agent_id = creator_agent_id;
      parent_task_id = parent_task_id;
      user_prompt = user_prompt;
      unattended = unattended;
      port_key = port_key;
      origin_tool_call_id = origin_tool_call_id;
      replaces_task_id = replaces_task_id;
      switched_to_task_id = switched_to_task_id;
      switch_reason = switch_reason;
      origin_tool_name = origin_tool_name;
      settings_raw = settings_raw;
      dag_deps = dag_deps;
      priority = priority;
      max_retries = max_retries;
      tenant_id = tenant_id;
      outputs = outputs;
      error = error;
      error_code = error_code;
      blocked_by_task_id = blocked_by_task_id;
      created_at = created_at;
      finished_at = finished_at;
      finalized = finalized;
    })

  unfoldable pub read_task : Value → Option TaskView
  unfolding task_from of_dict
  read_task v = of_dict task_from v

  pub read_task-write_task : IsTimes times → (t : TaskView) → read_task (write_task t) ≡ some t
  unfolding read_task write_task
  read_task-write_task ok t =
      rw
        (
          content_from_jsonable-content_to_jsonable t.user_prompt,
          of_items-texts t.dag_deps,
          as_optional-optional_text t.error,
          as_optional-optional_text t.error_code,
          as_optional-optional_text t.blocked_by_task_id,
          read_time-write_time times ok t.created_at,
          read_time-write_time times ok t.finished_at,
        )
        refl
