-- ===== src/Control/Blob/Agents.antt =====
-- src/ctx_weft/core/control/reducers.py: the entries of `serialize_view` and `deserialize_view` for agents
-- and for open runs, which are dictionaries already.
use ctx_weft.Base.{◌≡◌, refl, Option, some, [], ◌∷◌, ◌>>=◌}
use ctx_weft.Base.Value.{Value, Fields, Payload, num, text, dict, to_fields, find}
use ctx_weft.Base.Value.Reading.{
  as_text, as_num, as_flag, as_optional, as_texts, as_value, required_text, optional_text, of_dict,
  as_optional-optional_text,
}
use ctx_weft.Task.Model.{default_port_for}
use ctx_weft.Control.Views.{AgentView, OpenRun}

unfoldable pub agent_entries : AgentView → Payload
unfolding optional_text
agent_entries a =
    ("id", text a.id)
    ∷ ("spawn_depth", num a.spawn_depth)
    ∷ ("parent_agent_id", optional_text a.parent_agent_id)
    ∷ ("template_id", text a.template_id)
    ∷ ("llm_account", text a.llm_account)
    ∷ ("llm_model", text a.llm_model)
    ∷ ("status", text a.status)
    ∷ ("status_reason", text a.status_reason)
    ∷ ("current_task_id", optional_text a.current_task_id)
    ∷ []

unfoldable pub write_agent : AgentView → Value
unfolding to_fields agent_entries
write_agent a = dict (to_fields (agent_entries a))

unfoldable pub agent_from : Fields → Option AgentView
unfolding find as_text as_num as_flag as_texts required_text as_value default_port_for
agent_from fs = do
  id ← required_text "id" fs
  spawn_depth ← as_num 0 (find "spawn_depth" fs)
  parent_agent_id ← as_optional (find "parent_agent_id" fs)
  template_id ← as_text "" (find "template_id" fs)
  llm_account ← as_text "" (find "llm_account" fs)
  llm_model ← as_text "" (find "llm_model" fs)
  status ← as_text "idle" (find "status" fs)
  status_reason ← as_text "" (find "status_reason" fs)
  current_task_id ← as_optional (find "current_task_id" fs)
  some (record {
    id = id;
    spawn_depth = spawn_depth;
    parent_agent_id = parent_agent_id;
    template_id = template_id;
    llm_account = llm_account;
    llm_model = llm_model;
    status = status;
    status_reason = status_reason;
    current_task_id = current_task_id;
  })

unfoldable pub read_agent : Value → Option AgentView
unfolding agent_from of_dict
read_agent v = of_dict agent_from v

pub read_agent-write_agent : (a : AgentView) → read_agent (write_agent a) ≡ some a
unfolding read_agent write_agent
read_agent-write_agent a =
    rw (as_optional-optional_text a.parent_agent_id, as_optional-optional_text a.current_task_id)
      refl

-- `dict(info)` of an open run
unfoldable pub run_entries : OpenRun → Payload
unfolding optional_text
run_entries r =
    ("task_id", optional_text r.task_id)
    ∷ ("agent_id", optional_text r.agent_id)
    ∷ ("sequence", num r.sequence)
    ∷ []

unfoldable pub write_run : OpenRun → Value
unfolding to_fields run_entries
write_run r = dict (to_fields (run_entries r))

unfoldable pub run_from : Fields → Option OpenRun
unfolding find as_optional as_num
run_from fs = do
  task_id ← as_optional (find "task_id" fs)
  agent_id ← as_optional (find "agent_id" fs)
  sequence ← as_num 0 (find "sequence" fs)
  some (record { task_id = task_id; agent_id = agent_id; sequence = sequence })

unfoldable pub read_run : Value → Option OpenRun
unfolding run_from of_dict
read_run v = of_dict run_from v

pub read_run-write_run : (r : OpenRun) → read_run (write_run r) ≡ some r
unfolding read_run write_run
read_run-write_run r =
    rw (as_optional-optional_text r.task_id, as_optional-optional_text r.agent_id) refl
