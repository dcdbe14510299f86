-- ===== src/Task/Model.antt =====
-- src/ctx_weft/core/models/task.py: a task, its settings and its interaction port. A time is a number
-- that orders the moments; the waiter `switch_review_ready`, a live object of the event loop, and the
-- positions of dataclass defaults have no counterpart.
use ctx_weft.Base.{ℕ, String, Option, none, Bool, true, false, List, if◌then◌else◌}
use ctx_weft.Base.Value.{Value, Payload}
use ctx_weft.Task.Status.{TaskStatus}

abbrev pub port_main : String
port_main = "main"

abbrev pub port_none : String
port_none = ""

unfoldable pub default_port_for : Bool → String
default_port_for unattended = if unattended then port_none else port_main

pub record NormalTaskSettings : Type 0 where
  pub skill_name : String
  pub use_subagent : Bool
  pub subagent_template : String
  pub inherit_memory : Bool
  pub inherit_from_agent_id : String
  pub purpose : String
  pub spawn_titles : List String

pub record CompactTaskSettings : Type 0 where
  pub compact_scope_agent_id : String
  pub keep_last : ℕ
  pub subagent_template : String
  pub layer : String

pub record MetadataFillerTaskSettings : Type 0 where
  pub target_task_id : String
  pub is_daemon : Bool

pub data TaskSettings : Type 0 where
  normal : NormalTaskSettings → TaskSettings
  compact : CompactTaskSettings → TaskSettings
  metadata_filler : MetadataFillerTaskSettings → TaskSettings

abbrev pub default_settings : TaskSettings
default_settings = normal (record {
  skill_name = "";
  use_subagent = false;
  subagent_template = "";
  inherit_memory = true;
  inherit_from_agent_id = "";
  purpose = "act";
  spawn_titles = List.[];
})

pub record Task : Type 0 where
  pub id : String
  pub session_id : String
  pub status : TaskStatus
  pub details_complete : Bool
  pub tenant_id : String
  pub assigned_agent_id : Option String
  pub creator_agent_id : Option String
  pub parent_task_id : Option String
  pub dag_deps : List String
  pub title : String
  pub description : String
  pub user_prompt : Value
  pub user_prompt_event_jsonable : Value
  pub user_prompt_in_memory : Bool
  pub settings : TaskSettings
  pub unattended : Bool
  pub port_key : String
  pub outputs : Value
  pub process_report : Option String
  pub process_report_at : Option ℕ
  pub next_step_hint : Option String
  pub retry_count : ℕ
  pub max_retries : ℕ
  pub interrupt_requeue_count : ℕ
  pub compensation : Option Payload
  pub priority : ℕ
  pub error : Option String
  pub error_code : Option String
  pub actor_done : Bool
  pub replaces_task_id : String
  pub switched_to_task_id : String
  pub switch_reason : String
  pub switch_review_started : Bool
  pub switch_requested : Bool
  pub suspend_requested : Bool
  pub observer_outcome : Option String
  pub task_summary : Option String
  pub origin_tool_call_id : Option String
  pub origin_tool_name : Option String
  pub created_at : Option ℕ
  pub updated_at : Option ℕ
  pub started_at : Option ℕ
  pub finished_at : Option ℕ
  pub finalized : Bool

-- `Task(id=…, session_id=…, status=…)`: every other field has its default.
abbrev pub new_task : String → String → TaskStatus → Task
new_task id session_id status = record {
  id = id;
  session_id = session_id;
  status = status;
  details_complete = true;
  tenant_id = "default";
  assigned_agent_id = none;
  creator_agent_id = none;
  parent_task_id = none;
  dag_deps = List.[];
  title = "";
  description = "";
  user_prompt = Value.null;
  user_prompt_event_jsonable = Value.null;
  user_prompt_in_memory = false;
  settings = default_settings;
  unattended = false;
  port_key = port_main;
  outputs = Value.null;
  process_report = none;
  process_report_at = none;
  next_step_hint = none;
  retry_count = 0;
  max_retries = 3;
  interrupt_requeue_count = 0;
  compensation = none;
  priority = 5;
  error = none;
  error_code = none;
  actor_done = false;
  replaces_task_id = "";
  switched_to_task_id = "";
  switch_reason = "";
  switch_review_started = false;
  switch_requested = false;
  suspend_requested = false;
  observer_outcome = none;
  task_summary = none;
  origin_tool_call_id = none;
  origin_tool_name = none;
  created_at = none;
  updated_at = none;
  started_at = none;
  finished_at = none;
  finalized = false;
}
