-- ===== src/Control/Views.antt =====
-- src/ctx_weft/core/control/types.py: the state of a run, rebuilt from its events. A status is the word
-- that stands in the event; a view may hold one that the program does not write.
use ctx_weft.Base.{ℕ, String, Option, none, Bool, true, false, List, []}
use ctx_weft.Base.Dict.{Dict}
use ctx_weft.Base.Value.{Value, Payload, null, dict, end}
use ctx_weft.Content.{Content, plain}
use ctx_weft.Hitl.Snapshot.{HitlSnapshot, empty_snapshot}

pub record SessionView : Type 0 where
  pub id : String
  pub user_prompt : Content
  pub goal : String
  pub root_agent_id : String
  pub llm_model : String
  pub llm_account : String
  pub tenant_id : String
  pub failure_counter : ℕ
  pub threshold_tripped : Bool
  pub threshold_root_task_ids : List String
  pub threshold_cancel_task_ids : List String
  pub created_at : Option ℕ

pub record TaskView : Type 0 where
  pub id : String
  pub session_id : String
  pub details_complete : Bool
  pub status : String
  pub title : String
  pub description : String
  pub assigned_agent_id : String
  pub creator_agent_id : String
  pub parent_task_id : String
  pub user_prompt : Content
  pub unattended : Bool
  pub port_key : String
  pub origin_tool_call_id : String
  pub replaces_task_id : String
  pub switched_to_task_id : String
  pub switch_reason : String
  pub origin_tool_name : String
  pub settings_raw : Value
  pub dag_deps : List String
  pub priority : ℕ
  pub max_retries : ℕ
  pub tenant_id : String
  pub outputs : Value
  pub error : Option String
  pub error_code : Option String
  pub blocked_by_task_id : Option String
  pub created_at : Option ℕ
  pub finished_at : Option ℕ
  pub finalized : Bool

-- `TaskView(id=…, session_id=…, status=…)`
abbrev pub new_task_view : String → String → String → TaskView
new_task_view id session_id status = record {
  id = id;
  session_id = session_id;
  details_complete = true;
  status = status;
  title = "";
  description = "";
  assigned_agent_id = "";
  creator_agent_id = "";
  parent_task_id = "";
  user_prompt = plain "";
  unattended = false;
  port_key = "main";
  origin_tool_call_id = "";
  replaces_task_id = "";
  switched_to_task_id = "";
  switch_reason = "";
  origin_tool_name = "";
  settings_raw = dict end;
  dag_deps = [];
  priority = 5;
  max_retries = 3;
  tenant_id = "default";
  outputs = null;
  error = none;
  error_code = none;
  blocked_by_task_id = none;
  created_at = none;
  finished_at = none;
  finalized = false;
}

pub record AgentView : Type 0 where
  pub id : String
  pub spawn_depth : ℕ
  pub parent_agent_id : Option String
  pub template_id : String
  pub llm_account : String
  pub llm_model : String
  pub status : String
  pub status_reason : String
  pub current_task_id : Option String

-- `AgentView(id=…)`
abbrev pub new_agent_view : String → AgentView
new_agent_view id = record {
  id = id;
  spawn_depth = 0;
  parent_agent_id = none;
  template_id = "";
  llm_account = "";
  llm_model = "";
  status = "idle";
  status_reason = "";
  current_task_id = none;
}

-- The dictionary under a run in `open_runs`.
pub record OpenRun : Type 0 where
  pub task_id : Option String
  pub agent_id : Option String
  pub sequence : ℕ

pub record RunStateView : Type 0 where
  pub run_id : String
  pub session_id : String
  pub task_id : String
  pub agent_id : String
  pub current_step : Option String
  pub task_status : String
  pub assembled_prompt_tokens : ℕ
  pub transcript_turns : ℕ
  pub events_total : ℕ
  pub tasks_total : ℕ
  pub target_event_id : Option String
  pub events_replayed : ℕ
  pub hitl : HitlSnapshot
  pub pending_observe : Dict Payload
  pub open_runs : Dict OpenRun
  pub sessions : Dict SessionView
  pub tasks : Dict TaskView
  pub agents : Dict AgentView

-- `RunStateView(run_id=…, session_id="", task_id="", agent_id="")`
abbrev pub new_view : String → RunStateView
new_view run_id = record {
  run_id = run_id;
  session_id = "";
  task_id = "";
  agent_id = "";
  current_step = none;
  task_status = "UNKNOWN";
  assembled_prompt_tokens = 0;
  transcript_turns = 0;
  events_total = 0;
  tasks_total = 0;
  target_event_id = none;
  events_replayed = 0;
  hitl = empty_snapshot;
  pending_observe = [];
  open_runs = [];
  sessions = [];
  tasks = [];
  agents = [];
}
