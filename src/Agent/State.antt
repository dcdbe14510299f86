-- ===== src/Agent/State.antt =====
-- src/ctx_weft/core/orchestrator/lifecycle/agent_state.py: the five states of an agent.
use ctx_weft.Base.{String, Option, none, some, [], ◌∷◌}
use ctx_weft.Base.Value.{Value, Payload, null, text}
use ctx_weft.Event.Types
use ctx_weft.Event.Types.{type_name}

pub data AgentStatus : Type 0 where
  idle running waiting_human interrupted terminated : AgentStatus

unfoldable pub status_name : AgentStatus → String
status_name idle = "idle"
status_name running = "running"
status_name waiting_human = "waiting_human"
status_name interrupted = "interrupted"
status_name terminated = "terminated"

pub data AgentInput : Type 0 where
  task_started awaits_human human_resolved is_interrupted resumed settled cancel : AgentInput

pub record AgentTransition : Type 0 where
  pub status : AgentStatus
  pub event_type : String
  pub payload : Payload

-- The keyword arguments of `next_agent_transition`.
pub record Context : Type 0 where
  pub task_id : Option String
  pub hitl_id : String
  pub reason : String
  pub cascaded_from : Option String

unfoldable pub optional : Option String → Value
optional none = null
optional (some s) = text s

-- The transition to `running`, in its three branches.
unfoldable pub to_running : AgentStatus → Context → String → AgentTransition
unfolding type_name status_name optional
to_running current c trigger = record {
  status = running;
  event_type = type_name Types.agent_running;
  payload =
      ("from_status", text (status_name current))
      ∷ ("task_id", optional c.task_id)
      ∷ ("trigger", text trigger)
      ∷ [];
}

-- `current` is none of the terminal states here.
unfoldable pub live_transition : AgentStatus → AgentInput → Context → Option AgentTransition
unfolding to_running type_name status_name optional
live_transition current cancel c = some (record {
  status = terminated;
  event_type = type_name Types.agent_terminated;
  payload =
      ("from_status", text (status_name current))
      ∷ ("reason", text c.reason)
      ∷ ("cascaded_from", optional c.cascaded_from)
      ∷ [];
})
live_transition running task_started c = none
live_transition current task_started c = some (to_running current c "task_started")
live_transition waiting_human awaits_human c = none
live_transition current awaits_human c = some (record {
  status = waiting_human;
  event_type = type_name Types.agent_waiting_human;
  payload =
      ("from_status", text (status_name current))
      ∷ ("hitl_id", text c.hitl_id)
      ∷ ("task_id", optional c.task_id)
      ∷ [];
})
live_transition running human_resolved c = none
live_transition current human_resolved c = some (to_running current c "human_replied")
live_transition interrupted is_interrupted c = none
live_transition current is_interrupted c = some (record {
  status = interrupted;
  event_type = type_name Types.agent_interrupted;
  payload =
      ("from_status", text (status_name current))
      ∷ ("reason", text c.reason)
      ∷ ("task_id", optional c.task_id)
      ∷ [];
})
live_transition running resumed c = none
live_transition current resumed c = some (to_running current c "resumed")
live_transition idle settled c = none
live_transition current settled c = some (record {
  status = idle;
  event_type = type_name Types.agent_idle;
  payload = ("from_status", text (status_name current)) ∷ ("reason", text c.reason) ∷ [];
})

unfoldable pub next_agent_transition : AgentStatus → AgentInput → Context → Option AgentTransition
unfolding live_transition
next_agent_transition terminated input c = none
next_agent_transition current input c = live_transition current input c
