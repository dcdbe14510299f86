-- ===== src/Control/StatusMaps.antt =====
-- src/ctx_weft/core/control/reducers.py: which state an event's type stands for, for tasks and agents.
use ctx_weft.Base.{[], ◌∷◌}
use ctx_weft.Base.Dict.{Dict}
use ctx_weft.Event.Types
use ctx_weft.Event.Types.{type_name}
use ctx_weft.Task.Status.{
  TaskStatus, pending, active, reviewing, suspended, awaiting_human, interrupted, finished, failed,
  canceled,
}
use ctx_weft.Agent.State.{AgentStatus}
use ctx_weft.Agent.State

-- `TASK_STATUS_BY_EVENT`
unfoldable pub task_status_by_event : Dict TaskStatus
unfolding type_name
task_status_by_event =
    (type_name Types.task_started, active)
    ∷ (type_name Types.task_reviewing, reviewing)
    ∷ (type_name Types.task_suspended, suspended)
    ∷ (type_name Types.task_awaiting_human, awaiting_human)
    ∷ (type_name Types.task_interrupted, interrupted)
    ∷ (type_name Types.task_finished, finished)
    ∷ (type_name Types.task_failed, failed)
    ∷ (type_name Types.task_canceled, canceled)
    ∷ (type_name Types.task_resumed, pending)
    ∷ (type_name Types.task_requeued, pending)
    ∷ (type_name Types.task_human_resolved, pending)
    ∷ []

-- `_AGENT_STATUS_BY_EVENT`
unfoldable pub agent_status_by_event : Dict AgentStatus
unfolding type_name
agent_status_by_event =
    (type_name Types.agent_running, State.running)
    ∷ (type_name Types.agent_idle, State.idle)
    ∷ (type_name Types.agent_waiting_human, State.waiting_human)
    ∷ (type_name Types.agent_interrupted, State.interrupted)
    ∷ (type_name Types.agent_terminated, State.terminated)
    ∷ []
