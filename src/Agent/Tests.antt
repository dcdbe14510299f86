-- ===== src/Agent/Tests.antt =====
-- An agent that starts, waits for a human, is answered and is cancelled.
use ctx_weft.Base.{◌≡◌, ◌≢◌, refl, none, some, List, [], ◌∷◌, any, ◌||◌}
use ctx_weft.Base.Dict.{lookup}
use ctx_weft.Base.Value.{text}
use ctx_weft.Agent.State.{
  AgentInput, AgentTransition, Context, idle, task_started, awaits_human, human_resolved, cancel,
  status_name, to_running, next_agent_transition,
}
use ctx_weft.Agent.Machine.{
  fold_agent_status, drive, replay, is_cancel, is_terminated, next_agent_transition-fold,
  replay-drive, drive-terminated,
}

abbrev context : Context
context = record { task_id = some "essay"; hitl_id = "h1"; reason = ""; cascaded_from = none }

abbrev inputs : List (AgentInput × Context)
inputs =
    (task_started, context)
    ∷ (awaits_human, context)
    ∷ (human_resolved, context)
    ∷ (cancel, context)
    ∷ []

abbrev started : AgentTransition
started = to_running idle context "task_started"

idle_starts : next_agent_transition idle task_started context ≡ some started
unfolding next_agent_transition
idle_starts = refl

next_agent_transition-fold_example :
    (fold_agent_status started.event_type idle ≡ started.status)
    × (started.status ≢ idle)
    × (lookup "from_status" started.payload ≡ some (text (status_name idle)))
next_agent_transition-fold_example =
    next_agent_transition-fold idle task_started context started idle_starts

replay-drive_example : replay idle (drive idle inputs).1 ≡ (drive idle inputs).0
replay-drive_example = replay-drive inputs idle

drive-terminated_example :
    is_terminated (drive idle inputs).0
    ≡ (is_terminated idle || any (λ (input, c). is_cancel input) inputs)
drive-terminated_example = drive-terminated inputs idle
