-- ===== src/Control/Apply/Event.antt =====
-- src/ctx_weft/core/control/reducers.py, `_apply` and the loop that `reduce_events` and `apply_events`
-- share. `_apply` calls itself for an event of another type that never calls it again: the inner call is
-- an argument here.
use ctx_weft.Base.{
  ◌+◌, String, Option, none, some, List, [], ◌∷◌, map, mem, ◌==◌, not, ◌&&◌, ◌>>=◌, if◌then◌else◌,
}
use ctx_weft.Base.Dict.{lookup}
use ctx_weft.Base.Value.{Fields, find}
use ctx_weft.Base.Value.Reading.{as_dict, truthy}
use ctx_weft.Event.Types
use ctx_weft.Event.Types.{EventType, type_name}
use ctx_weft.Event.Record.{Event}
use ctx_weft.Task.Status.{status_word}
use ctx_weft.Agent.State.{status_name}
use ctx_weft.Control.StatusMaps.{task_status_by_event, agent_status_by_event}
use ctx_weft.Control.Views.{RunStateView}
use ctx_weft.Control.Blob.Times.{Times}
use ctx_weft.Control.Hitl.Request.{text_of}
use ctx_weft.Control.Hitl.Fold.{hitl_resolve_types, apply_hitl_event}
use ctx_weft.Control.Apply.Update.{value_at, given}
use ctx_weft.Control.Apply.Observe.{current_type, owner_of, touch_owner, abandon, apply_observe}
use ctx_weft.Control.Apply.Runs.{
  touch_run, apply_step, apply_run_started, apply_run_finished, apply_prepared, apply_turn,
}
use ctx_weft.Control.Apply.Sessions.{apply_session_created, trip, resume_session, apply_intent}
use ctx_weft.Control.Apply.Agents.{apply_instantiated, apply_llm_changed, apply_agent_status}
use ctx_weft.Control.Apply.Created.{apply_created}
use ctx_weft.Control.Apply.Statuses.{
  apply_requeued, apply_human_resolved, successor_id, apply_status, apply_finalized,
}
use ctx_weft.Control.Apply.Update.{with_session}

-- `_apply` on an event of another type.
abbrev pub Inner : Type 0
Inner = Event → RunStateView → Option RunStateView

-- The types of an observation.
abbrev pub observe_types : List EventType
observe_types =
    Types.observe_requested ∷ Types.observe_started ∷ Types.observe_completed
    ∷ Types.observe_applied ∷ []

-- `HITL_FOLD_EVENT_TYPES`
abbrev pub hitl_fold_event_types : List EventType
hitl_fold_event_types =
    Types.hitl_opened ∷ Types.hitl_resolved ∷ Types.hitl_reply_retracted ∷ Types.hitl_closed
    ∷ Types.hitl_required ∷ hitl_resolve_types

-- What is done for every event, before the branches.
unfoldable pub before_branches : String → Event → Fields → RunStateView → Option RunStateView
unfolding find touch_run owner_of touch_owner abandon
before_branches type ev fs v = do
  owner ← owner_of ev.causation_id (find "observe_id" fs)
  touched ← touch_owner owner type fs (touch_run ev.run_id ev.sequence v)
  some (abandon owner type ev.task_id fs touched)

-- The branches for runs, steps, sessions and counters; none where the type is none of theirs.
unfoldable pub session_branch :
    String → Event → Fields → RunStateView → Option (Option RunStateView)
unfolding type_name apply_step apply_run_started apply_run_finished apply_session_created trip
    resume_session apply_intent apply_prepared apply_turn with_session
session_branch type ev fs v =
    if type == type_name Types.step_started
    then some (apply_step "step_name" fs v)
    else if type == type_name Types.step_completed
    then some (apply_step "next_step" fs v)
    else if type == type_name Types.run_started
    then some (some (apply_run_started ev v))
    else if type == type_name Types.run_finished
    then some (some (apply_run_finished ev v))
    else if type == type_name Types.session_created
    then some (apply_session_created ev fs v)
    else if type == type_name Types.failure_threshold_hit
    then some (with_session ev.session_id (trip fs) v)
    else if type == type_name Types.session_resumed
    then some (with_session ev.session_id (resume_session fs) v)
    else if type == type_name Types.recognize_intent_tool_call
    then some (apply_intent ev fs v)
    else if type == type_name Types.prepare_completed
    then some (apply_prepared fs v)
    else if type == type_name Types.act_turn_completed
    then some (apply_turn fs v)
    else none

-- The branches for agents, for an event with an agent's id.
unfoldable pub agent_branch : String → Event → Fields → RunStateView → Option RunStateView
unfolding type_name apply_instantiated apply_llm_changed lookup agent_status_by_event status_name
    apply_agent_status
agent_branch type ev fs v =
    if not (given ev.agent_id)
    then some v
    else if type == type_name Types.agent_instantiated
    then apply_instantiated (text_of ev.agent_id) fs v
    else if type == type_name Types.agent_llm_changed
    then apply_llm_changed (text_of ev.agent_id) fs v
    else (elim (lookup type agent_status_by_event) [
      | none ↦ some v
      | some status ↦
          apply_agent_status type (status_name status) (text_of ev.agent_id) ev.task_id fs v
    ])

-- A successor that a switch of topic brings along is created first.
unfoldable pub create_successor :
    Inner → String → Event → Fields → RunStateView → Option RunStateView
unfolding type_name value_at truthy successor_id
create_successor inner type ev fs v =
    if type == type_name Types.task_reviewing && truthy (value_at "successor" fs)
    then (successor_id (value_at "successor" fs) >>= λ id.
        inner
          (record ev {
            type = type_name Types.task_created;
            task_id = some id;
            payload = value_at "successor" fs;
          })
          v)
    else some v

module _ (times : Times) (inner : Inner) where
  -- The branches for tasks, for an event with a task's id.
  unfoldable pub task_branch : String → Event → Fields → RunStateView → Option RunStateView
  unfolding type_name apply_requeued apply_human_resolved lookup task_status_by_event status_word
      create_successor apply_status apply_finalized
  task_branch type ev fs v =
      if not (given ev.task_id)
      then some v
      else if type == type_name Types.task_requeued
      then apply_requeued (text_of ev.task_id) fs v
      else if type == type_name Types.task_human_resolved
      then apply_human_resolved (text_of ev.task_id) v
      else if type == type_name Types.task_finalized
      then apply_finalized (text_of ev.task_id) ev.timestamp v
      else (elim (lookup type task_status_by_event) [
        | none ↦ some v
        | some status ↦ create_successor inner type ev fs v >>= λ w.
            apply_status times type (status_word status) (text_of ev.task_id) ev fs w
      ])

  -- The chain of branches.
  unfoldable pub branches : String → Event → Fields → RunStateView → Option RunStateView
  unfolding session_branch type_name apply_created mem apply_observe agent_branch task_branch
  branches type ev fs v = elim (session_branch type ev fs v) [
    | some result ↦ result
    | none ↦
        if type == type_name Types.task_created
        then apply_created ev fs v
        else if mem type (map type_name observe_types)
        then apply_observe type fs v
        else (agent_branch type ev fs v >>= λ w. task_branch type ev fs w)
  ]

  -- What is done for an event of a human request, after the branches.
  unfoldable pub after_branches : String → Event → Fields → RunStateView → Option RunStateView
  unfolding mem type_name apply_hitl_event value_at truthy
  after_branches type ev fs v =
      if mem type (map type_name hitl_fold_event_types)
      then (apply_hitl_event ev v.hitl >>= λ hitl.
          if type == type_name Types.hitl_opened && truthy (value_at "observe_request" fs)
          then inner
              (record ev {
                type = type_name Types.observe_requested;
                payload = value_at "observe_request" fs;
              })
              (record v { hitl = hitl })
          else some (record v { hitl = hitl }))
      else some v

  unfoldable pub apply_with : Event → RunStateView → Option RunStateView
  unfolding current_type as_dict before_branches branches after_branches
  apply_with ev v = do
    fs ← as_dict (some ev.payload)
    entered ← before_branches (current_type ev.type) ev fs v
    branched ← branches (current_type ev.type) ev fs entered
    after_branches (current_type ev.type) ev fs branched

-- `_apply(view, ev)`
unfoldable pub apply : Times → Event → RunStateView → Option RunStateView
unfolding apply_with
apply times ev v = apply_with times (apply_with times (λ e w. some w)) ev v

-- `if not view.session_id: view.session_id = …`
abbrev pub or_first : String → String → String
or_first old new = if old == "" then new else old

-- The body of the loop over the events.
unfoldable pub step : Times → RunStateView → Event → Option RunStateView
unfolding apply
step times v ev = apply times ev (record v {
  session_id = or_first v.session_id ev.session_id;
  task_id = or_first v.task_id (text_of ev.task_id);
  agent_id = or_first v.agent_id (text_of ev.agent_id);
  events_total = v.events_total + 1;
})

unfoldable pub fold_events : Times → List Event → RunStateView → Option RunStateView
unfolding step
fold_events times [] v = some v
fold_events times (ev ∷ evs) v = step times v ev >>= λ w. fold_events times evs w
