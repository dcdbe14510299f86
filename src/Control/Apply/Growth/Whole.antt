-- ===== src/Control/Apply/Growth/Whole.antt =====
-- src/ctx_weft/core/control/reducers.py, `_apply` and the loop over a log: every event grows the view.
use ctx_weft.Base.{
  String, ◌≡◌, refl, inl, inr, some, List, [], ◌∷◌, arith, map, mem, ◌==◌, not, ◌&&◌, Bool-cases,
  Option-cases, Every, each, every_result, ◌>>=◌,
}
use ctx_weft.Base.Dict.{lookup}
use ctx_weft.Base.Value.{Fields, find}
use ctx_weft.Base.Value.Reading.{as_dict, truthy}
use ctx_weft.Event.Record.{Event}
use ctx_weft.Event.Types
use ctx_weft.Event.Types.{EventType, type_name}
use ctx_weft.Task.Status.{status_word}
use ctx_weft.Agent.State.{status_name}
use ctx_weft.Control.StatusMaps.{task_status_by_event, agent_status_by_event}
use ctx_weft.Control.Views.{RunStateView}
use ctx_weft.Control.Blob.Times.{Times}
use ctx_weft.Control.Hitl.Request.{text_of}
use ctx_weft.Control.Hitl.Fold.{apply_hitl_event}
use ctx_weft.Control.Apply.Update.{value_at, given}
use ctx_weft.Control.Apply.Observe.{current_type, owner_of, touch_owner, abandon, apply_observe}
use ctx_weft.Control.Apply.Runs.{touch_run}
use ctx_weft.Control.Apply.Sessions.{trip, resume_session}
use ctx_weft.Control.Apply.Created.{apply_created}
use ctx_weft.Control.Apply.Statuses.{successor_id, apply_status}
use ctx_weft.Control.Apply.Event.{
  Inner, observe_types, hitl_fold_event_types, before_branches, session_branch, agent_branch,
  create_successor, task_branch, branches, after_branches, apply_with, apply, step, fold_events,
}
use ctx_weft.Control.Apply.Growth.{
  IsGrowth, same-IsGrowth, self-IsGrowth, chain-IsGrowth, if-IsGrowth, with_session-IsGrowth,
}
use ctx_weft.Control.Apply.Growth.Branches.{
  grow_alike, touch_run-Same, touch_owner-IsGrowth, abandon-Same, apply_observe-IsGrowth,
  apply_step-IsGrowth, apply_run_started-IsGrowth, apply_run_finished-IsGrowth,
  apply_prepared-IsGrowth, apply_turn-IsGrowth, apply_session_created-IsGrowth,
  apply_intent-IsGrowth, apply_instantiated-IsGrowth, apply_llm_changed-IsGrowth,
}
use ctx_weft.Control.Apply.Growth.Tasks.{
  apply_agent_status-IsGrowth, apply_created-IsGrowth, apply_requeued-IsGrowth,
  apply_human_resolved-IsGrowth, apply_finalized-IsGrowth, apply_status-IsGrowth,
}

before_branches-IsGrowth :
    (type : String) (ev : Event) (fs : Fields) (v : RunStateView)
    → Every (IsGrowth v) (before_branches type ev fs v)
unfolding before_branches
before_branches-IsGrowth type ev fs v =
    each (IsGrowth v) (owner_of ev.causation_id (find "observe_id" fs)) _ (λ owner.
      let touched = touch_run ev.run_id ev.sequence v in
      chain-IsGrowth v (touch_owner owner type fs touched) _
        (chain-IsGrowth v (some touched) (touch_owner owner type fs)
          (grow_alike v touched (touch_run-Same ev.run_id ev.sequence v))
          (touch_owner-IsGrowth owner type fs))
        (λ w.
          grow_alike w (abandon owner type ev.task_id fs w)
            (abandon-Same owner type ev.task_id fs w)))

agent_branch-IsGrowth :
    (type : String) (ev : Event) (fs : Fields) (v : RunStateView)
    → Every (IsGrowth v) (agent_branch type ev fs v)
unfolding agent_branch
agent_branch-IsGrowth type ev fs v = elim (Bool-cases (not (given ev.agent_id))) [
  | inl nobody ↦ rw nobody (self-IsGrowth v)
  | inr somebody ↦ rw somebody (elim (Bool-cases (type == type_name Types.agent_instantiated)) [
    | inl this ↦ rw this (apply_instantiated-IsGrowth (text_of ev.agent_id) fs v)
    | inr other ↦ rw other (elim (Bool-cases (type == type_name Types.agent_llm_changed)) [
      | inl this ↦ rw this (apply_llm_changed-IsGrowth (text_of ev.agent_id) fs v)
      | inr other ↦ rw other (elim (Option-cases (lookup type agent_status_by_event)) [
        | inl no_status ↦ rw no_status (self-IsGrowth v)
        | inr (status, found) ↦ rw found (
            apply_agent_status-IsGrowth type (status_name status) (text_of ev.agent_id) ev.task_id
              fs v)
      ])
    ])
  ])
]

-- The branches for runs, steps, sessions and counters, where the type is one of theirs.
session_branch-IsGrowth :
    (type : String) (ev : Event) (fs : Fields) (v : RunStateView)
    → Every (λ o. Every (IsGrowth v) o) (session_branch type ev fs v)
unfolding session_branch
session_branch-IsGrowth type ev fs v = ground (
  arith,
  apply_step-IsGrowth "step_name" fs v,
  apply_step-IsGrowth "next_step" fs v,
  apply_run_started-IsGrowth ev v,
  apply_run_finished-IsGrowth ev v,
  apply_session_created-IsGrowth ev fs v,
  with_session-IsGrowth ev.session_id (trip fs) v,
  with_session-IsGrowth ev.session_id (resume_session fs) v,
  apply_intent-IsGrowth ev fs v,
  apply_prepared-IsGrowth fs v,
  apply_turn-IsGrowth fs v,
)

-- An inner call that grows the view.
abbrev Grows : Inner → Type 0
Grows inner = (ev : Event) (v : RunStateView) → Every (IsGrowth v) (inner ev v)

create_successor-IsGrowth :
    (inner : Inner)
    → Grows inner
    → (type : String) (ev : Event) (fs : Fields) (v : RunStateView)
    → Every (IsGrowth v) (create_successor inner type ev fs v)
unfolding create_successor
create_successor-IsGrowth inner grows type ev fs v =
    if-IsGrowth v (type == type_name Types.task_reviewing && truthy (value_at "successor" fs))
      (successor_id (value_at "successor" fs) >>= λ id.
        inner
          (record ev {
            type = type_name Types.task_created;
            task_id = some id;
            payload = value_at "successor" fs;
          })
          v)
      (some v) (each (IsGrowth v) (successor_id (value_at "successor" fs)) _ (λ id. grows _ v))
      (self-IsGrowth v)

module _ (times : Times) (inner : Inner) (grows : Grows inner) where
  task_branch-IsGrowth :
      (type : String) (ev : Event) (fs : Fields) (v : RunStateView)
      → Every (IsGrowth v) (task_branch times inner type ev fs v)
  unfolding task_branch
  task_branch-IsGrowth type ev fs v = elim (Bool-cases (not (given ev.task_id))) [
    | inl nobody ↦ rw nobody (self-IsGrowth v)
    | inr somebody ↦ rw somebody (elim (Bool-cases (type == type_name Types.task_requeued)) [
      | inl this ↦ rw this (apply_requeued-IsGrowth (text_of ev.task_id) fs v)
      | inr other ↦ rw other (elim (Bool-cases (type == type_name Types.task_human_resolved)) [
        | inl this ↦ rw this (apply_human_resolved-IsGrowth (text_of ev.task_id) v)
        | inr other ↦ rw other (elim (Bool-cases (type == type_name Types.task_finalized)) [
          | inl this ↦ rw this (apply_finalized-IsGrowth (text_of ev.task_id) ev.timestamp v)
          | inr other ↦ rw other (elim (Option-cases (lookup type task_status_by_event)) [
            | inl no_status ↦ rw no_status (self-IsGrowth v)
            | inr (status, found) ↦ rw found (
                chain-IsGrowth v (create_successor inner type ev fs v)
                  (apply_status times type (status_word status) (text_of ev.task_id) ev fs)
                  (create_successor-IsGrowth inner grows type ev fs v)
                  (apply_status-IsGrowth times type (status_word status) (text_of ev.task_id) ev
                    fs))
          ])
        ])
      ])
    ])
  ]

  branches-IsGrowth :
      (type : String) (ev : Event) (fs : Fields) (v : RunStateView)
      → Every (IsGrowth v) (branches times inner type ev fs v)
  unfolding branches
  branches-IsGrowth type ev fs v = elim (Option-cases (session_branch type ev fs v)) [
    | inr (result, found) ↦
        rw (branches, found)
          (every_result (λ o. Every (IsGrowth v) o) (session_branch type ev fs v) result
            (session_branch-IsGrowth type ev fs v) found)
    | inl other ↦
        rw (branches, other)
          (if-IsGrowth v (type == type_name Types.task_created) (apply_created ev fs v) _
            (apply_created-IsGrowth ev fs v)
            (if-IsGrowth v (mem type (map type_name observe_types)) (apply_observe type fs v) _
              (apply_observe-IsGrowth type fs v)
              (chain-IsGrowth v (agent_branch type ev fs v) (task_branch times inner type ev fs)
                (agent_branch-IsGrowth type ev fs v) (task_branch-IsGrowth type ev fs))))
  ]

  after_branches-IsGrowth :
      (type : String) (ev : Event) (fs : Fields) (v : RunStateView)
      → Every (IsGrowth v) (after_branches times inner type ev fs v)
  unfolding after_branches
  after_branches-IsGrowth type ev fs v =
      elim (Bool-cases (mem type (map type_name hitl_fold_event_types))) [
        | inr other ↦ rw other (self-IsGrowth v)
        | inl this ↦ rw this (
            each (IsGrowth v) (apply_hitl_event ev v.hitl) _ (λ hitl.
              let next = record v { hitl = hitl } in
              let same = same-IsGrowth v next refl refl refl in
              elim (Bool-cases
                (type == type_name Types.hitl_opened && truthy (value_at "observe_request" fs))) [
                  | inr done ↦ rw done same
                  | inl more ↦ rw more (
                      chain-IsGrowth v (some next)
                        (inner (record ev {
                          type = type_name Types.observe_requested;
                          payload = value_at "observe_request" fs;
                        }))
                        same (grows _))
                ]))
      ]

  apply_with-IsGrowth : Grows (apply_with times inner)
  unfolding apply_with
  apply_with-IsGrowth ev v = each (IsGrowth v) (as_dict (some ev.payload)) _ (λ fs.
      chain-IsGrowth v (before_branches (current_type ev.type) ev fs v) _
        (before_branches-IsGrowth (current_type ev.type) ev fs v)
        (λ u.
          chain-IsGrowth u (branches times inner (current_type ev.type) ev fs u)
            (after_branches times inner (current_type ev.type) ev fs)
            (branches-IsGrowth (current_type ev.type) ev fs u)
            (after_branches-IsGrowth (current_type ev.type) ev fs)))

apply-IsGrowth : (times : Times) → Grows (apply times)
unfolding apply
apply-IsGrowth times =
    apply_with-IsGrowth times (apply_with times (λ e w. some w))
      (apply_with-IsGrowth times (λ e w. some w) (λ e w. self-IsGrowth w))

step-IsGrowth :
    (times : Times) (v : RunStateView) (ev : Event) → Every (IsGrowth v) (step times v ev)
unfolding step
step-IsGrowth times v ev =
    chain-IsGrowth v (some _) (apply times ev) (same-IsGrowth v _ refl refl refl)
      (apply-IsGrowth times ev)

fold_all :
    (times : Times) (evs : List Event) (v : RunStateView)
    → Every (IsGrowth v) (fold_events times evs v)
unfolding fold_events
fold_all times [] v = self-IsGrowth v
fold_all times (ev ∷ evs) v =
    chain-IsGrowth v (step times v ev) (fold_events times evs) (step-IsGrowth times v ev)
      (fold_all times evs)

pub fold_events-IsGrowth :
    (times : Times) (evs : List Event) (v w : RunStateView)
    → fold_events times evs v ≡ some w
    → IsGrowth v w
fold_events-IsGrowth times evs v w folded =
    every_result (IsGrowth v) (fold_events times evs v) w (fold_all times evs v) folded
