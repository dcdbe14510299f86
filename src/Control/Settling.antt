-- ===== src/Control/Settling.antt =====
-- src/ctx_weft/core/orchestrator/task/disposition.py and src/ctx_weft/core/control/reducers.py together:
-- the event that a run's end is written as, and what a replay makes of it.
pub mod Outcomes
pub mod Replay
use ctx_weft.Base.{
  ℕ, String, ◌≡◌, refl, sym, ap, ◌∙◌, inl, inr, Option, none, some, Bool, true, false, List, [],
  ◌∷◌, arith, map, mem, ◌==◌, eq_refl, is_some, not, ltb, ◌&&◌, Bool-cases, Option-cases, ◌>>=◌,
  if◌then◌else◌,
}
use ctx_weft.Base.Dict.{Dict, lookup, insert, lookup-insert}
use ctx_weft.Base.Value.{Value, Fields, flag, dict, text, to_fields, find, is_text}
use ctx_weft.Base.Value.Reading.{as_dict}
use ctx_weft.Event.Types
use ctx_weft.Event.Types.{EventType, type_name}
use ctx_weft.Event.Record.{Event}
use ctx_weft.Task.Status.{TaskStatus, status_word}
use ctx_weft.Task.Disposition.{Disposition}
use ctx_weft.Control.StatusMaps.{task_status_by_event, agent_status_by_event}
use ctx_weft.Control.Views.{RunStateView, SessionView, TaskView}
use ctx_weft.Control.Blob.Times.{Times}
use ctx_weft.Control.Apply.Update.{value_at, with_session, with_task, given}
use ctx_weft.Control.Apply.Observe.{
  current_type, owner_of, effect_types, touch_info, touch_owner, abandon,
}
use ctx_weft.Control.Apply.Runs.{touch_run}
use ctx_weft.Control.Apply.Sessions.{count_failure, count_outcome}
use ctx_weft.Control.Apply.Statuses.{show_status, move_task, keep_end, apply_status}
use ctx_weft.Control.Apply.Event.{
  Inner, observe_types, hitl_fold_event_types, before_branches, session_branch, agent_branch,
  task_branch, branches, after_branches, apply_with, apply,
}

-- The view has the task, with this status.
abbrev pub HasStatus : String → String → RunStateView → Type 0
HasStatus id status w = (t : TaskView) × (lookup id w.tasks ≡ some t) × (t.status ≡ status)

-- There is a result, and it has the property.
abbrev pub Succeeds : (RunStateView → Type 0) → Option RunStateView → Type 0
Succeeds P o = (w : RunStateView) × (o ≡ some w) × P w

abbrev pub SameTasks : RunStateView → RunStateView → Type 0
SameTasks v w = w.tasks ≡ v.tasks

pub and_then :
    (P Q : RunStateView → Type 0) (o : Option RunStateView) (f : RunStateView → Option RunStateView)
    → Succeeds P o
    → ((w : RunStateView) → P w → Succeeds Q (f w))
    → Succeeds Q (o >>= f)
and_then P Q o f (w, found, h) next =
    let (u, done, q) = next w h in (u, ap (λ x. x >>= f) found ∙ done, q)

-- A task that is there is changed.
pub with_task-Succeeds :
    (id status : String) (f : TaskView → Option TaskView) (v : RunStateView) (t u : TaskView)
    → lookup id v.tasks ≡ some t
    → f t ≡ some u
    → u.status ≡ status
    → Succeeds (HasStatus id status) (with_task id f v)
unfolding with_task
with_task-Succeeds id status f v t u found changed now = (
  record v { tasks = insert id u v.tasks },
  rw (with_task, found, changed) refl,
  (u, rw (lookup-insert id id u v.tasks, eq_refl id) refl, now),
)

with_session-Succeeds :
    (id : String) (f : SessionView → SessionView) (v : RunStateView)
    → Succeeds (SameTasks v) (with_session id (λ s. some (f s)) v)
unfolding with_session
with_session-Succeeds id f v = elim (Option-cases (lookup id v.sessions)) [
  | inl absent ↦ (v, rw (with_session, absent) refl, refl)
  | inr (s, found) ↦
      (record v { sessions = insert id (f s) v.sessions }, rw (with_session, found) refl, refl)
]

pub count_outcome-Succeeds :
    (type session_id : String) (fs : Fields) (v : RunStateView)
    → Succeeds (SameTasks v) (count_outcome type session_id fs v)
unfolding count_outcome
count_outcome-Succeeds type session_id fs v =
    elim (Bool-cases (is_text "user_topic_switch" (value_at "reason" fs))) [
      | inl switched ↦ (v, rw switched refl, refl)
      | inr kept ↦ elim (Bool-cases (type == type_name Types.task_failed)) [
        | inl failed ↦
            let (w, done, same) = with_session-Succeeds session_id count_failure v in
            (w, rw (kept, failed) done, same)
        | inr other ↦ elim (Bool-cases (type == type_name Types.task_finished)) [
          | inl finished ↦
              let (w, done, same) =
                with_session-Succeeds session_id (λ s. record s { failure_counter = 0 }) v in
              (w, rw (kept, other, finished) done, same)
          | inr neither ↦ (v, rw (kept, other, neither) refl, refl)
        ]
      ]
    ]

owner_of-total : (o : Option String) → (owner : Option String) × (owner_of o none ≡ some owner)
unfolding owner_of
owner_of-total none = (none, refl)
owner_of-total (some c) = elim (Bool-cases (c == "")) [
  | inl empty ↦ (none, rw empty refl)
  | inr full ↦ (some c, rw full refl)
]

touch_owner-Succeeds :
    (o : Option String) (type : String) (fs : Fields) (v : RunStateView)
    → mem type (map type_name effect_types) ≡ false
    → Succeeds (SameTasks v) (touch_owner o type fs v)
unfolding touch_owner touch_info
touch_owner-Succeeds none type fs v plain_type = (v, refl, refl)
touch_owner-Succeeds (some owner) type fs v plain_type =
    elim (Option-cases (lookup owner v.pending_observe)) [
      | inl absent ↦ (v, rw (touch_owner, absent) refl, refl)
      | inr (info, found) ↦ elim (Bool-cases (is_some (lookup type task_status_by_event))) [
        | inl status ↦ (
          record v {
            pending_observe = insert owner (insert "settled" (flag true) info) v.pending_observe;
          },
          rw (touch_owner, found, plain_type, status) refl,
          refl,
        )
        | inr no_status ↦ (
          record v { pending_observe = insert owner info v.pending_observe },
          rw (touch_owner, found, plain_type, no_status) refl,
          refl,
        )
      ]
    ]

touch_run-SameTasks : (o : Option String) (n : ℕ) (v : RunStateView) → SameTasks v (touch_run o n v)
unfolding touch_run
touch_run-SameTasks o n v = ground arith

abandon-SameTasks :
    (owner : Option String) (type : String) (task_id : Option String) (fs : Fields)
    (v : RunStateView)
    → SameTasks v (abandon owner type task_id fs v)
unfolding abandon
abandon-SameTasks owner type task_id fs v = ground arith

before_branches-Succeeds :
    (type : String) (ev : Event) (fs : Fields) (v : RunStateView)
    → mem type (map type_name effect_types) ≡ false
    → find "observe_id" fs ≡ none
    → Succeeds (SameTasks v) (before_branches type ev fs v)
unfolding before_branches
before_branches-Succeeds type ev fs v plain_type unowned =
    let (owner, owned) = owner_of-total ev.causation_id in
    let (w, touched, same) =
      touch_owner-Succeeds owner type fs (touch_run ev.run_id ev.sequence v) plain_type in
    (
      abandon owner type ev.task_id fs w,
      rw (unowned, owned, touched) refl,
      abandon-SameTasks owner type ev.task_id fs w
          ∙ same
          ∙ touch_run-SameTasks ev.run_id ev.sequence v,
    )

-- A type that is handled by the branch for the states of a task alone: it is no effect of an
-- observation and no older name, and has no part in the other branches.
abbrev pub IsStatusType : String → Type 0
IsStatusType type =
    (mem type (map type_name effect_types) ≡ false)
    × (current_type type ≡ type)
    × ((ev : Event) (fs : Fields) (v : RunStateView) → session_branch type ev fs v ≡ none)
    × ((type == type_name Types.task_created) ≡ false)
    × (mem type (map type_name observe_types) ≡ false)
    × ((ev : Event) (fs : Fields) (v : RunStateView) → agent_branch type ev fs v ≡ some v)
    × (mem type (map type_name hitl_fold_event_types) ≡ false)

module _ (times : Times) (inner : Inner) (type : String) (is : IsStatusType type) where
  branches-task_branch :
      (ev : Event) (fs : Fields) (v : RunStateView)
      → branches times inner type ev fs v ≡ task_branch times inner type ev fs v
  unfolding branches
  branches-task_branch ev fs v = rw (branches, is.2 ev fs v, is.3, is.4, is.5 ev fs v) refl

  after_branches-none :
      (ev : Event) (fs : Fields) (v : RunStateView)
      → after_branches times inner type ev fs v ≡ some v
  unfolding after_branches
  after_branches-none ev fs v = rw is.6 refl

  -- The three stages of `_apply` for the type.
  abbrev stages : String → Event → Fields → RunStateView → Option RunStateView
  stages name ev fs v = before_branches name ev fs v >>= λ u.
      branches times inner name ev fs u >>= λ w. after_branches times inner name ev fs w

  stages-Succeeds :
      (P : RunStateView → Type 0) (ev : Event) (fs : Fields) (v : RunStateView)
      → find "observe_id" fs ≡ none
      → ((u : RunStateView) → SameTasks v u → Succeeds P (task_branch times inner type ev fs u))
      → Succeeds P (stages type ev fs v)
  stages-Succeeds P ev fs v unowned moves =
      let (u, entered, same) = before_branches-Succeeds type ev fs v is.0 unowned in
      let (w, moved, result) = moves u same in
      (
        w,
        ap
              (λ o. o >>= λ x.
                branches times inner type ev fs x >>= λ y. after_branches times inner type ev fs y)
              entered
            ∙ ap (λ o. o >>= λ y. after_branches times inner type ev fs y)
                (branches-task_branch ev fs u ∙ moved)
            ∙ after_branches-none ev fs w,
        result,
      )

  -- What `_apply` comes down to for such a type.
  pub apply_with-Succeeds :
      (P : RunStateView → Type 0) (ev : Event) (fs : Fields) (v : RunStateView)
      → ev.type ≡ type
      → as_dict (some ev.payload) ≡ some fs
      → find "observe_id" fs ≡ none
      → ((u : RunStateView) → SameTasks v u → Succeeds P (task_branch times inner type ev fs u))
      → Succeeds P (apply_with times inner ev v)
  unfolding apply_with
  apply_with-Succeeds P ev fs v named payload unowned moves =
      let (w, done, result) = stages-Succeeds P ev fs v unowned moves in
      (
        w,
        ap (λ o. o >>= λ x. stages (current_type ev.type) ev x v) payload
            ∙ ap (λ name. stages name ev fs v) (ap current_type named ∙ is.1)
            ∙ done,
        result,
      )
