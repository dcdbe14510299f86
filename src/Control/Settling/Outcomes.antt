-- ===== src/Control/Settling/Outcomes.antt =====
-- src/ctx_weft/core/orchestrator/task/disposition.py against src/ctx_weft/core/control/reducers.py: every
-- end of a run, written as its event and replayed.
use ctx_weft.Base.{ℕ, String, ◌≡◌, refl, ap, ◌∙◌, none, some, false, ◌==◌, ◌>>=◌, if◌then◌else◌}
use ctx_weft.Base.Dict.{lookup}
use ctx_weft.Base.Value.{Fields, dict, find}
use ctx_weft.Base.Value.Reading.{as_dict}
use ctx_weft.Event.Types
use ctx_weft.Event.Types.{type_name}
use ctx_weft.Event.Record.{Event}
use ctx_weft.Task.Status.{TaskStatus, status_word}
use ctx_weft.Control.StatusMaps.{task_status_by_event}
use ctx_weft.Control.Views.{RunStateView, TaskView}
use ctx_weft.Control.Blob.Times.{Times}
use ctx_weft.Control.Apply.Update.{with_task}
use ctx_weft.Control.Apply.Sessions.{count_outcome}
use ctx_weft.Control.Apply.Statuses.{apply_replaced, show_status, move_task, keep_end, apply_status}
use ctx_weft.Control.Apply.Event.{Inner, create_successor, task_branch, apply_with}
use ctx_weft.Control.Settling.{
  HasStatus, Succeeds, with_task-Succeeds, count_outcome-Succeeds, IsStatusType,
  apply_with-Succeeds,
}

-- The payload keeps the status at its end, and brings no successor along.
pub record IsEnd (times : Times) (inner : Inner) (type : String) (fs : Fields) : Type 0 where
  pub no_switch :
      (v : RunStateView)
      → (if type == type_name Types.task_reviewing then apply_replaced fs v else some v) ≡ some v
  pub no_successor : (ev : Event) (v : RunStateView) → create_successor inner type ev fs v ≡ some v
  pub kept :
      (time : ℕ) (t : TaskView)
      → (u : TaskView) × (keep_end times type time fs t ≡ some u) × (u.status ≡ t.status)

apply_status-Succeeds :
    (times : Times) (inner : Inner) (type status id : String) (ev : Event) (fs : Fields)
    (v : RunStateView)
    → (type == type_name Types.task_started) ≡ false
    → IsEnd times inner type fs
    → (t : TaskView) → lookup id v.tasks ≡ some t
    → Succeeds (HasStatus id status) (apply_status times type status id ev fs v)
unfolding apply_status move_task
apply_status-Succeeds times inner type status id ev fs v not_started is t found =
    let (w, moved, (u, at_u, now)) =
      with_task-Succeeds id status (move_task type status fs) v t (record t { status = status })
        found (rw not_started refl) refl in
    let (x, counted, same) = count_outcome-Succeeds type ev.session_id fs (show_status status w) in
    let (y, ended, still) = is.kept ev.timestamp u in
    let (z, done, result) =
      with_task-Succeeds id status (keep_end times type ev.timestamp fs) x u y
        (ap (lookup id) same ∙ at_u) ended (still ∙ now) in
    (
      z,
      ap
            (λ o. o >>= λ a. with_task id (move_task type status fs) a >>= λ b.
              count_outcome type ev.session_id fs (show_status status b)
              >>= with_task id (keep_end times type ev.timestamp fs))
            (is.no_switch v)
          ∙ ap
              (λ o. o >>= λ b.
                count_outcome type ev.session_id fs (show_status status b)
                >>= with_task id (keep_end times type ev.timestamp fs))
              moved
          ∙ ap (λ o. o >>= with_task id (keep_end times type ev.timestamp fs)) counted
          ∙ done,
      result,
    )

-- The event of the task `id` with this type and payload.
abbrev pub task_event : Event → String → String → Fields → Event
task_event ev id type fs = record ev { type = type; task_id = some id; payload = dict fs }

task_branch-Succeeds :
    (times : Times) (inner : Inner) (type : String) (status : TaskStatus) (id : String) (ev : Event)
    (fs : Fields) (v : RunStateView) (t : TaskView)
    → (id == "") ≡ false
    → (type == type_name Types.task_requeued) ≡ false
    → (type == type_name Types.task_human_resolved) ≡ false
    → (type == type_name Types.task_finalized) ≡ false
    → (type == type_name Types.task_started) ≡ false
    → lookup type task_status_by_event ≡ some status
    → IsEnd times inner type fs
    → lookup id v.tasks ≡ some t
    → Succeeds
        (HasStatus id (status_word status))
        (task_branch times inner type (task_event ev id type fs) fs v)
unfolding task_branch
task_branch-Succeeds times inner type status id ev fs v t named a b c d known is found =
    let (w, done, result) =
      apply_status-Succeeds times inner type (status_word status) id (task_event ev id type fs) fs v
        d is t found in
    (
      w,
      rw (task_branch, named, a, b, c, known)
          (ap
              (λ o.
                o >>= apply_status times type (status_word status) id (task_event ev id type fs) fs)
              (is.no_successor (task_event ev id type fs) v)
            ∙ done),
      result,
    )

-- An event of a plain type settles the status of its task in a replay.
pub apply_with-plain :
    (times : Times) (inner : Inner) (type : String) (status : TaskStatus) (id : String) (ev : Event)
    (fs : Fields) (v : RunStateView) (t : TaskView)
    → IsStatusType type
    → find "observe_id" fs ≡ none
    → (id == "") ≡ false
    → (type == type_name Types.task_requeued) ≡ false
    → (type == type_name Types.task_human_resolved) ≡ false
    → (type == type_name Types.task_finalized) ≡ false
    → (type == type_name Types.task_started) ≡ false
    → lookup type task_status_by_event ≡ some status
    → IsEnd times inner type fs
    → lookup id v.tasks ≡ some t
    → Succeeds
        (HasStatus id (status_word status))
        (apply_with times inner (task_event ev id type fs) v)
unfolding as_dict
apply_with-plain times inner type status id ev fs v t plain unowned named a b c d known is found =
    apply_with-Succeeds times inner type plain (HasStatus id (status_word status))
      (task_event ev id type fs) fs v refl refl unowned
      (λ u same.
        task_branch-Succeeds times inner type status id ev fs u t named a b c d known is
          (ap (lookup id) same ∙ found))
