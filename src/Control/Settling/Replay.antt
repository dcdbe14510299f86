-- ===== src/Control/Settling/Replay.antt =====
-- src/ctx_weft/core/orchestrator/task/disposition.py against src/ctx_weft/core/control/reducers.py: the
-- ends of a run one by one.
use ctx_weft.Base.{
  ℕ, String, ◌≡◌, refl, ap, ◌∙◌, inl, inr, none, some, false, arith, mem, ◌==◌, ltb, ◌&&◌,
  Bool-cases, ◌>>=◌,
}
use ctx_weft.Base.Dict.{lookup}
use ctx_weft.Base.Value.Reading.{as_dict, text_or_empty}
use ctx_weft.Base.Value.{Fields, null, text, to_fields, find}
use ctx_weft.Event.Types
use ctx_weft.Event.Types.{type_name}
use ctx_weft.Event.Record.{Event}
use ctx_weft.Task.Status.{status_word}
use ctx_weft.Task.Verdict.{Verdict, normalize_verdict}
use ctx_weft.Task.Disposition.{
  Disposition, RunOutcome, RunOutcomeKind, kind_task_switched, kind_completed, kind_awaiting_human,
  kind_suspended_on_children, kind_interrupted, kind_canceled, canceled_payload,
  interrupted_disposition, completed_disposition, disposition_of_kind, disposition_for,
}
use ctx_weft.Control.StatusMaps.{task_status_by_event}
use ctx_weft.Control.Views.{RunStateView, TaskView}
use ctx_weft.Control.Blob.Times.{Times}
use ctx_weft.Control.Apply.Update.{value_at}
use ctx_weft.Control.Apply.Observe.{current_type}
use ctx_weft.Control.Apply.Statuses.{apply_replaced, keep_end, apply_requeued, requeue, show_status}
use ctx_weft.Control.Apply.Event.{
  Inner, session_branch, agent_branch, create_successor, task_branch, apply_with, apply,
}
use ctx_weft.Control.Settling.{HasStatus, Succeeds, with_task-Succeeds, apply_with-Succeeds}
use ctx_weft.Control.Settling.Outcomes.{task_event, apply_with-plain}

module _ (times : Times) (inner : Inner) (id : String) (ev : Event) (v : RunStateView)
    (t : TaskView) (named : (id == "") ≡ false) (found : lookup id v.tasks ≡ some t) where
  -- The event of a disposition, replayed, leaves the task with the disposition's status.
  abbrev IsReplayed : Disposition → Type 0
  IsReplayed d =
      Succeeds (HasStatus id (status_word d.status))
        (apply_with times inner (task_event ev id d.event_type (to_fields d.payload)) v)

  -- A task that is put back into the queue.
  requeued-Succeeds :
      (fs : Fields)
      → find "observe_id" fs ≡ none
      → value_at "user_prompt" fs ≡ null
      → Succeeds
          (HasStatus id "PENDING")
          (apply_with times inner (task_event ev id (type_name Types.task_requeued) fs) v)
  unfolding current_type session_branch agent_branch mem task_branch as_dict apply_requeued requeue
  requeued-Succeeds fs unowned no_prompt =
      apply_with-Succeeds times inner (type_name Types.task_requeued)
        (refl, refl, λ e fs u. refl, refl, refl, λ e fs u. ground arith, refl)
        (HasStatus id "PENDING") (task_event ev id (type_name Types.task_requeued) fs) fs v refl
        refl unowned
        (λ u same.
          let (w, done, result) =
            with_task-Succeeds id "PENDING" (requeue fs) u t
              (record t { status = "PENDING"; outputs = null }) (ap (lookup id) same ∙ found)
              (rw no_prompt refl) refl in
          (
            show_status "PENDING" w,
            rw named (ap (λ o. o >>= λ x. some (show_status "PENDING" x)) done),
            result,
          ))

  completed-IsReplayed :
      (verdict : Verdict) (outcome : RunOutcome) (r : ℕ)
      → IsReplayed (completed_disposition verdict outcome r)
  unfolding completed_disposition current_type session_branch agent_branch task_status_by_event
      create_successor apply_replaced keep_end find to_fields mem status_word text_or_empty
  completed-IsReplayed Verdict.success outcome r =
      apply_with-plain times inner _ _ id ev _ v t
        (refl, refl, λ e fs u. refl, refl, refl, λ e fs u. ground arith, refl) refl named refl refl
        refl refl refl
        (record {
          no_switch = λ u. refl;
          no_successor = λ e u. refl;
          kept = λ time u. (_, refl, refl);
        })
        found
  completed-IsReplayed Verdict.fail outcome r =
      apply_with-plain times inner _ _ id ev _ v t
        (refl, refl, λ e fs u. refl, refl, refl, λ e fs u. ground arith, refl) refl named refl refl
        refl refl refl
        (record {
          no_switch = λ u. refl;
          no_successor = λ e u. refl;
          kept = λ time u. (_, refl, refl);
        })
        found
  completed-IsReplayed Verdict.continue outcome r = requeued-Succeeds _ refl refl

  interrupted-IsReplayed :
      (outcome : RunOutcome) (r m : ℕ) → IsReplayed (interrupted_disposition outcome r m)
  unfolding interrupted_disposition current_type session_branch agent_branch task_status_by_event
      create_successor apply_replaced keep_end find to_fields mem status_word text_or_empty
  interrupted-IsReplayed outcome r m = elim (Bool-cases (outcome.retriable && ltb r m)) [
    | inl again ↦ rw (interrupted_disposition, again) (requeued-Succeeds _ refl refl)
    | inr stop ↦
        rw (interrupted_disposition, stop)
          (apply_with-plain times inner _ _ id ev _ v t
            (refl, refl, λ e fs u. refl, refl, refl, λ e fs u. ground arith, refl) refl named refl
            refl refl refl refl
            (record {
              no_switch = λ u. refl;
              no_successor = λ e u. refl;
              kept = λ time u. (_, refl, refl);
            })
            found)
  ]

  -- The event of a cancellation, with and without a reason.
  canceled-IsReplayed :
      (outcome : RunOutcome) (r m : ℕ) → IsReplayed (disposition_of_kind kind_canceled outcome r m)
  unfolding disposition_of_kind canceled_payload current_type session_branch agent_branch
      task_status_by_event create_successor apply_replaced keep_end find to_fields mem status_word
      text_or_empty
  canceled-IsReplayed outcome r m = elim (Bool-cases (outcome.reason == "")) [
    | inl silent ↦
        rw (canceled_payload, silent)
          (apply_with-plain times inner _ _ id ev _ v t
            (refl, refl, λ e fs u. refl, refl, refl, λ e fs u. ground arith, refl) refl named refl
            refl refl refl refl
            (record {
              no_switch = λ u. refl;
              no_successor = λ e u. refl;
              kept = λ time u. (_, refl, refl);
            })
            found)
    | inr told ↦
        rw (canceled_payload, told)
          (apply_with-plain times inner _ _ id ev _ v t
            (refl, refl, λ e fs u. refl, refl, refl, λ e fs u. ground arith, refl) refl named refl
            refl refl refl refl
            (record {
              no_switch = λ u. refl;
              no_successor = λ e u. refl;
              kept = λ time u. (_, refl, refl);
            })
            found)
  ]

  kind-IsReplayed :
      (kind : RunOutcomeKind) (outcome : RunOutcome) (r m : ℕ)
      → IsReplayed (disposition_of_kind kind outcome r m)
  unfolding disposition_of_kind current_type session_branch agent_branch task_status_by_event
      create_successor apply_replaced keep_end find to_fields mem status_word text_or_empty
  kind-IsReplayed kind_completed outcome r m =
      completed-IsReplayed (normalize_verdict (text outcome.verdict)) outcome r
  kind-IsReplayed kind_interrupted outcome r m = interrupted-IsReplayed outcome r m
  kind-IsReplayed kind_canceled outcome r m = canceled-IsReplayed outcome r m
  kind-IsReplayed kind_task_switched outcome r m =
      apply_with-plain times inner _ _ id ev _ v t
        (refl, refl, λ e fs u. refl, refl, refl, λ e fs u. ground arith, refl) refl named refl refl
        refl refl refl
        (record {
          no_switch = λ u. refl;
          no_successor = λ e u. refl;
          kept = λ time u. (_, refl, refl);
        })
        found
  kind-IsReplayed kind_awaiting_human outcome r m =
      apply_with-plain times inner _ _ id ev _ v t
        (refl, refl, λ e fs u. refl, refl, refl, λ e fs u. ground arith, refl) refl named refl refl
        refl refl refl
        (record {
          no_switch = λ u. refl;
          no_successor = λ e u. refl;
          kept = λ time u. (_, refl, refl);
        })
        found
  kind-IsReplayed kind_suspended_on_children outcome r m =
      apply_with-plain times inner _ _ id ev _ v t
        (refl, refl, λ e fs u. refl, refl, refl, λ e fs u. ground arith, refl) refl named refl refl
        refl refl refl
        (record {
          no_switch = λ u. refl;
          no_successor = λ e u. refl;
          kept = λ time u. (_, refl, refl);
        })
        found

-- The end of a run and its replay agree: for every outcome and every budget, the event that
-- `disposition_for` writes for a task, folded into any view that has the task, leaves the task with the
-- status of the disposition. The fold of the event has a result whatever else the view holds.
pub apply-disposition_for :
    (times : Times) (id : String) (ev : Event) (v : RunStateView) (t : TaskView)
    (outcome : RunOutcome) (retry_count max_retries : ℕ)
    → (id == "") ≡ false
    → lookup id v.tasks ≡ some t
    → (w : RunStateView) × (apply times
          (task_event ev id
            (disposition_for outcome retry_count max_retries).event_type
            (to_fields (disposition_for outcome retry_count max_retries).payload))
          v
        ≡ some w)
      × HasStatus id (status_word (disposition_for outcome retry_count max_retries).status) w
unfolding apply disposition_for
apply-disposition_for times id ev v t outcome r m named found =
    kind-IsReplayed times (apply_with times (λ e w. some w)) id ev v t named found outcome.kind
      outcome r m
