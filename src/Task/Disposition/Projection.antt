-- ===== src/Task/Disposition/Projection.antt =====
-- The disposition of a run against the fold of its event, and which runs end a task.
use ctx_weft.Base.{ℕ, ◌≡◌, refl, ◌↔◌, ◌≢◌, inl, inr, some, true, arith, ltb, ◌&&◌, Bool-cases}
use ctx_weft.Base.Dict.{lookup}
use ctx_weft.Base.Value.{text}
use ctx_weft.Control.StatusMaps.{task_status_by_event}
use ctx_weft.Task.Status.{is_terminal}
use ctx_weft.Task.Verdict.{Verdict, normalize_verdict}
use ctx_weft.Task.Disposition.{
  Disposition, RunOutcome, RunOutcomeKind, kind_completed, kind_interrupted, kind_canceled,
  interrupted_disposition, completed_disposition, disposition_of_kind, disposition_for,
}

-- The event of a disposition folds to the disposition's status.
abbrev IsProjected : Disposition → Type 0
IsProjected disp = lookup disp.event_type task_status_by_event ≡ some disp.status

interrupted-IsProjected :
    (outcome : RunOutcome) (r m : ℕ) → IsProjected (interrupted_disposition outcome r m)
unfolding interrupted_disposition lookup task_status_by_event
interrupted-IsProjected outcome r m = elim (Bool-cases (outcome.retriable && ltb r m)) [
  | inl again ↦ rw again
  | inr stop ↦ rw stop
]

completed-IsProjected :
    (v : Verdict) (outcome : RunOutcome) (r : ℕ) → IsProjected (completed_disposition v outcome r)
unfolding completed_disposition lookup task_status_by_event
completed-IsProjected Verdict.success outcome r = refl
completed-IsProjected Verdict.continue outcome r = refl
completed-IsProjected Verdict.fail outcome r = refl

kind-IsProjected :
    (kind : RunOutcomeKind) (outcome : RunOutcome) (r m : ℕ)
    → IsProjected (disposition_of_kind kind outcome r m)
unfolding disposition_of_kind lookup task_status_by_event
kind-IsProjected kind_interrupted outcome r m = interrupted-IsProjected outcome r m
kind-IsProjected kind_completed outcome r m =
    completed-IsProjected (normalize_verdict (text outcome.verdict)) outcome r
kind-IsProjected _ outcome r m = refl

-- For every end of a run and every budget, the event that `disposition_for` chooses folds, in a
-- rebuild of the session from its events, to the status that `disposition_for` gives the task.
disposition_for-task_status_by_event :
    (outcome : RunOutcome) (retry_count max_retries : ℕ)
    → lookup (disposition_for outcome retry_count max_retries).event_type task_status_by_event
      ≡ some (disposition_for outcome retry_count max_retries).status
unfolding disposition_for
disposition_for-task_status_by_event outcome r m = kind-IsProjected outcome.kind outcome r m

-- A run that ends its task: it was canceled, or it ran to the end with a verdict but `continue`.
abbrev pub EndsTask : RunOutcomeKind → Verdict → Type 0
EndsTask kind_canceled v = Unit
EndsTask kind_completed v = v ≢ Verdict.continue
EndsTask _ v = ⊥

ends_completed :
    (v : Verdict) (outcome : RunOutcome) (r : ℕ)
    → (is_terminal (completed_disposition v outcome r).status ≡ true) ↔ (v ≢ Verdict.continue)
unfolding completed_disposition is_terminal
ends_completed Verdict.success outcome r = (λ h e. cc, λ h. refl)
ends_completed Verdict.continue outcome r = (λ h e. cc, λ h. absurd (h refl))
ends_completed Verdict.fail outcome r = (λ h e. cc, λ h. refl)

ends_kind :
    (kind : RunOutcomeKind) (outcome : RunOutcome) (r m : ℕ)
    → (is_terminal (disposition_of_kind kind outcome r m).status ≡ true)
      ↔ EndsTask kind (normalize_verdict (text outcome.verdict))
unfolding disposition_of_kind is_terminal
ends_kind kind_completed outcome r m =
    ends_completed (normalize_verdict (text outcome.verdict)) outcome r
ends_kind kind_interrupted outcome r m = (λ h. ground arith, λ h. absurd h)
ends_kind kind_canceled outcome r m = (λ h. tt, λ h. refl)
ends_kind _ outcome r m = (λ h. cc, λ h. absurd h)

-- A run puts its task into a terminal state exactly when it was canceled or ran to its end with a
-- verdict that is not `continue`: an interruption never does, whatever the budget is.
pub disposition_for-is_terminal :
    (outcome : RunOutcome) (retry_count max_retries : ℕ)
    → (is_terminal (disposition_for outcome retry_count max_retries).status ≡ true)
      ↔ EndsTask outcome.kind (normalize_verdict (text outcome.verdict))
unfolding disposition_for
disposition_for-is_terminal outcome r m = ends_kind outcome.kind outcome r m
