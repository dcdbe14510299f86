-- ===== src/Task/Outcome/Sticky.antt =====
-- src/ctx_weft/core/orchestrator/task/manager.py, `apply_run_outcome`: the tasks that the end of a run
-- leaves alone.
use ctx_weft.Base.{
  ◌≡◌, ◌⊎◌, refl, ap, ◌∙◌, inl, inr, Option, none, some, Bool, true, false, List, [], ◌∷◌, All,
  Bool-cases, if◌then◌else◌,
}
use ctx_weft.Task.Status.{is_terminal}
use ctx_weft.Task.Model.{Task}
use ctx_weft.Task.Disposition.{
  RunOutcome, RunOutcomeKind, kind_task_switched, kind_completed, kind_awaiting_human,
  kind_suspended_on_children, kind_interrupted, kind_canceled,
}
use ctx_weft.Task.Outcome.{
  Standing, Ending, stays, settled, fail_threshold_root, is_switched, unless_switched,
  unless_terminal, apply_kind, apply_run_outcome,
}

unfoldable pub is_completed : RunOutcomeKind → Bool
is_completed kind_completed = true
is_completed _ = false

-- The task after its run ended in this way; none is an exception, or another method of the manager
-- that takes over.
unfoldable pub after_end : Standing × RunOutcome → Task → Option Task
after_end (standing, outcome) task = elim (apply_run_outcome standing outcome task) [
  | some (stays task') ↦ some task'
  | some (settled disp task') ↦ some task'
  | _ ↦ none
]

-- Any ends of runs of one task, one after the other
unfoldable pub settle_all : List (Standing × RunOutcome) → Task → Option Task
unfolding after_end
settle_all [] task = some task
settle_all (e ∷ ends) task = elim (after_end e task) [
  | none ↦ none
  | some task' ↦ settle_all ends task'
]

-- The task is replaced by another one, or is terminal and the run has not completed.
abbrev pub IsSticky : Task → RunOutcomeKind → Type 0
IsSticky task kind =
    (is_switched task ≡ true) ⊎ ((is_terminal task.status ≡ true) × (is_completed kind ≡ false))

module _ (task : Task) where
  unless_switched-stays :
      (rest : Option Ending)
      → is_switched task ≡ true
      → unless_switched task rest ≡ some (stays task)
  unfolding unless_switched
  unless_switched-stays rest h = ap (λ b. if b then some (stays task) else rest) h

  unless_terminal-stays :
      (rest : Option Ending)
      → (is_switched task ≡ true) ⊎ (is_terminal task.status ≡ true)
      → unless_terminal task (unless_switched task rest) ≡ some (stays task)
  unfolding unless_terminal
  unless_terminal-stays rest (inr h) =
      ap (λ b. if b then some (stays task) else unless_switched task rest) h
  unless_terminal-stays rest (inl h) = elim (Bool-cases (is_terminal task.status)) [
    | inl ended ↦ ap (λ b. if b then some (stays task) else unless_switched task rest) ended
    | inr live ↦
        ap (λ b. if b then some (stays task) else unless_switched task rest) live
        ∙ unless_switched-stays rest h
  ]

  either_of :
      (kind : RunOutcomeKind)
      → IsSticky task kind
      → (is_switched task ≡ true) ⊎ (is_terminal task.status ≡ true)
  either_of kind (inl h) = inl h
  either_of kind (inr (h, other)) = inr h

module _ (standing : Standing) (outcome : RunOutcome) (task : Task) where
  apply_kind-stays :
      (kind : RunOutcomeKind)
      → IsSticky task kind
      → apply_kind standing outcome task kind ≡ some (stays task)
  unfolding apply_kind is_completed
  apply_kind-stays kind_completed (inl h) = unless_switched-stays task _ h
  apply_kind-stays kind_completed (inr (ended, h)) = cc
  apply_kind-stays kind_task_switched h =
      unless_terminal-stays task _ (either_of task kind_task_switched h)
  apply_kind-stays kind_canceled h = unless_terminal-stays task _ (either_of task kind_canceled h)
  apply_kind-stays kind_awaiting_human h =
      unless_terminal-stays task _ (either_of task kind_awaiting_human h)
  apply_kind-stays kind_suspended_on_children h =
      unless_terminal-stays task _ (either_of task kind_suspended_on_children h)
  apply_kind-stays kind_interrupted h =
      unless_terminal-stays task _ (either_of task kind_interrupted h)

  after_end-stays :
      standing.threshold_root ≡ false
      → IsSticky task outcome.kind
      → after_end (standing, outcome) task ≡ some task
  unfolding after_end apply_run_outcome
  after_end-stays no_root h =
      ap (λ o. elim o [ some (stays t) ↦ some t | some (settled d t) ↦ some t | _ ↦ none ])
        (ap
            (λ b.
              if b then some fail_threshold_root else apply_kind standing outcome task outcome.kind)
            no_root
          ∙ apply_kind-stays outcome.kind h)

-- What is settled stays so: a task that another one has replaced is left as it is by every end of a
-- run, and a task that is FINISHED, FAILED or CANCELED by every end but a completed run, through any
-- number of ends one after the other, as long as it is no threshold root that waits to fail.
pub settle_all-stays :
    (ends : List (Standing × RunOutcome)) (task : Task)
    → All (λ e. (e.0.threshold_root ≡ false) × IsSticky task e.1.kind) ends
    → settle_all ends task ≡ some task
unfolding settle_all
settle_all-stays [] task h = refl
settle_all-stays ((standing, outcome) ∷ ends) task h =
    ap (λ o. elim o [ none ↦ none | some task' ↦ settle_all ends task' ])
      (after_end-stays standing outcome task h.0.0 h.0.1)
    ∙ settle_all-stays ends task h.1
