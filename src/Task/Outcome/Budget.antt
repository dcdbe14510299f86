-- ===== src/Task/Outcome/Budget.antt =====
-- src/ctx_weft/core/orchestrator/task/manager.py, `apply_run_outcome`: how often a run that keeps
-- crashing is requeued.
use ctx_weft.Base.{
  ℕ, zero, suc, ◌+◌, ◌≤◌, ◌<◌, ◌≡◌, refl, ap, ◌∙◌, Option, none, some, true, lt→ltb, le→ltb, [],
  ◌∷◌, arith,
}
use ctx_weft.Base.Value.{text, num}
use ctx_weft.Task.Status.{TaskStatus, pending, interrupted}
use ctx_weft.Task.Model.{Task}
use ctx_weft.Task.Disposition.{
  RunOutcome, RunOutcomeKind, kind_interrupted, disposition_of_kind, disposition_for,
}
use ctx_weft.Event.Types
use ctx_weft.Event.Types.{type_name}
use ctx_weft.Task.Outcome.{
  decide, keep_cause, apply_disposition, number_at, Standing, stays, settled, fail_threshold_root,
  publish_emission, is_switched, is_tree_cancel, annotated, note_cancel, settle_as, settle,
  unless_switched, unless_terminal, unless_undelivered, apply_kind, apply_run_outcome,
}
use ctx_weft.Task.Status.{is_terminal, status_word}
use ctx_weft.Task.Disposition.{Disposition}
use ctx_weft.Base.{not, if◌then◌else◌, Bool-cases, inl, inr, false, ◌==◌}
use ctx_weft.Base.Dict.{lookup, insert}

-- The run crashed in a way that may be retried, and the observer has settled nothing.
pub record IsCrash (outcome : RunOutcome) : Type 0 where
  pub kind : outcome.kind ≡ kind_interrupted
  pub retriable : outcome.retriable ≡ true
  pub unsettled : outcome.observe_disposition ≡ none

-- A task that is left in this state, with this count of retries and its budget as it was.
pub record IsLeft (task : Task) (status : TaskStatus) (count : ℕ) (task' : Task) : Type 0 where
  pub status_lem : task'.status ≡ status
  pub count_lem : task'.retry_count ≡ count
  pub budget : task'.max_retries ≡ task.max_retries
  pub switch : task'.switched_to_task_id ≡ task.switched_to_task_id

-- A task whose run ends in the usual way: it is no threshold root that waits to fail, it has no
-- event that waits for delivery, its status is not terminal, and no other task has replaced it.
pub record IsOpen (standing : Standing) (task : Task) : Type 0 where
  pub no_root : standing.threshold_root ≡ false
  pub delivered : standing.undelivered ≡ false
  pub live : is_terminal task.status ≡ false
  pub unswitched : (task.switched_to_task_id == "") ≡ true

keep_cause-IsLeft :
    {status : TaskStatus} {count : ℕ} (outcome : RunOutcome) (kind : RunOutcomeKind)
    (task task' : Task)
    → IsLeft task status count task'
    → IsLeft task status count (keep_cause outcome kind task')
unfolding keep_cause
keep_cause-IsLeft outcome kind_interrupted task task' left = record {
  status_lem = left.status_lem;
  count_lem = left.count_lem;
  budget = left.budget;
  switch = left.switch;
}
keep_cause-IsLeft outcome _ task task' left = left

module _ (outcome : RunOutcome) (task : Task) (crash : IsCrash outcome) where
  decide-requeue :
      task.retry_count < task.max_retries
      → decide outcome task.max_retries (some task) ≡ record {
        status = pending;
        event_type = type_name Types.task_requeued;
        payload =
            ("reason", text outcome.reason) ∷ ("retry_count", num (task.retry_count + 1)) ∷ [];
      }
  unfolding decide disposition_for disposition_of_kind
  decide-requeue room =
      rw (
        crash.unsettled,
        crash.kind,
        crash.retriable,
        lt→ltb task.retry_count task.max_retries room,
      )

  decide-stop :
      task.max_retries ≤ task.retry_count
      → decide outcome task.max_retries (some task) ≡ record {
        status = interrupted;
        event_type = type_name Types.task_interrupted;
        payload =
            ("reason", text outcome.reason)
            ∷ ("error_code", text outcome.error_code)
            ∷ ("error_message", text outcome.error)
            ∷ ("retry_count", num task.retry_count)
            ∷ [];
      }
  unfolding decide disposition_for disposition_of_kind
  decide-stop full =
      rw (
        crash.unsettled,
        crash.kind,
        crash.retriable,
        le→ltb task.retry_count task.max_retries full,
      )

  -- Past the guards, the run is settled.
  apply_run_outcome-settle :
      (standing : Standing)
      → IsOpen standing task
      → apply_run_outcome standing outcome task ≡ settle standing outcome task
  unfolding apply_run_outcome apply_kind unless_terminal unless_switched unless_undelivered
      is_switched
  apply_run_outcome-settle standing is_open =
      ap
        (λ b. if b then some fail_threshold_root else apply_kind standing outcome task outcome.kind)
        is_open.no_root
      ∙ ap (apply_kind standing outcome task) crash.kind
      ∙ ap
          (λ b.
            if b
            then some (stays task)
            else unless_switched task (unless_undelivered standing (settle standing outcome task)))
          is_open.live
      ∙ ap
          (λ b.
            if not b
            then some (stays task)
            else unless_undelivered standing (settle standing outcome task))
          is_open.unswitched
      ∙ ap (λ b. if b then some publish_emission else settle standing outcome task)
          is_open.delivered

  -- The disposition of a crash within the budget
  abbrev requeued : Disposition
  requeued = record {
    status = pending;
    event_type = type_name Types.task_requeued;
    payload = ("reason", text outcome.reason) ∷ ("retry_count", num (task.retry_count + 1)) ∷ [];
  }

  -- What a crash within the budget leaves.
  abbrev again : Task
  again =
      keep_cause outcome outcome.kind
        (record task { status = pending; retry_count = task.retry_count + 1 })

  settle_as-requeued :
      (standing : Standing)
      → settle_as standing outcome task requeued
        ≡ some (settled (annotated standing outcome requeued) again)
  unfolding settle_as annotated note_cancel is_tree_cancel status_word apply_disposition number_at
      lookup insert type_name
  settle_as-requeued standing = elim (Bool-cases (outcome.observe_id == "")) [
    | inl unobserved ↦ rw unobserved refl
    | inr observed ↦ rw observed refl
  ]

  settle-requeue :
      (standing : Standing)
      → task.retry_count < task.max_retries
      → (disp : Disposition) × (task' : Task) × (settle standing outcome task
          ≡ some (settled disp task'))
        × IsLeft task pending (task.retry_count + 1) task'
  unfolding settle
  settle-requeue standing room = (
    annotated standing outcome requeued,
    again,
    ap (settle_as standing outcome task) (decide-requeue room) ∙ settle_as-requeued standing,
    keep_cause-IsLeft outcome outcome.kind task
        (record task { status = pending; retry_count = task.retry_count + 1 })
        (record { status_lem = refl; count_lem = refl; budget = refl; switch = refl }),
  )

  settle-stop :
      (standing : Standing)
      → task.max_retries ≤ task.retry_count
      → (disp : Disposition) × (task' : Task) × (settle standing outcome task
          ≡ some (settled disp task'))
        × IsLeft task interrupted task.retry_count task'
  unfolding settle
  settle-stop standing full = (
    _,
    keep_cause outcome outcome.kind (record task { status = interrupted }),
    ap (settle_as standing outcome task) (decide-stop full)
        ∙ unfold settle_as annotated note_cancel is_tree_cancel status_word apply_disposition
            type_name in
          refl,
    keep_cause-IsLeft outcome outcome.kind task (record task { status = interrupted })
        (record { status_lem = refl; count_lem = refl; budget = refl; switch = refl }),
  )

-- The same crash, `n` times in a row, each time on the task as the one before it left it; none is an
-- exception, or another method of the manager that takes over.
unfoldable pub settle_runs : ℕ → Standing → RunOutcome → Task → Option Task
settle_runs zero standing outcome task = some task
settle_runs (suc n) standing outcome task = elim (apply_run_outcome standing outcome task) [
  | some (stays task') ↦ settle_runs n standing outcome task'
  | some (settled disp task') ↦ settle_runs n standing outcome task'
  | _ ↦ none
]

settle_runs-suc :
    (n : ℕ) (standing : Standing) (outcome : RunOutcome) (task task' : Task) (disp : Disposition)
    → apply_run_outcome standing outcome task ≡ some (settled disp task')
    → settle_runs (suc n) standing outcome task ≡ settle_runs n standing outcome task'
unfolding settle_runs
settle_runs-suc n standing outcome task task' disp now = rw (settle_runs, now) refl

-- A task that is requeued is open as it was.
IsLeft-IsOpen :
    (standing : Standing) (task task' : Task) (count : ℕ)
    → IsOpen standing task
    → IsLeft task pending count task'
    → IsOpen standing task'
unfolding is_terminal
IsLeft-IsOpen standing task task' count is_open left = record {
  no_root = is_open.no_root;
  delivered = is_open.delivered;
  live = ap is_terminal left.status_lem;
  unswitched = ap (λ x. x == "") left.switch ∙ is_open.unswitched;
}

-- The first crash within the budget, with the crashes after it.
first_crash :
    (n : ℕ) (standing : Standing) (outcome : RunOutcome) (task : Task)
    → IsCrash outcome
    → IsOpen standing task
    → task.retry_count < task.max_retries
    → (task' : Task) × (settle_runs (suc n) standing outcome task
        ≡ settle_runs n standing outcome task')
      × IsOpen standing task'
      × IsLeft task pending (task.retry_count + 1) task'
first_crash n standing outcome task crash is_open room =
    let (disp, task', now, left) = settle-requeue outcome task crash standing room in
    (
      task',
      settle_runs-suc n standing outcome task task' disp
          (apply_run_outcome-settle outcome task crash standing is_open ∙ now),
      IsLeft-IsOpen standing task task' (task.retry_count + 1) is_open left,
      left,
    )

-- What is left after two steps, from what each leaves.
trans-IsLeft :
    (status : TaskStatus) (task task₁ task' : Task) (count n : ℕ)
    → IsLeft task pending count task₁
    → IsLeft task₁ status n task'
    → IsLeft task status n task'
trans-IsLeft status task task₁ task' count n left left' = record {
  status_lem = left'.status_lem;
  count_lem = left'.count_lem;
  budget = left'.budget ∙ left.budget;
  switch = left'.switch ∙ left.switch;
}

-- A run that crashes again and again is requeued as often as the budget allows: for a task that is
-- not terminal, that no task has replaced, that is no threshold root and has no event that waits for
-- delivery, each of the first `n` crashes within the budget leaves it PENDING with one more retry
-- counted, and no exception is raised on the way.
pub settle_runs-requeue :
    (n : ℕ) (standing : Standing) (outcome : RunOutcome) (task : Task)
    → IsCrash outcome
    → IsOpen standing task
    → task.retry_count + suc n ≤ task.max_retries
    → (task' : Task) × (settle_runs (suc n) standing outcome task ≡ some task')
      × IsLeft task pending (task.retry_count + suc n) task'
unfolding settle_runs
settle_runs-requeue zero standing outcome task crash is_open room =
    let (task', now, _, left) =
      first_crash zero standing outcome task crash is_open (omega arith) in
    (task', now, left)
settle_runs-requeue (suc n) standing outcome task crash is_open room =
    let (task₁, now, still, left) =
      first_crash (suc n) standing outcome task crash is_open (omega arith) in
    let (task', rest, left') =
      settle_runs-requeue n standing outcome task₁ crash still
        (omega (arith, left.count_lem, left.budget)) in
    let all =
      trans-IsLeft pending task task₁ task' (task.retry_count + 1) (task₁.retry_count + suc n) left
        left' in
    (
      task',
      now ∙ rest,
      record {
        status_lem = all.status_lem;
        count_lem = omega (arith, left'.count_lem, left.count_lem);
        budget = all.budget;
        switch = all.switch;
      },
    )

-- The crash after the last retry stops the task: for a task as above where `n` retries are left, `n`
-- crashes in a row are requeued, and the next one leaves it INTERRUPTED, not FAILED, with the whole
-- budget counted.
pub settle_runs-interrupted :
    (n : ℕ) (standing : Standing) (outcome : RunOutcome) (task : Task)
    → IsCrash outcome
    → IsOpen standing task
    → task.retry_count + n ≡ task.max_retries
    → (task' : Task) × (settle_runs (suc n) standing outcome task ≡ some task')
      × IsLeft task interrupted task.max_retries task'
unfolding settle_runs
settle_runs-interrupted zero standing outcome task crash is_open full =
    let (disp, task', now, left) = settle-stop outcome task crash standing (omega arith) in
    (
      task',
      settle_runs-suc zero standing outcome task task' disp
          (apply_run_outcome-settle outcome task crash standing is_open ∙ now),
      record {
        status_lem = left.status_lem;
        count_lem = omega (arith, left.count_lem);
        budget = left.budget;
        switch = left.switch;
      },
    )
settle_runs-interrupted (suc n) standing outcome task crash is_open room =
    let (task₁, now, still, left) =
      first_crash (suc n) standing outcome task crash is_open (omega arith) in
    let (task', rest, left') =
      settle_runs-interrupted n standing outcome task₁ crash still
        (omega (arith, left.count_lem, left.budget)) in
    let all =
      trans-IsLeft interrupted task task₁ task' (task.retry_count + 1) task₁.max_retries left
        left' in
    (
      task',
      now ∙ rest,
      record {
        status_lem = all.status_lem;
        count_lem = all.count_lem ∙ left.budget;
        budget = all.budget;
        switch = all.switch;
      },
    )
