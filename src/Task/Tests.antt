-- ===== src/Task/Tests.antt =====
-- Verdicts, dispositions, retries and the failure threshold on small inputs.
use ctx_weft.Base.{◌≡◌, ◌↔◌, refl, none, some, true, false, [], ◌∷◌, arith}
use ctx_weft.Base.Dict.{Dict, lookup}
use ctx_weft.Base.Value.{text, null}
use ctx_weft.Task.Status.{pending, active, interrupted, suspended, is_terminal}
use ctx_weft.Task.Model.{Task, new_task}
use ctx_weft.Task.Verdict.{Verdict, normalize_verdict, verdict_word, normalize_verdict-verdict_word}
use ctx_weft.Task.Disposition.{RunOutcome, kind_interrupted, kind_completed, disposition_for}
use ctx_weft.Task.Disposition.Projection.{EndsTask, disposition_for-is_terminal}
use ctx_weft.Task.Status.{finished}
use ctx_weft.Base.{List, All, inr}
use ctx_weft.Task.Disposition.{kind_canceled}
use ctx_weft.Task.Outcome.Sticky.{IsSticky, is_completed, settle_all, settle_all-stays}
use ctx_weft.Task.Outcome.{Standing}
use ctx_weft.Task.Outcome.Budget.{
  IsCrash, IsLeft, IsOpen, settle_runs, settle_runs-requeue, settle_runs-interrupted,
}
use ctx_weft.Task.Threshold.{plan_threshold_trip}
use ctx_weft.Task.Threshold.Groups.{IsTable, IsExact, plan_threshold_trip-IsExact}

normalize_verdict-verdict_word_example :
    normalize_verdict (text (verdict_word Verdict.fail)) ≡ Verdict.fail
normalize_verdict-verdict_word_example = normalize_verdict-verdict_word Verdict.fail

-- The model's server was not reachable.
abbrev crash : RunOutcome
crash = record {
  kind = kind_interrupted;
  verdict = "";
  summary = "";
  outputs = null;
  error = "connection reset";
  error_code = "LLM_UNAVAILABLE";
  reason = "network_error";
  retriable = true;
  hitl_id = "";
  observe_id = "";
  observe_disposition = none;
  observe_report_pending = false;
  spawn_titles = [];
}

abbrev success_run : RunOutcome
success_run = record crash { kind = kind_completed; verdict = "success"; retriable = false }

disposition_for-is_terminal_example :
    (is_terminal (disposition_for success_run 0 3).status ≡ true)
    ↔ EndsTask kind_completed (normalize_verdict (text "success"))
disposition_for-is_terminal_example = disposition_for-is_terminal success_run 0 3

abbrev essay : Task
essay = new_task "essay" "s1" active

crash-IsCrash : IsCrash crash
crash-IsCrash = record { kind = refl; retriable = refl; unsettled = refl }

-- Nothing else goes on with the task.
abbrev quiet : Standing
quiet = record {
  threshold_root = false;
  cancel_reason = "";
  undelivered = false;
  now = 9;
  now_text = "9";
}

essay-IsOpen : IsOpen quiet essay
unfolding is_terminal
essay-IsOpen = record { no_root = refl; delivered = refl; live = refl; unswitched = refl }

abbrev done : Task
done = record essay { status = finished }

abbrev late_ends : List (Standing × RunOutcome)
late_ends = (quiet, crash) ∷ (quiet, record crash { kind = kind_canceled }) ∷ []

late_ends-IsSticky : All (λ e. (e.0.threshold_root ≡ false) × IsSticky done e.1.kind) late_ends
unfolding is_terminal is_completed
late_ends-IsSticky = ((refl, inr (refl, refl)), ((refl, inr (refl, refl)), tt))

settle_all-stays_example : settle_all late_ends done ≡ some done
settle_all-stays_example = settle_all-stays late_ends done late_ends-IsSticky

settle_runs-requeue_example :
    (task' : Task) × (settle_runs 2 quiet crash essay ≡ some task') × IsLeft essay pending 2 task'
settle_runs-requeue_example =
    settle_runs-requeue 1 quiet crash essay crash-IsCrash essay-IsOpen (omega arith)

settle_runs-interrupted_example :
    (task' : Task) × (settle_runs 4 quiet crash essay ≡ some task')
    × IsLeft essay interrupted 3 task'
settle_runs-interrupted_example =
    settle_runs-interrupted 3 quiet crash essay crash-IsCrash essay-IsOpen (omega arith)

-- A root, a child that has not begun and a child that waits on its own children.
abbrev tasks : Dict Task
tasks =
    ("essay", essay)
    ∷ ("draft", record (new_task "draft" "s1" pending) { parent_task_id = some "essay" })
    ∷ (
      "outline",
      record (new_task "outline" "s1" suspended) {
        parent_task_id = some "essay";
        started_at = some 7;
      },
    )
    ∷ []

tasks-IsTable : IsTable tasks
unfolding lookup
tasks-IsTable = ((refl, refl), ((refl, refl), ((refl, refl), tt)))

plan_threshold_trip-IsExact_example :
    IsExact tasks
      ("draft" ∷ [])
      ("essay" ∷ [])
      (plan_threshold_trip tasks ("draft" ∷ []) ("essay" ∷ []))
      "outline"
plan_threshold_trip-IsExact_example =
    plan_threshold_trip-IsExact tasks ("draft" ∷ []) ("essay" ∷ []) tasks-IsTable "outline"
