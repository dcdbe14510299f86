-- ===== src/Task/Disposition.antt =====
-- src/ctx_weft/core/orchestrator/task/disposition.py: from the end of a run and the retry budget to
-- the next state of the task and the event that says so. The theorems are in the module below.
pub mod Projection
use ctx_weft.Base.{
  ℕ, ◌+◌, String, Option, none, some, Bool, true, false, ◌&&◌, not, List, [], ◌∷◌, ◌==◌, ltb,
  if◌then◌else◌,
}
use ctx_weft.Base.Value.{Value, Payload, num, text, list, texts}
use ctx_weft.Event.Types
use ctx_weft.Event.Types.{type_name}
use ctx_weft.Task.Status.{
  TaskStatus, pending, reviewing, suspended, awaiting_human, interrupted, finished, failed,
  canceled,
}
use ctx_weft.Task.Verdict
use ctx_weft.Task.Verdict.{Verdict, normalize_verdict, verdict_word}

pub data RunOutcomeKind : Type 0 where
  kind_task_switched kind_completed kind_awaiting_human : RunOutcomeKind
  kind_suspended_on_children kind_interrupted kind_canceled : RunOutcomeKind

-- `observe_disposition`, a settled disposition that the observer brings along, is one of these too.
pub record Disposition : Type 0 where
  pub status : TaskStatus
  pub event_type : String
  pub payload : Payload

pub record RunOutcome : Type 0 where
  pub kind : RunOutcomeKind
  pub verdict : String
  pub summary : String
  pub outputs : Value
  pub error : String
  pub error_code : String
  pub reason : String
  pub retriable : Bool
  pub hitl_id : String
  pub observe_id : String
  pub observe_disposition : Option Disposition
  pub observe_report_pending : Bool
  pub spawn_titles : List String

-- `TaskErrorCode.BY_OBSERVER`
abbrev pub by_observer : String
by_observer = "TASK_FAILED_BY_OBSERVER"

-- The branch for `CANCELED`: no reason is put in where none is given.
unfoldable pub canceled_payload : String → Payload
canceled_payload reason = if reason == "" then [] else ("reason", text reason) ∷ []

-- The branch for `INTERRUPTED`.
unfoldable pub interrupted_disposition : RunOutcome → ℕ → ℕ → Disposition
unfolding type_name
interrupted_disposition outcome retry_count max_retries =
    if outcome.retriable && ltb retry_count max_retries
    then record {
      status = pending;
      event_type = type_name Types.task_requeued;
      payload = ("reason", text outcome.reason) ∷ ("retry_count", num (retry_count + 1)) ∷ [];
    }
    else record {
      status = interrupted;
      event_type = type_name Types.task_interrupted;
      payload =
          ("reason", text outcome.reason)
          ∷ ("error_code", text outcome.error_code)
          ∷ ("error_message", text outcome.error)
          ∷ ("retry_count", num retry_count)
          ∷ [];
    }

-- The three ways in which a completed run is judged.
unfoldable pub completed_disposition : Verdict → RunOutcome → ℕ → Disposition
unfolding type_name verdict_word
completed_disposition Verdict.success outcome retry_count = record {
  status = finished;
  event_type = type_name Types.task_finished;
  payload =
      ("outcome", text (verdict_word Verdict.success))
      ∷ ("summary", text outcome.summary)
      ∷ ("outputs", outcome.outputs)
      ∷ [];
}
completed_disposition Verdict.continue outcome retry_count = record {
  status = pending;
  event_type = type_name Types.task_requeued;
  payload =
      ("outcome", text (verdict_word Verdict.continue))
      ∷ ("summary", text outcome.summary)
      ∷ ("retry_count", num retry_count)
      ∷ [];
}
completed_disposition Verdict.fail outcome retry_count = record {
  status = failed;
  event_type = type_name Types.task_failed;
  payload =
      ("error_code", text by_observer)
      ∷ ("error_message", text outcome.error)
      ∷ ("retry_count", num retry_count)
      ∷ [];
}

unfoldable pub disposition_of_kind : RunOutcomeKind → RunOutcome → ℕ → ℕ → Disposition
unfolding type_name canceled_payload interrupted_disposition completed_disposition texts
disposition_of_kind kind_task_switched outcome retry_count max_retries = record {
  status = reviewing;
  event_type = type_name Types.task_reviewing;
  payload = ("reason", text "user_topic_switch") ∷ [];
}
disposition_of_kind kind_awaiting_human outcome retry_count max_retries = record {
  status = awaiting_human;
  event_type = type_name Types.task_awaiting_human;
  payload = ("hitl_id", text outcome.hitl_id) ∷ [];
}
disposition_of_kind kind_suspended_on_children outcome retry_count max_retries = record {
  status = suspended;
  event_type = type_name Types.task_suspended;
  payload =
      ("summary", text outcome.summary) ∷ ("spawn_titles", list (texts outcome.spawn_titles)) ∷ [];
}
disposition_of_kind kind_canceled outcome retry_count max_retries = record {
  status = canceled;
  event_type = type_name Types.task_canceled;
  payload = canceled_payload outcome.reason;
}
disposition_of_kind kind_interrupted outcome retry_count max_retries =
    interrupted_disposition outcome retry_count max_retries
disposition_of_kind kind_completed outcome retry_count max_retries =
    completed_disposition (normalize_verdict (text outcome.verdict)) outcome retry_count

-- `disposition_for(outcome, retry_count=…, max_retries=…)`
unfoldable pub disposition_for : RunOutcome → ℕ → ℕ → Disposition
unfolding disposition_of_kind
disposition_for outcome retry_count max_retries =
    disposition_of_kind outcome.kind outcome retry_count max_retries
