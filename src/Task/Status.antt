-- ===== src/Task/Status.antt =====
-- src/ctx_weft/core/models/status.py: the words for the state of a task.
use ctx_weft.Base.{String, Bool, true, false, ◌==◌, ◌||◌}

pub data TaskStatus : Type 0 where
  pending active reviewing suspended awaiting_human interrupted finished failed canceled :
      TaskStatus

-- `status in TERMINAL_TASK_STATUSES`
unfoldable pub is_terminal : TaskStatus → Bool
is_terminal finished = true
is_terminal failed = true
is_terminal canceled = true
is_terminal _ = false

-- `status in PARKED_TASK_STATUSES`
unfoldable pub is_parked : TaskStatus → Bool
is_parked suspended = true
is_parked awaiting_human = true
is_parked interrupted = true
is_parked _ = false

-- `status == "SUSPENDED"`
unfoldable pub is_suspended : TaskStatus → Bool
is_suspended suspended = true
is_suspended _ = false

-- The word for a state.
unfoldable pub status_word : TaskStatus → String
status_word pending = "PENDING"
status_word active = "ACTIVE"
status_word reviewing = "REVIEWING"
status_word suspended = "SUSPENDED"
status_word awaiting_human = "AWAITING_HUMAN"
status_word interrupted = "INTERRUPTED"
status_word finished = "FINISHED"
status_word failed = "FAILED"
status_word canceled = "CANCELED"

-- `status in TERMINAL_TASK_STATUSES`, for a word
unfoldable pub is_terminal_word : String → Bool
is_terminal_word s = s == "FINISHED" || s == "FAILED" || s == "CANCELED"
