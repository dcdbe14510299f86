-- ===== src/Event/Tests.antt =====
-- The store and the gate on two events of one session and one that is transient.
use ctx_weft.Base.{String, ◌≡◌, refl, Option, none, some, List, [], ◌∷◌, ◌++◌, All, arith}
use ctx_weft.Base.Dict.{lookup}
use ctx_weft.Base.Value.{dict, end, is_proper}
use ctx_weft.Event.Types
use ctx_weft.Event.Types.{type_name}
use ctx_weft.Event.Record.{Event, StoredEvent, CommitReceipt, IsProper}
use ctx_weft.Event.Store.{
  EventStore, StoreError, value_error, ok, err, empty, committed_head, number, append_batch,
  append_locked, commit_batch, everything, read_range, read_last_of_type, fresh_ids,
}
use ctx_weft.Event.Store.Invariant.{IsLog, IsLog-empty, events_of}
use ctx_weft.Event.Store.Append.{Adds, append_batch-IsLog, append_batch-Adds, append_batch-err}
use ctx_weft.Event.Store.Retry.{IsCommitted, append_batch-retry}
use ctx_weft.Event.Store.Reads.{
  last, read_range-split, append_batch-read_range, read_last_of_type-read_range,
}
use ctx_weft.Event.Gate.{confirmed, non_transient, batch_key, commit}
use ctx_weft.Event.Gate.Confirm.{commit-retry}

abbrev started : Event
started = record {
  id = "e1";
  run_id = none;
  sequence = 1;
  session_id = "s1";
  type = "TaskStarted";
  timestamp = 10;
  tenant_id = "default";
  task_id = some "essay";
  agent_id = none;
  origin = "core";
  payload = dict end;
  metadata = dict end;
  causation_id = none;
  schema_version = 1;
}

abbrev finished : Event
finished = record started { id = "e2"; sequence = 2; type = "TaskFinished"; timestamp = 11 }

abbrev batch : List Event
batch = started ∷ finished ∷ []

abbrev receipt : CommitReceipt
receipt = record { batch_id = "b1"; records = number 0 batch }

abbrev filled : EventStore
filled = (append_batch "s1" "b1" batch empty).1

batch-IsProper : All IsProper batch
unfolding is_proper
batch-IsProper =
    (record { payload = refl; metadata = refl }, (record { payload = refl; metadata = refl }, tt))

first_commit : (append_batch "s1" "b1" batch empty).0 ≡ ok receipt
unfolding append_batch append_locked lookup fresh_ids commit_batch committed_head
first_commit = refl

b1_new : lookup "b1" empty.batches ≡ none
unfolding lookup
b1_new = refl

append_batch-IsLog_example : IsLog filled
append_batch-IsLog_example = append_batch-IsLog "s1" "b1" batch empty IsLog-empty

append_batch-Adds_example :
    (rs : List StoredEvent) × Adds "s1" empty (append_batch "s1" "b1" batch empty).1 "s1" rs
append_batch-Adds_example = append_batch-Adds "s1" "b1" batch empty "s1"

-- An event of another session.
other_session : (append_batch "s2" "b1" batch empty).0 ≡ err value_error
unfolding append_batch
other_session = refl

append_batch-err_example : (append_batch "s2" "b1" batch empty).1 ≡ empty
append_batch-err_example = append_batch-err "s2" "b1" batch empty value_error other_session

append_batch-retry_example :
    IsCommitted "s1" "b1" batch empty (append_batch "s1" "b1" batch empty).1 receipt
append_batch-retry_example =
    append_batch-retry "s1" "b1" batch empty receipt batch-IsProper b1_new first_commit

filled-IsLog : IsLog filled
filled-IsLog = append_batch-IsLog "s1" "b1" batch empty IsLog-empty

read_range-split_example :
    read_range "s1" (record everything { through_position = some 1 }) filled
      ++ read_range "s1" (record everything { after_position = 1 }) filled
    ≡ read_range "s1" everything filled
read_range-split_example = read_range-split "s1" filled everything 1 filled-IsLog (omega arith) refl

append_batch-read_range_example :
    read_range "s1"
      (record everything { after_position = committed_head "s1" empty })
      (append_batch "s1" "b1" batch empty).1
    ≡ receipt.records
append_batch-read_range_example =
    append_batch-read_range "s1" "b1" batch empty receipt IsLog-empty batch-IsProper b1_new
      first_commit

read_last_of_type-read_range_example :
    read_last_of_type "s1" "TaskFinished" filled
    ≡ last (read_range "s1" (record everything { include_types = "TaskFinished" ∷ [] }) filled)
read_last_of_type-read_range_example =
    read_last_of_type-read_range "s1" "TaskFinished" filled filled-IsLog

-- The health table is the list of the sessions marked.
abbrev mark : Option (String → StoreError → List String → List String)
mark = some (λ session_id cause marked. session_id ∷ marked)

abbrev chunk : Event
chunk = record started { id = "e3"; type = type_name Types.llm_token_streamed }

abbrev round : List Event
round = started ∷ chunk ∷ finished ∷ []

kept : non_transient round ≡ batch
unfolding non_transient type_name
kept = refl

e1_new : lookup (batch_key append_batch mark "" started) empty.batches ≡ none
unfolding lookup
e1_new = refl

abbrev gate_store : EventStore
gate_store = (append_batch "s1" "e1" batch empty).1

round_committed :
    commit append_batch mark round "" (empty, []) ≡ (confirmed (number 0 batch), (gate_store, []))
unfolding commit append_batch append_locked lookup fresh_ids commit_batch committed_head
    non_transient type_name number
round_committed = refl

commit-retry_example :
    (events_of (number 0 batch) ≡ non_transient round)
    × (commit append_batch mark round "" (gate_store, "s9" ∷ [])
        ≡ (confirmed (number 0 batch), (gate_store, "s9" ∷ [])))
commit-retry_example =
    commit-retry mark round started (finished ∷ []) "" empty gate_store [] [] ("s9" ∷ [])
      (number 0 batch) kept batch-IsProper e1_new round_committed
