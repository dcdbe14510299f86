-- ===== src/Event/Store.antt =====
-- src/ctx_weft/providers/events/store/in_memory/store.py: the event store in memory. A method returns
-- its result and the store after it; the lock makes a call of `append_batch` one step. Only complete
-- events are of the type `Event`, so the first check of `append_batch` has nothing to refuse, and the
-- reads are those without a projection.
pub mod Invariant
pub mod Commit
pub mod Append
pub mod Retry
pub mod Reads
use ctx_weft.Base.{
  ℕ, suc, ◌+◌, String, Option, none, some, Bool, true, false, not, ◌&&◌, ◌||◌, List, [], ◌∷◌, ◌++◌,
  ◌==◌, map, mem, all, any, length, leb, ltb, eqb, nonempty, select, if◌then◌else◌,
}
use ctx_weft.Base.Dict.{Dict, lookup, insert}
use ctx_weft.Base.Value.{Value, field_at, is_text, contains}
use ctx_weft.Event.Types
use ctx_weft.Event.Types.{type_name}
use ctx_weft.Event.Record.{Event, StoredEvent, CommitReceipt, same_event}

pub data StoreError : Type 0 where
  value_error event_conflict : StoreError

pub data Result {ℓ} (A : Type ℓ) : Type ℓ where
  ok : A → Result A
  err : StoreError → Result A

pub record EventStore : Type 0 where
  pub stored : Dict (List StoredEvent)
  pub next_position : Dict ℕ
  pub batches : Dict CommitReceipt
  pub event_batch : Dict String

abbrev pub empty : EventStore
empty = record { stored = []; next_position = []; batches = []; event_batch = [] }

-- `self._stored.get(session_id, [])`
unfoldable pub log : String → EventStore → List StoredEvent
unfolding lookup
log session_id s = elim (lookup session_id s.stored) [ none ↦ [] | some records ↦ records ]

-- `committed_head`, and the `base` of a batch
unfoldable pub committed_head : String → EventStore → ℕ
unfolding lookup
committed_head session_id s = elim (lookup session_id s.next_position) [ none ↦ 0 | some n ↦ n ]

-- `_same_content`; `zip` ends with the shorter list, and the lengths are equal.
unfoldable pub same_events : List StoredEvent → List Event → Bool
same_events (r ∷ rs) (e ∷ es) = same_event r.event e && same_events rs es
same_events _ _ = true

unfoldable pub same_content : CommitReceipt → List Event → Bool
unfolding same_events
same_content receipt events =
    if not (eqb (length receipt.records) (length events))
    then false
    else same_events receipt.records events

-- The loop over the ids of a batch: false is the conflict of an id with one of the batch, or with
-- one that is stored.
unfoldable pub fresh_ids : List String → Dict String → List Event → Bool
unfolding mem lookup
fresh_ids seen event_batch [] = true
fresh_ids seen event_batch (e ∷ es) =
    let rest = fresh_ids (e.id ∷ seen) event_batch es in
    if mem e.id seen
    then false
    else (elim (lookup e.id event_batch) [ none ↦ rest | some prior ↦ false ])

-- The records of a batch, from the position after `base` on.
unfoldable pub number : ℕ → List Event → List StoredEvent
number base [] = []
number base (e ∷ es) = record { event = e; position = base + 1 } ∷ number (base + 1) es

-- `self._event_batch[e.id] = batch_id`, for every event of the batch
unfoldable pub claim_ids : String → List Event → Dict String → Dict String
unfolding insert
claim_ids batch_id [] event_batch = event_batch
claim_ids batch_id (e ∷ es) event_batch = claim_ids batch_id es (insert e.id batch_id event_batch)

-- The writes of `_append_batch_locked`, after its checks.
unfoldable pub commit_batch :
    String → String → List Event → EventStore → Result CommitReceipt × EventStore
unfolding insert
commit_batch session_id batch_id events s =
    let base = committed_head session_id s in
    let receipt : CommitReceipt = record { batch_id = batch_id; records = number base events } in
    (
      ok receipt,
      record {
        stored = insert session_id (log session_id s ++ number base events) s.stored;
        next_position = insert session_id (base + length events) s.next_position;
        batches = insert batch_id receipt s.batches;
        event_batch = claim_ids batch_id events s.event_batch;
      },
    )

-- `_append_batch_locked`, on the receipt that the batch id has already, if any
unfoldable pub append_locked :
    String
    → String
    → List Event
    → EventStore
    → Option CommitReceipt
    → Result CommitReceipt × EventStore
append_locked session_id batch_id events s (some receipt) =
    if same_content receipt events then (ok receipt, s) else (err event_conflict, s)
append_locked session_id batch_id events s none =
    if fresh_ids [] s.event_batch events
    then commit_batch session_id batch_id events s
    else (err event_conflict, s)

unfoldable pub append_batch :
    String → String → List Event → EventStore → Result CommitReceipt × EventStore
append_batch session_id batch_id events s =
    if not (nonempty events)
    then (err value_error, s)
    else if all (λ e. e.session_id == session_id) events
    then append_locked session_id batch_id events s (lookup batch_id s.batches)
    else (err value_error, s)

-- The filters of `read_range`.
pub record Range : Type 0 where
  pub after_position : ℕ
  pub through_position : Option ℕ
  pub include_types : List String
  pub exclude_types : List String
  pub task_id : String
  pub related_task_id : String

abbrev pub everything : Range
everything = record {
  after_position = 0;
  through_position = none;
  include_types = [];
  exclude_types = [];
  task_id = "";
  related_task_id = "";
}

-- `event.task_id == tid`
unfoldable pub has_task : String → Event → Bool
has_task tid e = elim e.task_id [ none ↦ false | some t ↦ t == tid ]

-- `event.task_id and event.task_id != task_id`
unfoldable pub other_task : String → Event → Bool
other_task task_id e = elim e.task_id [
  | none ↦ false
  | some t ↦ not (t == "") && not (t == task_id)
]

-- An event is related to a task by its own id, or names it in the payload of its type.
unfoldable pub is_related : String → Event → Bool
unfolding type_name has_task field_at is_text contains
is_related tid e =
    has_task tid e
    || ((e.type == type_name Types.task_created)
        && is_text tid (field_at "id" (field_at "task" e.payload)))
    || ((e.type == type_name Types.task_reviewing)
        && (is_text tid (field_at "id" (field_at "task" (field_at "successor" e.payload)))
            || contains tid (field_at "replaced_task_ids" e.payload)
            || contains tid (field_at "rewired_dependencies" e.payload)))

-- The filters of the loop of `read_range` on the event.
unfoldable pub passes : List String → List String → String → String → Event → Bool
unfolding mem other_task is_related
passes include_types exclude_types task_id related_task_id e =
    (not (nonempty include_types) || mem e.type include_types)
    && not (mem e.type exclude_types)
    && (task_id == "" || not (other_task task_id e))
    && (related_task_id == "" || is_related related_task_id e)

-- A record that the loop of `read_range` keeps.
unfoldable pub in_range : Range → StoredEvent → Bool
unfolding passes
in_range r se =
    ltb r.after_position se.position
    && (elim r.through_position [ none ↦ true | some last ↦ leb se.position last ])
    && passes r.include_types r.exclude_types r.task_id r.related_task_id se.event

unfoldable pub read_range : String → Range → EventStore → List StoredEvent
read_range session_id r s = select (in_range r) (log session_id s)

-- The last record of a type, from a list in the order of the log.
unfoldable pub last_of_type : String → List StoredEvent → Option StoredEvent
last_of_type want [] = none
last_of_type want (se ∷ rest) = elim (last_of_type want rest) [
  | some later ↦ some later
  | none ↦ if se.event.type == want then some se else none
]

unfoldable pub read_last_of_type : String → String → EventStore → Option StoredEvent
unfolding last_of_type
read_last_of_type session_id type s = last_of_type type (log session_id s)
