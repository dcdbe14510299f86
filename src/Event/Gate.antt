-- ===== src/Event/Gate.antt =====
-- src/ctx_weft/core/events/commit_gate.py: the gate that confirms the commit of events. The store is
-- a parameter, since the gate only calls its `append_batch`; so is the callback that marks a session
-- as unavailable, which is there or not, and of which only the effect on the health table is kept: an
-- exception that it raises is swallowed.
pub mod Confirm
use ctx_weft.Base.{
  String, Option, none, some, Bool, true, false, not, List, [], ◌∷◌, ◌==◌, all, select,
  if◌then◌else◌,
}
use ctx_weft.Event.Types.{is_transient}
use ctx_weft.Event.Record.{Event, StoredEvent, CommitReceipt}
use ctx_weft.Event.Store.{StoreError, Result, ok, err}

-- What a call of `commit` returns or raises.
pub data GateResult : Type 0 where
  confirmed : List StoredEvent → GateResult
  spans_sessions persistence_unavailable : GateResult

-- `non_transient`
unfoldable pub non_transient : List Event → List Event
unfolding is_transient
non_transient events = select (λ e. not (is_transient e.type)) events

module _ {S H : Type 0} (append_batch : String → String → List Event → S → Result CommitReceipt × S)
    (on_unavailable : Option (String → StoreError → H → H)) where
  -- The handler of the store's exception.
  unfoldable pub mark_unavailable : String → StoreError → H → H
  mark_unavailable session_id cause health = elim on_unavailable [
    | none ↦ health
    | some mark ↦ mark session_id cause health
  ]

  -- The rest of `commit`, on what the store returned
  unfoldable pub confirm : String → H → Result CommitReceipt × S → GateResult × (S × H)
  unfolding mark_unavailable
  confirm session_id health (ok receipt, store) = (confirmed receipt.records, (store, health))
  confirm session_id health (err cause, store) =
      (persistence_unavailable, (store, mark_unavailable session_id cause health))

  -- `batch_id or non_transient[0].id`
  unfoldable pub batch_key : String → Event → String
  batch_key batch_id first = if batch_id == "" then first.id else batch_id

  unfoldable pub commit_durable : List Event → String → S × H → GateResult × (S × H)
  unfolding confirm batch_key
  commit_durable [] batch_id state = (confirmed [], state)
  commit_durable (first ∷ rest) batch_id (store, health) =
      if all (λ e. e.session_id == first.session_id) (first ∷ rest)
      then confirm first.session_id health
          (append_batch first.session_id (batch_key batch_id first) (first ∷ rest) store)
      else (spans_sessions, (store, health))

  unfoldable pub commit : List Event → String → S × H → GateResult × (S × H)
  unfolding commit_durable non_transient
  commit events batch_id state = commit_durable (non_transient events) batch_id state
