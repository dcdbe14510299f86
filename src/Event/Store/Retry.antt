-- ===== src/Event/Store/Retry.antt =====
-- What a first commit of a batch returns, and what a retry of it does.
use ctx_weft.Base.{
  ℕ, ◌+◌, String, ◌≡◌, refl, ◌∙◌, subst, none, some, true, List, [], ◌∷◌, ◌++◌, ◌==◌, eq_iff, all,
  All, nonempty, arith,
}
use ctx_weft.Base.Dict.{lookup, lookup-insert}
use ctx_weft.Event.Record.{Event, CommitReceipt, IsProper, same_event_self}
use ctx_weft.Event.Store.{
  EventStore, Result, ok, log, committed_head, same_events, same_content, number, commit_batch,
  append_locked, append_batch,
}
use ctx_weft.Event.Store.Invariant.{events_of, events_of-number, length-number, log-commit_batch}
use ctx_weft.Event.Store.Append.{Outcome, refused, repeated, committed, append_batch-Outcome}

same_events-number :
    (base : ℕ) (es : List Event) → All IsProper es → same_events (number base es) es ≡ true
unfolding same_events number
same_events-number base [] h = refl
same_events-number base (e ∷ es) h =
    ground (arith, same_event_self e h.0, same_events-number (base + 1) es h.1)

same_content-number :
    (batch_id : String) (base : ℕ) (es : List Event)
    → All IsProper es
    → same_content (record { batch_id = batch_id; records = number base es }) es ≡ true
unfolding same_content
same_content-number batch_id base es h =
    ground (arith, length-number base es, same_events-number base es h)

-- What is known after a first commit.
pub record IsCommitted (session_id batch_id : String) (es : List Event) (s s' : EventStore)
    (receipt : CommitReceipt) : Type 0 where
  pub named : receipt.batch_id ≡ batch_id
  pub complete : events_of receipt.records ≡ es
  pub numbered : receipt.records ≡ number (committed_head session_id s) es
  pub logged : log session_id s' ≡ log session_id s ++ receipt.records
  pub retried : append_batch session_id batch_id es s' ≡ (ok receipt, s')

module _ (session_id batch_id : String) (es : List Event) (s : EventStore) where
  -- The receipt of a first commit.
  abbrev first_receipt : CommitReceipt
  first_receipt = record { batch_id = batch_id; records = number (committed_head session_id s) es }

  at_batch : lookup batch_id (commit_batch session_id batch_id es s).1.batches ≡ some first_receipt
  unfolding commit_batch
  at_batch =
      lookup-insert batch_id batch_id first_receipt s.batches
      ∙ rw ((eq_iff batch_id batch_id).1 refl)

  retry :
      nonempty es ≡ true
      → all (λ e. e.session_id == session_id) es ≡ true
      → All IsProper es
      → append_batch session_id batch_id es (commit_batch session_id batch_id es s).1
        ≡ (ok first_receipt, (commit_batch session_id batch_id es s).1)
  unfolding append_batch append_locked
  retry some_event own proper = rw (
    some_event,
    own,
    at_batch,
    same_content-number batch_id (committed_head session_id s) es proper,
  )

  commit_batch-IsCommitted :
      (receipt : CommitReceipt)
      → nonempty es ≡ true
      → all (λ e. e.session_id == session_id) es ≡ true
      → All IsProper es
      → (commit_batch session_id batch_id es s).0 ≡ ok receipt
      → IsCommitted session_id batch_id es s (commit_batch session_id batch_id es s).1 receipt
  commit_batch-IsCommitted receipt some_event own proper h =
      subst (IsCommitted session_id batch_id es s (commit_batch session_id batch_id es s).1) same
        (record {
          named = refl;
          complete = events_of-number (committed_head session_id s) es;
          numbered = refl;
          logged =
              log-commit_batch session_id batch_id es s session_id
              ∙ rw ((eq_iff session_id session_id).1 refl);
          retried = retry some_event own proper;
        })
    where
      same : first_receipt ≡ receipt
      same = unfold commit_batch in cc h

Outcome-IsCommitted :
    {session_id batch_id : String} {es : List Event} {s : EventStore}
    {r : Result CommitReceipt × EventStore} (receipt : CommitReceipt)
    → Outcome session_id batch_id es s r
    → All IsProper es
    → lookup batch_id s.batches ≡ none
    → r.0 ≡ ok receipt
    → IsCommitted session_id batch_id es s r.1 receipt
Outcome-IsCommitted receipt (refused e) proper new h = cc
Outcome-IsCommitted receipt (repeated old found same) proper new h = cc
Outcome-IsCommitted {session_id} {batch_id} {es} {s} receipt (committed some_event own fresh new')
      proper new h =
    commit_batch-IsCommitted session_id batch_id es s receipt some_event own proper h

-- A batch id that is committed for the first time gets a receipt with exactly the events of the
-- batch, in order, numbered from the position after the head, which are what the log of the session
-- has gained; and a retry of the same batch on the store after it returns the same receipt and changes
-- nothing, when the dictionaries of the events have each key once.
pub append_batch-retry :
    (session_id batch_id : String) (es : List Event) (s : EventStore) (receipt : CommitReceipt)
    → All IsProper es
    → lookup batch_id s.batches ≡ none
    → (append_batch session_id batch_id es s).0 ≡ ok receipt
    → IsCommitted session_id batch_id es s (append_batch session_id batch_id es s).1 receipt
append_batch-retry session_id batch_id es s receipt =
    Outcome-IsCommitted receipt (append_batch-Outcome session_id batch_id es s)
