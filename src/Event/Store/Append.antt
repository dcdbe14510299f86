-- ===== src/Event/Store/Append.antt =====
-- What `append_batch` does on each of its branches.
use ctx_weft.Base.{
  String, ◌≡◌, refl, sym, ap, ◌∙◌, ◌≢◌, inl, inr, Option, none, some, true, List, [], ◌++◌, ◌==◌,
  eq_iff, all, nonempty, Bool-cases, append-nil,
}
use ctx_weft.Base.Dict.{lookup}
use ctx_weft.Event.Record.{Event, StoredEvent, CommitReceipt}
use ctx_weft.Event.Store.{
  EventStore, StoreError, value_error, event_conflict, Result, ok, err, log, committed_head,
  same_content, fresh_ids, number, commit_batch, append_locked, append_batch,
}
use ctx_weft.Event.Store.Commit.{commit_batch-IsLog}
use ctx_weft.Event.Store.Invariant.{IsLog, log-commit_batch}

-- The ways in which a call of `append_batch` ends: refused, with the store as it was; a repeated
-- batch, with its first receipt and the store as it was; or committed.
pub data Outcome (session_id batch_id : String) (es : List Event) (s : EventStore)
    : Result CommitReceipt × EventStore → Type 0 where
  refused : (e : StoreError) → Outcome session_id batch_id es s (err e, s)
  repeated :
      (receipt : CommitReceipt)
      → lookup batch_id s.batches ≡ some receipt
      → same_content receipt es ≡ true
      → Outcome session_id batch_id es s (ok receipt, s)
  committed :
      nonempty es ≡ true
      → all (λ e. e.session_id == session_id) es ≡ true
      → fresh_ids [] s.event_batch es ≡ true
      → lookup batch_id s.batches ≡ none
      → Outcome session_id batch_id es s (commit_batch session_id batch_id es s)

append_locked-Outcome :
    (session_id batch_id : String) (es : List Event) (s : EventStore) (o : Option CommitReceipt)
    → nonempty es ≡ true
    → all (λ e. e.session_id == session_id) es ≡ true
    → lookup batch_id s.batches ≡ o
    → Outcome session_id batch_id es s (append_locked session_id batch_id es s o)
unfolding append_locked
append_locked-Outcome session_id batch_id es s none some_event own at_batch =
    elim (Bool-cases (fresh_ids [] s.event_batch es)) [
      | inl fresh ↦ rw fresh (committed some_event own fresh at_batch)
      | inr stale ↦ rw stale (refused event_conflict)
    ]
append_locked-Outcome session_id batch_id es s (some receipt) some_event own at_batch =
    elim (Bool-cases (same_content receipt es)) [
      | inl same ↦ rw same (repeated receipt at_batch same)
      | inr other ↦ rw other (refused event_conflict)
    ]

pub append_batch-Outcome :
    (session_id batch_id : String) (es : List Event) (s : EventStore)
    → Outcome session_id batch_id es s (append_batch session_id batch_id es s)
unfolding append_batch
append_batch-Outcome session_id batch_id es s = elim (Bool-cases (nonempty es)) [
  | inl some_event ↦ elim (Bool-cases (all (λ e. e.session_id == session_id) es)) [
    | inl own ↦
        rw (some_event, own)
          (append_locked-Outcome session_id batch_id es s (lookup batch_id s.batches) some_event own
            refl)
    | inr foreign ↦ rw (some_event, foreign) (refused value_error)
  ]
  | inr no_event ↦ rw no_event (refused value_error)
]

Outcome-IsLog :
    {session_id batch_id : String} {es : List Event} {s : EventStore}
    {r : Result CommitReceipt × EventStore}
    → Outcome session_id batch_id es s r
    → IsLog s
    → IsLog r.1
Outcome-IsLog (refused e) inv = inv
Outcome-IsLog (repeated receipt found same) inv = inv
Outcome-IsLog {session_id} {batch_id} {es} {s} (committed some_event own fresh new) inv =
    commit_batch-IsLog session_id batch_id es s inv own fresh

-- Every call of `append_batch`, refused or not, keeps the log of every session numbered without a
-- gap from 1 to its head and of the session's own events, and every event in one place of one log.
pub append_batch-IsLog :
    (session_id batch_id : String) (es : List Event) (s : EventStore)
    → IsLog s
    → IsLog (append_batch session_id batch_id es s).1
append_batch-IsLog session_id batch_id es s inv =
    Outcome-IsLog (append_batch-Outcome session_id batch_id es s) inv

-- What a call adds to the log of a session.
abbrev pub Adds : String → EventStore → EventStore → String → List StoredEvent → Type 0
Adds session_id s s' sid rs = (log sid s' ≡ log sid s ++ rs) × (session_id ≢ sid → rs ≡ [])

Outcome-Adds :
    {session_id batch_id : String} {es : List Event} {s : EventStore}
    {r : Result CommitReceipt × EventStore} (sid : String)
    → Outcome session_id batch_id es s r
    → (rs : List StoredEvent) × Adds session_id s r.1 sid rs
Outcome-Adds sid (refused e) = ([], (sym (append-nil _), λ h. refl))
Outcome-Adds sid (repeated receipt found same) = ([], (sym (append-nil _), λ h. refl))
Outcome-Adds {session_id} {batch_id} {es} {s} sid (committed some_event own fresh new) =
    elim (Bool-cases (session_id == sid)) [
      | inl same ↦
          let e = (eq_iff session_id sid).0 same in
          (
            number (committed_head session_id s) es,
            (
              log-commit_batch session_id batch_id es s sid
                  ∙ rw same (ap (λ t. log t s ++ number (committed_head session_id s) es) e),
              λ other. absurd (other e),
            ),
          )
      | inr other ↦ (
        [],
        (
          log-commit_batch session_id batch_id es s sid ∙ rw other (sym (append-nil (log sid s))),
          λ h. refl,
        ),
      )
    ]

-- The log is append-only: whatever a call of `append_batch` returns, the log of every session after
-- it is the log before it with records added at the end, and none for another session.
pub append_batch-Adds :
    (session_id batch_id : String) (es : List Event) (s : EventStore) (sid : String)
    → (rs : List StoredEvent) × Adds session_id s (append_batch session_id batch_id es s).1 sid rs
append_batch-Adds session_id batch_id es s sid =
    Outcome-Adds sid (append_batch-Outcome session_id batch_id es s)

Outcome-err :
    {session_id batch_id : String} {es : List Event} {s : EventStore}
    {r : Result CommitReceipt × EventStore} (e : StoreError)
    → Outcome session_id batch_id es s r
    → r.0 ≡ err e
    → r.1 ≡ s
unfolding commit_batch
Outcome-err e (refused x) h = refl
Outcome-err e (repeated receipt found same) h = refl
Outcome-err e (committed some_event own fresh new) h = cc

-- A batch that is refused leaves the whole store as it was.
pub append_batch-err :
    (session_id batch_id : String) (es : List Event) (s : EventStore) (e : StoreError)
    → (append_batch session_id batch_id es s).0 ≡ err e
    → (append_batch session_id batch_id es s).1 ≡ s
append_batch-err session_id batch_id es s e =
    Outcome-err e (append_batch-Outcome session_id batch_id es s)
