-- ===== src/Event/Gate/Confirm.antt =====
-- What the gate confirms, and what it marks.
use ctx_weft.Base.{
  String, ◌≡◌, refl, sym, ap, ◌∙◌, Option, none, some, true, false, List, [], ◌∷◌, ◌==◌, all, All,
  Bool-cases, inl, inr,
}
use ctx_weft.Base.Dict.{lookup}
use ctx_weft.Event.Record.{Event, StoredEvent, CommitReceipt, IsProper}
use ctx_weft.Event.Store.{EventStore, StoreError, Result, ok, err, append_batch}
use ctx_weft.Event.Store.Invariant.{events_of}
use ctx_weft.Event.Store.Retry.{append_batch-retry}
use ctx_weft.Event.Gate.{
  GateResult, confirmed, spans_sessions, persistence_unavailable, non_transient, confirm, batch_key,
  commit_durable, commit,
}

-- The ways in which a call of `commit` ends, on the events that are kept.
pub data Ends {S H : Type 0} (append : String → String → List Event → S → Result CommitReceipt × S)
    (on_unavailable : Option (String → StoreError → H → H)) (batch_id : String) (s : S) (h : H)
    : List Event → GateResult × (S × H) → Type 0 where
  nothing_kept : Ends append on_unavailable batch_id s h [] (confirmed [], (s, h))
  crossing :
      (first : Event) (rest : List Event)
      → all (λ e. e.session_id == first.session_id) rest ≡ false
      → Ends append on_unavailable batch_id s h (first ∷ rest) (spans_sessions, (s, h))
  stored :
      (first : Event) (rest : List Event) (receipt : CommitReceipt) (s' : S)
      → all (λ e. e.session_id == first.session_id) rest ≡ true
      → append first.session_id (batch_key append on_unavailable batch_id first) (first ∷ rest) s
        ≡ (ok receipt, s')
      → Ends append on_unavailable batch_id s h (first ∷ rest) (confirmed receipt.records, (s', h))
  failed :
      (first : Event) (rest : List Event) (cause : StoreError) (s' : S)
      → all (λ e. e.session_id == first.session_id) rest ≡ true
      → append first.session_id (batch_key append on_unavailable batch_id first) (first ∷ rest) s
        ≡ (err cause, s')
      → Ends append on_unavailable batch_id s h (first ∷ rest) (
        persistence_unavailable,
        (s', elim on_unavailable [ none ↦ h | some mark ↦ mark first.session_id cause h ]),
      )

-- The gate over the store in memory.
module _ {H : Type 0} (on_unavailable : Option (String → StoreError → H → H)) where
  confirm-retry :
      (session_id key : String) (kept : List Event) (s s' : EventStore) (h h' h'' : H)
      (r : Result CommitReceipt × EventStore) (records : List StoredEvent)
      → All IsProper kept
      → lookup key s.batches ≡ none
      → append_batch session_id key kept s ≡ r
      → confirm append_batch on_unavailable session_id h r ≡ (confirmed records, (s', h'))
      → (events_of records ≡ kept)
        × (confirm append_batch on_unavailable session_id h'' (append_batch session_id key kept s')
            ≡ (confirmed records, (s', h'')))
  unfolding confirm
  confirm-retry session_id key kept s s' h h' h'' (err cause, store) records proper new e done =
      cc (ap (λ x. x.0) done)
  confirm-retry session_id key kept s s' h h' h'' (ok receipt, store) records proper new e done =
      let first = append_batch-retry session_id key kept s receipt proper new (ap (λ x. x.0) e) in
      let same : receipt.records ≡ records = cc (ap (λ x. x.0) done) in
      let store_same : store ≡ s' = ap (λ x. x.1.0) done in
      let after : append_batch session_id key kept s' ≡ (ok receipt, s') =
        rw (ap (λ x. x.1) e, store_same) at first.retried in
      (ap events_of (sym same) ∙ first.complete, rw (after, same) refl)

  -- `commit_durable`, past its check and not
  past_check :
      (first : Event) (rest : List Event) (batch_id : String) (s : EventStore) (h : H)
      → all (λ e. e.session_id == first.session_id) (first ∷ rest) ≡ true
      → commit_durable append_batch on_unavailable (first ∷ rest) batch_id (s, h)
        ≡ confirm append_batch on_unavailable first.session_id h (
            append_batch first.session_id
              (batch_key append_batch on_unavailable batch_id first)
              (first ∷ rest)
              s)
  unfolding commit_durable
  past_check first rest batch_id s h own = rw own refl

  refused_by_check :
      (first : Event) (rest : List Event) (batch_id : String) (s : EventStore) (h : H)
      → all (λ e. e.session_id == first.session_id) (first ∷ rest) ≡ false
      → commit_durable append_batch on_unavailable (first ∷ rest) batch_id (s, h)
        ≡ (spans_sessions, (s, h))
  unfolding commit_durable
  refused_by_check first rest batch_id s h other = rw other refl

  commit_durable-retry :
      (first : Event) (rest : List Event) (batch_id : String) (s s' : EventStore) (h h' h'' : H)
      (records : List StoredEvent)
      → All IsProper (first ∷ rest)
      → lookup (batch_key append_batch on_unavailable batch_id first) s.batches ≡ none
      → commit_durable append_batch on_unavailable (first ∷ rest) batch_id (s, h)
        ≡ (confirmed records, (s', h'))
      → (events_of records ≡ first ∷ rest)
        × (commit_durable append_batch on_unavailable (first ∷ rest) batch_id (s', h'')
            ≡ (confirmed records, (s', h'')))
  commit_durable-retry first rest batch_id s s' h h' h'' records proper new done =
      elim (Bool-cases (all (λ e. e.session_id == first.session_id) (first ∷ rest))) [
        | inl own ↦
            let (complete, again) =
              confirm-retry first.session_id (batch_key append_batch on_unavailable batch_id first)
                (first ∷ rest) s s' h h' h'' _ records proper new refl
                (sym (past_check first rest batch_id s h own) ∙ done) in
            (complete, past_check first rest batch_id s' h'' own ∙ again)
        | inr other ↦
            let refused : spans_sessions ≡ confirmed records =
              ap (λ x. x.0) (sym (refused_by_check first rest batch_id s h other) ∙ done) in
            cc refused
      ]

  -- Over the store in memory, a confirmed commit of at least one event that is not transient, under a
  -- batch id (its first event's id unless one is given) that the store has not seen, returns records
  -- of exactly those events, in order; and the same call again, on the store after it, returns the same
  -- records and changes nothing, when the dictionaries of the events have each key once.
  pub commit-retry :
      (events : List Event) (first : Event) (rest : List Event) (batch_id : String)
      (s s' : EventStore) (h h' h'' : H) (records : List StoredEvent)
      → non_transient events ≡ first ∷ rest
      → All IsProper (first ∷ rest)
      → lookup (batch_key append_batch on_unavailable batch_id first) s.batches ≡ none
      → commit append_batch on_unavailable events batch_id (s, h) ≡ (confirmed records, (s', h'))
      → (events_of records ≡ non_transient events)
        × (commit append_batch on_unavailable events batch_id (s', h'')
            ≡ (confirmed records, (s', h'')))
  unfolding commit
  commit-retry events first rest batch_id s s' h h' h'' records kept proper new done =
      let (complete, again) =
        commit_durable-retry first rest batch_id s s' h h' h'' records proper new
          (rw kept at done) in
      (complete ∙ sym kept, rw kept again)
