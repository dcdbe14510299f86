-- ===== src/Event/Store/Commit.antt =====
-- The writes of a committed batch keep the invariant of the store.
use mathlib.Core.List.{map-append}
use ctx_weft.Base.{
  ℕ, String, ◌≡◌, refl, sym, ap, ap₂, ◌∙◌, subst, ◌⊎◌, inl, inr, true, List, [], ◌++◌, ◌==◌, eq_iff,
  mem, mem-append, all, length, length-append, is_some, arith, Bool-cases,
}
use ctx_weft.Base.Dict.{lookup}
use ctx_weft.Event.Record.{Event, StoredEvent}
use ctx_weft.Event.Store.{EventStore, log, committed_head, fresh_ids, number, commit_batch}
use ctx_weft.Event.Store.Invariant.{
  IsLog, events_of, event_ids, ids, no_dups, no_dups-append, number-append, events_of-number,
  length-number, length-events_of, all-append, all-number, fresh_ids-mem, fresh_ids-no_dups,
  known-claim_ids, after, log-commit_batch, committed_head-commit_batch, ids-commit_batch,
}

module _ (session_id batch_id : String) (es : List Event) (s : EventStore) (inv : IsLog s)
    (own : all (λ e. e.session_id == session_id) es ≡ true)
    (fresh : fresh_ids [] s.event_batch es ≡ true) where
  abbrev s' : EventStore
  s' = after session_id batch_id es s

  positions : (sid : String) → log sid s' ≡ number 0 (events_of (log sid s'))
  positions sid = elim (Bool-cases (session_id == sid)) [
    | inl same ↦
        rw (log-commit_batch session_id batch_id es s sid, same)
          (numbered (log session_id s) (committed_head session_id s) (inv.positions session_id)
            (inv.head session_id))
    | inr other ↦ rw (log-commit_batch session_id batch_id es s sid, other) (inv.positions sid)
  ]
    where
      numbered :
          (rs : List StoredEvent) (base : ℕ)
          → rs ≡ number 0 (events_of rs)
          → base ≡ length rs
          → rs ++ number base es ≡ number 0 (events_of (rs ++ number base es))
      numbered rs base p q =
          ap₂ (λ a n. a ++ number n es) p (q ∙ omega (arith, length-events_of rs))
          ∙ sym (number-append 0 (events_of rs) es)
          ∙ ap (number 0) (
              sym (
                map-append _ rs (number base es)
                ∙ ap (λ l. events_of rs ++ l) (events_of-number base es)))

  head : (sid : String) → committed_head sid s' ≡ length (log sid s')
  head sid = elim (Bool-cases (session_id == sid)) [
    | inl same ↦
        rw
          (
            log-commit_batch session_id batch_id es s sid,
            committed_head-commit_batch session_id batch_id es s sid,
            same,
          )
          (omega (
            arith,
            length-append (log session_id s) (number (committed_head session_id s) es),
            length-number (committed_head session_id s) es,
            inv.head session_id,
          ))
    | inr other ↦
        rw
          (
            log-commit_batch session_id batch_id es s sid,
            committed_head-commit_batch session_id batch_id es s sid,
            other,
          )
          (inv.head sid)
  ]

  owns : (sid : String) → all (λ r. r.event.session_id == sid) (log sid s') ≡ true
  owns sid = elim (Bool-cases (session_id == sid)) [
    | inl same ↦
        subst (λ t. all (λ r. r.event.session_id == t) (log t s') ≡ true)
          ((eq_iff session_id sid).0 same) here
    | inr other ↦ rw (log-commit_batch session_id batch_id es s sid, other) (inv.own sid)
  ]
    where
      here : all (λ r. r.event.session_id == session_id) (log session_id s') ≡ true
      here = rw (
        log-commit_batch session_id batch_id es s session_id,
        (eq_iff session_id session_id).1 refl,
        all-append (λ r. r.event.session_id == session_id) (log session_id s)
            (number (committed_head session_id s) es),
        all-number session_id (committed_head session_id s) es,
        own,
        inv.own session_id,
      )

  -- The ids of the batch are not in any log.
  apart : (sid x : String) → mem x (ids sid s) ≡ true → mem x (event_ids es) ≡ true → ⊥
  apart sid x old new =
      let known = inv.known sid x old in
      let (_, free) = fresh_ids-mem x [] s.event_batch es fresh new in cc (known, ap is_some free)

  distinct : (sid : String) → no_dups (ids sid s') ≡ true
  distinct sid = elim (Bool-cases (session_id == sid)) [
    | inl same ↦
        rw (ids-commit_batch session_id batch_id es s sid, same)
          (no_dups-append (ids session_id s) (event_ids es) (inv.distinct session_id)
            (fresh_ids-no_dups [] s.event_batch es fresh) (apart session_id))
    | inr other ↦ rw (ids-commit_batch session_id batch_id es s sid, other) (inv.distinct sid)
  ]

  mem-ids :
      (sid x : String)
      → mem x (ids sid s') ≡ true
      → (mem x (ids sid s) ≡ true) ⊎ ((session_id ≡ sid) × (mem x (event_ids es) ≡ true))
  mem-ids sid x h = elim (Bool-cases (session_id == sid)) [
    | inl same ↦
        let inside : mem x (ids session_id s ++ event_ids es) ≡ true =
          rw (ids-commit_batch session_id batch_id es s sid, same) at h in
        either ((eq_iff session_id sid).0 same) inside
    | inr other ↦ inl (rw (ids-commit_batch session_id batch_id es s sid, other) at h)
  ]
    where
      either :
          session_id ≡ sid
          → mem x (ids session_id s ++ event_ids es) ≡ true
          → (mem x (ids sid s) ≡ true) ⊎ ((session_id ≡ sid) × (mem x (event_ids es) ≡ true))
      either same inside = elim (Bool-cases (mem x (event_ids es))) [
        | inl new ↦ inr (same, new)
        | inr old ↦ inl (
            subst (λ t. mem x (ids t s) ≡ true) same
              (ground (arith, mem-append x (ids session_id s) (event_ids es))))
      ]

  known : (sid x : String) → mem x (ids sid s') ≡ true → is_some (lookup x s'.event_batch) ≡ true
  unfolding commit_batch
  known sid x h = elim (mem-ids sid x h) [
    | inl old ↦ ground (arith, known-claim_ids x batch_id es s.event_batch, inv.known sid x old)
    | inr (same, new) ↦ ground (arith, known-claim_ids x batch_id es s.event_batch)
  ]

  one_log :
      (sid sid' x : String) → mem x (ids sid s') ≡ true → mem x (ids sid' s') ≡ true → sid ≡ sid'
  one_log sid sid' x h k = elim (mem-ids sid x h) [
    | inl old ↦ elim (mem-ids sid' x k) [
      | inl old' ↦ inv.one_log sid sid' x old old'
      | inr (same', new') ↦ absurd (apart sid x old new')
    ]
    | inr (same, new) ↦ elim (mem-ids sid' x k) [
      | inl old' ↦ absurd (apart sid' x old' new)
      | inr (same', new') ↦ sym same ∙ same'
    ]
  ]

  pub commit_batch-IsLog : IsLog s'
  commit_batch-IsLog = record {
    positions = positions;
    head = head;
    own = owns;
    distinct = distinct;
    known = known;
    one_log = one_log;
  }
