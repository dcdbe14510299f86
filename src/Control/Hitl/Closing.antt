-- ===== src/Control/Hitl/Closing.antt =====
-- src/ctx_weft/core/control/reducers.py, the fold of the human requests: a request that is closed stays
-- closed.
use ctx_weft.Base.{
  ℕ, String, ◌≡◌, refl, inl, inr, ◌⊎◌, Option, none, some, Bool, true, false, arith, map, mem, ◌==◌,
  eq_iff, ◌&&◌, ◌||◌, Bool-cases, Option-cases, Every, each,
}
use ctx_weft.Base.Dict.{Dict, lookup, insert, remove, lookup-insert, lookup-remove}
use ctx_weft.Base.Value.{Fields, find, field_at, is_text}
use ctx_weft.Base.Value.Reading.{as_text}
use ctx_weft.Hitl.Contract.{HitlDecision}
use ctx_weft.Hitl.Record.{PendingHitl}
use ctx_weft.Hitl.Snapshot.{HitlSnapshot, DecisionKey}
use ctx_weft.Event.Types
use ctx_weft.Event.Types.{type_name}
use ctx_weft.Event.Record.{Event}
use ctx_weft.Control.Blob.Snapshots.{key_of}
use ctx_weft.Control.Hitl.Legacy.{outcome_cancelled, legacy_decision}
use ctx_weft.Control.Hitl.Request.{text_of, request_of, opened_fields, required_fields}
use ctx_weft.Control.Hitl.Fold.{
  open_in, settle_in, cancel_in, owns_decision, drop_decision, close_in, reopened, retract_in,
  as_resolved, resolved_decision, resolve_in, legacy_resolve_in, hitl_resolve_types,
  apply_to_request,
}

-- No account of the requests has this one.
abbrev pub Gone : String → HitlSnapshot → Type 0
Gone id s =
    (lookup id s.opened ≡ none) × (lookup id s.pending ≡ none) × (lookup id s.resolved ≡ none)

-- The types that open a request.
abbrev pub opens : Event → Bool
opens ev = ev.type == type_name Types.hitl_opened || ev.type == type_name Types.hitl_required

-- An event that does not open this request.
abbrev pub LeavesShut : String → Event → Type 0
LeavesShut id ev = (opens ev && is_text id (field_at "hitl_id" ev.payload)) ≡ false

module _ {ℓ} {V : Type ℓ} where
  absent-insert :
      (k id : String) (v : V) (m : Dict V)
      → (k == id) ≡ false
      → lookup id m ≡ none
      → lookup id (insert k v m) ≡ none
  absent-insert k id v m other absent = rw (lookup-insert k id v m, other) absent

  absent-remove : (k id : String) (m : Dict V) → lookup id m ≡ none → lookup id (remove k m) ≡ none
  absent-remove k id m absent = rw (lookup-remove k id m, absent) (ground arith)

module _ (id k : String) (s : HitlSnapshot) (gone : Gone id s) where
  open_in-Gone : (r : PendingHitl) → (k == id) ≡ false → Gone id (open_in k r s)
  unfolding open_in
  open_in-Gone r other = (
    absent-insert k id r s.opened other gone.0,
    absent-insert k id r s.pending other gone.1,
    gone.2,
  )

  -- A request that is opened is another one.
  opened_other : (r : PendingHitl) → lookup k s.opened ≡ some r → (k == id) ≡ false
  opened_other r found = elim (Bool-cases (k == id)) [
    | inr other ↦ other
    | inl here ↦
        let same : lookup id s.opened ≡ some r = (rw ((eq_iff k id).0 here) at found) in
        let absent = gone.0 in cc
  ]

  settle_in-Gone :
      (d : HitlDecision) (r : PendingHitl) → (k == id) ≡ false → Gone id (settle_in k d r s)
  unfolding settle_in
  settle_in-Gone d r other = (
    absent-insert k id r s.opened other gone.0,
    absent-remove k id s.pending gone.1,
    absent-insert k id r s.resolved other gone.2,
  )

  cancel_in-Gone : Gone id (cancel_in k s)
  unfolding cancel_in
  cancel_in-Gone = (absent-remove k id s.opened gone.0, absent-remove k id s.pending gone.1, gone.2)

  retract_in-Gone : Gone id (retract_in k s)
  unfolding retract_in
  retract_in-Gone = elim (Option-cases (lookup k s.opened)) [
    | inl absent ↦ rw (retract_in, absent) gone
    | inr (r, found) ↦
        let other = opened_other r found in
        rw (retract_in, found)
          (
            absent-insert k id (reopened r) s.opened other gone.0,
            absent-insert k id (reopened r) s.pending other gone.1,
            absent-remove k id s.resolved gone.2,
          )
  ]

drop_decision-Gone :
    (id : String) (owned : Bool) (key : DecisionKey) (s : HitlSnapshot)
    → Gone id s
    → Gone id (drop_decision owned key s)
unfolding drop_decision
drop_decision-Gone id false key s gone = gone
drop_decision-Gone id true key s gone = gone

gone_remove :
    {V : Type 0} (k id : String) (m : Dict V)
    → ((k == id) ≡ true) ⊎ (lookup id m ≡ none)
    → lookup id (remove k m) ≡ none
gone_remove k id m (inl here) = rw (lookup-remove k id m, here) refl
gone_remove k id m (inr absent) = absent-remove k id m absent

-- Closing a request leaves those gone that are, and the one that is closed.
pub close_in-Gone :
    (id k : String) (s : HitlSnapshot) → ((k == id) ≡ true) ⊎ Gone id s → Gone id (close_in k s)
unfolding close_in
close_in-Gone id k s shut =
    let rest = record s {
      pending = remove k s.pending;
      resolved = remove k s.resolved;
      opened = remove k s.opened;
    } in
    let gone : Gone id rest = elim shut [
      | inl here ↦ (
        gone_remove k id s.opened (inl here),
        gone_remove k id s.pending (inl here),
        gone_remove k id s.resolved (inl here),
      )
      | inr before ↦ (
        absent-remove k id s.opened before.0,
        absent-remove k id s.pending before.1,
        absent-remove k id s.resolved before.2,
      )
    ] in
    elim (Option-cases (lookup k s.opened)) [
      | inl absent ↦ rw (close_in, absent) gone
      | inr (r, found) ↦
          rw (close_in, found) (drop_decision-Gone id (owns_decision k r s) (key_of r) rest gone)
    ]

module _ (id k : String) (s : HitlSnapshot) (gone : Gone id s) where
  resolve_in-Gone :
      (time : ℕ) (outcome : String) (fs : Fields) → Every (Gone id) (resolve_in k time outcome fs s)
  unfolding resolve_in
  resolve_in-Gone time outcome fs = elim (Option-cases (lookup k s.opened)) [
    | inl absent ↦ rw (resolve_in, absent) gone
    | inr (r, found) ↦ elim (Bool-cases (outcome == "")) [
      | inl empty ↦ rw (resolve_in, found, empty) gone
      | inr given ↦
          rw (resolve_in, found, given)
            (each (Gone id) (resolved_decision outcome fs) _ (λ d.
              elim (Bool-cases (outcome == outcome_cancelled)) [
                | inl cancelled ↦ rw cancelled (cancel_in-Gone id k s gone)
                | inr kept ↦ rw kept (
                    settle_in-Gone id k s gone d (as_resolved d time false r)
                      (opened_other id k s gone r found))
              ]))
    ]
  ]

  -- What a decision of an older form leaves of a request that is opened.
  settled_or_not :
      (time : ℕ) (r : PendingHitl) (o : Option HitlDecision)
      → (k == id) ≡ false
      → Gone id (elim o [
        | none ↦ record s { pending = remove k s.pending }
        | some d ↦ settle_in k d (as_resolved d time true r) s
      ])
  settled_or_not time r none other = (gone.0, absent-remove k id s.pending gone.1, gone.2)
  settled_or_not time r (some d) other =
      settle_in-Gone id k s gone d (as_resolved d time true r) other

  legacy_resolve_in-Gone :
      (time : ℕ) (type : String) (fs : Fields)
      → Every (Gone id) (legacy_resolve_in k time type fs s)
  unfolding legacy_resolve_in
  legacy_resolve_in-Gone time type fs = each (Gone id) (legacy_decision type fs) _ (λ decided.
      elim (Bool-cases (type == type_name Types.hitl_cancelled)) [
        | inl cancelled ↦ rw cancelled (cancel_in-Gone id k s gone)
        | inr kept ↦ elim (Option-cases (lookup k s.opened)) [
          | inl absent ↦ rw (kept, absent) (gone.0, absent-remove k id s.pending gone.1, gone.2)
          | inr (r, found) ↦
              rw (kept, found) (settled_or_not time r decided (opened_other id k s gone r found))
        ]
      ])

  pub apply_to_request-Gone :
      (ev : Event) (fs : Fields)
      → ((opens ev ≡ true) → (k == id) ≡ false)
      → Every (Gone id) (apply_to_request k ev fs s)
  unfolding apply_to_request
  apply_to_request-Gone ev fs another = elim (Bool-cases (ev.type == type_name Types.hitl_opened)) [
    | inl this ↦ rw this (
        each (Gone id) (opened_fields fs) _
          (λ f. open_in-Gone id k s gone (request_of k ev f) (another (rw this refl))))
    | inr other ↦ rw other (elim (Bool-cases (ev.type == type_name Types.hitl_required)) [
      | inl this ↦ rw this (
          each (Gone id) (required_fields (text_of ev.task_id) fs) _
            (λ f. open_in-Gone id k s gone (request_of k ev f) (another (rw (other, this) refl))))
      | inr other ↦ rw other (elim (Bool-cases (ev.type == type_name Types.hitl_resolved)) [
        | inl this ↦ rw this (
            each (Gone id) (as_text "" (find "outcome" fs)) _
              (λ o. resolve_in-Gone ev.timestamp o fs))
        | inr other ↦ rw other (elim (Bool-cases (ev.type == type_name Types.hitl_closed)) [
          | inl this ↦ rw this (close_in-Gone id k s (inr gone))
          | inr other ↦
              rw other (elim (Bool-cases (ev.type == type_name Types.hitl_reply_retracted)) [
                | inl this ↦ rw this (retract_in-Gone id k s gone)
                | inr other ↦
                    rw other (elim (Bool-cases (mem ev.type (map type_name hitl_resolve_types))) [
                      | inl this ↦ rw this (legacy_resolve_in-Gone ev.timestamp ev.type fs)
                      | inr other ↦ rw other gone
                    ])
              ])
        ])
      ])
    ])
  ]
