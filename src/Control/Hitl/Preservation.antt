-- ===== src/Control/Hitl/Preservation.antt =====
-- src/ctx_weft/core/control/reducers.py, the fold of the human requests: every event, and so every log,
-- keeps the accounts consistent.
use ctx_weft.Base.{
  Every, each, each_bind, every_result, ℕ, String, ◌≡◌, refl, inl, inr, none, some, Bool, true,
  false, List, [], ◌∷◌, map, mem, ◌==◌, is_some, Bool-cases, Option-cases,
}
use ctx_weft.Base.Dict.{lookup, remove}
use ctx_weft.Base.Value.{Fields, find}
use ctx_weft.Base.Value.Reading.{as_text, as_dict, text_or_empty}
use ctx_weft.Hitl.Snapshot.{
  HitlSnapshot, DecisionKey, same_key, lookup_key, lookup_key-remove_key, empty_snapshot,
}
use ctx_weft.Event.Types
use ctx_weft.Event.Types.{type_name}
use ctx_weft.Event.Record.{Event}
use ctx_weft.Control.Blob.Snapshots.{key_of}
use ctx_weft.Control.Hitl.Legacy.{outcome_cancelled, legacy_decision}
use ctx_weft.Control.Hitl.Request.{text_of, request_of, opened_fields, required_fields}
use ctx_weft.Control.Hitl.Fold.{
  settle_in, cancel_in, owns_decision, drop_decision, close_in, as_resolved, resolved_decision,
  resolve_in, legacy_resolve_in, hitl_resolve_types, apply_to_request, apply_hitl_event,
  fold_hitl_snapshot,
}
use ctx_weft.Control.Hitl.Consistent.{
  remove-Holds, IsConsistent, open_in-IsConsistent, settle_in-IsConsistent, cancel_in-IsConsistent,
  unusable-IsConsistent, retract_in-IsConsistent,
}

drop_decision-IsConsistent :
    (owned : Bool) (key : DecisionKey) (s : HitlSnapshot)
    → IsConsistent s
    → IsConsistent (drop_decision owned key s)
unfolding drop_decision
drop_decision-IsConsistent false key s ok = ok
drop_decision-IsConsistent true key s ok = record {
  named = ok.named;
  waiting = ok.waiting;
  settled = ok.settled;
  owned = λ other.
      let before = ok.owned other in
      rw
        (
          lookup_key-remove_key key other s.decision_owner,
          lookup_key-remove_key key other s.decisions_for,
        )
        (elim (Bool-cases (same_key key other)) [
          | inl here ↦ rw here refl
          | inr apart ↦ rw apart before
        ]);
}

module _ (id : String) (s : HitlSnapshot) (ok : IsConsistent s) where
  -- `HitlClosed`, before the cached decision is looked at.
  abbrev without : HitlSnapshot
  without = record s {
    pending = remove id s.pending;
    resolved = remove id s.resolved;
    opened = remove id s.opened;
  }

  without-IsConsistent : IsConsistent without
  unfolding cancel_in
  without-IsConsistent =
      let canceled : IsConsistent (cancel_in id s) = cancel_in-IsConsistent id s ok in
      record {
        named = canceled.named;
        waiting = canceled.waiting;
        settled =
            remove-Holds (λ j q. is_some q.decision ≡ true) id s.resolved
              (λ j q other h. ok.settled j q h);
        owned = ok.owned;
      }

  close_in-IsConsistent : IsConsistent (close_in id s)
  unfolding close_in
  close_in-IsConsistent = elim (Option-cases (lookup id s.opened)) [
    | inl absent ↦ rw (close_in, absent) without-IsConsistent
    | inr (r, found) ↦
        rw (close_in, found)
          (drop_decision-IsConsistent (owns_decision id r s) (key_of r) without
            without-IsConsistent)
  ]

  resolve_in-IsConsistent :
      (time : ℕ) (outcome : String) (fs : Fields)
      → Every IsConsistent (resolve_in id time outcome fs s)
  unfolding resolve_in
  resolve_in-IsConsistent time outcome fs = elim (Option-cases (lookup id s.opened)) [
    | inl absent ↦ rw (resolve_in, absent) ok
    | inr (r, found) ↦
        rw (resolve_in, found)
          (elim (Bool-cases (outcome == "")) [
            | inl empty ↦ rw empty ok
            | inr given ↦ rw given (
                each IsConsistent (resolved_decision outcome fs) _ (λ d.
                  elim (Bool-cases (outcome == outcome_cancelled)) [
                    | inl cancelled ↦ rw cancelled (cancel_in-IsConsistent id s ok)
                    | inr kept ↦ rw kept (
                        settle_in-IsConsistent id s ok d (as_resolved d time false r)
                          (ok.named id r found) refl)
                  ]))
          ])
  ]

  legacy_resolve_in-IsConsistent :
      (time : ℕ) (type : String) (fs : Fields)
      → Every IsConsistent (legacy_resolve_in id time type fs s)
  unfolding legacy_resolve_in
  legacy_resolve_in-IsConsistent time type fs =
      each IsConsistent (legacy_decision type fs) _ (λ decided.
        elim (Bool-cases (type == type_name Types.hitl_cancelled)) [
          | inl cancelled ↦ rw cancelled (cancel_in-IsConsistent id s ok)
          | inr kept ↦ elim (Option-cases (lookup id s.opened)) [
            | inl absent ↦ rw (kept, absent) (unusable-IsConsistent id s ok)
            | inr (r, found) ↦
                rw (kept, found)
                  (elim decided
                    as (λ o. IsConsistent (elim o [
                      | none ↦ record s { pending = remove id s.pending }
                      | some d ↦ settle_in id d (as_resolved d time true r) s
                    ])) [
                      | none ↦ unusable-IsConsistent id s ok
                      | some d ↦
                          settle_in-IsConsistent id s ok d (as_resolved d time true r)
                            (ok.named id r found) refl
                    ])
          ]
        ])

  apply_to_request-IsConsistent :
      (ev : Event) (fs : Fields) → Every IsConsistent (apply_to_request id ev fs s)
  unfolding apply_to_request
  apply_to_request-IsConsistent ev fs = elim (Bool-cases (ev.type == type_name Types.hitl_opened)) [
    | inl this ↦ rw this (
        each IsConsistent (opened_fields fs) _
          (λ f. open_in-IsConsistent id s ok (request_of id ev f) refl refl))
    | inr other ↦ rw other (elim (Bool-cases (ev.type == type_name Types.hitl_required)) [
      | inl this ↦ rw this (
          each IsConsistent (required_fields (text_of ev.task_id) fs) _
            (λ f. open_in-IsConsistent id s ok (request_of id ev f) refl refl))
      | inr other ↦ rw other (elim (Bool-cases (ev.type == type_name Types.hitl_resolved)) [
        | inl this ↦ rw this (
            each IsConsistent (as_text "" (find "outcome" fs)) _
              (λ outcome. resolve_in-IsConsistent ev.timestamp outcome fs))
        | inr other ↦ rw other (elim (Bool-cases (ev.type == type_name Types.hitl_closed)) [
          | inl this ↦ rw this close_in-IsConsistent
          | inr other ↦
              rw other (elim (Bool-cases (ev.type == type_name Types.hitl_reply_retracted)) [
                | inl this ↦ rw this (retract_in-IsConsistent id s ok)
                | inr other ↦
                    rw other (elim (Bool-cases (mem ev.type (map type_name hitl_resolve_types))) [
                      | inl this ↦ rw this (legacy_resolve_in-IsConsistent ev.timestamp ev.type fs)
                      | inr other ↦ rw other ok
                    ])
              ])
        ])
      ])
    ])
  ]

apply_hitl_event-IsConsistent :
    (ev : Event) (s : HitlSnapshot) → IsConsistent s → Every IsConsistent (apply_hitl_event ev s)
unfolding apply_hitl_event
apply_hitl_event-IsConsistent ev s ok = each IsConsistent (as_dict (some ev.payload)) _ (λ fs.
    each IsConsistent (text_or_empty (find "hitl_id" fs)) _ (λ id. elim (Bool-cases (id == "")) [
      | inl empty ↦ rw empty ok
      | inr given ↦ rw given (apply_to_request-IsConsistent id s ok ev fs)
    ]))

fold_all :
    (evs : List Event) (s : HitlSnapshot)
    → IsConsistent s
    → Every IsConsistent (fold_hitl_snapshot evs s)
unfolding fold_hitl_snapshot
fold_all [] s ok = ok
fold_all (ev ∷ evs) s ok =
    each_bind IsConsistent IsConsistent (apply_hitl_event ev s) (fold_hitl_snapshot evs)
      (apply_hitl_event-IsConsistent ev s ok) (λ t h. fold_all evs t h)

-- Whatever events a log holds, folding it into a snapshot whose accounts agree, the empty one among
-- them, leaves one whose accounts agree: each opened request stands under its own id; a pending request
-- is the one that is opened under its id and has no decision; a resolved request has one; and a decision
-- is cached for a tool call exactly when its owner is noted.
pub fold_hitl_snapshot-IsConsistent :
    (evs : List Event) (s t : HitlSnapshot)
    → IsConsistent s
    → fold_hitl_snapshot evs s ≡ some t
    → IsConsistent t
fold_hitl_snapshot-IsConsistent evs s t ok folded =
    every_result IsConsistent (fold_hitl_snapshot evs s) t (fold_all evs s ok) folded

pub empty_snapshot-IsConsistent : IsConsistent empty_snapshot
unfolding lookup lookup_key
empty_snapshot-IsConsistent = record {
  named = λ id r h. cc;
  waiting = λ id r h. cc;
  settled = λ id r h. cc;
  owned = λ key. refl;
}
