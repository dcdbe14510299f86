-- ===== src/Control/Hitl/Closed.antt =====
-- src/ctx_weft/core/control/reducers.py, `fold_hitl_snapshot`: what comes after a request was closed.
use ctx_weft.Base.{
  String, ◌≡◌, refl, sym, ap, subst, ◌∙◌, inl, inr, Option, none, some, true, false, List, [], ◌∷◌,
  All, ◌==◌, eq_refl, Bool-cases, Option-cases, Every, each_bind, every_result,
}
use ctx_weft.Base.Value.{
  Value, Fields, null, flag, num, negative, text, list, dict, find, field_at, is_text,
}
use ctx_weft.Base.Value.Reading.{as_dict, text_or_empty}
use ctx_weft.Hitl.Snapshot.{HitlSnapshot}
use ctx_weft.Event.Record.{Event}
use ctx_weft.Control.Hitl.Fold.{close_in, apply_hitl_event, fold_hitl_snapshot}
use ctx_weft.Control.Hitl.Closing.{Gone, opens, LeavesShut, close_in-Gone, apply_to_request-Gone}

-- A key that is not empty is not the one that is read where there is none.
no_id : (k id : String) → "" ≡ k → (k == "") ≡ false → false ≡ (k == id)
no_id k id empty full = let e : (k == "") ≡ true = ap (λ x. x == "") (sym empty) in absurd (cc)

-- The id in a payload, where the fold finds one.
is_text-id :
    (id k : String) (o : Option Value)
    → text_or_empty o ≡ some k
    → (k == "") ≡ false
    → is_text id (elim o [ none ↦ null | some v ↦ v ]) ≡ (k == id)
unfolding text_or_empty is_text
is_text-id id k none found full = no_id k id (cc) full
is_text-id id k (some null) found full = no_id k id (cc) full
is_text-id id k (some (text s)) found full = let e : s ≡ k = cc in ap (λ x. x == id) e
is_text-id id k (some (flag b)) found full = cc
is_text-id id k (some (num n)) found full = cc
is_text-id id k (some (negative n)) found full = cc
is_text-id id k (some (list vs)) found full = cc
is_text-id id k (some (dict fs)) found full = cc

dict_of :
    (v : Value) (fs : Fields)
    → as_dict (some v) ≡ some fs
    → field_at "hitl_id" v ≡ elim (find "hitl_id" fs) [ none ↦ null | some w ↦ w ]
unfolding as_dict field_at find
dict_of null fs read =
    let e : Fields.end ≡ fs = cc in
    subst (λ x. null ≡ elim (find "hitl_id" x) [ none ↦ null | some w ↦ w ]) e refl
dict_of (dict gs) fs read =
    let e : gs ≡ fs = cc in ap (λ x. elim (find "hitl_id" x) [ none ↦ null | some w ↦ w ]) e
dict_of (flag b) fs read = cc
dict_of (num n) fs read = cc
dict_of (negative n) fs read = cc
dict_of (text t) fs read = cc
dict_of (list vs) fs read = cc

-- An event that opens a request, and leaves this one shut, opens another one.
shut_id :
    (id k : String) (ev : Event) (fs : Fields)
    → as_dict (some ev.payload) ≡ some fs
    → text_or_empty (find "hitl_id" fs) ≡ some k
    → (k == "") ≡ false
    → LeavesShut id ev
    → opens ev ≡ true
    → (k == id) ≡ false
shut_id id k ev fs payload found full shut opening =
    let here : is_text id (field_at "hitl_id" ev.payload) ≡ (k == id) =
      ap (is_text id) (dict_of ev.payload fs payload)
      ∙ is_text-id id k (find "hitl_id" fs) found full in
    sym here ∙ (rw opening at shut)

apply_hitl_event-Gone :
    (id : String) (ev : Event) (s : HitlSnapshot)
    → Gone id s
    → LeavesShut id ev
    → Every (Gone id) (apply_hitl_event ev s)
unfolding apply_hitl_event
apply_hitl_event-Gone id ev s gone shut = elim (Option-cases (as_dict (some ev.payload))) [
  | inl bad ↦ rw bad tt
  | inr (fs, payload) ↦ rw payload (elim (Option-cases (text_or_empty (find "hitl_id" fs))) [
    | inl bad ↦ rw bad tt
    | inr (k, found) ↦ rw found (elim (Bool-cases (k == "")) [
      | inl empty ↦ rw empty gone
      | inr full ↦ rw full (
          apply_to_request-Gone id k s gone ev fs
            (λ o. shut_id id k ev fs payload found full shut o))
    ])
  ])
]

fold_all :
    (id : String) (evs : List Event) (s : HitlSnapshot)
    → Gone id s
    → All (LeavesShut id) evs
    → Every (Gone id) (fold_hitl_snapshot evs s)
unfolding fold_hitl_snapshot
fold_all id [] s gone shut = gone
fold_all id (ev ∷ evs) s gone (first, rest) =
    each_bind (Gone id) (Gone id) (apply_hitl_event ev s) (fold_hitl_snapshot evs)
      (apply_hitl_event-Gone id ev s gone first) (λ t h. fold_all id evs t h rest)

-- A request that was closed stays closed: whatever events follow, if none of them opens a request under
-- its id, then it is neither opened nor pending nor resolved afterwards. An answer or a retraction that
-- comes late does not bring it back.
pub fold_hitl_snapshot-closed :
    (id : String) (evs : List Event) (s t : HitlSnapshot)
    → All (LeavesShut id) evs
    → fold_hitl_snapshot evs (close_in id s) ≡ some t
    → Gone id t
fold_hitl_snapshot-closed id evs s t shut folded =
    every_result (Gone id) (fold_hitl_snapshot evs (close_in id s)) t
      (fold_all id evs (close_in id s) (close_in-Gone id id s (inl (eq_refl id))) shut) folded
