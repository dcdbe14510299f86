-- ===== src/Control/Hitl/Fold.antt =====
-- src/ctx_weft/core/control/reducers.py, `fold_hitl_snapshot`. The source keeps one object in several of
-- the dictionaries: what it changes in a request is written here to each dictionary that holds it.
use ctx_weft.Base.{
  ℕ, ◌+◌, String, Option, none, some, Bool, true, false, List, [], ◌∷◌, map, mem, ◌==◌,
  if◌then◌else◌, ◌>>=◌,
}
use ctx_weft.Base.Dict.{lookup, insert, remove}
use ctx_weft.Base.Value.{Fields, null, text, find}
use ctx_weft.Base.Value.Reading.{as_text, as_dict, as_value, text_or_empty, or_empty_text}
use ctx_weft.Content.Json.{content_from_jsonable}
use ctx_weft.Hitl.Contract.{HitlDecision}
use ctx_weft.Hitl.Record.{PendingHitl}
use ctx_weft.Hitl.Snapshot.{HitlSnapshot, DecisionKey, lookup_key, insert_key, remove_key}
use ctx_weft.Event.Types
use ctx_weft.Event.Types.{EventType, type_name}
use ctx_weft.Event.Record.{Event}
use ctx_weft.Control.Blob.Snapshots.{key_of}
use ctx_weft.Control.Hitl.Legacy.{outcome_cancelled, legacy_decision}
use ctx_weft.Control.Hitl.Request.{text_of, request_of, opened_fields, required_fields}

-- `opened[rid] = req` and `snap.pending[rid] = req`
unfoldable pub open_in : String → PendingHitl → HitlSnapshot → HitlSnapshot
unfolding insert
open_in id r s = record s { opened = insert id r s.opened; pending = insert id r s.pending }

-- `_as_resolved(req, decision, resolved_at, legacy=…)`
abbrev pub as_resolved : HitlDecision → ℕ → Bool → PendingHitl → PendingHitl
as_resolved d time legacy r = record r {
  decision = some d;
  resolved_at = some time;
  slot = none;
  legacy_origin = legacy;
}

-- A request, its decision, and the cache of decisions where it answers a tool call.
unfoldable pub settle_in : String → HitlDecision → PendingHitl → HitlSnapshot → HitlSnapshot
unfolding insert remove insert_key
settle_in id d r s = record s {
  opened = insert id r s.opened;
  pending = remove id s.pending;
  resolved = insert id r s.resolved;
  decisions_for =
      if r.tool_call_id == ""
      then s.decisions_for
      else insert_key (key_of r) (d, r.resume_state) s.decisions_for;
  decision_owner =
      if r.tool_call_id == "" then s.decision_owner else insert_key (key_of r) id s.decision_owner;
}

-- A request that is cancelled is gone from what is opened.
unfoldable pub cancel_in : String → HitlSnapshot → HitlSnapshot
unfolding remove
cancel_in id s = record s { opened = remove id s.opened; pending = remove id s.pending }

-- Whether the cached decision under a request's key is that of the request.
unfoldable pub owns_decision : String → PendingHitl → HitlSnapshot → Bool
unfolding lookup_key
owns_decision id r s =
    if r.tool_call_id == ""
    then false
    else (elim (lookup_key (key_of r) s.decision_owner) [ none ↦ false | some owner ↦ owner == id ])

unfoldable pub drop_decision : Bool → DecisionKey → HitlSnapshot → HitlSnapshot
unfolding remove_key
drop_decision owned key s =
    if owned
    then record s {
      decisions_for = remove_key key s.decisions_for;
      decision_owner = remove_key key s.decision_owner;
    }
    else s

-- The branch for a `HitlClosed`.
unfoldable pub close_in : String → HitlSnapshot → HitlSnapshot
unfolding lookup remove owns_decision drop_decision
close_in id s =
    let rest = record s {
      pending = remove id s.pending;
      resolved = remove id s.resolved;
      opened = remove id s.opened;
    } in
    elim (lookup id s.opened) [
      | none ↦ rest
      | some r ↦ drop_decision (owns_decision id r s) (key_of r) rest
    ]

abbrev pub reopened : PendingHitl → PendingHitl
reopened r = record r { decision = none; resolved_at = none; reply_attempt = r.reply_attempt + 1 }

-- The branch for a `HitlReplyRetracted`.
unfoldable pub retract_in : String → HitlSnapshot → HitlSnapshot
unfolding lookup insert remove
retract_in id s = elim (lookup id s.opened) [
  | none ↦ s
  | some r ↦ record s {
    opened = insert id (reopened r) s.opened;
    pending = insert id (reopened r) s.pending;
    resolved = remove id s.resolved;
  }
]

-- The decision of a `HitlResolved`.
unfoldable pub resolved_decision : String → Fields → Option HitlDecision
unfolding find as_value or_empty_text
resolved_decision outcome fs = do
  message ← content_from_jsonable (or_empty_text (as_value (text "") (find "message" fs)))
  some (record {
    outcome = outcome;
    message = message;
    modified_arguments = as_value null (find "modified_arguments" fs);
  })

-- The branch for a `HitlResolved` with this outcome.
unfoldable pub resolve_in : String → ℕ → String → Fields → HitlSnapshot → Option HitlSnapshot
unfolding lookup resolved_decision cancel_in settle_in
resolve_in id time outcome fs s = elim (lookup id s.opened) [
  | none ↦ some s
  | some r ↦
      if outcome == ""
      then some s
      else (resolved_decision outcome fs >>= λ d. some (
          if outcome == outcome_cancelled
          then cancel_in id s
          else settle_in id d (as_resolved d time false r) s))
]

-- The branch for the types of an older form that end a request; `type` is that of the event.
unfoldable pub legacy_resolve_in : String → ℕ → String → Fields → HitlSnapshot → Option HitlSnapshot
unfolding lookup remove cancel_in settle_in legacy_decision type_name
legacy_resolve_in id time type fs s = legacy_decision type fs >>= λ decided. some (
    if type == type_name Types.hitl_cancelled then cancel_in id s else (elim (lookup id s.opened) [
      | none ↦ record s { pending = remove id s.pending }
      | some r ↦ elim decided [
        | none ↦ record s { pending = remove id s.pending }
        | some d ↦ settle_in id d (as_resolved d time true r) s
      ]
    ]))

-- `_HITL_RESOLVE_TYPES`
abbrev pub hitl_resolve_types : List EventType
hitl_resolve_types =
    Types.hitl_approved ∷ Types.hitl_modified ∷ Types.hitl_answered ∷ Types.hitl_rejected
    ∷ Types.hitl_cancelled ∷ []

-- The body of the loop, for an event with a request's id.
unfoldable pub apply_to_request : String → Event → Fields → HitlSnapshot → Option HitlSnapshot
unfolding find as_text opened_fields required_fields request_of open_in resolve_in close_in
    retract_in legacy_resolve_in mem type_name
apply_to_request id ev fs s =
    if ev.type == type_name Types.hitl_opened
    then (opened_fields fs >>= λ f. some (open_in id (request_of id ev f) s))
    else if ev.type == type_name Types.hitl_required
    then (required_fields (text_of ev.task_id) fs >>= λ f. some (open_in id (request_of id ev f) s))
    else if ev.type == type_name Types.hitl_resolved
    then (as_text "" (find "outcome" fs) >>= λ outcome. resolve_in id ev.timestamp outcome fs s)
    else if ev.type == type_name Types.hitl_closed
    then some (close_in id s)
    else if ev.type == type_name Types.hitl_reply_retracted
    then some (retract_in id s)
    else if mem ev.type (map type_name hitl_resolve_types)
    then legacy_resolve_in id ev.timestamp ev.type fs s
    else some s

-- `apply_hitl_event(ev, snap)`
unfoldable pub apply_hitl_event : Event → HitlSnapshot → Option HitlSnapshot
unfolding find as_dict text_or_empty apply_to_request
apply_hitl_event ev s = as_dict (some ev.payload) >>= λ fs.
    text_or_empty (find "hitl_id" fs) >>= λ id.
    if id == "" then some s else apply_to_request id ev fs s

-- `fold_hitl_snapshot(events, snap)`
unfoldable pub fold_hitl_snapshot : List Event → HitlSnapshot → Option HitlSnapshot
unfolding apply_hitl_event
fold_hitl_snapshot [] s = some s
fold_hitl_snapshot (ev ∷ evs) s = apply_hitl_event ev s >>= λ next. fold_hitl_snapshot evs next
