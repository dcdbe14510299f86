-- ===== src/Control/Blob/Snapshots.antt =====
-- src/ctx_weft/core/control/reducers.py, `_hitl_to_blob` and `_hitl_from_blob`: two of the five accounts
-- of the requests are written, and the other three are rebuilt from them.
use ctx_weft.Base.{
  String, ◌≡◌, refl, Option, none, some, Bool, [], ◌∷◌, ◌==◌, not, ◌&&◌, is_some, ◌>>=◌,
  if◌then◌else◌,
}
use ctx_weft.Base.Dict.{Dict, insert, map_values}
use ctx_weft.Base.Value.{Value, Fields, Payload, dict, to_fields, find}
use ctx_weft.Base.Value.Reading.{as_dict, map_fields, read_fields, read_fields-map_fields}
use ctx_weft.Hitl.Contract.{HitlDecision}
use ctx_weft.Hitl.Record.{PendingHitl}
use ctx_weft.Hitl.Snapshot.{HitlSnapshot, DecisionKey, KeyDict, insert_key}
use ctx_weft.Control.Blob.Times.{Times, IsTimes}
use ctx_weft.Control.Blob.Requests.{
  cold, pending_to_blob, pending_from_blob, pending_from_blob-pending_to_blob,
}

-- `m.update(n)`
unfoldable pub update {ℓ} : {V : Type ℓ} → Dict V → Dict V → Dict V
unfolding insert
update m [] = m
update m ((k, v) ∷ n) = update (insert k v m) n

abbrev pub key_of : PendingHitl → DecisionKey
key_of r = record { session_id = r.session_id; tool_call_id = r.tool_call_id; stage = r.stage }

-- Whether a request that is resolved has a decision for a tool call.
unfoldable pub decides_call : PendingHitl → Bool
decides_call r = not (r.tool_call_id == "") && is_some r.decision

-- The loop over `snap.resolved`, for each of the two accounts that it fills.
unfoldable pub index_decisions :
    KeyDict (HitlDecision × Value) → Dict PendingHitl → KeyDict (HitlDecision × Value)
unfolding insert_key
index_decisions m [] = m
index_decisions m ((id, r) ∷ rest) = elim r.decision [
  | none ↦ index_decisions m rest
  | some d ↦
      if r.tool_call_id == ""
      then index_decisions m rest
      else index_decisions (insert_key (key_of r) (d, r.resume_state) m) rest
]

unfoldable pub index_owners : KeyDict String → Dict PendingHitl → KeyDict String
unfolding insert_key decides_call
index_owners m [] = m
index_owners m ((id, r) ∷ rest) =
    index_owners (if decides_call r then insert_key (key_of r) id m else m) rest

-- The snapshot of these pending and these resolved requests.
unfoldable pub rebuild : Dict PendingHitl → Dict PendingHitl → HitlSnapshot
unfolding update index_decisions index_owners
rebuild pending resolved = record {
  opened = update (update [] pending) resolved;
  decision_owner = index_owners [] resolved;
  pending = pending;
  decisions_for = index_decisions [] resolved;
  resolved = resolved;
}

-- A snapshot as it comes back.
unfoldable pub cold_snapshot : HitlSnapshot → HitlSnapshot
unfolding rebuild map_values
cold_snapshot s = rebuild (map_values cold s.pending) (map_values cold s.resolved)

module _ (times : Times) where
  unfoldable pub hitl_entries : HitlSnapshot → Payload
  unfolding map_fields pending_to_blob
  hitl_entries s =
      ("pending", dict (map_fields (pending_to_blob times) s.pending))
      ∷ ("resolved", dict (map_fields (pending_to_blob times) s.resolved))
      ∷ []

  unfoldable pub hitl_to_blob : HitlSnapshot → Value
  unfolding to_fields hitl_entries
  hitl_to_blob s = dict (to_fields (hitl_entries s))

  unfoldable pub hitl_from_blob : Fields → Option HitlSnapshot
  unfolding find as_dict read_fields pending_from_blob rebuild
  hitl_from_blob fs = do
    raw_pending ← as_dict (find "pending" fs)
    pending ← read_fields (pending_from_blob times) raw_pending
    raw_resolved ← as_dict (find "resolved" fs)
    resolved ← read_fields (pending_from_blob times) raw_resolved
    some (rebuild pending resolved)

  pub hitl_from_blob-hitl_entries :
      IsTimes times
      → (s : HitlSnapshot) → hitl_from_blob (to_fields (hitl_entries s)) ≡ some (cold_snapshot s)
  unfolding hitl_entries hitl_from_blob cold_snapshot
  hitl_from_blob-hitl_entries ok s =
      rw
        (
          read_fields-map_fields (pending_to_blob times) (pending_from_blob times) cold
              (pending_from_blob-pending_to_blob times ok) s.pending,
          read_fields-map_fields (pending_to_blob times) (pending_from_blob times) cold
              (pending_from_blob-pending_to_blob times ok) s.resolved,
        )
        refl
