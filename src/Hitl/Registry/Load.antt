-- ===== src/Hitl/Registry/Load.antt =====
-- src/ctx_weft/core/hitl/registry.py, `load_snapshot`: the folded requests of a log, put back in
-- memory. Each loop runs over the items of a dictionary in their order.
--
-- The registry keeps the objects of the snapshot themselves, and writes to them. So where the registry
-- has one of them already, as when the same snapshot is loaded twice, a write to it is a write to the
-- live request. `shared` is the list of the ids under which the snapshot and the registry hold the same
-- object; under any other id they hold two. The pending and the resolved requests of a snapshot are
-- different objects.
use ctx_weft.Base.{
  String, mem, ℕ, Option, none, some, Bool, false, not, List, [], ◌∷◌, length, if◌then◌else◌,
}
use Prim.Native.String.{◌++◌}
use ctx_weft.Base.Dict.{Dict, lookup, insert, set_default}
use ctx_weft.Base.Value.{Value, null}
use ctx_weft.Hitl.Contract.{HitlDecision, no_resume_delivery}
use ctx_weft.Hitl.Record.{PendingHitl, resolved}
use ctx_weft.Hitl.Snapshot.{DecisionKey, HitlSnapshot}
use ctx_weft.Hitl.Registry.{Requests, find_for_tool_call, key_or_none}

-- An entry of `decisions_for`.
abbrev pub CachedDecision : Type 0
CachedDecision = DecisionKey × (HitlDecision × Value)

-- `f` written to the object of the snapshot under `hitl_id`, as the registry sees it, and the object
-- put into the registry if the id is free
unfoldable pub write_shared :
    List String → String → (PendingHitl → PendingHitl) → PendingHitl → Requests → Requests
unfolding mem lookup insert set_default
write_shared shared hitl_id f r m =
    if mem hitl_id shared
    then (elim (lookup hitl_id m) [
      | some live ↦ insert hitl_id (f live) m
      | none ↦ set_default hitl_id (f r) m
    ])
    else set_default hitl_id (f r) m

-- `req.slot = None`
unfoldable pub without_slot : PendingHitl → PendingHitl
without_slot r = record r { slot = none }

unfoldable pub load_pending : List String → Dict PendingHitl → Requests → Requests
unfolding write_shared without_slot
load_pending shared [] m = m
load_pending shared ((hitl_id, r) ∷ rest) m =
    load_pending shared rest (write_shared shared hitl_id without_slot r m)

-- A live request that waits is not to be covered by an old decision.
unfoldable pub waits : Option PendingHitl → Bool
unfolding resolved
waits none = false
waits (some live) = not (resolved live)

-- `_EPOCH` is the time 0.
unfoldable pub or_epoch : Option ℕ → Option ℕ
or_epoch none = some 0
or_epoch (some t) = some t

-- `req.slot = None`, and a time for a request that has none
unfoldable pub loaded : PendingHitl → PendingHitl
unfolding or_epoch
loaded r = record r { slot = none; resolved_at = or_epoch r.resolved_at }

unfoldable pub load_resolved : List String → Dict PendingHitl → Requests → Requests
unfolding write_shared loaded find_for_tool_call key_or_none waits
load_resolved shared [] m = m
load_resolved shared ((hitl_id, r) ∷ rest) m =
    let live =
      find_for_tool_call r.session_id r.tool_call_id r.stage (key_or_none r.invocation_key) m in
    load_resolved shared rest (if waits live then m else write_shared shared hitl_id loaded r m)

unfoldable pub placeholder : CachedDecision → PendingHitl
placeholder (key, (decision, resume_state)) = record {
  id = "loaded:" ++ key.session_id ++ ":" ++ key.stage ++ ":" ++ key.tool_call_id;
  form = "";
  session_id = key.session_id;
  task_id = "";
  agent_id = "";
  delivery = no_resume_delivery;
  created_at = 0;
  tenant_id = "default";
  subject_id = "";
  prompt = "";
  detail = "";
  fields = [];
  proposal = null;
  tool_call_id = key.tool_call_id;
  stage = key.stage;
  invocation_key = "";
  resume_state = resume_state;
  reply_as_result = false;
  decision = some decision;
  pending_decision = none;
  pending_event_payload = null;
  reply_attempt = 0;
  resolved_at = none;
  slot = none;
  claimed = false;
  legacy_origin = false;
  closed = false;
}

unfoldable pub load_decisions : List CachedDecision → Requests → Requests
unfolding insert find_for_tool_call placeholder
load_decisions [] m = m
load_decisions (c ∷ rest) m =
    load_decisions rest
      (elim (find_for_tool_call c.0.session_id c.0.tool_call_id c.0.stage none m) [
        | some live ↦ m
        | none ↦ insert (placeholder c).id (placeholder c) m
      ])

unfoldable pub load_snapshot : List String → HitlSnapshot → Requests → ℕ × Requests
unfolding load_pending load_resolved load_decisions
load_snapshot shared snapshot m = (
  length snapshot.pending,
  load_decisions snapshot.decisions_for
      (load_resolved shared snapshot.resolved (load_pending shared snapshot.pending m)),
)
