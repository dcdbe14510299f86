-- ===== src/Hitl/Registry.antt =====
-- src/ctx_weft/core/hitl/registry.py: the state machine of the requests, in memory. A request is
-- changed in place, so a method that changes one writes it back under its key; what a method returns
-- stands before the registry after it. The bound on the resolved requests is an argument of `gc`.

pub mod Reads
pub mod Forget
pub mod Load
use ctx_weft.Base.{
  ℕ, ◌+◌, ◌-◌, String, Option, none, some, Bool, true, false, not, ◌&&◌, ◌||◌, List, [], ◌∷◌, ◌==◌,
  select, any, take, length, map, ltb, leb, eqb, is_some, nonempty, if◌then◌else◌,
}
use ctx_weft.Base.Dict.{Dict, lookup, insert, remove, set_default, values}
use ctx_weft.Base.Value.{Value, null}
use ctx_weft.Hitl.Contract.{Delivery, no_resume_delivery, HitlAsk, HitlDecision}
use ctx_weft.Hitl.Record.{PendingHitl, resolved, effective_decision, claim_pending}

-- `self._requests`
abbrev pub Requests : Type 0
Requests = Dict PendingHitl

abbrev pub stage_authz : String
stage_authz = "authz"

abbrev pub stage_tool : String
stage_tool = "tool"

abbrev pub stage_rerun : String
stage_rerun = "rerun"

-- A test of `find_for_tool_call`.
unfoldable pub is_for : String → String → String → Option String → PendingHitl → Bool
is_for session_id tool_call_id stage invocation_key r =
    (r.tool_call_id == tool_call_id)
    && (r.session_id == session_id)
    && (r.stage == stage)
    && (elim invocation_key [
      | none ↦ true
      | some key ↦ r.invocation_key == "" || r.invocation_key == key
    ])

-- `max(matches, key=lambda r: r.created_at)`: of equals, the first.
unfoldable pub newest : PendingHitl → List PendingHitl → PendingHitl
newest best [] = best
newest best (r ∷ rs) = newest (if ltb best.created_at r.created_at then r else best) rs

unfoldable pub newest_of : List PendingHitl → Option PendingHitl
unfolding newest
newest_of [] = none
newest_of (r ∷ rs) = some (newest r rs)

unfoldable pub find_for_tool_call :
    String → String → String → Option String → Requests → Option PendingHitl
unfolding newest_of is_for values
find_for_tool_call session_id tool_call_id stage invocation_key m =
    if tool_call_id == ""
    then none
    else newest_of (select (is_for session_id tool_call_id stage invocation_key) (values m))

-- `invocation_key or None`
unfoldable pub key_or_none : String → Option String
key_or_none key = if key == "" then none else some key

-- The arguments of `open` by name.
pub record Opening : Type 0 where
  pub hitl_id : String
  pub session_id : String
  pub task_id : String
  pub agent_id : String
  pub tool_call_id : String
  pub stage : String
  pub created_at : ℕ
  pub invocation_key : String
  pub tenant_id : String

-- The request that `open` makes.
unfoldable pub fresh_request : HitlAsk → Opening → PendingHitl
fresh_request ask o = record {
  id = o.hitl_id;
  form = ask.form;
  session_id = o.session_id;
  task_id = o.task_id;
  agent_id = o.agent_id;
  delivery = ask.delivery;
  created_at = o.created_at;
  tenant_id = o.tenant_id;
  subject_id = ask.subject_id;
  prompt = ask.prompt;
  detail = ask.detail;
  fields = ask.fields;
  proposal = ask.proposal;
  tool_call_id = o.tool_call_id;
  stage = o.stage;
  invocation_key = o.invocation_key;
  resume_state = ask.resume_state;
  reply_as_result = ask.reply_as_result;
  decision = none;
  pending_decision = none;
  pending_event_payload = null;
  reply_attempt = 0;
  resolved_at = none;
  slot = none;
  claimed = false;
  legacy_origin = false;
  closed = false;
}

-- `open`
unfoldable pub open_request : HitlAsk → Opening → Requests → PendingHitl × Requests
unfolding fresh_request insert
open_request ask o m =
    elim (find_for_tool_call o.session_id o.tool_call_id o.stage (key_or_none o.invocation_key) m) [
      | some existing ↦ (existing, m)
      | none ↦ (fresh_request ask o, insert o.hitl_id (fresh_request ask o) m)
    ]

unfoldable pub publish : PendingHitl → Requests → PendingHitl × Requests
unfolding lookup set_default
publish r m = (elim (lookup r.id m) [ some there ↦ there | none ↦ r ], set_default r.id r m)

unfoldable pub attach_slot : String → ℕ → Requests → Requests
unfolding lookup insert
attach_slot hitl_id slot m = elim (lookup hitl_id m) [
  | none ↦ m
  | some r ↦ insert hitl_id (record r { slot = some slot }) m
]

unfoldable pub detach_slot : String → Requests → Requests
unfolding lookup insert
detach_slot hitl_id m = elim (lookup hitl_id m) [
  | none ↦ m
  | some r ↦ insert hitl_id (record r { slot = none }) m
]

abbrev pub Taken : Type 0
Taken = Option (PendingHitl × Option ℕ)

-- What `resolve` does to a request
unfoldable pub resolve_request : HitlDecision → ℕ → PendingHitl → PendingHitl
resolve_request decision resolved_at r = record r {
  decision = some decision;
  resolved_at = some resolved_at;
  slot = none;
}

unfoldable pub resolve : String → HitlDecision → ℕ → Requests → Taken × Requests
unfolding lookup insert resolved resolve_request
resolve hitl_id decision resolved_at m = elim (lookup hitl_id m) [
  | none ↦ (none, m)
  | some r ↦
      let r' = resolve_request decision resolved_at r in
      if resolved r then (none, m) else (some (r', r.slot), insert hitl_id r' m)
]

unfoldable pub claim_request : HitlDecision → Value → PendingHitl → PendingHitl
claim_request decision event_payload r = record r {
  pending_decision = some decision;
  pending_event_payload = event_payload;
  slot = none;
}

unfoldable pub claim : String → HitlDecision → Value → Requests → Taken × Requests
unfolding lookup insert resolved claim_pending claim_request
claim hitl_id decision event_payload m = elim (lookup hitl_id m) [
  | none ↦ (none, m)
  | some r ↦
      let r' = claim_request decision event_payload r in
      if resolved r || claim_pending r then (none, m) else (some (r', r.slot), insert hitl_id r' m)
]

unfoldable pub commit_request : ℕ → PendingHitl → PendingHitl
commit_request resolved_at r = record r {
  decision = r.pending_decision;
  pending_decision = none;
  resolved_at = some resolved_at;
}

unfoldable pub commit_claim : String → ℕ → Requests → Option PendingHitl × Requests
unfolding lookup insert resolved claim_pending commit_request
commit_claim hitl_id resolved_at m = elim (lookup hitl_id m) [
  | none ↦ (none, m)
  | some r ↦
      let r' = commit_request resolved_at r in
      if resolved r || not (claim_pending r) then (none, m) else (some r', insert hitl_id r' m)
]

unfoldable pub uncommit_request : PendingHitl → PendingHitl
uncommit_request r = record r { pending_decision = r.decision; decision = none; resolved_at = none }

unfoldable pub uncommit_claim : String → Requests → Option PendingHitl × Requests
unfolding lookup insert resolved claim_pending uncommit_request
uncommit_claim hitl_id m = elim (lookup hitl_id m) [
  | none ↦ (none, m)
  | some r ↦
      let r' = uncommit_request r in
      if not (resolved r) || claim_pending r then (none, m) else (some r', insert hitl_id r' m)
]

unfoldable pub release_request : PendingHitl → PendingHitl
release_request r = record r {
  pending_decision = none;
  pending_event_payload = null;
  claimed = false;
  reply_attempt = r.reply_attempt + 1;
}

unfoldable pub release_claim : String → Requests → Option PendingHitl × Requests
unfolding lookup insert resolved claim_pending release_request
release_claim hitl_id m = elim (lookup hitl_id m) [
  | none ↦ (none, m)
  | some r ↦
      let r' = release_request r in
      if resolved r || not (claim_pending r) then (none, m) else (some r', insert hitl_id r' m)
]

unfoldable pub mark_closed : String → Requests → Bool × Requests
unfolding lookup insert
mark_closed hitl_id m = elim (lookup hitl_id m) [
  | none ↦ (false, m)
  | some r ↦ if r.closed then (false, m) else (true, insert hitl_id (record r { closed = true }) m)
]
