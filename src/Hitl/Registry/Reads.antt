-- ===== src/Hitl/Registry/Reads.antt =====
-- src/ctx_weft/core/hitl/registry.py: the queries of the registry, each on its requests alone.
use ctx_weft.Base.{
  String, Option, none, some, Bool, true, false, not, ◌&&◌, List, [], ◌==◌, select, if◌then◌else◌,
}
use ctx_weft.Base.Dict.{lookup, values}
use ctx_weft.Base.Value.{Value}
use ctx_weft.Hitl.Contract.{HitlDecision}
use ctx_weft.Hitl.Record.{PendingHitl, resolved, effective_decision, claim_pending}
use ctx_weft.Hitl.Registry.{Requests, stage_tool, find_for_tool_call}

unfoldable pub get : String → Requests → Option PendingHitl
unfolding lookup
get hitl_id m = lookup hitl_id m

unfoldable pub resolved_for_tool_call : String → String → Requests → List PendingHitl
unfolding values resolved
resolved_for_tool_call session_id tool_call_id m =
    if tool_call_id == ""
    then []
    else select
        (λ r.
          (r.tool_call_id == tool_call_id)
          && (r.session_id == session_id)
          && resolved r
          && not r.closed)
        (values m)

unfoldable pub result_is_human_reply : String → String → Requests → Bool
unfolding find_for_tool_call
result_is_human_reply session_id tool_call_id m =
    elim (find_for_tool_call session_id tool_call_id stage_tool none m) [
      | none ↦ false
      | some r ↦ r.reply_as_result
    ]

-- The end of `decision_for`, on the request that was found
unfoldable pub cached_decision : Option PendingHitl → Option (HitlDecision × Value)
unfolding effective_decision
cached_decision none = none
cached_decision (some r) = elim (effective_decision r) [
  | none ↦ none
  | some d ↦ some (d, r.resume_state)
]

unfoldable pub decision_for :
    String → String → String → Option String → Requests → Option (HitlDecision × Value)
unfolding find_for_tool_call cached_decision
decision_for session_id tool_call_id stage invocation_key m =
    cached_decision (find_for_tool_call session_id tool_call_id stage invocation_key m)

-- `wanted is None or value == wanted`
unfoldable pub is_or_any : Option String → String → Bool
is_or_any none value = true
is_or_any (some wanted) value = value == wanted

unfoldable pub list_pending : Option String → Option String → Requests → List PendingHitl
unfolding values resolved claim_pending is_or_any
list_pending session_id agent_id m =
    select
      (λ r.
        not (resolved r)
        && not (claim_pending r)
        && is_or_any session_id r.session_id
        && is_or_any agent_id r.agent_id)
      (values m)

unfoldable pub claim_pending_for_session : String → Requests → List PendingHitl
unfolding values claim_pending
claim_pending_for_session session_id m =
    select (λ r. claim_pending r && (r.session_id == session_id)) (values m)

unfoldable pub claim_pending_for_task : String → String → Requests → List PendingHitl
unfolding values claim_pending
claim_pending_for_task session_id task_id m =
    select (λ r. claim_pending r && (r.session_id == session_id) && (r.task_id == task_id))
      (values m)

unfoldable pub resolved_for_session : String → Requests → List PendingHitl
unfolding values resolved
resolved_for_session session_id m =
    select (λ r. resolved r && not r.closed && (r.session_id == session_id)) (values m)
