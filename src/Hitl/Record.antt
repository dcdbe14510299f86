-- ===== src/Hitl/Record.antt =====
-- src/ctx_weft/core/hitl/registry.py: the live record of a request, and its derived properties. A wait
-- slot is the number of its object: the registry stores it and hands it out, and never calls it.
use ctx_weft.Base.{ℕ, String, Option, none, some, Bool, List, is_some}
use ctx_weft.Base.Value.{Value}
use ctx_weft.Hitl.Contract.{Delivery, HitlDecision, HitlRequestView}

pub record PendingHitl : Type 0 where
  pub id : String
  pub form : String
  pub session_id : String
  pub task_id : String
  pub agent_id : String
  pub delivery : Delivery
  pub created_at : ℕ
  pub tenant_id : String
  pub subject_id : String
  pub prompt : String
  pub detail : String
  pub fields : List Value
  pub proposal : Value
  pub tool_call_id : String
  pub stage : String
  pub invocation_key : String
  pub resume_state : Value
  pub reply_as_result : Bool
  pub decision : Option HitlDecision
  pub pending_decision : Option HitlDecision
  pub pending_event_payload : Value
  pub reply_attempt : ℕ
  pub resolved_at : Option ℕ
  pub slot : Option ℕ
  pub claimed : Bool
  pub legacy_origin : Bool
  pub closed : Bool

unfoldable pub resolved : PendingHitl → Bool
resolved r = is_some r.decision

-- `self.decision or self.pending_decision`: a decision is an object, so it counts as true.
unfoldable pub effective_decision : PendingHitl → Option HitlDecision
effective_decision r = elim r.decision [ some d ↦ some d | none ↦ r.pending_decision ]

unfoldable pub claim_pending : PendingHitl → Bool
claim_pending r = is_some r.pending_decision

unfoldable pub to_view : PendingHitl → HitlRequestView
unfolding effective_decision
to_view r = record {
  id = r.id;
  form = r.form;
  session_id = r.session_id;
  task_id = r.task_id;
  created_at = r.created_at;
  agent_id = r.agent_id;
  subject_id = r.subject_id;
  prompt = r.prompt;
  detail = r.detail;
  fields = r.fields;
  proposal = r.proposal;
  outcome = elim (effective_decision r) [ some d ↦ d.outcome | none ↦ "" ];
  delivery = r.delivery;
  resolved_at = r.resolved_at;
}
