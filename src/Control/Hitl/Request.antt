-- ===== src/Control/Hitl/Request.antt =====
-- src/ctx_weft/core/control/reducers.py: the request that an event opens, and the one that an event of an
-- older form opens, without the warnings in the log.
use ctx_weft.Base.{String, Option, none, some, Bool, false, List, not, ◌==◌, if◌then◌else◌, ◌>>=◌}
use ctx_weft.Base.Value.{Value, Fields, null, find}
use ctx_weft.Base.Value.Reading.{
  as_text, as_flag, as_dict, as_list, as_value, text_or_empty, or_null,
}
use ctx_weft.Hitl.Contract.{
  Delivery, tool_result_delivery, user_turn_delivery, no_resume_delivery, preface_normal,
  preface_after_interrupt, preface_after_interrupt_edit,
}
use ctx_weft.Hitl.Record.{PendingHitl}
use ctx_weft.Hitl.Registry.{stage_authz, stage_tool}
use ctx_weft.Event.Record.{Event}
use ctx_weft.Control.Blob.Decisions.{delivery_from_payload}

abbrev pub text_of : Option String → String
text_of none = ""
text_of (some s) = s

-- `a or b`, for texts
abbrev pub or_text : String → String → String
or_text a b = if a == "" then b else a

-- `_LEGACY_PREFACE.get(context, PREFACE_NORMAL)`
unfoldable pub legacy_preface : String → String
legacy_preface context =
    if context == "plain_text"
    then preface_normal
    else if context == "interrupt"
    then preface_after_interrupt
    else if context == "interrupt:edit"
    then preface_after_interrupt_edit
    else preface_normal

-- `_legacy_delivery(form, tool_call_id, context, task_id)`
unfoldable pub legacy_delivery : String → String → String → String → Delivery
unfolding legacy_preface
legacy_delivery form tool_call_id context task_id =
    if form == "wait"
    then user_turn_delivery task_id (legacy_preface context)
    else if not (tool_call_id == "")
    then tool_result_delivery tool_call_id
    else no_resume_delivery

-- The keyword arguments that stand in a payload.
pub record RequestFields : Type 0 where
  pub form : String
  pub agent_id : String
  pub delivery : Delivery
  pub subject_id : String
  pub prompt : String
  pub detail : String
  pub fields : List Value
  pub proposal : Value
  pub tool_call_id : String
  pub stage : String
  pub invocation_key : String
  pub resume_state : Value
  pub reply_as_result : Bool

-- `PendingHitl(id=rid, session_id=ev.session_id, …)`
unfoldable pub request_of : String → Event → RequestFields → PendingHitl
request_of id ev f = record {
  id = id;
  form = f.form;
  session_id = ev.session_id;
  task_id = text_of ev.task_id;
  agent_id = or_text f.agent_id (text_of ev.agent_id);
  delivery = f.delivery;
  created_at = ev.timestamp;
  tenant_id = ev.tenant_id;
  subject_id = f.subject_id;
  prompt = f.prompt;
  detail = f.detail;
  fields = f.fields;
  proposal = f.proposal;
  tool_call_id = f.tool_call_id;
  stage = f.stage;
  invocation_key = f.invocation_key;
  resume_state = f.resume_state;
  reply_as_result = f.reply_as_result;
  decision = none;
  pending_decision = none;
  pending_event_payload = null;
  reply_attempt = 0;
  resolved_at = none;
  slot = none;
  claimed = false;
  legacy_origin = false;
  closed = false;
}

-- The payload of a `HitlOpened`.
unfoldable pub opened_fields : Fields → Option RequestFields
unfolding find as_text as_flag as_dict as_list as_value text_or_empty
opened_fields fs = do
  form ← as_text "" (find "form" fs)
  agent_id ← text_or_empty (find "agent_id" fs)
  delivery_fields ← as_dict (find "delivery" fs)
  delivery ← delivery_from_payload delivery_fields
  subject_id ← as_text "" (find "subject_id" fs)
  prompt ← as_text "" (find "prompt" fs)
  detail ← as_text "" (find "detail" fs)
  fields ← as_list (find "fields" fs)
  tool_call_id ← as_text "" (find "tool_call_id" fs)
  stage ← as_text "" (find "stage" fs)
  invocation_key ← as_text "" (find "invocation_key" fs)
  reply_as_result ← as_flag false (find "reply_as_result" fs)
  some (record {
    form = form;
    agent_id = agent_id;
    delivery = delivery;
    subject_id = subject_id;
    prompt = prompt;
    detail = detail;
    fields = fields;
    proposal = as_value null (find "proposal" fs);
    tool_call_id = tool_call_id;
    stage = stage;
    invocation_key = invocation_key;
    resume_state = as_value null (find "resume_state" fs);
    reply_as_result = reply_as_result;
  })

-- The payload of a `HitlRequired`, for the task of the event.
unfoldable pub required_fields : String → Fields → Option RequestFields
unfolding find as_text as_list as_value text_or_empty or_null legacy_delivery
required_fields task_id fs = do
  form ← as_text "approval" (find "form" fs)
  tool_call_id ← as_text "" (find "tool_call_id" fs)
  agent_id ← text_or_empty (find "agent_id" fs)
  context ← as_text "" (find "context" fs)
  subject_id ← as_text "" (find "capability_id" fs)
  prompt ← as_text "" (find "question" fs)
  fields ← as_list (find "questions" fs)
  some (record {
    form = form;
    agent_id = agent_id;
    delivery = legacy_delivery form tool_call_id context task_id;
    subject_id = subject_id;
    prompt = prompt;
    detail = if form == "wait" then "" else context;
    fields = fields;
    proposal = or_null (as_value null (find "arguments" fs));
    tool_call_id = tool_call_id;
    stage = if form == "approval" then stage_authz else stage_tool;
    invocation_key = "";
    resume_state = null;
    reply_as_result = form == "question";
  })
