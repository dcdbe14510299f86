-- ===== src/Control/Blob/Requests.antt =====
-- src/ctx_weft/core/control/reducers.py, the requests in the state blob. What a request holds for the
-- process it lives in is not written: its wait slot, a claimed answer that is not committed, and whether
-- it was claimed.
use ctx_weft.Base.{ℕ, ◌≡◌, refl, Option, none, some, false, [], ◌∷◌, ◌>>=◌}
use ctx_weft.Base.Value.{Value, Fields, Payload, null, flag, num, text, list, dict, to_fields, find}
use ctx_weft.Base.Value.Reading.{
  as_text, as_num, as_flag, as_dict, as_list, as_value, required_text, of_dict, to_items,
  from_items-to_items,
}
use ctx_weft.Hitl.Record.{PendingHitl}
use ctx_weft.Control.Blob.Times.{Times, IsTimes, write_time, read_time, read_time-write_time}
use ctx_weft.Control.Blob.Decisions.{
  delivery_to_payload, delivery_from_payload, delivery_from_payload-delivery_to_payload,
  write_decision, read_decision, cold_decided, read_decision-write_decision,
}

-- `int(b.get(key) or 0)`
unfoldable pub count_or_zero : Option Value → Option ℕ
count_or_zero none = some 0
count_or_zero (some null) = some 0
count_or_zero (some (num n)) = some n
count_or_zero (some _) = none

-- `_dt(b.get(key)) or _EPOCH`
unfoldable pub or_epoch : Option ℕ → ℕ
or_epoch none = 0
or_epoch (some t) = t

-- A request as it comes back.
abbrev pub cold : PendingHitl → PendingHitl
cold r = record r {
  decision = cold_decided r.decision;
  pending_decision = none;
  pending_event_payload = null;
  slot = none;
  claimed = false;
}

module _ (times : Times) where
  unfoldable pub pending_entries : PendingHitl → Payload
  pending_entries r =
      ("id", text r.id)
      ∷ ("form", text r.form)
      ∷ ("session_id", text r.session_id)
      ∷ ("task_id", text r.task_id)
      ∷ ("agent_id", text r.agent_id)
      ∷ ("delivery", dict (to_fields (delivery_to_payload r.delivery)))
      ∷ ("created_at", write_time times (some r.created_at))
      ∷ ("tenant_id", text r.tenant_id)
      ∷ ("subject_id", text r.subject_id)
      ∷ ("prompt", text r.prompt)
      ∷ ("detail", text r.detail)
      ∷ ("fields", list (to_items r.fields))
      ∷ ("proposal", r.proposal)
      ∷ ("tool_call_id", text r.tool_call_id)
      ∷ ("stage", text r.stage)
      ∷ ("invocation_key", text r.invocation_key)
      ∷ ("resume_state", r.resume_state)
      ∷ ("reply_as_result", flag r.reply_as_result)
      ∷ ("reply_attempt", num r.reply_attempt)
      ∷ ("resolved_at", write_time times r.resolved_at)
      ∷ ("legacy_origin", flag r.legacy_origin)
      ∷ ("closed", flag r.closed)
      ∷ ("decision", write_decision r.decision)
      ∷ []

  unfoldable pub pending_to_blob : PendingHitl → Value
  unfolding to_fields pending_entries
  pending_to_blob r = dict (to_fields (pending_entries r))

  unfoldable pub pending_from : Fields → Option PendingHitl
  unfolding find as_text as_num as_flag as_dict as_list as_value required_text or_epoch
  pending_from fs = do
    id ← required_text "id" fs
    form ← as_text "" (find "form" fs)
    session_id ← as_text "" (find "session_id" fs)
    task_id ← as_text "" (find "task_id" fs)
    agent_id ← as_text "" (find "agent_id" fs)
    delivery_fields ← as_dict (find "delivery" fs)
    delivery ← delivery_from_payload delivery_fields
    created_at ← read_time times (find "created_at" fs)
    tenant_id ← as_text "default" (find "tenant_id" fs)
    subject_id ← as_text "" (find "subject_id" fs)
    prompt ← as_text "" (find "prompt" fs)
    detail ← as_text "" (find "detail" fs)
    fields ← as_list (find "fields" fs)
    tool_call_id ← as_text "" (find "tool_call_id" fs)
    stage ← as_text "" (find "stage" fs)
    invocation_key ← as_text "" (find "invocation_key" fs)
    reply_as_result ← as_flag false (find "reply_as_result" fs)
    reply_attempt ← count_or_zero (find "reply_attempt" fs)
    resolved_at ← read_time times (find "resolved_at" fs)
    legacy_origin ← as_flag false (find "legacy_origin" fs)
    closed ← as_flag false (find "closed" fs)
    decision ← read_decision (find "decision" fs)
    some (record {
      id = id;
      form = form;
      session_id = session_id;
      task_id = task_id;
      agent_id = agent_id;
      delivery = delivery;
      created_at = or_epoch created_at;
      tenant_id = tenant_id;
      subject_id = subject_id;
      prompt = prompt;
      detail = detail;
      fields = fields;
      proposal = as_value null (find "proposal" fs);
      tool_call_id = tool_call_id;
      stage = stage;
      invocation_key = invocation_key;
      resume_state = as_value null (find "resume_state" fs);
      reply_as_result = reply_as_result;
      decision = decision;
      pending_decision = none;
      pending_event_payload = null;
      reply_attempt = reply_attempt;
      resolved_at = resolved_at;
      slot = none;
      claimed = false;
      legacy_origin = legacy_origin;
      closed = closed;
    })

  unfoldable pub pending_from_blob : Value → Option PendingHitl
  unfolding pending_from of_dict
  pending_from_blob v = of_dict pending_from v

  pub pending_from_blob-pending_to_blob :
      IsTimes times → (r : PendingHitl) → pending_from_blob (pending_to_blob r) ≡ some (cold r)
  unfolding pending_from_blob pending_to_blob count_or_zero
  pending_from_blob-pending_to_blob ok r =
      rw
        (
          delivery_from_payload-delivery_to_payload r.delivery,
          read_time-write_time times ok (some r.created_at),
          from_items-to_items r.fields,
          read_time-write_time times ok r.resolved_at,
          read_decision-write_decision r.decision,
        )
        refl
