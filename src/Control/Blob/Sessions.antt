-- ===== src/Control/Blob/Sessions.antt =====
-- src/ctx_weft/core/control/reducers.py: the entries of `serialize_view` and `deserialize_view` for
-- sessions.
use ctx_weft.Base.{◌≡◌, refl, Option, some, false, [], ◌∷◌, ◌>>=◌}
use ctx_weft.Base.Value.{
  Value, Fields, Payload, flag, num, text, list, dict, texts, to_fields, find,
}
use ctx_weft.Base.Value.Reading.{
  as_text, as_num, as_flag, as_texts, as_value, required_text, optional_text, of_dict,
  of_items-texts,
}
use ctx_weft.Content.Json.{
  content_to_jsonable, content_from_jsonable, content_from_jsonable-content_to_jsonable,
}
use ctx_weft.Control.Views.{SessionView}
use ctx_weft.Control.Blob.Times.{Times, IsTimes, write_time, read_time, read_time-write_time}

module _ (times : Times) where
  unfoldable pub session_entries : SessionView → Payload
  unfolding optional_text
  session_entries s =
      ("id", text s.id)
      ∷ ("user_prompt", content_to_jsonable s.user_prompt)
      ∷ ("goal", text s.goal)
      ∷ ("root_agent_id", text s.root_agent_id)
      ∷ ("llm_model", text s.llm_model)
      ∷ ("llm_account", text s.llm_account)
      ∷ ("tenant_id", text s.tenant_id)
      ∷ ("failure_counter", num s.failure_counter)
      ∷ ("threshold_tripped", flag s.threshold_tripped)
      ∷ ("threshold_root_task_ids", list (texts s.threshold_root_task_ids))
      ∷ ("threshold_cancel_task_ids", list (texts s.threshold_cancel_task_ids))
      ∷ ("created_at", write_time times s.created_at)
      ∷ []

  unfoldable pub write_session : SessionView → Value
  unfolding to_fields session_entries
  write_session s = dict (to_fields (session_entries s))

  unfoldable pub session_from : Fields → Option SessionView
  unfolding find as_text as_num as_flag as_texts required_text as_value
  session_from fs = do
    id ← required_text "id" fs
    user_prompt ← content_from_jsonable (as_value (text "") (find "user_prompt" fs))
    goal ← as_text "" (find "goal" fs)
    root_agent_id ← as_text "" (find "root_agent_id" fs)
    llm_model ← as_text "" (find "llm_model" fs)
    llm_account ← as_text "" (find "llm_account" fs)
    tenant_id ← as_text "default" (find "tenant_id" fs)
    failure_counter ← as_num 0 (find "failure_counter" fs)
    threshold_tripped ← as_flag false (find "threshold_tripped" fs)
    roots ← as_texts (find "threshold_root_task_ids" fs)
    cancels ← as_texts (find "threshold_cancel_task_ids" fs)
    created_at ← read_time times (find "created_at" fs)
    some (record {
      id = id;
      user_prompt = user_prompt;
      goal = goal;
      root_agent_id = root_agent_id;
      llm_model = llm_model;
      llm_account = llm_account;
      tenant_id = tenant_id;
      failure_counter = failure_counter;
      threshold_tripped = threshold_tripped;
      threshold_root_task_ids = roots;
      threshold_cancel_task_ids = cancels;
      created_at = created_at;
    })

  unfoldable pub read_session : Value → Option SessionView
  unfolding session_from of_dict
  read_session v = of_dict session_from v

  pub read_session-write_session :
      IsTimes times → (s : SessionView) → read_session (write_session s) ≡ some s
  unfolding read_session write_session
  read_session-write_session ok s =
      rw
        (
          content_from_jsonable-content_to_jsonable s.user_prompt,
          of_items-texts s.threshold_root_task_ids,
          of_items-texts s.threshold_cancel_task_ids,
          read_time-write_time times ok s.created_at,
        )
        refl
