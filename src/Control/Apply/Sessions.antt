-- ===== src/Control/Apply/Sessions.antt =====
-- src/ctx_weft/core/control/reducers.py, `_apply`: sessions, and their count of failures.
use ctx_weft.Base.{◌+◌, String, Option, none, some, true, false, [], ◌==◌, ◌>>=◌, if◌then◌else◌}
use ctx_weft.Base.Dict.{insert}
use ctx_weft.Base.Value.{Value, Fields, null, text, find, is_text}
use ctx_weft.Base.Value.Reading.{as_text, as_texts, as_value}
use ctx_weft.Content.{Content}
use ctx_weft.Content.Json.{content_from_jsonable}
use ctx_weft.Event.Types
use ctx_weft.Event.Types.{type_name}
use ctx_weft.Event.Record.{Event}
use ctx_weft.Control.Views.{RunStateView, SessionView, TaskView}
use ctx_weft.Control.Apply.Update.{value_at, text_at, with_session, with_task}

unfoldable pub apply_session_created : Event → Fields → RunStateView → Option RunStateView
unfolding find as_text as_value insert
apply_session_created ev fs v = do
  user_prompt ← content_from_jsonable (as_value (text "") (find "user_prompt" fs))
  root_agent_id ← as_text "" (find "root_agent_id" fs)
  llm_model ← as_text "" (find "llm_model" fs)
  llm_account ← as_text "" (find "llm_account" fs)
  tenant_id ← as_text ev.tenant_id (find "tenant_id" fs)
  some (record v {
    sessions =
        insert ev.session_id
          (record {
            id = ev.session_id;
            user_prompt = user_prompt;
            goal = "";
            root_agent_id = root_agent_id;
            llm_model = llm_model;
            llm_account = llm_account;
            tenant_id = tenant_id;
            failure_counter = 0;
            threshold_tripped = false;
            threshold_root_task_ids = [];
            threshold_cancel_task_ids = [];
            created_at = some ev.timestamp;
          })
          v.sessions;
  })

unfoldable pub trip : Fields → SessionView → Option SessionView
unfolding find as_texts
trip fs s = do
  roots ← as_texts (find "root_task_ids" fs)
  cancels ← as_texts (find "cancel_task_ids" fs)
  some (record s {
    threshold_tripped = true;
    threshold_root_task_ids = roots;
    threshold_cancel_task_ids = cancels;
  })

-- `content_from_jsonable(up)`, where `up` is not None
unfoldable pub new_prompt : Value → Content → Option Content
new_prompt null old = some old
new_prompt v old = content_from_jsonable v

unfoldable pub resume_session : Fields → SessionView → Option SessionView
unfolding value_at new_prompt
resume_session fs s = new_prompt (value_at "user_prompt" fs) s.user_prompt >>= λ prompt.
    some (record s {
      failure_counter = 0;
      threshold_tripped = false;
      threshold_root_task_ids = [];
      threshold_cancel_task_ids = [];
      user_prompt = prompt;
    })

abbrev pub filled : String → String → String
filled new old = if new == "" then old else new

-- `RecognizeIntentToolCall` on the task of the event
unfoldable pub name_task : Fields → TaskView → Option TaskView
unfolding find
name_task fs t = do
  title ← text_at "title" fs
  description ← text_at "description" fs
  some (record t { title = filled title t.title; description = filled description t.description })

unfoldable pub with_event_task :
    Option String → (TaskView → Option TaskView) → RunStateView → Option RunStateView
unfolding with_task
with_event_task none f v = some v
with_event_task (some id) f v = if id == "" then some v else with_task id f v

unfoldable pub apply_intent : Event → Fields → RunStateView → Option RunStateView
unfolding find as_text with_session with_event_task name_task
apply_intent ev fs v = do
  goal ← as_text "" (find "session_goal" fs)
  aimed ←
      if goal == ""
      then some v
      else with_session ev.session_id (λ s. some (record s { goal = goal })) v
  with_event_task ev.task_id (name_task fs) aimed

-- The failure counter: a failure counts up unless the threshold is tripped, a success starts anew.
abbrev pub count_failure : SessionView → SessionView
count_failure s =
    if s.threshold_tripped then s else record s { failure_counter = s.failure_counter + 1 }

unfoldable pub count_outcome : String → String → Fields → RunStateView → Option RunStateView
unfolding type_name value_at is_text with_session
count_outcome type session_id fs v =
    let switched = is_text "user_topic_switch" (value_at "reason" fs) in
    if switched
    then some v
    else if type == type_name Types.task_failed
    then with_session session_id (λ s. some (count_failure s)) v
    else if type == type_name Types.task_finished
    then with_session session_id (λ s. some (record s { failure_counter = 0 })) v
    else some v
