-- ===== src/Control/Apply/Growth/Branches.antt =====
-- src/ctx_weft/core/control/reducers.py, `_apply`: every branch grows the view.
use ctx_weft.Base.{
  ℕ, String, ◌≡◌, refl, inl, inr, Option, none, some, arith, ◌==◌, not, ◌&&◌, Bool-cases,
  Option-cases, Every, each, if◌then◌else◌,
}
use ctx_weft.Base.Dict.{lookup}
use ctx_weft.Base.Value.{Fields, text, find, is_text}
use ctx_weft.Base.Value.Reading.{as_text, as_num, as_optional, as_value, text_or_empty}
use ctx_weft.Content.Json.{content_from_jsonable}
use ctx_weft.Event.Record.{Event}
use ctx_weft.Event.Types
use ctx_weft.Event.Types.{type_name}
use ctx_weft.Control.Views.{RunStateView, TaskView, AgentView}
use ctx_weft.Control.Apply.Update.{value_at, with_session, with_task}
use ctx_weft.Control.Apply.Observe.{touch_info, touch_owner, abandon, apply_observe}
use ctx_weft.Control.Apply.Runs.{
  touch_run, apply_step, apply_run_started, apply_run_finished, apply_prepared, apply_turn,
}
use ctx_weft.Control.Apply.Sessions.{
  apply_session_created, name_task, with_event_task, apply_intent, count_failure, count_outcome,
}
use ctx_weft.Control.Apply.Agents.{
  fill_slot, apply_instantiated, apply_llm_changed, blame_task, blame,
}
use ctx_weft.Control.Apply.Growth.{
  Keeps, IsGrowth, same-IsGrowth, self-IsGrowth, trans-IsGrowth, chain-IsGrowth, if-IsGrowth,
  with_session-IsGrowth, with_task-IsGrowth, with_slot-IsGrowth,
}

-- The fields that growth is about are those of `v`.
abbrev pub Same : RunStateView → RunStateView → Type 0
Same v w = (w.tasks ≡ v.tasks) × (w.tasks_total ≡ v.tasks_total) × (w.agents ≡ v.agents)

pub grow_alike : (v w : RunStateView) → Same v w → IsGrowth v w
grow_alike v w (tasks, total, agents) = same-IsGrowth v w tasks total agents

pub touch_run-Same : (o : Option String) (n : ℕ) (v : RunStateView) → Same v (touch_run o n v)
unfolding touch_run
touch_run-Same none n v = (refl, refl, refl)
touch_run-Same (some id) n v = elim (Option-cases (lookup id v.open_runs)) [
  | inl absent ↦ rw (touch_run, absent) (refl, refl, refl)
  | inr (run, found) ↦ rw (touch_run, found) (refl, refl, refl)
]

pub touch_owner-IsGrowth :
    (o : Option String) (type : String) (fs : Fields) (v : RunStateView)
    → Every (IsGrowth v) (touch_owner o type fs v)
unfolding touch_owner
touch_owner-IsGrowth none type fs v = self-IsGrowth v
touch_owner-IsGrowth (some owner) type fs v = elim (Option-cases (lookup owner v.pending_observe)) [
  | inl absent ↦ rw (touch_owner, absent) (self-IsGrowth v)
  | inr (info, found) ↦
      rw (touch_owner, found)
        (each (IsGrowth v) (touch_info type fs info) _ (λ c. same-IsGrowth v _ refl refl refl))
]

pub abandon-Same :
    (owner : Option String) (type : String) (task_id : Option String) (fs : Fields)
    (v : RunStateView)
    → Same v (abandon owner type task_id fs v)
unfolding abandon
abandon-Same owner type task_id fs v = ground arith

pub apply_observe-IsGrowth :
    (type : String) (fs : Fields) (v : RunStateView) → Every (IsGrowth v) (apply_observe type fs v)
unfolding apply_observe
apply_observe-IsGrowth type fs v = each (IsGrowth v) (as_text "" (find "task_id" fs)) _ (λ task_id.
    each (IsGrowth v) (text_or_empty (find "observe_id" fs)) _
      (λ observe_id. grow_alike v _ (ground arith)))

pub apply_step-IsGrowth :
    (key : String) (fs : Fields) (v : RunStateView) → Every (IsGrowth v) (apply_step key fs v)
unfolding apply_step
apply_step-IsGrowth key fs v =
    each (IsGrowth v) (as_optional (find key fs)) _ (λ s. same-IsGrowth v _ refl refl refl)

pub apply_run_started-IsGrowth :
    (ev : Event) (v : RunStateView) → IsGrowth v (apply_run_started ev v)
unfolding apply_run_started
apply_run_started-IsGrowth ev v = grow_alike v _ (ground arith)

pub apply_run_finished-IsGrowth :
    (ev : Event) (v : RunStateView) → IsGrowth v (apply_run_finished ev v)
unfolding apply_run_finished
apply_run_finished-IsGrowth ev v = grow_alike v _ (ground arith)

pub apply_prepared-IsGrowth :
    (fs : Fields) (v : RunStateView) → Every (IsGrowth v) (apply_prepared fs v)
unfolding apply_prepared
apply_prepared-IsGrowth fs v =
    each (IsGrowth v) (as_num 0 (find "assembled_token_count" fs)) _
      (λ n. same-IsGrowth v _ refl refl refl)

pub apply_turn-IsGrowth : (fs : Fields) (v : RunStateView) → Every (IsGrowth v) (apply_turn fs v)
unfolding apply_turn
apply_turn-IsGrowth fs v =
    each (IsGrowth v) (as_num v.transcript_turns (find "turn" fs)) _
      (λ n. same-IsGrowth v _ refl refl refl)

pub apply_session_created-IsGrowth :
    (ev : Event) (fs : Fields) (v : RunStateView)
    → Every (IsGrowth v) (apply_session_created ev fs v)
unfolding apply_session_created
apply_session_created-IsGrowth ev fs v =
    each (IsGrowth v) (content_from_jsonable (as_value (text "") (find "user_prompt" fs))) _ (λ a.
      each (IsGrowth v) (as_text "" (find "root_agent_id" fs)) _ (λ b.
        each (IsGrowth v) (as_text "" (find "llm_model" fs)) _ (λ c.
          each (IsGrowth v) (as_text "" (find "llm_account" fs)) _ (λ d.
            each (IsGrowth v) (as_text ev.tenant_id (find "tenant_id" fs)) _
              (λ e. same-IsGrowth v _ refl refl refl)))))

with_event_task-IsGrowth :
    (o : Option String) (f : TaskView → Option TaskView) (v : RunStateView)
    → Every (IsGrowth v) (with_event_task o f v)
unfolding with_event_task
with_event_task-IsGrowth none f v = self-IsGrowth v
with_event_task-IsGrowth (some id) f v =
    if-IsGrowth v (id == "") (some v) (with_task id f v) (self-IsGrowth v)
      (with_task-IsGrowth id f v)

pub apply_intent-IsGrowth :
    (ev : Event) (fs : Fields) (v : RunStateView) → Every (IsGrowth v) (apply_intent ev fs v)
unfolding apply_intent
apply_intent-IsGrowth ev fs v = each (IsGrowth v) (as_text "" (find "session_goal" fs)) _ (λ goal.
    chain-IsGrowth v
      (if goal == ""
        then some v
        else with_session ev.session_id (λ s. some (record s { goal = goal })) v)
      _
      (if-IsGrowth v (goal == "") (some v) _ (self-IsGrowth v)
        (with_session-IsGrowth ev.session_id (λ s. some (record s { goal = goal })) v))
      (with_event_task-IsGrowth ev.task_id (name_task fs)))

pub count_outcome-IsGrowth :
    (type session_id : String) (fs : Fields) (v : RunStateView)
    → Every (IsGrowth v) (count_outcome type session_id fs v)
unfolding count_outcome
count_outcome-IsGrowth type session_id fs v =
    elim (Bool-cases (is_text "user_topic_switch" (value_at "reason" fs))) [
      | inl switched ↦ rw switched (self-IsGrowth v)
      | inr kept ↦ rw kept (elim (Bool-cases (type == type_name Types.task_failed)) [
        | inl failed ↦ rw failed (with_session-IsGrowth session_id (λ s. some (count_failure s)) v)
        | inr other ↦ rw other (
            if-IsGrowth v (type == type_name Types.task_finished)
              (with_session session_id (λ s. some (record s { failure_counter = 0 })) v) (some v)
              (with_session-IsGrowth session_id (λ s. some (record s { failure_counter = 0 })) v)
              (self-IsGrowth v))
      ])
    ]

fill_slot-IsGrowth :
    (value aid : String) (f : AgentView → AgentView) (v : RunStateView)
    → ((a : AgentView) → Keeps a (f a))
    → IsGrowth v (fill_slot value aid f v)
fill_slot-IsGrowth value aid f v keeps = elim (Bool-cases (value == "")) [
  | inl empty ↦ rw empty (self-IsGrowth v)
  | inr full ↦ rw full (with_slot-IsGrowth aid f v keeps)
]

pub apply_instantiated-IsGrowth :
    (aid : String) (fs : Fields) (v : RunStateView)
    → Every (IsGrowth v) (apply_instantiated aid fs v)
unfolding apply_instantiated
apply_instantiated-IsGrowth aid fs v =
    each (IsGrowth v) (as_text "" (find "template_id" fs)) _ (λ t.
      each (IsGrowth v) (as_text "" (find "llm_account" fs)) _ (λ c.
        each (IsGrowth v) (as_text "" (find "llm_model" fs)) _ (λ m.
          let one = fill_slot t aid (λ a. record a { template_id = t }) v in
          let two = fill_slot c aid (λ a. record a { llm_account = c }) one in
          let three = fill_slot m aid (λ a. record a { llm_model = m }) two in
          trans-IsGrowth v two three
            (trans-IsGrowth v one two
              (fill_slot-IsGrowth t aid (λ a. record a { template_id = t }) v (λ a k. (k, refl)))
              (fill_slot-IsGrowth c aid (λ a. record a { llm_account = c }) one (λ a k. (k, refl))))
            (fill_slot-IsGrowth m aid (λ a. record a { llm_model = m }) two (λ a k. (k, refl))))))

pub apply_llm_changed-IsGrowth :
    (aid : String) (fs : Fields) (v : RunStateView)
    → Every (IsGrowth v) (apply_llm_changed aid fs v)
unfolding apply_llm_changed
apply_llm_changed-IsGrowth aid fs v =
    each (IsGrowth v) (as_text "" (find "llm_account" fs)) _ (λ account.
      each (IsGrowth v) (as_text "" (find "llm_model" fs)) _ (λ model.
        with_slot-IsGrowth aid (λ a. record a { llm_account = account; llm_model = model }) v
          (λ a k. (k, refl))))

pub blame-IsGrowth :
    (type : String) (o : Option String) (reason : String) (v : RunStateView)
    → Every (IsGrowth v) (blame type o reason v)
unfolding blame
blame-IsGrowth type none reason v = self-IsGrowth v
blame-IsGrowth type (some id) reason v =
    if-IsGrowth v (type == type_name Types.agent_terminated && not (id == ""))
      (with_task id (λ t. some (blame_task reason t)) v) (some v)
      (with_task-IsGrowth id (λ t. some (blame_task reason t)) v) (self-IsGrowth v)
