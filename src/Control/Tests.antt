-- ===== src/Control/Tests.antt =====
-- A log of a session with two tasks, its agent and a request, and a view of every kind of entry.
use Prim.Native.String.{String}
use ctx_weft.Base.{
  ℕ, zero, suc, ◌≤◌, ◌≡◌, refl, ap, inl, inr, Option, none, some, true, false, ◌==◌, eq_iff,
  Bool-cases, is_some, length, arith,
}
use ctx_weft.Base.{List, [], ◌∷◌}
use ctx_weft.Base.Dict.{lookup}
use ctx_weft.Base.Value.{Fields, dict, text, field, end}
use ctx_weft.Event.Record.{Event}
use ctx_weft.Control.Views.{RunStateView, AgentView, new_view}
use ctx_weft.Control.Blob.Times.{Times, IsTimes}
use ctx_weft.Base.Dict.{Dict}
use ctx_weft.Base.Value.{to_fields}
use ctx_weft.Content.Json.{content_from_jsonable}
use ctx_weft.Control.Views.{new_agent_view, new_task_view}
use ctx_weft.Control.Blob.Decisions.{delivery_from_payload}
use ctx_weft.Control.Blob.Whole.{serialize_view, deserialize_view, deserialize_view-serialize_view}
use ctx_weft.Control.Reduce.{reduce_events, apply_events, depth_loop}
use ctx_weft.Control.Reduce.Depths.{AllWait, depth_loop-ends}
use ctx_weft.Control.Reduce.Facts.{apply_events-terminated, apply_events-tasks_total}
use ctx_weft.Base.Value.{null}
use ctx_weft.Task.Status.{status_word}
use ctx_weft.Task.Disposition.{RunOutcome, kind_completed, disposition_for}
use ctx_weft.Control.Apply.Event.{apply}
use ctx_weft.Control.Settling.{HasStatus}
use ctx_weft.Control.Settling.Outcomes.{task_event}
use ctx_weft.Control.Settling.Replay.{apply-disposition_for}
use ctx_weft.Base.Value.{num}
use ctx_weft.Control.Snapshot.{
  SnapshotFacts, snapshot_facts_from_event, snapshot_is_usable, snapshot_is_usable-bounds,
}
use ctx_weft.Event.Types.{type_name}
use ctx_weft.Base.Integer.{ℤ, pos, pos_part, ◌≤ℤ◌}
use ctx_weft.Control.Blob.Rebuilt.{IsRebuilt}

-- A time in strokes.
abbrev strokes : ℕ → String
strokes zero = String.[]
strokes (suc n) = String.◌∷◌ "|" (strokes n)

abbrev size : String → ℕ
size String.[] = 0
size (String.◌∷◌ c s) = suc (size s)

abbrev read_strokes : String → Option ℕ
read_strokes String.[] = none
read_strokes (String.◌∷◌ c s) = some (size s)

abbrev test_times : Times
test_times = record { isoformat = λ n. String.◌∷◌ "+" (strokes n); fromisoformat = read_strokes }

size-strokes : (n : ℕ) → size (strokes n) ≡ n
size-strokes zero = refl
size-strokes (suc n) = ap suc (size-strokes n)

full : (c : _) (s : String) → (String.◌∷◌ c s == String.[]) ≡ false
full c s = elim (Bool-cases (String.◌∷◌ c s == String.[])) [
  | inr h ↦ h
  | inl h ↦ let e = (eq_iff (String.◌∷◌ c s) String.[]).0 h in cc
]

test_times-IsTimes : IsTimes test_times
test_times-IsTimes = record {
  read_back = λ t. ap some (size-strokes t);
  not_empty = λ t. full "+" (strokes t);
}

abbrev pub event : String → String → Fields → Event
event id type fields = record {
  id = id;
  run_id = some "r1";
  sequence = 1;
  session_id = "s1";
  type = type;
  timestamp = 7;
  tenant_id = "default";
  task_id = some "t1";
  agent_id = some "a1";
  origin = "core";
  payload = dict fields;
  metadata = dict end;
  causation_id = none;
  schema_version = 1;
}

abbrev made : List Event
made =
    event "e1" "SessionCreated" (field "root_agent_id" (text "a1") end)
    ∷ event "e2" "AgentInstantiated" (field "template_id" (text "writer") end)
    ∷ event "e3" "RunStarted" end
    ∷ event "e4" "TaskCreated" (
        field "task" (dict (field "id" (text "t1") (field "assigned_agent_id" (text "a1") end)))
          end)
    ∷ event "e5" "HitlOpened" (
        field "hitl_id" (text "h1")
          (field "tool_call_id" (text "c1") (field "stage" (text "tool") end)))
    ∷ event "e6" "AgentTerminated" (field "reason" (text "cancel_agent:a1") end)
    ∷ []

abbrev later : List Event
later =
    event "e7" "AgentIdle" end
    ∷ event "e8" "TaskCreated" (
        field "task" (dict (field "id" (text "t2") (field "assigned_agent_id" (text "a1") end)))
          end)
    ∷ event "e9" "HitlResolved"
        (field "hitl_id" (text "h1") (field "outcome" (text "accepted") end))
    ∷ []

abbrev pub value {ℓ} : {A : Type ℓ} → A → Option A → A
value default none = default
value default (some v) = v

pub some-value {ℓ} :
    {A : Type ℓ} (default : A) (o : Option A) → is_some o ≡ true → o ≡ some (value default o)
some-value default none h = cc
some-value default (some v) h = refl

-- The first log.
counted : (value (new_view "r1") (reduce_events test_times made "r1")).tasks_total ≡ 1
unfolding reduce_events content_from_jsonable delivery_from_payload
counted = refl

-- A view with a terminated agent and its task.
abbrev ended_agent : AgentView
ended_agent = record (new_agent_view "a1") { status = "terminated"; current_task_id = some "t1" }

abbrev before : RunStateView
before = record (new_view "r1") {
  tasks_total = 1;
  tasks = ("t1", new_task_view "t1" "s1" "CANCELED") ∷ [];
  agents = ("a1", ended_agent) ∷ [];
}

abbrev after : RunStateView
after = value before (apply_events test_times later before)

went_on : apply_events test_times later before ≡ some after
unfolding apply_events content_from_jsonable delivery_from_payload
went_on = some-value before (apply_events test_times later before) refl

apply_events-terminated_example :
    (b : AgentView) × (lookup "a1" after.agents ≡ some b)
    × (b.status ≡ "terminated")
    × (b.current_task_id ≡ some "t1")
unfolding lookup
apply_events-terminated_example =
    apply_events-terminated test_times later before after went_on "a1" ended_agent refl refl

apply_events-tasks_total_example : length after.tasks ≤ after.tasks_total
apply_events-tasks_total_example =
    apply_events-tasks_total test_times later before after went_on (omega arith)

-- A run that finished its task.
abbrev finished_run : RunOutcome
finished_run = record {
  kind = kind_completed;
  verdict = "success";
  summary = "done";
  outputs = null;
  error = "";
  error_code = "";
  reason = "";
  retriable = false;
  hitl_id = "";
  observe_id = "";
  observe_disposition = none;
  observe_report_pending = false;
  spawn_titles = [];
}

apply-disposition_for_example :
    (w : RunStateView) × (apply test_times
        (task_event
          (event "e10" "" end)
          "t1"
          (disposition_for finished_run 0 3).event_type
          (to_fields (disposition_for finished_run 0 3).payload))
        before
      ≡ some w)
    × HasStatus "t1" (status_word (disposition_for finished_run 0 3).status) w
unfolding lookup
apply-disposition_for_example =
    apply-disposition_for test_times "t1" (event "e10" "" end) before
      (new_task_view "t1" "s1" "CANCELED") finished_run 0 3 refl refl

-- A snapshot up to position 9, with the memory verified up to 8.
abbrev snapshot_event : Event
snapshot_event = event "e11" "StateSnapshot" (
    field "state_blob" (dict end) (
      field "cut_position" (num 9) (
        field "assistant_memory_verified_position" (num 8)
          (field "projection_version" (num 11) end))))

abbrev snapshot_facts : SnapshotFacts
snapshot_facts = record {
  state_blob = end;
  last_commit_position = some (pos 9);
  projection_version = num 11;
  chain_depth = num 0;
  snapshot_reason = text "";
  event_id = "e11";
  assistant_memory_verified_position = pos 8;
}

snapshot_is_usable-bounds_example :
    (cut : ℤ) × (snapshot_facts.last_commit_position ≡ some cut)
    × (cut ≤ℤ pos 9)
    × (pos 0 ≤ℤ snapshot_facts.assistant_memory_verified_position)
    × (snapshot_facts.assistant_memory_verified_position ≤ℤ pos (pos_part cut))
unfolding snapshot_facts_from_event snapshot_is_usable type_name
snapshot_is_usable-bounds_example =
    snapshot_is_usable-bounds (some snapshot_event) snapshot_facts 9 (some 4) refl refl

-- Two agents that are each other's parent, and one below the first.
abbrev cycle : Dict AgentView
cycle =
    ("a1", record (new_agent_view "a1") { parent_agent_id = some "a2" })
    ∷ ("a2", record (new_agent_view "a2") { parent_agent_id = some "a1" })
    ∷ ("a3", record (new_agent_view "a3") { parent_agent_id = some "a0" })
    ∷ []

depth_loop-ends_example :
    (r : List String × Dict AgentView) × (depth_loop 3 ("a1" ∷ "a2" ∷ "a3" ∷ []) cycle ≡ some r)
    × AllWait r.0 r.1
depth_loop-ends_example = depth_loop-ends ("a1" ∷ "a2" ∷ "a3" ∷ []) cycle

-- Those in the cycle are left, the third is not.
left_over : (value ([], []) (depth_loop 3 ("a1" ∷ "a2" ∷ "a3" ∷ []) cycle)).0 ≡ "a1" ∷ "a2" ∷ []
unfolding depth_loop
left_over = refl

deserialize_view-serialize_view_example :
    (w : RunStateView) × (deserialize_view test_times (to_fields (serialize_view test_times before))
      ≡ some w)
    × (w ≡ record before { target_event_id = none; events_replayed = 0; hitl = w.hitl })
    × IsRebuilt before.hitl w.hitl
deserialize_view-serialize_view_example =
    deserialize_view-serialize_view test_times test_times-IsTimes before
