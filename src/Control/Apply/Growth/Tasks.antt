-- ===== src/Control/Apply/Growth/Tasks.antt =====
-- src/ctx_weft/core/control/reducers.py, `_apply`: the branches that create, move and end a task grow the
-- view, and so does an agent's new state.
use ctx_weft.Base.{
  ℕ, String, ◌≡◌, refl, subst, inl, inr, Option, none, some, false, List, [], ◌∷◌, arith, ◌==◌,
  eq_iff, Bool-cases, Option-cases, Every, each, ◌>>=◌, if◌then◌else◌,
}
use ctx_weft.Base.Dict.{Dict, lookup, insert}
use ctx_weft.Base.Value.{Fields, field, end, find}
use ctx_weft.Base.Value.Reading.{as_text, as_texts, truthy}
use ctx_weft.Event.Record.{Event}
use ctx_weft.Event.Types
use ctx_weft.Event.Types.{type_name}
use ctx_weft.Control.Views.{RunStateView, TaskView, AgentView}
use ctx_weft.Control.Blob.Times.{Times}
use ctx_weft.Control.Apply.Update.{value_at, as_fields, text_at, nonempty_or, with_task}
use ctx_weft.Control.Apply.Sessions.{count_outcome}
use ctx_weft.Control.Apply.Agents.{is_terminated, blame, moved_agent, apply_agent_status}
use ctx_weft.Control.Apply.Created.{created_task, assign, add_task, create, apply_created}
use ctx_weft.Control.Apply.Statuses.{
  requeue, release_task, finalize_task, show_status, apply_requeued, apply_human_resolved,
  replace_task, replace_tasks, rewire, successor_id, apply_replaced, move_task, keep_end,
  apply_status, apply_finalized,
}
use ctx_weft.Control.Apply.Growth.{
  Keeps, IsGrowth, same-IsGrowth, self-IsGrowth, chain-IsGrowth, if-IsGrowth, insert-agents_stay,
  insert-IsGrowth, with_task-IsGrowth,
}
use ctx_weft.Control.Apply.Growth.Branches.{blame-IsGrowth, count_outcome-IsGrowth}

-- An agent that is not terminated may be changed at will.
live-agents_stay :
    (aid : String) (a new : AgentView) (agents : Dict AgentView)
    → lookup aid agents ≡ some a
    → is_terminated a ≡ false
    → (other : String) (b : AgentView) → lookup other agents ≡ some b
    → (c : AgentView) × (lookup other (insert aid new agents) ≡ some c) × Keeps b c
live-agents_stay aid a new agents found live = insert-agents_stay aid new agents (λ b there ended.
    let same : a ≡ b = cc in
    let dead = (eq_iff b.status "terminated").1 ended in
    let alive : is_terminated b ≡ false = subst (λ x. is_terminated x ≡ false) same live in
    absurd (cc))

pub apply_agent_status-IsGrowth :
    (type status aid : String) (task_id : Option String) (fs : Fields) (v : RunStateView)
    → Every (IsGrowth v) (apply_agent_status type status aid task_id fs v)
unfolding apply_agent_status
apply_agent_status-IsGrowth type status aid task_id fs v =
    elim (Option-cases (lookup aid v.agents)) [
      | inl absent ↦ rw (apply_agent_status, absent) (self-IsGrowth v)
      | inr (a, found) ↦
          rw (apply_agent_status, found)
            (elim (Bool-cases (is_terminated a)) [
              | inl ended ↦ rw ended (self-IsGrowth v)
              | inr live ↦ rw live (
                  each (IsGrowth v) (as_text "" (find "reason" fs)) _ (λ reason.
                    let new = moved_agent status reason task_id a in
                    let moved = record v { agents = insert aid new v.agents } in
                    let grown : IsGrowth v moved = record {
                      tasks_stay = λ id h. h;
                      counted = omega arith;
                      agents_stay = live-agents_stay aid a new v.agents found live;
                    } in
                    chain-IsGrowth v (some moved) (blame type task_id reason) grown
                      (blame-IsGrowth type task_id reason)))
            ])
    ]

assign-agents_stay :
    (agent_id id : String) (agents : Dict AgentView) (aid : String) (a : AgentView)
    → lookup aid agents ≡ some a
    → (b : AgentView) × (lookup aid (assign agent_id id agents) ≡ some b) × Keeps a b
unfolding assign
assign-agents_stay agent_id id agents aid a h =
    let as_before : (b : AgentView) × (lookup aid agents ≡ some b) × Keeps a b =
      (a, h, λ t. (t, refl)) in
    elim (Bool-cases (agent_id == "")) [
      | inl nobody ↦ rw nobody as_before
      | inr somebody ↦ elim (Option-cases (lookup agent_id agents)) [
        | inl absent ↦ rw (somebody, absent) as_before
        | inr (b, found) ↦ elim (Bool-cases (is_terminated b)) [
          | inl ended ↦ rw (somebody, found, ended) as_before
          | inr live ↦
              rw (somebody, found, live)
                (live-agents_stay agent_id b (record b { current_task_id = some id }) agents found
                  live aid a h)
        ]
      ]
    ]

add_task-IsGrowth : (id : String) (t : TaskView) (v : RunStateView) → IsGrowth v (add_task id t v)
unfolding add_task
add_task-IsGrowth id t v =
    insert-IsGrowth id t v (add_task id t v) refl (omega arith)
      (assign-agents_stay t.assigned_agent_id id v.agents)

create-IsGrowth :
    (o : Option String) (ev : Event) (fs : Fields) (v : RunStateView)
    → Every (IsGrowth v) (create o ev fs v)
unfolding create
create-IsGrowth none ev fs v = self-IsGrowth v
create-IsGrowth (some id) ev fs v = elim (Bool-cases (id == "")) [
  | inl empty ↦ rw empty (self-IsGrowth v)
  | inr full ↦ rw full (each (IsGrowth v) (created_task id ev fs) _ (λ t. add_task-IsGrowth id t v))
]

pub apply_created-IsGrowth :
    (ev : Event) (fs : Fields) (v : RunStateView) → Every (IsGrowth v) (apply_created ev fs v)
unfolding apply_created
apply_created-IsGrowth ev fs v = each (IsGrowth v) (as_fields (find "task" fs)) _ (λ task_data.
    each (IsGrowth v) (text_at "id" task_data) _
      (λ id. create-IsGrowth (nonempty_or id ev.task_id) ev task_data v))

-- A change of one task, and then of the status shown for the run.
show-IsGrowth :
    (id status : String) (f : TaskView → Option TaskView) (v : RunStateView)
    → Every (IsGrowth v) (with_task id f v >>= λ w. some (show_status status w))
show-IsGrowth id status f v =
    chain-IsGrowth v (with_task id f v) _ (with_task-IsGrowth id f v)
      (λ w. same-IsGrowth w (show_status status w) refl refl refl)

pub apply_requeued-IsGrowth :
    (id : String) (fs : Fields) (v : RunStateView) → Every (IsGrowth v) (apply_requeued id fs v)
unfolding apply_requeued
apply_requeued-IsGrowth id fs v = show-IsGrowth id "PENDING" (requeue fs) v

pub apply_human_resolved-IsGrowth :
    (id : String) (v : RunStateView) → Every (IsGrowth v) (apply_human_resolved id v)
unfolding apply_human_resolved
apply_human_resolved-IsGrowth id v = show-IsGrowth id "PENDING" release_task v

replace_tasks-IsGrowth :
    (successor : String) (fs : Fields) (ids : List String) (v : RunStateView)
    → Every (IsGrowth v) (replace_tasks successor fs ids v)
unfolding replace_tasks
replace_tasks-IsGrowth successor fs [] v = self-IsGrowth v
replace_tasks-IsGrowth successor fs (id ∷ ids) v =
    chain-IsGrowth v (with_task id (replace_task successor fs) v) (replace_tasks successor fs ids)
      (with_task-IsGrowth id (replace_task successor fs) v)
      (replace_tasks-IsGrowth successor fs ids)

rewire-IsGrowth : (deps : Fields) (v : RunStateView) → Every (IsGrowth v) (rewire deps v)
unfolding rewire
rewire-IsGrowth end v = self-IsGrowth v
rewire-IsGrowth (field id ids rest) v =
    chain-IsGrowth v
      (with_task id (λ t. as_texts (some ids) >>= λ xs. some (record t { dag_deps = xs })) v)
      (rewire rest) (with_task-IsGrowth id _ v) (rewire-IsGrowth rest)

apply_replaced-IsGrowth :
    (fs : Fields) (v : RunStateView) → Every (IsGrowth v) (apply_replaced fs v)
unfolding apply_replaced
apply_replaced-IsGrowth fs v = elim (Bool-cases (truthy (value_at "replaced_task_ids" fs))) [
  | inr nothing ↦ rw nothing (self-IsGrowth v)
  | inl some_ids ↦ rw some_ids (
      each (IsGrowth v) (successor_id (value_at "successor" fs)) _ (λ successor.
        each (IsGrowth v) (as_texts (find "replaced_task_ids" fs)) _ (λ replaced.
          chain-IsGrowth v (replace_tasks successor fs replaced v) _
            (replace_tasks-IsGrowth successor fs replaced v)
            (λ w.
              each (IsGrowth w) (as_fields (find "rewired_dependencies" fs)) _
                (λ deps. rewire-IsGrowth deps w)))))
]

pub apply_finalized-IsGrowth :
    (id : String) (time : ℕ) (v : RunStateView) → Every (IsGrowth v) (apply_finalized id time v)
unfolding apply_finalized
apply_finalized-IsGrowth id time v = with_task-IsGrowth id (finalize_task time) v

pub apply_status-IsGrowth :
    (times : Times) (type status id : String) (ev : Event) (fs : Fields) (v : RunStateView)
    → Every (IsGrowth v) (apply_status times type status id ev fs v)
unfolding apply_status
apply_status-IsGrowth times type status id ev fs v =
    chain-IsGrowth v
      (if type == type_name Types.task_reviewing then apply_replaced fs v else some v) _
      (if-IsGrowth v (type == type_name Types.task_reviewing) (apply_replaced fs v) (some v)
        (apply_replaced-IsGrowth fs v) (self-IsGrowth v))
      (λ u.
        chain-IsGrowth u (with_task id (move_task type status fs) u) _
          (with_task-IsGrowth id (move_task type status fs) u)
          (λ w.
            chain-IsGrowth w (count_outcome type ev.session_id fs (show_status status w)) _
              (chain-IsGrowth w (some (show_status status w)) (count_outcome type ev.session_id fs)
                (same-IsGrowth w (show_status status w) refl refl refl)
                (count_outcome-IsGrowth type ev.session_id fs))
              (with_task-IsGrowth id (keep_end times type ev.timestamp fs))))
