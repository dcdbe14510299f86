-- ===== src/Control/Reduce/Facts.antt =====
-- src/ctx_weft/core/control/reducers.py: what a replay keeps of tasks and agents.
use ctx_weft.Base.{
  ℕ, zero, suc, ◌+◌, ◌≤◌, String, ◌≡◌, refl, subst, ◌∙◌, difference, nonempty, inl, inr, none, some,
  true, List, [], ◌∷◌, arith, ◌==◌, is_some, length, Bool-cases, Option-cases, mem, Every,
  every_result, weaker_result, each_bind, ◌||◌,
}
use ctx_weft.Base.Dict.{Dict, lookup, insert, values}
use ctx_weft.Event.Record.{Event}
use ctx_weft.Control.Views.{RunStateView, SessionView, TaskView, AgentView}
use ctx_weft.Control.Blob.Times.{Times}
use ctx_weft.Control.Apply.Update.{agent_slot}
use ctx_weft.Control.Apply.Event.{fold_events}
use ctx_weft.Control.Apply.Growth.{Keeps, IsGrowth, trans-IsGrowth, insert-agents_stay}
use ctx_weft.Control.Apply.Growth.Whole.{fold_events-IsGrowth}
use ctx_weft.Control.Reduce.{
  Inferred, infer_root, infer_roots, related, infer_task, infer_tasks, ready, parent_of, deepen,
  deepen_all, depth_loop, inferred_of, rebuild_agents, apply_events,
}

-- A table of agents that keeps those of another.
abbrev Stay : Dict AgentView → Dict AgentView → Type 0
Stay before after =
    (aid : String) (a : AgentView)
    → lookup aid before ≡ some a
    → (b : AgentView) × (lookup aid after ≡ some b) × Keeps a b

remain_self : (m : Dict AgentView) → Stay m m
remain_self m aid a h = (a, h, λ t. (t, refl))

remain_trans : (k m n : Dict AgentView) → Stay k m → Stay m n → Stay k n
remain_trans k m n first second aid a h =
    let (b, there, keeps) = first aid a h in
    let (c, at_last, keeps_next) = second aid b there in
    (
      c,
      at_last,
      λ t.
          let (still, same) = keeps t in
          let (ended, same_next) = keeps_next still in (ended, same_next ∙ same),
    )

-- The slot of an agent, changed but for status and task.
remain_slot :
    (aid : String) (f : AgentView → AgentView) (m : Dict AgentView)
    → ((a : AgentView) → Keeps a (f a))
    → Stay m (insert aid (f (agent_slot aid m)) m)
unfolding agent_slot
remain_slot aid f m keeps =
    insert-agents_stay aid (f (agent_slot aid m)) m (λ a found. rw (agent_slot, found) (keeps a))

infer_roots-Stay : (ss : List SessionView) (i : Inferred) → Stay i.agents (infer_roots ss i).agents
unfolding infer_roots infer_root
infer_roots-Stay [] i = remain_self i.agents
infer_roots-Stay (s ∷ ss) i =
    remain_trans i.agents (infer_root s i).agents (infer_roots ss (infer_root s i)).agents
      (elim (Bool-cases (s.root_agent_id == "")) [
        | inl nobody ↦ rw nobody (remain_self i.agents)
        | inr root ↦ rw root (
            remain_slot s.root_agent_id (λ a. record a { spawn_depth = 0; parent_agent_id = none })
              i.agents (λ a t. (t, refl)))
      ])
      (infer_roots-Stay ss (infer_root s i))

related-Keeps : (t : TaskView) (a : AgentView) → Keeps a (related t a)
unfolding related
related-Keeps t a ended = ground (arith, ended)

infer_tasks-Stay : (ts : List TaskView) (i : Inferred) → Stay i.agents (infer_tasks ts i).agents
unfolding infer_tasks infer_task
infer_tasks-Stay [] i = remain_self i.agents
infer_tasks-Stay (t ∷ ts) i =
    remain_trans i.agents (infer_task t i).agents (infer_tasks ts (infer_task t i)).agents
      (elim (Bool-cases (t.assigned_agent_id == "" || mem t.assigned_agent_id i.inferred)) [
        | inl known ↦ rw known (remain_self i.agents)
        | inr new ↦ rw new (remain_slot t.assigned_agent_id (related t) i.agents (related-Keeps t))
      ])
      (infer_tasks-Stay ts (infer_task t i))

deepen-Stay : (aid : String) (m : Dict AgentView) → Stay m (deepen aid m)
unfolding deepen
deepen-Stay aid m = elim (Option-cases (lookup aid m)) [
  | inl absent ↦ rw (deepen, absent) (remain_self m)
  | inr (a, found) ↦ elim (Option-cases (parent_of a m)) [
    | inl root ↦ rw (deepen, found, root) (remain_self m)
    | inr (parent, known) ↦
        rw (deepen, found, known)
          (insert-agents_stay aid (record a { spawn_depth = parent.spawn_depth + 1 }) m
            (λ b there.
              (let same : a ≡ b = cc in
                subst (λ x. Keeps x (record a { spawn_depth = parent.spawn_depth + 1 })) same
                  (λ t. (t, refl)))))
  ]
]

deepen_all-Stay : (aids : List String) (m : Dict AgentView) → Stay m (deepen_all aids m)
unfolding deepen_all
deepen_all-Stay [] m = remain_self m
deepen_all-Stay (aid ∷ aids) m =
    remain_trans m (deepen aid m) (deepen_all aids (deepen aid m)) (deepen-Stay aid m)
      (deepen_all-Stay aids (deepen aid m))

depth_loop-Stay :
    (n : ℕ) (pending : List String) (m : Dict AgentView)
    → Every (λ r. Stay m r.1) (depth_loop n pending m)
unfolding depth_loop
depth_loop-Stay zero [] m = remain_self m
depth_loop-Stay (suc n) [] m = remain_self m
depth_loop-Stay zero (x ∷ xs) m = tt
depth_loop-Stay (suc n) (x ∷ xs) m =
    let now = ready (x ∷ xs) m in
    elim (Bool-cases (nonempty now)) [
      | inr done ↦ rw done (remain_self m)
      | inl more ↦ rw more (
          weaker_result (λ r. Stay (deepen_all now m) r.1) (λ r. Stay m r.1)
            (depth_loop n (difference (x ∷ xs) now) (deepen_all now m))
            (depth_loop-Stay n (difference (x ∷ xs) now) (deepen_all now m))
            (λ r later. remain_trans m (deepen_all now m) r.1 (deepen_all-Stay now m) later))
    ]

rebuild_agents-IsGrowth : (v : RunStateView) → Every (IsGrowth v) (rebuild_agents v)
unfolding rebuild_agents inferred_of
rebuild_agents-IsGrowth v =
    let start : Inferred = record { agents = v.agents; inferred = []; subagents = [] } in
    let roots = infer_roots (values v.sessions) start in
    let i = infer_tasks (values v.tasks) roots in
    each_bind (IsGrowth v) (λ r. Stay i.agents r.1)
      (depth_loop (length i.subagents) i.subagents i.agents) (λ r. some (record v { agents = r.1 }))
      (depth_loop-Stay (length i.subagents) i.subagents i.agents)
      (λ r later. record {
        tasks_stay = λ id h. h;
        counted = omega arith;
        agents_stay =
            remain_trans v.agents i.agents r.1
              (remain_trans v.agents roots.agents i.agents
                (infer_roots-Stay (values v.sessions) start)
                (infer_tasks-Stay (values v.tasks) roots))
              later;
      })

apply_all :
    (times : Times) (evs : List Event) (v : RunStateView)
    → Every (IsGrowth v) (apply_events times evs v)
unfolding apply_events
apply_all times evs v = elim (Option-cases (fold_events times evs v)) [
  | inl failed ↦ rw failed tt
  | inr (w, folded) ↦ rw folded (
      weaker_result (IsGrowth w) (IsGrowth v) (rebuild_agents w) (rebuild_agents-IsGrowth w)
        (λ u. trans-IsGrowth v w u (fold_events-IsGrowth times evs v w folded)))
]

pub apply_events-IsGrowth :
    (times : Times) (evs : List Event) (v w : RunStateView)
    → apply_events times evs v ≡ some w
    → IsGrowth v w
apply_events-IsGrowth times evs v w applied =
    every_result (IsGrowth v) (apply_events times evs v) w (apply_all times evs v) applied

-- No event brings a terminated agent back: an agent that is terminated before a replay is there after
-- it, terminated, and with the same current task.
pub apply_events-terminated :
    (times : Times) (evs : List Event) (v w : RunStateView)
    → apply_events times evs v ≡ some w
    → (aid : String) (a : AgentView) → lookup aid v.agents ≡ some a
    → a.status ≡ "terminated"
    → (b : AgentView) × (lookup aid w.agents ≡ some b)
      × (b.status ≡ "terminated")
      × (b.current_task_id ≡ a.current_task_id)
apply_events-terminated times evs v w applied aid a found ended =
    let (b, there, keeps) = (apply_events-IsGrowth times evs v w applied).agents_stay aid a found in
    let (still, same) = keeps ended in (b, there, still, same)

-- A view whose count of created tasks covers its table, as that of a pruned snapshot does, is still so
-- after any events: the table never holds more tasks than the count says were created.
pub apply_events-tasks_total :
    (times : Times) (evs : List Event) (v w : RunStateView)
    → apply_events times evs v ≡ some w
    → length v.tasks ≤ v.tasks_total
    → length w.tasks ≤ w.tasks_total
apply_events-tasks_total times evs v w applied covered =
    let counted = (apply_events-IsGrowth times evs v w applied).counted in omega arith

-- Events never take a task out of the view.
pub apply_events-tasks :
    (times : Times) (evs : List Event) (v w : RunStateView)
    → apply_events times evs v ≡ some w
    → (id : String) → is_some (lookup id v.tasks) ≡ true
    → is_some (lookup id w.tasks) ≡ true
apply_events-tasks times evs v w applied id there =
    (apply_events-IsGrowth times evs v w applied).tasks_stay id there
