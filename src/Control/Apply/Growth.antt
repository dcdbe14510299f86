-- ===== src/Control/Apply/Growth.antt =====
-- src/ctx_weft/core/control/reducers.py, `_apply`: what no event takes away. No task leaves the view, the
-- count of created tasks keeps up with them, and a terminated agent stays so.
pub mod Branches
pub mod Tasks
pub mod Whole
use ctx_weft.Base.{
  ℕ, ◌+◌, ◌≤◌, String, ◌≡◌, refl, sym, ap, subst, ◌∙◌, inl, inr, Option, none, some, Bool, true,
  false, List, [], ◌∷◌, arith, ◌==◌, eq_iff, is_some, length, Bool-cases, Option-cases, Every, each,
  each_bind, ◌>>=◌, if◌then◌else◌,
}
use ctx_weft.Base.Dict.{Dict, lookup, insert, lookup-insert, length-insert}
use ctx_weft.Base.Value.{Value, Fields}
use ctx_weft.Control.Views.{RunStateView, SessionView, TaskView, AgentView, new_agent_view}
use ctx_weft.Control.Apply.Update.{with_session, with_task, agent_slot, with_slot}

-- An agent of the one table in the other: there, and if it was terminated, terminated with the same
-- task.
abbrev pub Keeps : AgentView → AgentView → Type 0
Keeps a b =
    a.status ≡ "terminated" → (b.status ≡ "terminated") × (b.current_task_id ≡ a.current_task_id)

pub record IsGrowth (v w : RunStateView) : Type 0 where
  pub tasks_stay :
      (id : String) → is_some (lookup id v.tasks) ≡ true → is_some (lookup id w.tasks) ≡ true
  pub counted : length w.tasks + v.tasks_total ≤ length v.tasks + w.tasks_total
  pub agents_stay :
      (aid : String) (a : AgentView)
      → lookup aid v.agents ≡ some a
      → (b : AgentView) × (lookup aid w.agents ≡ some b) × Keeps a b

pub same-IsGrowth :
    (v w : RunStateView)
    → w.tasks ≡ v.tasks
    → w.tasks_total ≡ v.tasks_total
    → w.agents ≡ v.agents
    → IsGrowth v w
same-IsGrowth v w tasks total agents = record {
  tasks_stay = λ id h. rw tasks h;
  counted = rw (tasks, total) (omega arith);
  agents_stay = λ aid a h. (a, rw agents h, λ t. (t, refl));
}

pub self-IsGrowth : (v : RunStateView) → IsGrowth v v
self-IsGrowth v = same-IsGrowth v v refl refl refl

pub trans-IsGrowth : (u v w : RunStateView) → IsGrowth u v → IsGrowth v w → IsGrowth u w
trans-IsGrowth u v w first second = record {
  tasks_stay = λ id h. second.tasks_stay id (first.tasks_stay id h);
  counted = (let a = first.counted in let b = second.counted in omega arith);
  agents_stay = λ aid a h.
      let (b, found, keeps) = first.agents_stay aid a h in
      let (c, found_next, keeps_next) = second.agents_stay aid b found in
      (
        c,
        found_next,
        λ t.
            let (still, same) = keeps t in
            let (at_last, same_next) = keeps_next still in (at_last, same_next ∙ same),
      );
}

-- A chain of two changes.
pub chain-IsGrowth :
    (v : RunStateView) (o : Option RunStateView) (f : RunStateView → Option RunStateView)
    → Every (IsGrowth v) o
    → ((w : RunStateView) → Every (IsGrowth w) (f w))
    → Every (IsGrowth v) (o >>= f)
chain-IsGrowth v none f first second = tt
chain-IsGrowth v (some w) f first second = after (f w) (second w)
  where
    after : (o : Option RunStateView) → Every (IsGrowth w) o → Every (IsGrowth v) o
    after none h = tt
    after (some x) h = trans-IsGrowth v w x first h

pub if-IsGrowth :
    (v : RunStateView) (b : Bool) (x y : Option RunStateView)
    → Every (IsGrowth v) x
    → Every (IsGrowth v) y
    → Every (IsGrowth v) (if b then x else y)
if-IsGrowth v true x y first second = first
if-IsGrowth v false x y first second = second

-- A write to an agent that keeps what has to be kept.
pub insert-agents_stay :
    (aid : String) (new : AgentView) (agents : Dict AgentView)
    → ((a : AgentView) → lookup aid agents ≡ some a → Keeps a new)
    → (other : String) (a : AgentView) → lookup other agents ≡ some a
    → (b : AgentView) × (lookup other (insert aid new agents) ≡ some b) × Keeps a b
insert-agents_stay aid new agents keeps other a found = elim (Bool-cases (aid == other)) [
  | inr apart ↦ (a, rw (lookup-insert aid other new agents, apart) found, λ t. (t, refl))
  | inl here ↦ (
    new,
    rw (lookup-insert aid other new agents, here) refl,
    keeps a (rw ((eq_iff aid other).0 here) found),
  )
]

pub with_session-IsGrowth :
    (id : String) (f : SessionView → Option SessionView) (v : RunStateView)
    → Every (IsGrowth v) (with_session id f v)
unfolding with_session
with_session-IsGrowth id f v = elim (Option-cases (lookup id v.sessions)) [
  | inl absent ↦ rw (with_session, absent) (self-IsGrowth v)
  | inr (s, found) ↦
      rw (with_session, found) (each (IsGrowth v) (f s) _ (λ c. same-IsGrowth v _ refl refl refl))
]

insert-tasks_stay :
    (id : String) (t : TaskView) (tasks : Dict TaskView) (other : String)
    → is_some (lookup other tasks) ≡ true
    → is_some (lookup other (insert id t tasks)) ≡ true
insert-tasks_stay id t tasks other there =
    rw (lookup-insert id other t tasks)
      (elim (Bool-cases (id == other)) [ inl here ↦ rw here refl | inr apart ↦ rw apart there ])

-- A write to the table of tasks with as much of a step of the count.
pub insert-IsGrowth :
    (id : String) (t : TaskView) (v : RunStateView) (w : RunStateView)
    → w.tasks ≡ insert id t v.tasks
    → (if is_some (lookup id v.tasks) then v.tasks_total else v.tasks_total + 1) ≤ w.tasks_total
    → ((aid : String) (a : AgentView)
        → lookup aid v.agents ≡ some a
        → (b : AgentView) × (lookup aid w.agents ≡ some b) × Keeps a b)
    → IsGrowth v w
insert-IsGrowth id t v w tasks total agents = record {
  tasks_stay = λ other h. rw tasks (insert-tasks_stay id t v.tasks other h);
  counted = rw (tasks, length-insert id t v.tasks) (ground (arith, total));
  agents_stay = agents;
}

pub with_task-IsGrowth :
    (id : String) (f : TaskView → Option TaskView) (v : RunStateView)
    → Every (IsGrowth v) (with_task id f v)
unfolding with_task
with_task-IsGrowth id f v = elim (Option-cases (lookup id v.tasks)) [
  | inl absent ↦ rw (with_task, absent) (self-IsGrowth v)
  | inr (t, found) ↦
      rw (with_task, found)
        (each (IsGrowth v) (f t) _ (λ c.
          insert-IsGrowth id c v _ refl (rw found (omega arith))
            (λ aid a h. (a, h, λ k. (k, refl)))))
]

-- A change of a slot that leaves the status and the task.
pub with_slot-IsGrowth :
    (aid : String) (f : AgentView → AgentView) (v : RunStateView)
    → ((a : AgentView) → Keeps a (f a))
    → IsGrowth v (with_slot aid f v)
unfolding with_slot agent_slot
with_slot-IsGrowth aid f v keeps = record {
  tasks_stay = λ id h. h;
  counted = omega arith;
  agents_stay =
      insert-agents_stay aid (f (agent_slot aid v.agents)) v.agents
        (λ a found. rw (agent_slot, found) (keeps a));
}
