-- ===== src/Control/Reduce.antt =====
-- src/ctx_weft/core/control/reducers.py, `reduce_events`, `apply_events` and `_rebuild_agents`: a view from
-- a log, and the tree of agents in it. A set is a list here; nothing depends on its order.
pub mod Depths
pub mod Facts
use ctx_weft.Base.{
  ℕ, zero, suc, ◌+◌, String, Option, none, some, Bool, true, false, List, [], ◌∷◌, ◌==◌, not, ◌&&◌,
  ◌||◌, mem, add, difference, nonempty, length, select, is_some, ltb, eqb, ◌>>=◌, if◌then◌else◌,
}
use ctx_weft.Base.Dict.{Dict, lookup, insert, values}
use ctx_weft.Base.Value.{Value, Fields, null, flag, dict, field_at}
use ctx_weft.Base.Value.Reading.{truthy}
use ctx_weft.Event.Record.{Event}
use ctx_weft.Control.Views.{RunStateView, SessionView, TaskView, AgentView, new_view}
use ctx_weft.Control.Blob.Times.{Times}
use ctx_weft.Control.Apply.Update.{agent_slot}
use ctx_weft.Control.Apply.Event.{fold_events}

-- The three variables of `_rebuild_agents`.
pub record Inferred : Type 0 where
  pub agents : Dict AgentView
  pub inferred : List String
  pub subagents : List String

-- A root agent of a session.
unfoldable pub infer_root : SessionView → Inferred → Inferred
unfolding insert agent_slot add
infer_root sess i = if sess.root_agent_id == "" then i else record i {
  agents =
      insert sess.root_agent_id
        (record (agent_slot sess.root_agent_id i.agents) {
          spawn_depth = 0;
          parent_agent_id = none;
        })
        i.agents;
  inferred = add sess.root_agent_id i.inferred;
}

unfoldable pub infer_roots : List SessionView → Inferred → Inferred
unfolding infer_root
infer_roots [] i = i
infer_roots (sess ∷ rest) i = infer_roots rest (infer_root sess i)

-- A parent that was recorded is kept.
unfoldable pub related : TaskView → AgentView → AgentView
related t a =
    if not (is_some a.parent_agent_id) && eqb a.spawn_depth 0
    then record a {
      parent_agent_id =
          if not (t.creator_agent_id == "") && not (t.creator_agent_id == t.assigned_agent_id)
          then some t.creator_agent_id
          else none;
    }
    else a

unfoldable pub is_subagent : TaskView → AgentView → Bool
unfolding truthy field_at
is_subagent t a = truthy (field_at "use_subagent" t.settings_raw) || ltb 0 a.spawn_depth

unfoldable pub infer_task : TaskView → Inferred → Inferred
unfolding insert agent_slot add mem related is_subagent
infer_task t i =
    if t.assigned_agent_id == "" || mem t.assigned_agent_id i.inferred
    then i
    else let a = related t (agent_slot t.assigned_agent_id i.agents) in
      record {
        agents = insert t.assigned_agent_id a i.agents;
        inferred = add t.assigned_agent_id i.inferred;
        subagents = if is_subagent t a then add t.assigned_agent_id i.subagents else i.subagents;
      }

unfoldable pub infer_tasks : List TaskView → Inferred → Inferred
unfolding infer_task
infer_tasks [] i = i
infer_tasks (t ∷ rest) i = infer_tasks rest (infer_task t i)

-- Whether the agent's parent still waits for its depth.
unfoldable pub waits : List String → Dict AgentView → String → Bool
unfolding lookup mem
waits pending agents aid = elim (lookup aid agents) [
  | none ↦ false
  | some a ↦ elim a.parent_agent_id [ none ↦ false | some parent ↦ mem parent pending ]
]

unfoldable pub ready : List String → Dict AgentView → List String
unfolding waits
ready pending agents = select (λ aid. not (waits pending agents aid)) pending

-- `view.agents.get(av.parent_agent_id)`
unfoldable pub parent_of : AgentView → Dict AgentView → Option AgentView
unfolding lookup
parent_of a agents = elim a.parent_agent_id [ none ↦ none | some parent ↦ lookup parent agents ]

unfoldable pub deepen : String → Dict AgentView → Dict AgentView
unfolding lookup insert parent_of
deepen aid agents = elim (lookup aid agents) [
  | none ↦ agents
  | some a ↦ elim (parent_of a agents) [
    | none ↦ agents
    | some parent ↦ insert aid (record a { spawn_depth = parent.spawn_depth + 1 }) agents
  ]
]

unfoldable pub deepen_all : List String → Dict AgentView → Dict AgentView
unfolding deepen
deepen_all [] agents = agents
deepen_all (aid ∷ rest) agents = deepen_all rest (deepen aid agents)

-- `while pending`: what is still pending when the loop ends, and the agents; none is a loop that has
-- not ended after so many rounds.
unfoldable pub depth_loop : ℕ → List String → Dict AgentView → Option (List String × Dict AgentView)
unfolding ready deepen_all difference
depth_loop _ [] agents = some ([], agents)
depth_loop zero pending agents = none
depth_loop (suc fuel) pending agents =
    let now = ready pending agents in
    let rest = depth_loop fuel (difference pending now) (deepen_all now agents) in
    if nonempty now then rest else some (pending, agents)

-- The relationships of the agents, before their depths.
unfoldable pub inferred_of : RunStateView → Inferred
unfolding infer_tasks infer_roots values
inferred_of v =
    infer_tasks (values v.tasks) (
      infer_roots (values v.sessions) (record { agents = v.agents; inferred = []; subagents = [] }))

-- `_rebuild_agents(view)`; none is a loop that does not end.
unfoldable pub rebuild_agents : RunStateView → Option RunStateView
unfolding inferred_of depth_loop
rebuild_agents v =
    let i = inferred_of v in
    depth_loop (length i.subagents) i.subagents i.agents >>= λ r. some (record v { agents = r.1 })

-- `apply_events(events, view)`
unfoldable pub apply_events : Times → List Event → RunStateView → Option RunStateView
unfolding fold_events rebuild_agents
apply_events times evs v = fold_events times evs v >>= rebuild_agents

-- `reduce_events(events, run_id)`
unfoldable pub reduce_events : Times → List Event → String → Option RunStateView
unfolding apply_events
reduce_events times evs run_id = apply_events times evs (new_view run_id)
