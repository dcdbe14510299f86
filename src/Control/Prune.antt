-- ===== src/Control/Prune.antt =====
-- src/ctx_weft/core/control/reducers.py, `prune_view_for_snapshot`. A set is a list; the entries that are
-- kept stand in the order of the table, where the source leaves the order to its set.
pub mod Retention
mod Tests
use ctx_weft.Base.{
  ℕ, zero, suc, ◌+◌, String, Option, none, some, Bool, true, false, List, [], ◌∷◌, ◌++◌, ◌==◌, not,
  ◌&&◌, ◌||◌, mem, is_some, add, update, difference, length, starts_with, if◌then◌else◌,
}
use ctx_weft.Base.Dict.{Dict, lookup, insert}
use ctx_weft.Base.Value.{Value, Payload, text}
use ctx_weft.Task.Status.{is_terminal_word}
use ctx_weft.Control.Views.{RunStateView, TaskView, AgentView, new_task_view}
use ctx_weft.Control.Apply.Agents.{agent_cancel_reason}
use ctx_weft.Control.Apply.Statuses.{is_agent_cancel}

-- `{tid for tid, t in tasks.items() if p(t)}`
unfoldable pub ids_where : (TaskView → Bool) → Dict TaskView → List String
unfolding add
ids_where p [] = []
ids_where p ((id, t) ∷ rest) = let more = ids_where p rest in if p t then add id more else more

abbrev pub is_live : TaskView → Bool
is_live t = not (is_terminal_word t.status)

unfoldable pub live_ids : Dict TaskView → List String
unfolding ids_where is_terminal_word
live_ids tasks = ids_where is_live tasks

abbrev pub has_live_parent : List String → TaskView → Bool
has_live_parent live t = not (t.parent_task_id == "") && mem t.parent_task_id live

-- `info.get("task_id", key)`; an id that is no text stands for no task.
unfoldable pub observed_ids : Dict Payload → List String
unfolding lookup
observed_ids [] = []
observed_ids ((key, info) ∷ rest) = elim (lookup "task_id" info) [
  | none ↦ key ∷ observed_ids rest
  | some (text id) ↦ id ∷ observed_ids rest
  | some _ ↦ observed_ids rest
]

-- Whether an agent's current task is kept: the agent was canceled, or its state is to be repaired.
abbrev pub keeps_current : AgentView → Bool
keeps_current a =
    (a.status == "terminated" && starts_with a.status_reason agent_cancel_reason)
    || a.status == "running"
    || a.status == "interrupted"

unfoldable pub current_ids : Dict TaskView → Dict AgentView → List String
unfolding lookup
current_ids tasks [] = []
current_ids tasks ((aid, a) ∷ rest) =
    let more = current_ids tasks rest in
    if keeps_current a
    then (elim a.current_task_id [
      | none ↦ more
      | some id ↦ if is_some (lookup id tasks) then id ∷ more else more
    ])
    else more

abbrev pub is_unfinished_cancel : TaskView → Bool
is_unfinished_cancel t = t.status == "CANCELED" && not t.finalized

-- `keep_full` before the walk to the ancestors
unfoldable pub base_ids : RunStateView → List String
unfolding live_ids ids_where update observed_ids current_ids
base_ids v =
    update
      (update
        (update (update (live_ids v.tasks) (ids_where (has_live_parent (live_ids v.tasks)) v.tasks))
          (observed_ids v.pending_observe))
        (current_ids v.tasks v.agents))
      (ids_where is_unfinished_cancel v.tasks)

-- `while task is not None …`, from a task with the parents seen so far: the ancestors to keep.
unfoldable pub walk : ℕ → List String → Dict TaskView → TaskView → List String
unfolding mem lookup is_agent_cancel
walk zero seen tasks t = []
walk (suc fuel) seen tasks t =
    if t.parent_task_id == "" || mem t.parent_task_id seen
    then []
    else (elim (lookup t.parent_task_id tasks) [
      | none ↦ []
      | some parent ↦
          let above = walk fuel (t.parent_task_id ∷ seen) tasks parent in
          if is_agent_cancel parent.error then parent.id ∷ above else above
    ])

-- The loop over `list(keep_full)`.
unfoldable pub ancestors : List String → Dict TaskView → List String
unfolding lookup walk
ancestors [] tasks = []
ancestors (id ∷ ids) tasks = elim (lookup id tasks) [
  | none ↦ ancestors ids tasks
  | some t ↦ walk (length tasks + 1) [] tasks t ++ ancestors ids tasks
]

unfoldable pub keep_full : RunStateView → List String
unfolding base_ids update ancestors
keep_full v = update (base_ids v) (ancestors (base_ids v) v.tasks)

unfoldable pub deps_of : List String → Dict TaskView → List String
unfolding lookup
deps_of [] tasks = []
deps_of (id ∷ ids) tasks = elim (lookup id tasks) [
  | none ↦ deps_of ids tasks
  | some t ↦ t.dag_deps ++ deps_of ids tasks
]

unfoldable pub dep_ids : RunStateView → List String
unfolding deps_of live_ids difference keep_full
dep_ids v = difference (deps_of (live_ids v.tasks) v.tasks) (keep_full v)

-- The entries under these keys.
unfoldable pub restrict : List String → Dict TaskView → Dict TaskView
unfolding mem
restrict ids [] = []
restrict ids ((id, t) ∷ rest) =
    let more = restrict ids rest in if mem id ids then (id, t) ∷ more else more

-- `TaskView(id=…, session_id=…, status=…, details_complete=False)`
abbrev pub slim : TaskView → TaskView
slim t = record (new_task_view t.id t.session_id t.status) { details_complete = false }

unfoldable pub add_deps : List String → Dict TaskView → Dict TaskView → Dict TaskView
unfolding lookup insert
add_deps [] tasks kept = kept
add_deps (id ∷ ids) tasks kept = elim (lookup id tasks) [
  | none ↦ add_deps ids tasks kept
  | some t ↦ add_deps ids tasks (insert id (slim t) kept)
]

-- `prune_view_for_snapshot(view)`
unfoldable pub prune_view_for_snapshot : RunStateView → RunStateView
unfolding add_deps dep_ids restrict keep_full
prune_view_for_snapshot v = record v {
  tasks = add_deps (dep_ids v) v.tasks (restrict (keep_full v) v.tasks);
}
