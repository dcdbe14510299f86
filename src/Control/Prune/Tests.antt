-- ===== src/Control/Prune/Tests.antt =====
-- A live task with a child and a dependency, and a chain of ancestors with a gap.
use ctx_weft.Base.{String, ◌≡◌, refl, some, true, [], ◌∷◌, mem}
use ctx_weft.Base.Dict.{Dict, lookup, keys}
use ctx_weft.Task.Status.{is_terminal_word}
use ctx_weft.Control.Views.{RunStateView, TaskView, new_task_view, new_view}
use ctx_weft.Control.Prune.{prune_view_for_snapshot}
use ctx_weft.Control.Prune.Retention.{prune_view_for_snapshot-retains}

abbrev task : String → String → String → TaskView
task id status parent = record (new_task_view id "s1" status) { parent_task_id = parent }

abbrev waiting : TaskView
waiting = record (task "t1" "SUSPENDED" "") { dag_deps = "t0" ∷ [] }

abbrev view : Dict TaskView → RunStateView
view tasks = record (new_view "r1") { tasks = tasks }

abbrev busy : RunStateView
busy = view (
    ("t0", task "t0" "FAILED" "")
    ∷ ("t1", waiting)
    ∷ ("t2", task "t2" "FINISHED" "t1")
    ∷ ("t3", task "t3" "FINISHED" "")
    ∷ [])

prune_view_for_snapshot-retains_example :
    (lookup "t1" (prune_view_for_snapshot busy).tasks ≡ some waiting)
    × ((child_id : String) (child : TaskView)
        → lookup child_id busy.tasks ≡ some child
        → child.parent_task_id ≡ "t1"
        → lookup child_id (prune_view_for_snapshot busy).tasks ≡ some child)
    × ((dep_id : String) (dep : TaskView)
        → mem dep_id ("t0" ∷ []) ≡ true
        → lookup dep_id busy.tasks ≡ some dep
        → (e : TaskView) × (lookup dep_id (prune_view_for_snapshot busy).tasks ≡ some e)
          × (e.status ≡ dep.status))
unfolding lookup is_terminal_word
prune_view_for_snapshot-retains_example =
    prune_view_for_snapshot-retains busy "t1" waiting refl refl refl

-- The task that nothing needs is gone, and the dependency has lost its details.
pruned : (keys (prune_view_for_snapshot busy).tasks ≡ "t1" ∷ "t2" ∷ "t0" ∷ [])
unfolding prune_view_for_snapshot keys
pruned = refl

-- A canceled task, below it one that has ended without a cause, and below that one that is live.
abbrev gap : RunStateView
gap = view (
    ("t1", record (task "t1" "CANCELED" "") { error = some "cancel_agent:a1"; finalized = true })
    ∷ ("t2", task "t2" "FINISHED" "t1")
    ∷ ("t3", task "t3" "ACTIVE" "t2")
    ∷ [])

-- The first pruning keeps the canceled ancestor, and takes out the task through which it is found.
first_pruning : keys (prune_view_for_snapshot gap).tasks ≡ "t1" ∷ "t3" ∷ []
unfolding prune_view_for_snapshot keys
first_pruning = refl

-- The second one then loses it.
second_pruning : keys (prune_view_for_snapshot (prune_view_for_snapshot gap)).tasks ≡ "t3" ∷ []
unfolding prune_view_for_snapshot keys
second_pruning = refl
