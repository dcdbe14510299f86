-- ===== src/Task/Queue/Tests.antt =====
-- The queue on a small session: `draft` waits for `research`, and `plan` is free.
use ctx_weft.Base.{
  String, ◌≡◌, ◌≢◌, refl, sym, none, some, true, false, List, [], ◌∷◌, All, mem, add, difference,
  eq_iff, arith,
}
use ctx_weft.Task.Queue.{QueueEntry, TaskQueue, push, pop, mark_complete, all_blocked}
use ctx_weft.Task.Queue.Pop.{Pops, IsRefreshed, pop-Pops}
use ctx_weft.Task.Queue.Blocking.{
  Call, pops, fails, cancels, runs, perform_all, Holds, perform_all-Holds,
}
use ctx_weft.Task.Queue.Freeing.{mark_complete-pop}

abbrev draft : QueueEntry
draft = record { task_id = "draft"; session_id = "s1"; priority = 5; blocked_by = "research" ∷ [] }

abbrev plan : QueueEntry
plan = record { task_id = "plan"; session_id = "s1"; priority = 5; blocked_by = [] }

abbrev review : QueueEntry
review = record { task_id = "review"; session_id = "s1"; priority = 5; blocked_by = [] }

abbrev three : TaskQueue
three = record { entries = plan ∷ review ∷ draft ∷ []; succeeded = []; running = [] }

abbrev waiting : TaskQueue
waiting = record { entries = draft ∷ []; succeeded = []; running = [] }

pop-three : (pop none three).0 ≡ some review
unfolding pop difference mem
pop-three = refl

pop-pop_twice : (pop none (pop none three).1).0 ≡ some plan
unfolding pop difference mem add
pop-pop_twice = refl

pop-Pops_example : Pops none three (pop none three)
pop-Pops_example = pop-Pops none three

waiting-IsRefreshed : IsRefreshed waiting
unfolding mem
waiting-IsRefreshed = (λ d h. refl, tt)

waiting_blocked : all_blocked waiting ≡ true
unfolding all_blocked
waiting_blocked = refl

abbrev calls : List Call
calls = pops none ∷ fails "research" ∷ runs "plan" ∷ cancels "review" ∷ pops none ∷ []

waiting-Holds : Holds "research" "draft" waiting
unfolding mem
waiting-Holds = record { waiting = (λ same. refl, tt); open_dep = refl }

perform_all-Holds_example :
    All (λ e. e.task_id ≢ "draft") (perform_all calls waiting).0
    × Holds "research" "draft" (perform_all calls waiting).1
perform_all-Holds_example =
    perform_all-Holds "research" "draft" calls waiting (tt, (tt, (tt, (tt, (tt, tt)))))
      waiting-Holds

only_research : (x : String) → mem x ("research" ∷ []) ≡ true → x ≡ "research"
unfolding mem
only_research x h = sym ((eq_iff "research" x).0 (ground arith))

draft_idle : mem "draft" [] ≡ false
unfolding mem
draft_idle = refl

mark_complete-pop_example :
    (pop none (mark_complete "research" (push draft waiting))).0
    ≡ some (record draft { blocked_by = [] })
mark_complete-pop_example = mark_complete-pop waiting draft "research" only_research draft_idle
