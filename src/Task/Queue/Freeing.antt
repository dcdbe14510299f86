-- ===== src/Task/Queue/Freeing.antt =====
-- What the success of a task's last open dependency does.
use ctx_weft.Base.{
  String, ◌≡◌, ap, inl, inr, none, some, true, false, List, [], ◌∷◌, ◌++◌, eq_iff, map, mem,
  mem-difference, mem-discard, add, difference, discard, eq-nil_of_mem, arith, Bool-cases,
}
use mathlib.Core.List.{map-append}
use ctx_weft.Task.Queue.{
  QueueEntry, TaskQueue, Skip, refresh, eligible, push, pop_loop, pop, unblock, mark_complete,
}

-- The loop finds an eligible entry at the top of the stack at once.
pop_loop-snoc :
    (s running : List String) (skip : Skip) (below : List QueueEntry) (top : QueueEntry)
    → eligible running skip (refresh s top) ≡ true
    → pop_loop s running skip (below ++ top ∷ []) ≡ (some (refresh s top), below)
unfolding pop_loop
pop_loop-snoc s running skip [] top ready = rw ready
pop_loop-snoc s running skip (x ∷ below) top ready =
    rw (pop_loop-snoc s running skip below top ready)

-- An entry with one open dependency, after the success of that dependency and one more refresh.
freed :
    (s : List String) (e : QueueEntry) (d : String)
    → ((x : String) → mem x e.blocked_by ≡ true → x ≡ d)
    → refresh (add d s) (unblock d (refresh s e)) ≡ record e { blocked_by = [] }
unfolding refresh unblock
freed s e d only =
    ap (λ l. record e { blocked_by = l })
      (eq-nil_of_mem _ (λ x. elim (Bool-cases (mem x e.blocked_by)) [
        | inl listed ↦
            let same = only x listed in
            ground (
              arith,
              mem-difference x (discard d (difference e.blocked_by s)) (add d s),
              mem-discard x d (difference e.blocked_by s),
              eq_iff d x,
            )
        | inr free ↦ ground (
          arith,
          mem-difference x (discard d (difference e.blocked_by s)) (add d s),
          mem-discard x d (difference e.blocked_by s),
          mem-difference x e.blocked_by s,
        )
      ]))

freed_eligible :
    (q : TaskQueue) (e : QueueEntry) (d : String)
    → ((x : String) → mem x e.blocked_by ≡ true → x ≡ d)
    → mem e.task_id q.running ≡ false
    → eligible
        (discard d q.running)
        none
        (refresh (add d q.succeeded) (unblock d (refresh q.succeeded e)))
      ≡ true
freed_eligible q e d only idle =
    rw (freed q.succeeded e d only)
      (unfold eligible in ground (arith, mem-discard e.task_id d q.running))

-- The success of the last open dependency lets the top entry go: it is what the next `pop` returns,
-- with nothing left to wait on, when its task is not running.
pub mark_complete-pop :
    (q : TaskQueue) (e : QueueEntry) (d : String)
    → ((x : String) → mem x e.blocked_by ≡ true → x ≡ d)
    → mem e.task_id q.running ≡ false
    → (pop none (mark_complete d (push e q))).0 ≡ some (record e { blocked_by = [] })
unfolding pop mark_complete push
mark_complete-pop q e d only idle =
    rw
      (
        map-append,
        pop_loop-snoc (add d q.succeeded) (discard d q.running) none (map (unblock d) q.entries)
            (unblock d (refresh q.succeeded e)) (freed_eligible q e d only idle),
      )
      (ap some (freed q.succeeded e d only))
