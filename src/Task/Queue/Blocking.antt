-- ===== src/Task/Queue/Blocking.antt =====
-- Which tasks a dependency holds back, and what lets them go.
use ctx_weft.Base.{
  String, ◌≡◌, ◌≢◌, inl, inr, Option, none, some, true, false, List, [], ◌∷◌, ◌==◌, eq_iff, map,
  mem, mem-add, mem-difference, mem-discard, mem-update, difference, any, All, All-append,
  All-split, arith, Bool-cases, nonempty_of_mem,
}
use ctx_weft.Task.Queue.{
  QueueEntry, TaskQueue, Skip, refresh, push, pop, replace_in, replace_dependencies, mark_running,
  unmark_running, seed_succeeded, unblock, mark_complete, mark_failed, cancel_loop, cancel,
  drain_pending,
}
use ctx_weft.Task.Queue.Pop.{Pops, pop-Pops, waits_facts}

-- The calls that change a queue.
pub data Call : Type 0 where
  pushes : QueueEntry → Call
  pops : Skip → Call
  replaces : (old_ids : List String) (successor_id : String) → Call
  runs unruns completes fails cancels : String → Call
  seeds : List String → Call
  drains : Call

-- One call: the entry that it hands out, and the queue after it.
unfoldable pub perform : Call → TaskQueue → Option QueueEntry × TaskQueue
perform (pushes e) q = (none, push e q)
perform (pops skip) q = pop skip q
perform (replaces old_ids successor_id) q = (none, replace_dependencies old_ids successor_id q)
perform (runs t) q = (none, mark_running t q)
perform (unruns t) q = (none, unmark_running t q)
perform (completes t) q = (none, mark_complete t q)
perform (fails t) q = (none, mark_failed t q)
perform (cancels t) q = (none, (cancel t q).1)
perform (seeds ids) q = (none, seed_succeeded ids q)
perform drains q = (none, (drain_pending q).1)

-- A sequence of calls: the entries handed out, in order, and the last queue.
unfoldable pub perform_all : List Call → TaskQueue → List QueueEntry × TaskQueue
perform_all [] q = ([], q)
perform_all (c ∷ cs) q =
    let (found, q') = perform c q in
    let (out, last) = perform_all cs q' in (elim found [ none ↦ out | some e ↦ e ∷ out ], last)

module _ (d t : String) where
  -- An entry for `t` lists `d`.
  abbrev pub Lists : QueueEntry → Type 0
  Lists e = e.task_id ≡ t → mem d e.blocked_by ≡ true

  -- `d` has not succeeded, and every entry for `t` waits on it.
  pub record Holds (q : TaskQueue) : Type 0 where
    pub waiting : All Lists q.entries
    pub open_dep : mem d q.succeeded ≡ false

  -- A call that does not report success of `d`, does not replace it, and enqueues `t` behind it only.
  abbrev pub IsHarmless : Call → Type 0
  IsHarmless (pushes e) = e.task_id ≡ t → mem d e.blocked_by ≡ true
  IsHarmless (replaces old_ids successor_id) = mem d old_ids ≡ false
  IsHarmless (completes x) = x ≢ d
  IsHarmless (seeds ids) = mem d ids ≡ false
  IsHarmless _ = Unit

  -- An entry that is handed out is not for `t`.
  abbrev pub IsOther : Option QueueEntry → Type 0
  IsOther none = Unit
  IsOther (some e) = e.task_id ≢ t

  refresh-Lists :
      (s : List String) → mem d s ≡ false → (e : QueueEntry) → Lists e → Lists (refresh s e)
  unfolding refresh
  refresh-Lists s open_dep e h same = ground (arith, h same, mem-difference d e.blocked_by s)

  map-Lists :
      (f : QueueEntry → QueueEntry)
      → ((e : QueueEntry) → Lists e → Lists (f e))
      → (entries : List QueueEntry) → All Lists entries
      → All Lists (map f entries)
  map-Lists f keep [] h = tt
  map-Lists f keep (e ∷ rest) h = (keep e h.0, map-Lists f keep rest h.1)

  unblock-Lists : (x : String) → x ≢ d → (e : QueueEntry) → Lists e → Lists (unblock x e)
  unfolding unblock
  unblock-Lists x other e h same = ground (arith, h same, mem-discard d x e.blocked_by, eq_iff x d)

  replace_in-Lists :
      (old_ids : List String) (s : String)
      → mem d old_ids ≡ false
      → (e : QueueEntry) → Lists e
      → Lists (replace_in old_ids s e)
  unfolding replace_in
  replace_in-Lists old_ids s kept e h same =
      elim (Bool-cases (any (λ x. mem x old_ids) e.blocked_by)) [
        | inl hit ↦ rw hit (
            ground (
              arith,
              h (rw hit at same),
              mem-add d s (difference e.blocked_by old_ids),
              mem-difference d e.blocked_by old_ids,
            ))
        | inr miss ↦ rw miss (h (rw miss at same))
      ]

  cancel_loop-Lists :
      (x : String) (entries : List QueueEntry)
      → All Lists entries
      → All Lists (cancel_loop x entries).1
  unfolding cancel_loop
  cancel_loop-Lists x [] h = tt
  cancel_loop-Lists x (e ∷ rest) h = elim (Bool-cases (e.task_id == x)) [
    | inl hit ↦ rw hit h.1
    | inr miss ↦ rw miss (h.0, cancel_loop-Lists x rest h.1)
  ]

  Pops-Holds :
      (skip : Skip) (q : TaskQueue) (r : Option QueueEntry × TaskQueue)
      → Pops skip q r
      → Holds q
      → IsOther r.0 × Holds r.1
  Pops-Holds skip q (none, q') p h = (
    tt,
    rw (p.1) (record {
      waiting =
          map-Lists (refresh q.succeeded) (refresh-Lists q.succeeded h.open_dep) q.entries
            h.waiting;
      open_dep = h.open_dep;
    }),
  )
  Pops-Holds skip q (some e, q') p h =
      let o = p.0 in
      let (below, rest) = All-split Lists o.below (o.entry ∷ o.above) (rw (o.split) at h.waiting) in
      let kept : Lists e = rw (o.popped) (refresh-Lists q.succeeded h.open_dep o.entry rest.0) in
      let idle = (waits_facts q.running skip e o.ready).0 in
      (
        λ same. cc (nonempty_of_mem d e.blocked_by (kept same), idle),
        record {
          waiting = rw (o.left_over) (
              All-append Lists o.below (map (refresh q.succeeded) o.above) below (
                map-Lists (refresh q.succeeded) (refresh-Lists q.succeeded h.open_dep) o.above
                  rest.1));
          open_dep = rw (p.2) h.open_dep;
        },
      )

  push-Holds : (e : QueueEntry) (q : TaskQueue) → Lists e → Holds q → Holds (push e q)
  unfolding push
  push-Holds e q ok h = record {
    waiting =
        All-append Lists q.entries _ h.waiting (refresh-Lists q.succeeded h.open_dep e ok, tt);
    open_dep = h.open_dep;
  }

  mark_complete-Holds : (x : String) (q : TaskQueue) → x ≢ d → Holds q → Holds (mark_complete x q)
  unfolding mark_complete
  mark_complete-Holds x q ok h = record {
    waiting = map-Lists (unblock x) (unblock-Lists x ok) q.entries h.waiting;
    open_dep = ground (arith, mem-add d x q.succeeded, eq_iff x d, h.open_dep);
  }

  seed_succeeded-Holds :
      (ids : List String) (q : TaskQueue)
      → mem d ids ≡ false
      → Holds q
      → Holds (seed_succeeded ids q)
  unfolding seed_succeeded
  seed_succeeded-Holds ids q ok h = record {
    waiting = h.waiting;
    open_dep = ground (arith, mem-update d q.succeeded ids, h.open_dep);
  }

  -- Every call that is harmless keeps `t` behind `d`, and does not hand `t` out.
  pub perform-Holds :
      (c : Call) (q : TaskQueue)
      → IsHarmless c
      → Holds q
      → IsOther (perform c q).0 × Holds (perform c q).1
  unfolding perform replace_dependencies mark_running unmark_running mark_failed cancel
      drain_pending
  perform-Holds (pushes e) q ok h = (tt, push-Holds e q ok h)
  perform-Holds (pops skip) q ok h = Pops-Holds skip q _ (pop-Pops skip q) h
  perform-Holds (replaces old_ids s) q ok h = (
    tt,
    record {
      waiting =
          map-Lists (replace_in old_ids s) (replace_in-Lists old_ids s ok) q.entries h.waiting;
      open_dep = h.open_dep;
    },
  )
  perform-Holds (runs x) q ok h = (tt, record { waiting = h.waiting; open_dep = h.open_dep })
  perform-Holds (unruns x) q ok h = (tt, record { waiting = h.waiting; open_dep = h.open_dep })
  perform-Holds (completes x) q ok h = (tt, mark_complete-Holds x q ok h)
  perform-Holds (fails x) q ok h = (tt, record { waiting = h.waiting; open_dep = h.open_dep })
  perform-Holds (cancels x) q ok h =
      (tt, record { waiting = cancel_loop-Lists x q.entries h.waiting; open_dep = h.open_dep })
  perform-Holds (seeds ids) q ok h = (tt, seed_succeeded-Holds ids q ok h)
  perform-Holds drains q ok h = (tt, record { waiting = tt; open_dep = h.open_dep })

  out-IsOther :
      (found : Option QueueEntry) (out : List QueueEntry)
      → IsOther found
      → All (λ e. e.task_id ≢ t) out
      → All (λ e. e.task_id ≢ t) (elim found [ none ↦ out | some e ↦ e ∷ out ])
  out-IsOther none out h k = k
  out-IsOther (some e) out h k = (h, k)

  -- While a dependency `d` has not succeeded, no sequence of calls hands out a task `t` that waits
  -- on it, and `t` still waits on it at the end: popping with any predicate, failing `d` or any other
  -- task, cancelling, draining, marking tasks as running, completing tasks other than `d`. Replacing
  -- dependencies other than `d`, seeding others and enqueueing `t` behind `d` again are included.
  pub perform_all-Holds :
      (cs : List Call) (q : TaskQueue)
      → All IsHarmless cs
      → Holds q
      → All (λ e. e.task_id ≢ t) (perform_all cs q).0 × Holds (perform_all cs q).1
  unfolding perform_all
  perform_all-Holds [] q ok h = (tt, h)
  perform_all-Holds (c ∷ cs) q ok h =
      let (other, holds) = perform-Holds c q ok.0 h in
      let (others, last) = perform_all-Holds cs (perform c q).1 ok.1 holds in
      (out-IsOther (perform c q).0 _ other others, last)
