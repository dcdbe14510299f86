-- ===== src/Task/Queue/Pop.antt =====
-- What `pop` returns and what it leaves, against a description that does not loop.
use ctx_weft.Base.{
  Bool, not, ◌||◌, String, ◌≡◌, refl, ap, ◌≢◌, inl, inr, Option, none, some, true, false, List, [],
  ◌∷◌, ◌++◌, eq_refl, map, mem, mem-add, mem-difference, add, nonempty, all, All, arith, Bool-cases,
  nonempty_of_mem, mem_of_nonempty, difference, All-mid, and_parts,
}
use ctx_weft.Task.Queue.{
  QueueEntry, TaskQueue, Skip, refresh, eligible, pop_round, pop_loop, pop_end, pop, all_blocked,
}

-- An entry cannot be handed out: it waits on a dependency, its task is running, or it is skipped.
abbrev pub waits : List String → Skip → QueueEntry → Bool
waits running none e = nonempty e.blocked_by || mem e.task_id running
waits running (some f) e = nonempty e.blocked_by || mem e.task_id running || f e

eligible-waits :
    (running : List String) (skip : Skip) (e : QueueEntry)
    → eligible running skip e ≡ not (waits running skip e)
unfolding eligible
eligible-waits running none e = ground arith
eligible-waits running (some f) e = ground arith

module _ (succeeded running : List String) (skip : Skip) where
  -- The entry cannot be handed out once it is refreshed.
  abbrev pub IsPassed : QueueEntry → Type 0
  IsPassed x = waits running skip (refresh succeeded x) ≡ true

  -- `e` is the topmost eligible one of the entries: those above it are passed over and refreshed,
  -- those below are not looked at.
  pub record IsTopmost (entries : List QueueEntry) (e : QueueEntry) (left : List QueueEntry)
      : Type 0 where
    pub below : List QueueEntry
    pub entry : QueueEntry
    pub above : List QueueEntry
    pub split : entries ≡ below ++ entry ∷ above
    pub popped : e ≡ refresh succeeded entry
    pub ready : waits running skip e ≡ false
    pub passed : All IsPassed above
    pub left_over : left ≡ below ++ map (refresh succeeded) above

  -- What the loop has to deliver.
  abbrev pub Outcome : List QueueEntry → Option QueueEntry × List QueueEntry → Type 0
  Outcome entries (some e, left) = IsTopmost entries e left
  Outcome entries (none, left) = All IsPassed entries × (left ≡ map (refresh succeeded) entries)

  pop_round-Outcome :
      (entry : QueueEntry) (above : List QueueEntry) (r : Option QueueEntry × List QueueEntry)
      → Outcome above r
      → Outcome (entry ∷ above) (pop_round succeeded running skip entry r)
  unfolding pop_round
  pop_round-Outcome entry above (some e, left) o = record {
    below = entry ∷ o.below;
    entry = o.entry;
    above = o.above;
    split = ap (λ l. entry ∷ l) o.split;
    popped = o.popped;
    ready = o.ready;
    passed = o.passed;
    left_over = ap (λ l. entry ∷ l) o.left_over;
  }
  pop_round-Outcome entry above (none, left) o =
      elim (Bool-cases (eligible running skip (refresh succeeded entry))) [
        | inl ready ↦ rw ready (record {
          below = [];
          entry = entry;
          above = above;
          split = refl;
          popped = refl;
          ready = ground (arith, eligible-waits running skip (refresh succeeded entry), ready);
          passed = o.0;
          left_over = o.1;
        })
        | inr passed ↦ rw passed (
          (ground (arith, eligible-waits running skip (refresh succeeded entry), passed), o.0),
          ap (λ l. refresh succeeded entry ∷ l) o.1,
        )
      ]

  pub pop_loop-Outcome :
      (entries : List QueueEntry) → Outcome entries (pop_loop succeeded running skip entries)
  unfolding pop_loop
  pop_loop-Outcome [] = (tt, refl)
  pop_loop-Outcome (entry ∷ above) = pop_round-Outcome entry above _ (pop_loop-Outcome above)

-- The result of `pop`: the entry popped, and the queue after it.
abbrev pub Pops : Skip → TaskQueue → Option QueueEntry × TaskQueue → Type 0
Pops skip q (some e, q') =
    IsTopmost q.succeeded q.running skip q.entries e q'.entries
    × (q'.running ≡ add e.task_id q.running)
    × (q'.succeeded ≡ q.succeeded)
Pops skip q (none, q') =
    All (IsPassed q.succeeded q.running skip) q.entries
    × (q' ≡ record q { entries = map (refresh q.succeeded) q.entries })

pop_end-Pops :
    (skip : Skip) (q : TaskQueue) (r : Option QueueEntry × List QueueEntry)
    → Outcome q.succeeded q.running skip q.entries r
    → Pops skip q (pop_end q r)
unfolding pop_end
pop_end-Pops skip q (some e, left) o = (o, refl, refl)
pop_end-Pops skip q (none, left) o = (o.0, ap (λ l. record q { entries = l }) o.1)

-- `pop` returns the topmost entry whose dependencies have all succeeded, which is not running and
-- not skipped; it takes out that entry alone, marks its task as running, and only refreshes the
-- entries above it. It returns none only when every entry is passed over, and then it only refreshes.
pub pop-Pops : (skip : Skip) (q : TaskQueue) → Pops skip q (pop skip q)
unfolding pop
pop-Pops skip q = pop_end-Pops skip q _ (pop_loop-Outcome q.succeeded q.running skip q.entries)

-- An entry that can be handed out waits on nothing, and its task is not running.
pub waits_facts :
    (running : List String) (skip : Skip) (e : QueueEntry)
    → waits running skip e ≡ false
    → (nonempty e.blocked_by ≡ false) × (mem e.task_id running ≡ false)
waits_facts running none e h = ground arith
waits_facts running (some f) e h = ground arith

-- The task that a `pop` returned is not returned by the next one.
pub pop-pop_ne :
    (skip skip' : Skip) (q : TaskQueue) (e e' : QueueEntry)
    → (pop skip q).0 ≡ some e
    → (pop skip' (pop skip q).1).0 ≡ some e'
    → e'.task_id ≢ e.task_id
pop-pop_ne skip skip' q e e' first second same =
    second_pop (pop skip q) (pop-Pops skip q) first (pop skip' (pop skip q).1)
      (pop-Pops skip' (pop skip q).1) second
  where
    second_pop :
        (r : Option QueueEntry × TaskQueue)
        → Pops skip q r
        → r.0 ≡ some e
        → (r' : Option QueueEntry × TaskQueue) → Pops skip' r.1 r'
        → r'.0 ≡ some e'
        → ⊥
    second_pop (none, q₁) p f r' p' s = cc
    second_pop (some x, q₁) p f (none, q₂) p' s = cc
    second_pop (some x, q₁) p f (some y, q₂) p' s =
        let idle = (waits_facts q₁.running skip' y p'.0.ready).1 in
        ground (arith, idle, p.1, mem-add y.task_id x.task_id q.running, eq_refl x.task_id)

-- Every dependency on an entry's list is one that has not succeeded.
abbrev pub IsRefreshed : TaskQueue → Type 0
IsRefreshed q =
    All (λ e. (d : String) → mem d e.blocked_by ≡ true → mem d q.succeeded ≡ false) q.entries

-- An entry that waits on an open dependency still waits after a refresh.
refresh_blocked :
    (running : List String) (skip : Skip) (s : List String) (d : String) (e : QueueEntry)
    → mem d e.blocked_by ≡ true
    → mem d s ≡ false
    → waits running skip (refresh s e) ≡ true
unfolding refresh
refresh_blocked running skip s d e h k =
    let still : mem d (difference e.blocked_by s) ≡ true =
      ground (arith, mem-difference d e.blocked_by s) in
    either skip (nonempty_of_mem d (difference e.blocked_by s) still)
  where
    either :
        (f : Skip)
        → nonempty (difference e.blocked_by s) ≡ true
        → waits running f (refresh s e) ≡ true
    either none w = ground arith
    either (some f) w = ground arith

all_blocked-IsPassed :
    (s running : List String) (skip : Skip) (entries : List QueueEntry)
    → All (λ e. (d : String) → mem d e.blocked_by ≡ true → mem d s ≡ false) entries
    → all (λ e. nonempty e.blocked_by) entries ≡ true
    → All (IsPassed s running skip) entries
all_blocked-IsPassed s running skip [] fresh h = tt
all_blocked-IsPassed s running skip (e ∷ rest) fresh h =
    let (here, there) = and_parts _ _ h in
    let (d, inside) = mem_of_nonempty e.blocked_by here in
    (
      refresh_blocked running skip s d e inside (fresh.0 d inside),
      all_blocked-IsPassed s running skip rest fresh.1 there,
    )

not_topmost :
    {s running : List String} {skip : Skip} {entries : List QueueEntry} {e : QueueEntry}
    {left : List QueueEntry}
    → All (IsPassed s running skip) entries
    → IsTopmost s running skip entries e left
    → ⊥
not_topmost {s} {running} {skip} all_passed o =
    let passed =
      All-mid (IsPassed s running skip) o.below o.entry o.above (rw o.split at all_passed) in
    cc (o.ready, o.popped, passed)

-- When `all_blocked` reports a deadlock on a queue whose lists name open dependencies only, `pop`
-- returns nothing, whatever it is told to skip.
pub all_blocked-pop :
    (skip : Skip) (q : TaskQueue) → IsRefreshed q → all_blocked q ≡ true → (pop skip q).0 ≡ none
unfolding all_blocked
all_blocked-pop skip q fresh h = no_pop (pop skip q) (pop-Pops skip q)
  where
    no_pop : (r : Option QueueEntry × TaskQueue) → Pops skip q r → r.0 ≡ none
    no_pop (none, q') p = refl
    no_pop (some e, q') p = absurd (
        not_topmost (all_blocked-IsPassed q.succeeded q.running skip q.entries fresh (ground arith))
          p.0)
