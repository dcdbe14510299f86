-- ===== src/Control/Reduce/Depths.antt =====
-- src/ctx_weft/core/control/reducers.py, `_rebuild_agents`: the loop over the depths ends.
use ctx_weft.Base.{
  ℕ, zero, suc, ◌≤◌, ◌<◌, String, ◌≡◌, refl, sym, ap, ◌∙◌, inl, inr, Bool, true, false, List, [],
  ◌∷◌, arith, ◌==◌, eq_iff, not, mem, difference, nonempty, mem_of_nonempty, nonempty_of_mem,
  length, select, length-select-le, Bool-cases,
}
use ctx_weft.Base.Dict.{Dict}
use ctx_weft.Control.Views.{RunStateView, AgentView}
use ctx_weft.Control.Reduce.{waits, ready, deepen_all, depth_loop, inferred_of, rebuild_agents}
use ctx_weft.Base.{Option, some, ◌>>=◌}

-- A selection that leaves out a member is shorter.
length-select-lt :
    (q : String → Bool) (x : String) (xs : List String)
    → mem x xs ≡ true
    → q x ≡ false
    → length (select q xs) < length xs
unfolding mem
length-select-lt q x [] there out = cc
length-select-lt q x (y ∷ ys) there out = elim (Bool-cases (y == x)) [
  | inl here ↦
      let at_head : q y ≡ false = ap q ((eq_iff y x).0 here) ∙ out in
      rw at_head (let rest = length-select-le q ys in omega arith)
  | inr apart ↦
      let further = length-select-lt q x ys (rw apart at there) out in
      elim (Bool-cases (q y)) [
        | inl kept ↦ rw kept (omega arith)
        | inr gone ↦ rw gone (omega arith)
      ]
]

mem-select :
    (p : String → Bool) (x : String) (xs : List String)
    → mem x (select p xs) ≡ true
    → (mem x xs ≡ true) × (p x ≡ true)
unfolding mem
mem-select p x [] h = cc
mem-select p x (y ∷ ys) h = elim (Bool-cases (p y)) [
  | inr gone ↦
      let (there, good) = mem-select p x ys (rw gone at h) in
      (elim (Bool-cases (y == x)) [ inl e ↦ rw e refl | inr e ↦ rw e there ], good)
  | inl kept ↦
      let h' : mem x (y ∷ select p ys) ≡ true = (rw kept at h) in
      elim (Bool-cases (y == x)) [
        | inl here ↦ (rw here refl, ap p (sym ((eq_iff y x).0 here)) ∙ kept)
        | inr apart ↦
            let (there, good) = mem-select p x ys (rw apart at h') in (rw apart there, good)
      ]
]

mem-select_in :
    (p : String → Bool) (x : String) (xs : List String)
    → mem x xs ≡ true
    → p x ≡ true
    → mem x (select p xs) ≡ true
unfolding mem
mem-select_in p x [] there good = there
mem-select_in p x (y ∷ ys) there good = elim (Bool-cases (y == x)) [
  | inl here ↦ let kept : p y ≡ true = ap p ((eq_iff y x).0 here) ∙ good in rw (kept, here) refl
  | inr apart ↦
      let further = mem-select_in p x ys (rw apart at there) good in
      elim (Bool-cases (p y)) [ inl kept ↦ rw (kept, apart) further | inr gone ↦ rw gone further ]
]

-- When the loop stops, each pending agent waits for another.
abbrev pub AllWait : List String → Dict AgentView → Type 0
AllWait pending agents = (aid : String) → mem aid pending ≡ true → waits pending agents aid ≡ true

stopped-AllWait :
    (pending : List String) (agents : Dict AgentView)
    → nonempty (ready pending agents) ≡ false
    → AllWait pending agents
unfolding ready
stopped-AllWait pending agents none_ready aid there = elim (Bool-cases (waits pending agents aid)) [
  | inl waiting ↦ waiting
  | inr free ↦
      let in_ready =
        mem-select_in (λ a. not (waits pending agents a)) aid pending there (rw free refl) in
      let some_ready = nonempty_of_mem aid _ in_ready in cc
]

ready-shrinks :
    (pending : List String) (agents : Dict AgentView)
    → nonempty (ready pending agents) ≡ true
    → length (difference pending (ready pending agents)) < length pending
unfolding ready difference
ready-shrinks pending agents some_ready =
    let (aid, now) = mem_of_nonempty (ready pending agents) some_ready in
    let (there, free) = mem-select (λ a. not (waits pending agents a)) aid pending now in
    length-select-lt (λ x. not (mem x (ready pending agents))) aid pending there (rw now refl)

-- The loop has ended, where it may.
abbrev pub IsEnded : Option (List String × Dict AgentView) → Type 0
IsEnded o = (r : List String × Dict AgentView) × (o ≡ some r) × AllWait r.0 r.1

depth_loop-IsEnded :
    (n : ℕ) (pending : List String) (agents : Dict AgentView)
    → length pending ≤ n
    → IsEnded (depth_loop n pending agents)
unfolding depth_loop mem
depth_loop-IsEnded zero [] agents short = (([], agents), refl, λ aid there. cc)
depth_loop-IsEnded zero (x ∷ xs) agents short = absurd (omega arith)
depth_loop-IsEnded (suc n) [] agents short = (([], agents), refl, λ aid there. cc)
depth_loop-IsEnded (suc n) (x ∷ xs) agents short =
    let pending : List String = x ∷ xs in
    elim (Bool-cases (nonempty (ready pending agents))) [
      | inr done ↦ ((pending, agents), rw done refl, stopped-AllWait pending agents done)
      | inl more ↦
          let shorter = ready-shrinks pending agents more in
          let (r, ended, stuck) =
            depth_loop-IsEnded n (difference pending (ready pending agents))
              (deepen_all (ready pending agents) agents) (omega arith) in
          (r, rw more ended, stuck)
    ]

-- The loop over the depths ends, with at most one round for each subagent, whatever the parents of the
-- agents are: either no agent is pending then, or all that are wait for another of them, as in a cycle
-- of parents.
pub depth_loop-ends :
    (pending : List String) (agents : Dict AgentView)
    → (r : List String × Dict AgentView) × (depth_loop (length pending) pending agents ≡ some r)
      × AllWait r.0 r.1
depth_loop-ends pending agents = depth_loop-IsEnded (length pending) pending agents (omega arith)

-- So a replay has a result if the fold of its events has one.
pub rebuild_agents-total : (v : RunStateView) → (w : RunStateView) × (rebuild_agents v ≡ some w)
unfolding rebuild_agents
rebuild_agents-total v =
    let i = inferred_of v in
    let (r, ended, _) = depth_loop-ends i.subagents i.agents in
    (record v { agents = r.1 }, ap (λ o. o >>= λ x. some (record v { agents = x.1 })) ended)
