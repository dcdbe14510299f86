-- ===== src/Task/Threshold/Loops.antt =====
-- Membership in the lists that the loops collect, as a test on the tasks that they go through.
use ctx_weft.Base.{
  String, ◌≡◌, refl, ap, ◌∙◌, inl, inr, Option, none, some, Bool, false, not, ◌&&◌, ◌||◌, List, [],
  ◌∷◌, ◌==◌, eq_iff, mem, any, arith, Bool-cases,
}
use ctx_weft.Base.Dict.{Dict, lookup}
use ctx_weft.Task.Status.{is_terminal, is_suspended}
use ctx_weft.Task.Model.{Task}
use ctx_weft.Task.Threshold.{
  is_root, is_started, has_dispatch_frame, visit_pending, pending_loop, child_loop, root_loop,
}

-- The test `p` on a task that may be missing.
abbrev pub test : (Task → Bool) → Option Task → Bool
test p none = false
test p (some t) = p t

-- One of the tasks has the id `x` and passes `p`.
abbrev pub named : (Task → Bool) → String → List Task → Bool
named p x ts = any (λ t. (t.id == x) && p t) ts

abbrev pub is_child : Task → Bool
is_child t = not (is_root t)

abbrev pub is_stopped : Task → Bool
is_stopped t = is_child t && is_suspended t.status

abbrev pub is_inflight : List String → Task → Bool
is_inflight running t = is_child t && not (is_suspended t.status) && mem t.id running

abbrev pub is_open_root : Task → Bool
is_open_root t = is_root t && not (is_terminal t.status)

module _ (x : String) (tasks : Dict Task) where
  -- The entry `tid` of the queue puts `x` into the lists only if it is `x`.
  visit-queued :
      (tid : String) (o : Option Task) (r : List String × List String)
      → mem x (visit_pending tid o r).0 ≡ ((tid == x) && test is_child o || mem x r.0)
  unfolding visit_pending mem
  visit-queued tid none (queued, now) = ground arith
  visit-queued tid (some t) (queued, now) = ground arith

  visit-now :
      (tid : String) (o : Option Task) (r : List String × List String)
      → mem x (visit_pending tid o r).1
        ≡ ((tid == x) && test (λ t. is_child t && is_started t) o || mem x r.1)
  unfolding visit_pending mem
  visit-now tid none (queued, now) = ground arith
  visit-now tid (some t) (queued, now) = ground arith

  same_entry :
      (p : Task → Bool) (tid : String) (rest : Bool)
      → ((tid == x) && test p (lookup tid tasks) || (rest && test p (lookup x tasks)))
        ≡ (((tid == x) || rest) && test p (lookup x tasks))
  same_entry p tid rest = elim (Bool-cases (tid == x)) [
    | inl same ↦ rw ((eq_iff tid x).0 same) (ground arith)
    | inr other ↦ ground arith
  ]

  pub mem-queued :
      (ids : List String)
      → mem x (pending_loop tasks ids).0 ≡ (mem x ids && test is_child (lookup x tasks))
  unfolding pending_loop mem
  mem-queued [] = refl
  mem-queued (tid ∷ ids) =
      visit-queued tid (lookup tid tasks) (pending_loop tasks ids)
      ∙ ap (λ b. (tid == x) && test is_child (lookup tid tasks) || b) (mem-queued ids)
      ∙ same_entry is_child tid (mem x ids)

  pub mem-queued_now :
      (ids : List String)
      → mem x (pending_loop tasks ids).1
        ≡ (mem x ids && test (λ t. is_child t && is_started t) (lookup x tasks))
  unfolding pending_loop mem
  mem-queued_now [] = refl
  mem-queued_now (tid ∷ ids) =
      visit-now tid (lookup tid tasks) (pending_loop tasks ids)
      ∙ ap (λ b. (tid == x) && test (λ t. is_child t && is_started t) (lookup tid tasks) || b)
          (mem-queued_now ids)
      ∙ same_entry (λ t. is_child t && is_started t) tid (mem x ids)

module _ (x : String) (running : List String) where
  pub mem-suspended :
      (ts : List Task) → mem x (child_loop running ts).suspended ≡ named is_stopped x ts
  unfolding child_loop mem
  mem-suspended [] = refl
  mem-suspended (t ∷ ts) = ground (arith, mem-suspended ts)

  pub mem-suspended_now :
      (ts : List Task)
      → mem x (child_loop running ts).now ≡ named (λ t. is_stopped t && is_started t) x ts
  unfolding child_loop mem
  mem-suspended_now [] = refl
  mem-suspended_now (t ∷ ts) = ground (arith, mem-suspended_now ts)

  pub mem-inflight :
      (ts : List Task) → mem x (child_loop running ts).inflight ≡ named (is_inflight running) x ts
  unfolding child_loop mem
  mem-inflight [] = refl
  mem-inflight (t ∷ ts) = ground (arith, mem-inflight ts)

  pub mem-acks :
      (ts : List Task)
      → mem x (child_loop running ts).acks
        ≡ named (λ t. is_inflight running t && has_dispatch_frame t) x ts
  unfolding child_loop mem
  mem-acks [] = refl
  mem-acks (t ∷ ts) = ground (arith, mem-acks ts)

  pub mem-fails : (ts : List Task) → mem x (root_loop running ts).0 ≡ named is_open_root x ts
  unfolding root_loop mem
  mem-fails [] = refl
  mem-fails (t ∷ ts) = ground (arith, mem-fails ts)

  pub mem-signals :
      (ts : List Task)
      → mem x (root_loop running ts).1 ≡ named (λ t. is_open_root t && mem t.id running) x ts
  unfolding root_loop mem
  mem-signals [] = refl
  mem-signals (t ∷ ts) = ground (arith, mem-signals ts)
