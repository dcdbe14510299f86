-- ===== src/Task/Threshold/Groups.antt =====
-- Each group of the plan as a test on the task that the table has under an id.
use ctx_weft.Base.{
  String, ◌≡◌, ap, ap₂, ◌∙◌, and_parts, inl, inr, some, Bool, true, ◌&&◌, ◌||◌, List, [], ◌∷◌, ◌==◌,
  eq_iff, mem, mem-append, All, arith, Bool-cases, Option-cases,
}
use ctx_weft.Base.Dict.{Dict, lookup, values}
use ctx_weft.Task.Model.{Task}
use ctx_weft.Task.Threshold.{is_started, has_dispatch_frame, TripPlan, plan_threshold_trip}
use ctx_weft.Task.Threshold.Loops.{
  test, named, is_child, is_stopped, is_inflight, is_open_root, mem-queued, mem-queued_now,
  mem-suspended, mem-suspended_now, mem-inflight, mem-acks, mem-fails, mem-signals,
}

-- A task table: every entry is under its task's id, and no entry hides another.
abbrev pub IsTable : Dict Task → Type 0
IsTable tasks = All (λ (key, t). (t.id ≡ key) × (lookup key tasks ≡ some t)) tasks

Bool_ext : (a b : Bool) → (a ≡ true → b ≡ true) → (b ≡ true → a ≡ true) → a ≡ b
Bool_ext a b f g = ground arith

module _ (p : Task → Bool) (x : String) (tasks : Dict Task) where
  named-test :
      (entries : Dict Task)
      → All (λ (key, t). (t.id ≡ key) × (lookup key tasks ≡ some t)) entries
      → named p x (values entries) ≡ true
      → test p (lookup x tasks) ≡ true
  unfolding values
  named-test [] ok h = cc
  named-test ((key, t) ∷ rest) ok h = elim (Bool-cases ((t.id == x) && p t)) [
    | inl here ↦
        let (same, holds) = and_parts (t.id == x) (p t) here in
        rw (← (eq_iff t.id x).0 same, ok.0.0, ok.0.1) holds
    | inr there ↦ named-test rest ok.1 (ground arith)
  ]

  test-named :
      (t : Task) (entries : Dict Task)
      → All (λ (key, t). (t.id ≡ key) × (lookup key tasks ≡ some t)) entries
      → lookup x entries ≡ some t
      → p t ≡ true
      → named p x (values entries) ≡ true
  unfolding values lookup
  test-named t [] ok found h = cc
  test-named t ((key, u) ∷ rest) ok found h = elim (Bool-cases (key == x)) [
    | inl here ↦ ground (arith, eq_iff key x, eq_iff u.id x)
    | inr there ↦ ground (arith, test-named t rest ok.1)
  ]

  pub named-eq-test : IsTable tasks → named p x (values tasks) ≡ test p (lookup x tasks)
  named-eq-test ok = Bool_ext _ _ (named-test tasks ok) back
    where
      back : test p (lookup x tasks) ≡ true → named p x (values tasks) ≡ true
      back h = elim (Option-cases (lookup x tasks)) [
        | inl missing ↦ cc (ap (test p) missing)
        | inr (t, found) ↦ test-named t tasks ok found (ground (arith, ap (test p) found))
      ]

-- The groups of a plan, one test for each.
pub record IsExact (tasks : Dict Task) (pending_ids running_ids : List String) (plan : TripPlan)
    (x : String) : Type 0 where
  pub queued : mem x plan.cancel_queued ≡ (mem x pending_ids && test is_child (lookup x tasks))
  pub suspended : mem x plan.cancel_suspended ≡ test is_stopped (lookup x tasks)
  pub inflight : mem x plan.signal_inflight ≡ test (is_inflight running_ids) (lookup x tasks)
  pub acks :
      mem x plan.ack_task_ids
      ≡ test (λ t. is_inflight running_ids t && has_dispatch_frame t) (lookup x tasks)
  pub now : mem x plan.cancel_now_ids ≡ (
      mem x pending_ids && test (λ t. is_child t && is_started t) (lookup x tasks)
      || test (λ t. is_stopped t && is_started t) (lookup x tasks))
  pub fails : mem x plan.fail_roots ≡ test is_open_root (lookup x tasks)
  pub signals :
      mem x plan.signal_roots ≡ test (λ t. is_open_root t && mem t.id running_ids) (lookup x tasks)

-- For every id, each of the plan's seven groups has it exactly when the task of that id in the
-- table belongs there: a queued child is canceled, a suspended one too, one in flight is signalled
-- (and acknowledged when it has a frame), those canceled at once are the started ones of the first
-- two groups, a root that is not terminal fails, and is signalled too when it is in flight.
pub plan_threshold_trip-IsExact :
    (tasks : Dict Task) (pending_ids running_ids : List String)
    → IsTable tasks
    → (x : String)
    → IsExact tasks pending_ids running_ids (plan_threshold_trip tasks pending_ids running_ids) x
unfolding plan_threshold_trip
plan_threshold_trip-IsExact tasks pending_ids running_ids ok x = record {
  queued = mem-queued x tasks pending_ids;
  suspended = mem-suspended x running_ids (values tasks) ∙ named-eq-test is_stopped x tasks ok;
  inflight =
      mem-inflight x running_ids (values tasks)
      ∙ named-eq-test (is_inflight running_ids) x tasks ok;
  acks = mem-acks x running_ids (values tasks) ∙ named-eq-test _ x tasks ok;
  now =
      mem-append x _ _
      ∙ ap₂ (λ a b. a || b) (mem-queued_now x tasks pending_ids)
          (mem-suspended_now x running_ids (values tasks) ∙ named-eq-test _ x tasks ok);
  fails = mem-fails x running_ids (values tasks) ∙ named-eq-test is_open_root x tasks ok;
  signals = mem-signals x running_ids (values tasks) ∙ named-eq-test _ x tasks ok;
}
