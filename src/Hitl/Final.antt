-- ===== src/Hitl/Final.antt =====
-- What later calls can do to a request that is decided.
use ctx_weft.Base.{
  ℕ, String, ◌≡◌, refl, sym, ap, ◌∙◌, ◌⊎◌, subst, Option, none, some, Bool, true, false, not, ◌||◌,
  List, [], ◌∷◌, ◌==◌, eq_iff, arith, if◌then◌else◌, inl, inr, Bool-cases, Option-cases, All,
}
use ctx_weft.Base.Dict.{lookup, insert, lookup-insert, lookup-set_default}
use ctx_weft.Base.Value.{Value}
use ctx_weft.Hitl.Contract.{HitlAsk, HitlDecision}
use ctx_weft.Hitl.Record.{PendingHitl, resolved, claim_pending}
use ctx_weft.Hitl.Registry.{
  Requests, Opening, open_request, publish, attach_slot, detach_slot, resolve, claim, commit_claim,
  release_claim, mark_closed, find_for_tool_call, key_or_none, resolve_request, claim_request,
  commit_request, release_request,
}

-- The calls that answer, publish and close requests.
pub data Call : Type 0 where
  open_call : HitlAsk → Opening → Call
  publish_call : PendingHitl → Call
  attach_call : String → ℕ → Call
  detach_call : String → Call
  resolve_call : String → HitlDecision → ℕ → Call
  claim_call : String → HitlDecision → Value → Call
  commit_call : String → ℕ → Call
  release_call : String → Call
  close_call : String → Call

pub perform : Call → Requests → Requests
perform (open_call ask o) m = (open_request ask o m).1
perform (publish_call r) m = (publish r m).1
perform (attach_call k slot) m = attach_slot k slot m
perform (detach_call k) m = detach_slot k m
perform (resolve_call k d t) m = (resolve k d t m).1
perform (claim_call k d p) m = (claim k d p m).1
perform (commit_call k t) m = (commit_claim k t m).1
perform (release_call k) m = (release_claim k m).1
perform (close_call k) m = (mark_closed k m).1

pub perform_all : List Call → Requests → Requests
perform_all [] m = m
perform_all (c ∷ cs) m = perform_all cs (perform c m)

-- A call does not open a request under the id.
abbrev pub Spares : String → Call → Type 0
Spares k (open_call ask o) = (o.hitl_id == k) ≡ false
Spares k _ = Unit

-- The request under the id is decided so, at that time.
pub record IsDecided (k : String) (d : HitlDecision) (t : Option ℕ) (m : Requests) : Type 0 where
  pub request : PendingHitl
  pub stored : lookup k m ≡ some request
  pub decided : request.decision ≡ some d
  pub at_time : request.resolved_at ≡ t

-- A write under another id, or one that keeps the decision.
insert-IsDecided :
    (k j : String) (d : HitlDecision) (t : Option ℕ) (v : PendingHitl) (m : Requests)
    → IsDecided k d t m
    → (j ≡ k → (v.decision ≡ some d) × (v.resolved_at ≡ t))
    → IsDecided k d t (insert j v m)
insert-IsDecided k j d t v m h same = elim (Bool-cases (j == k)) [
  | inl e ↦
      let (a, b) = same ((eq_iff j k).0 e) in
      record { request = v; stored = lookup-insert j k v m ∙ rw e refl; decided = a; at_time = b }
  | inr e ↦ record {
    request = h.request;
    stored = lookup-insert j k v m ∙ rw e h.stored;
    decided = h.decided;
    at_time = h.at_time;
  }
]

-- A write to the request under an id, if it is there and not skipped.
update : String → (PendingHitl → Bool) → (PendingHitl → PendingHitl) → Requests → Requests
update j skip f m = elim (lookup j m) [ none ↦ m | some r ↦ if skip r then m else insert j (f r) m ]

update-IsDecided :
    (k j : String) (d : HitlDecision) (t : Option ℕ) (skip : PendingHitl → Bool)
    (f : PendingHitl → PendingHitl) (m : Requests)
    → IsDecided k d t m
    → ((r : PendingHitl)
        → r.decision ≡ some d
        → r.resolved_at ≡ t
        → (skip r ≡ true) ⊎ (((f r).decision ≡ some d) × ((f r).resolved_at ≡ t)))
    → IsDecided k d t (update j skip f m)
unfolding update
update-IsDecided k j d t skip f m h keeps = elim (Option-cases (lookup j m)) [
  | inl absent ↦ rw (update, absent) h
  | inr (r, there) ↦ elim (Bool-cases (skip r)) [
    | inl skipped ↦ rw (update, there, skipped) h
    | inr written ↦
        rw (update, there, written)
          (insert-IsDecided k j d t (f r) m h (λ e. kept r written (ours r there e)))
  ]
]
  where
    ours : (r : PendingHitl) → lookup j m ≡ some r → j ≡ k → r ≡ h.request
    ours r there e = cc (there, h.stored, e)

    kept :
        (r : PendingHitl)
        → skip r ≡ false
        → r ≡ h.request
        → ((f r).decision ≡ some d) × ((f r).resolved_at ≡ t)
    kept r written same =
        elim (keeps r (ap (λ z. z.decision) same ∙ h.decided)
          (ap (λ z. z.resolved_at) same ∙ h.at_time)) [
            | inl skipped ↦ cc (skipped, written)
            | inr both ↦ both
          ]

module _ (k : String) (m : Requests) where
  resolve-update :
      (d : HitlDecision) (t : ℕ) → (resolve k d t m).1 ≡ update k resolved (resolve_request d t) m
  unfolding resolve update
  resolve-update d t = ground arith

  claim-update :
      (d : HitlDecision) (p : Value)
      → (claim k d p m).1 ≡ update k (λ r. resolved r || claim_pending r) (claim_request d p) m
  unfolding claim update
  claim-update d p = ground arith

  commit_claim-update :
      (t : ℕ)
      → (commit_claim k t m).1
        ≡ update k (λ r. resolved r || not (claim_pending r)) (commit_request t) m
  unfolding commit_claim update
  commit_claim-update t = ground arith

  release_claim-update :
      (release_claim k m).1 ≡ update k (λ r. resolved r || not (claim_pending r)) release_request m
  unfolding release_claim update
  release_claim-update = ground arith

  mark_closed-update :
      (mark_closed k m).1 ≡ update k (λ r. r.closed) (λ r. record r { closed = true }) m
  unfolding mark_closed update
  mark_closed-update = ground arith

  attach_slot-update :
      (slot : ℕ)
      → attach_slot k slot m ≡ update k (λ r. false) (λ r. record r { slot = some slot }) m
  unfolding attach_slot update
  attach_slot-update slot = ground arith

  detach_slot-update : detach_slot k m ≡ update k (λ r. false) (λ r. record r { slot = none }) m
  unfolding detach_slot update
  detach_slot-update = ground arith

decided_resolved :
    (r : PendingHitl) (d : HitlDecision) (b : Bool) → r.decision ≡ some d → (resolved r || b) ≡ true
unfolding resolved
decided_resolved r d b h = rw h refl

open_request-IsDecided :
    (k : String) (d : HitlDecision) (t : Option ℕ) (ask : HitlAsk) (o : Opening) (m : Requests)
    → (o.hitl_id == k) ≡ false
    → IsDecided k d t m
    → IsDecided k d t (open_request ask o m).1
unfolding open_request
open_request-IsDecided k d t ask o m other h =
    elim (Option-cases
      (find_for_tool_call o.session_id o.tool_call_id o.stage (key_or_none o.invocation_key) m)) [
        | inl absent ↦
            rw (open_request, absent)
              (insert-IsDecided k o.hitl_id d t _ m h (λ e. cc ((eq_iff o.hitl_id k).1 e, other)))
        | inr (r, there) ↦ rw (open_request, there) h
      ]

publish-IsDecided :
    (k : String) (d : HitlDecision) (t : Option ℕ) (r : PendingHitl) (m : Requests)
    → IsDecided k d t m
    → IsDecided k d t (publish r m).1
unfolding publish
publish-IsDecided k d t r m h = record {
  request = h.request;
  stored = ground (arith, lookup-set_default r.id k r m, eq_iff r.id k, h.stored);
  decided = h.decided;
  at_time = h.at_time;
}

skips : (r : PendingHitl) (d : HitlDecision) → r.decision ≡ some d → resolved r ≡ true
unfolding resolved
skips r d h = rw h refl

perform-IsDecided :
    (k : String) (d : HitlDecision) (t : Option ℕ) (c : Call) (m : Requests)
    → Spares k c
    → IsDecided k d t m
    → IsDecided k d t (perform c m)
unfolding perform
perform-IsDecided k d t (open_call ask o) m spared h = open_request-IsDecided k d t ask o m spared h
perform-IsDecided k d t (publish_call r) m spared h = publish-IsDecided k d t r m h
perform-IsDecided k d t (attach_call j slot) m spared h =
    subst (IsDecided k d t) (sym (attach_slot-update j m slot))
      (update-IsDecided k j d t _ _ m h (λ r a b. inr (a, b)))
perform-IsDecided k d t (detach_call j) m spared h =
    subst (IsDecided k d t) (sym (detach_slot-update j m))
      (update-IsDecided k j d t _ _ m h (λ r a b. inr (a, b)))
perform-IsDecided k d t (resolve_call j d' t') m spared h =
    subst (IsDecided k d t) (sym (resolve-update j m d' t'))
      (update-IsDecided k j d t _ _ m h (λ r a b. inl (skips r d a)))
perform-IsDecided k d t (claim_call j d' p) m spared h =
    subst (IsDecided k d t) (sym (claim-update j m d' p))
      (update-IsDecided k j d t _ _ m h (λ r a b. inl (decided_resolved r d (claim_pending r) a)))
perform-IsDecided k d t (commit_call j t') m spared h =
    subst (IsDecided k d t) (sym (commit_claim-update j m t')) (
      update-IsDecided k j d t _ _ m h
        (λ r a b. inl (decided_resolved r d (not (claim_pending r)) a)))
perform-IsDecided k d t (release_call j) m spared h =
    subst (IsDecided k d t) (sym (release_claim-update j m)) (
      update-IsDecided k j d t _ _ m h
        (λ r a b. inl (decided_resolved r d (not (claim_pending r)) a)))
perform-IsDecided k d t (close_call j) m spared h =
    subst (IsDecided k d t) (sym (mark_closed-update j m))
      (update-IsDecided k j d t _ _ m h (λ r a b. inr (a, b)))

-- An answer is final: while no other request is opened under its id, a request that is decided keeps
-- its decision and its time through every sequence of calls that open, publish, wait on, answer,
-- claim, commit, release and close requests.
pub perform_all-IsDecided :
    (k : String) (d : HitlDecision) (t : Option ℕ) (cs : List Call) (m : Requests)
    → All (Spares k) cs
    → IsDecided k d t m
    → IsDecided k d t (perform_all cs m)
unfolding perform_all
perform_all-IsDecided k d t [] m spared h = h
perform_all-IsDecided k d t (c ∷ cs) m spared h =
    perform_all-IsDecided k d t cs (perform c m) spared.1 (perform-IsDecided k d t c m spared.0 h)
