-- ===== src/Hitl/Decisions.antt =====
-- Which decision the cache returns.
use ctx_weft.Base.{
  eq_iff, ◌≤◌, String, ◌≡◌, refl, sym, subst, ◌∙◌, Option, none, some, Bool, true, List, [], ◌∷◌,
  ◌==◌, arith, select, inl, inr, ◌⊎◌, Bool-cases,
}
use ctx_weft.Base.Dict.{values}
use ctx_weft.Base.Value.{Value}
use ctx_weft.Hitl.Contract.{HitlDecision}
use ctx_weft.Hitl.Record.{PendingHitl, effective_decision}
use ctx_weft.Hitl.Registry.{Requests, is_for, newest, newest_of, find_for_tool_call}
use ctx_weft.Hitl.Registry.Reads.{cached_decision, decision_for}
use ctx_weft.Hitl.Newest.{Stands, newest-Stands, newest-latest, Stands-select, select-Stands}

-- A key of the invocation counts if one is asked for and the request has one.
abbrev pub IsInvocation : Option String → PendingHitl → Type 0
IsInvocation none r = Unit
IsInvocation (some key) r = (r.invocation_key ≡ "") ⊎ (r.invocation_key ≡ key)

-- The request is about this call.
pub record IsAbout (session_id tool_call_id stage : String) (invocation_key : Option String)
    (r : PendingHitl) : Type 0 where
  pub same_call : r.tool_call_id ≡ tool_call_id
  pub same_session : r.session_id ≡ session_id
  pub same_stage : r.stage ≡ stage
  pub same_invocation : IsInvocation invocation_key r

is_for-IsAbout :
    (session_id tool_call_id stage : String) (invocation_key : Option String) (r : PendingHitl)
    → is_for session_id tool_call_id stage invocation_key r ≡ true
    → IsAbout session_id tool_call_id stage invocation_key r
unfolding is_for
is_for-IsAbout session_id tool_call_id stage none r h = record {
  same_call = (eq_iff r.tool_call_id tool_call_id).0 (ground arith);
  same_session = (eq_iff r.session_id session_id).0 (ground arith);
  same_stage = (eq_iff r.stage stage).0 (ground arith);
  same_invocation = tt;
}
is_for-IsAbout session_id tool_call_id stage (some key) r h = record {
  same_call = (eq_iff r.tool_call_id tool_call_id).0 (ground arith);
  same_session = (eq_iff r.session_id session_id).0 (ground arith);
  same_stage = (eq_iff r.stage stage).0 (ground arith);
  same_invocation = elim (Bool-cases (r.invocation_key == "")) [
    | inl unkeyed ↦ inl ((eq_iff r.invocation_key "").0 unkeyed)
    | inr keyed ↦ inr ((eq_iff r.invocation_key key).0 (ground arith))
  ];
}

is_for_of_IsAbout :
    (session_id tool_call_id stage : String) (invocation_key : Option String) (r : PendingHitl)
    → IsAbout session_id tool_call_id stage invocation_key r
    → is_for session_id tool_call_id stage invocation_key r ≡ true
unfolding is_for
is_for_of_IsAbout session_id tool_call_id stage none r h =
    rw
      (
        (eq_iff r.tool_call_id tool_call_id).1 h.same_call,
        (eq_iff r.session_id session_id).1 h.same_session,
        (eq_iff r.stage stage).1 h.same_stage,
      )
      refl
is_for_of_IsAbout session_id tool_call_id stage (some key) r h =
    rw
      (
        (eq_iff r.tool_call_id tool_call_id).1 h.same_call,
        (eq_iff r.session_id session_id).1 h.same_session,
        (eq_iff r.stage stage).1 h.same_stage,
      )
      (elim h.same_invocation [
        | inl unkeyed ↦ ground (arith, (eq_iff r.invocation_key "").1 unkeyed)
        | inr keyed ↦ ground (arith, (eq_iff r.invocation_key key).1 keyed)
      ])

-- The request that the cache answers from, and the decision and the state it gives.
pub record IsAnswer (session_id tool_call_id stage : String) (invocation_key : Option String)
    (m : Requests) (d : HitlDecision) (state : Value) (r : PendingHitl) : Type 0 where
  pub stands : Stands r (values m)
  pub of_call : IsAbout session_id tool_call_id stage invocation_key r
  pub given : effective_decision r ≡ some d
  pub paired : r.resume_state ≡ state
  pub latest :
      (q : PendingHitl)
      → Stands q (values m)
      → IsAbout session_id tool_call_id stage invocation_key q
      → q.created_at ≤ r.created_at

module _ (session_id tool_call_id stage : String) (invocation_key : Option String)
    (m : Requests) where
  abbrev of_this_call : PendingHitl → Bool
  of_this_call = is_for session_id tool_call_id stage invocation_key

  newest_of-found :
      (rs : List PendingHitl) (r : PendingHitl)
      → newest_of rs ≡ some r
      → Stands r rs × ((q : PendingHitl) → Stands q rs → q.created_at ≤ r.created_at)
  unfolding newest_of
  newest_of-found [] r h = cc
  newest_of-found (x ∷ rs) r h =
      let same : newest x rs ≡ r = cc h in
      (
        subst (λ z. Stands z (x ∷ rs)) same (newest-Stands x rs),
        λ q k. subst (λ z. q.created_at ≤ z.created_at) same (newest-latest x rs q k),
      )

  find_for_tool_call-found :
      (r : PendingHitl)
      → find_for_tool_call session_id tool_call_id stage invocation_key m ≡ some r
      → newest_of (select of_this_call (values m)) ≡ some r
  unfolding find_for_tool_call
  find_for_tool_call-found r h = elim (Bool-cases (tool_call_id == "")) [
    | inl nameless ↦
        let nothing : find_for_tool_call session_id tool_call_id stage invocation_key m ≡ none =
          rw (find_for_tool_call, nameless) refl in
        cc (nothing, h)
    | inr named ↦
        let search : find_for_tool_call session_id tool_call_id stage invocation_key m
            ≡ newest_of (select of_this_call (values m)) =
          rw (find_for_tool_call, named) refl in
        sym search ∙ h
  ]

  cached_decision-given :
      (o : Option PendingHitl) (d : HitlDecision) (state : Value)
      → cached_decision o ≡ some (d, state)
      → (r : PendingHitl) × (o ≡ some r)
        × (effective_decision r ≡ some d)
        × (r.resume_state ≡ state)
  unfolding cached_decision
  cached_decision-given none d state h = cc h
  cached_decision-given (some r) d state h =
      let (a, b) = given (effective_decision r) refl h in (r, refl, a, b)
    where
      cached_of : Option HitlDecision → Option (HitlDecision × Value)
      cached_of o = elim o [ none ↦ none | some e ↦ some (e, r.resume_state) ]

      given :
          (o : Option HitlDecision)
          → effective_decision r ≡ o
          → cached_of o ≡ some (d, state)
          → (effective_decision r ≡ some d) × (r.resume_state ≡ state)
      given none e k = cc k
      given (some x) e k = (e ∙ cc k, cc k)

  -- The cache never answers for another call: a decision that it returns was given on a stored
  -- request of the same session, tool call and stage, and of the same invocation key if one is asked for
  -- and the request has one; the resume state is that request's own, and no such request is later.
  pub decision_for-IsAnswer :
      (d : HitlDecision) (state : Value)
      → decision_for session_id tool_call_id stage invocation_key m ≡ some (d, state)
      → (r : PendingHitl) × IsAnswer session_id tool_call_id stage invocation_key m d state r
  unfolding decision_for
  decision_for-IsAnswer d state h =
      let (r, found, given, paired) =
        cached_decision-given (find_for_tool_call session_id tool_call_id stage invocation_key m) d
          state h in
      let (stands, latest) =
        newest_of-found (select of_this_call (values m)) r (find_for_tool_call-found r found) in
      let (inside, of_call) = Stands-select of_this_call r (values m) stands in
      (
        r,
        record {
          stands = inside;
          of_call = is_for-IsAbout session_id tool_call_id stage invocation_key r of_call;
          given = given;
          paired = paired;
          latest = λ q k mine. latest q (
              select-Stands of_this_call q (values m) k
                (is_for_of_IsAbout session_id tool_call_id stage invocation_key q mine));
        },
      )
