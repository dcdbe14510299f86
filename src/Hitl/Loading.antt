-- ===== src/Hitl/Loading.antt =====
-- What `load_snapshot` does to the requests that are in memory.
use ctx_weft.Base.{
  String, ◌≡◌, Option, none, some, Bool, true, false, List, [], ◌∷◌, ◌==◌, eq_iff, arith,
  if◌then◌else◌, All, mem, Bool-cases, Option-cases, inl, inr, sym, ap, ◌∙◌,
}
use ctx_weft.Base.Dict.{Dict, lookup, insert, set_default, lookup-insert, lookup-set_default}
use ctx_weft.Hitl.Record.{PendingHitl}
use ctx_weft.Hitl.Registry.{Requests, find_for_tool_call, key_or_none}
use ctx_weft.Hitl.Snapshot.{HitlSnapshot}
use ctx_weft.Hitl.Registry.Load.{
  CachedDecision, write_shared, without_slot, load_pending, waits, loaded, load_resolved,
  placeholder, load_decisions, load_snapshot,
}

module _ (k : String) (r : PendingHitl) where
  -- The request is in memory.
  abbrev Kept : Requests → Type 0
  Kept m = lookup k m ≡ some r

  set_default-Kept :
      (j : String) (q : PendingHitl) (m : Requests) → Kept m → Kept (set_default j q m)
  set_default-Kept j q m h = ground (arith, lookup-set_default j k q m, eq_iff j k, h)

  module _ (shared : List String) (own : mem k shared ≡ false) where
    write_shared-Kept :
        (j : String) (f : PendingHitl → PendingHitl) (q : PendingHitl) (m : Requests)
        → Kept m
        → Kept (write_shared shared j f q m)
    unfolding write_shared
    write_shared-Kept j f q m h = elim (Bool-cases (mem j shared)) [
      | inr apart ↦ rw (write_shared, apart) (set_default-Kept j (f q) m h)
      | inl same ↦ elim (Option-cases (lookup j m)) [
        | inl free ↦ rw (write_shared, same, free) (set_default-Kept j (f q) m h)
        | inr (live, there) ↦
            let differ : (j == k) ≡ false = elim (Bool-cases (j == k)) [
              | inr e ↦ e
              | inl e ↦
                  let here : mem k shared ≡ true =
                    ap (λ x. mem x shared) (sym ((eq_iff j k).0 e)) ∙ same in
                  cc
            ] in
            rw (write_shared, same, there) (rw (lookup-insert j k (f live) m, differ) h)
      ]
    ]

    load_pending-Kept :
        (items : Dict PendingHitl) (m : Requests) → Kept m → Kept (load_pending shared items m)
    unfolding load_pending
    load_pending-Kept [] m h = h
    load_pending-Kept ((j, q) ∷ rest) m h =
        load_pending-Kept rest (write_shared shared j without_slot q m)
          (write_shared-Kept j without_slot q m h)

    load_resolved-Kept :
        (items : Dict PendingHitl) (m : Requests) → Kept m → Kept (load_resolved shared items m)
    unfolding load_resolved
    load_resolved-Kept [] m h = h
    load_resolved-Kept ((j, q) ∷ rest) m h = load_resolved-Kept rest _ (
        step (
          waits (
            find_for_tool_call q.session_id q.tool_call_id q.stage (key_or_none q.invocation_key)
              m)))
      where
        step : (b : Bool) → Kept (if b then m else write_shared shared j loaded q m)
        step true = h
        step false = write_shared-Kept j loaded q m h

  load_decisions-Kept :
      (items : List CachedDecision) (m : Requests)
      → All (λ c. ((placeholder c).id == k) ≡ false) items
      → Kept m
      → Kept (load_decisions items m)
  unfolding load_decisions
  load_decisions-Kept [] m apart h = h
  load_decisions-Kept (c ∷ rest) m apart h =
      load_decisions-Kept rest _ apart.1
        (step (find_for_tool_call c.0.session_id c.0.tool_call_id c.0.stage none m))
    where
      step :
          (o : Option PendingHitl)
          → Kept (elim o [ some live ↦ m | none ↦ insert (placeholder c).id (placeholder c) m ])
      step (some live) = h
      step none = ground (arith, lookup-insert (placeholder c).id k (placeholder c) m, apart.0, h)

  -- What is in memory wins over the log: a request of the registry that is not itself an object of the
  -- snapshot, under an id that is not one made up for a decision without a request, is unchanged by
  -- `load_snapshot`, whatever the snapshot holds; its wait slot stays too.
  pub lookup-load_snapshot :
      (shared : List String) (snapshot : HitlSnapshot) (m : Requests)
      → mem k shared ≡ false
      → All (λ c. ((placeholder c).id == k) ≡ false) snapshot.decisions_for
      → lookup k m ≡ some r
      → lookup k (load_snapshot shared snapshot m).1 ≡ some r
  unfolding load_snapshot
  lookup-load_snapshot shared snapshot m own apart h =
      load_decisions-Kept snapshot.decisions_for _ apart (
        load_resolved-Kept shared own snapshot.resolved _
          (load_pending-Kept shared own snapshot.pending m h))
