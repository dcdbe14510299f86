-- ===== src/Control/Blob/Rebuilt.antt =====
-- src/ctx_weft/core/control/reducers.py, `_hitl_from_blob`: the three accounts of the requests that are
-- rebuilt, described entry by entry.
use ctx_weft.Base.{
  String, ◌≡◌, refl, ap, ◌∙◌, inl, inr, Option, none, some, Bool, List, [], ◌∷◌, ◌==◌, ◌&&◌, ◌>>=◌,
  Bool-cases, Option-cases, if◌then◌else◌, arith,
}
use ctx_weft.Base.Dict.{Dict, lookup, lookup-insert, map_values}
use ctx_weft.Base.Value.{Value}
use ctx_weft.Hitl.Contract.{HitlDecision}
use ctx_weft.Hitl.Record.{PendingHitl}
use ctx_weft.Hitl.Snapshot.{
  HitlSnapshot, DecisionKey, KeyDict, same_key, lookup_key, lookup_key-insert_key,
}
use ctx_weft.Control.Blob.Snapshots.{
  update, key_of, decides_call, index_decisions, index_owners, rebuild, cold_snapshot,
}
use ctx_weft.Control.Blob.Requests.{cold}

-- The last entry that passes a test
unfoldable pub last_of {ℓ} : {E : Type ℓ} → (E → Bool) → List E → Option E
last_of q [] = none
last_of q (e ∷ es) = elim (last_of q es) [
  | some later ↦ some later
  | none ↦ if q e then some e else none
]

-- An entry of a table, where there is one, else what was there before.
abbrev chosen {ℓ κ} : {E : Type ℓ} {V : Type κ} → (E → Option V) → Option V → Option E → Option V
chosen value before none = before
chosen value before (some e) = value e

chosen-none {ℓ κ} :
    {E : Type ℓ} {V : Type κ} (value : E → Option V) (o : Option E)
    → chosen value none o ≡ (o >>= value)
chosen-none value none = refl
chosen-none value (some e) = refl

-- A loop that writes entries one after the other: what is found at its end is from the last entry
-- that writes there.
module _ {ℓ κ μ} {M : Type ℓ} {E : Type κ} {V : Type μ} (look : M → Option V) (run : M → List E → M)
    (q : E → Bool) (value : E → Option V) (ends : (m : M) → run m [] ≡ m)
    (goes_on : (m : M) (e : E) (es : List E) → run m (e ∷ es) ≡ run (run m (e ∷ [])) es)
    (writes : (m : M) (e : E) → look (run m (e ∷ [])) ≡ (if q e then value e else look m)) where
  run-last_of : (m : M) (es : List E) → look (run m es) ≡ chosen value (look m) (last_of q es)
  unfolding last_of
  run-last_of m [] = ap look (ends m)
  run-last_of m (e ∷ es) =
      ap look (goes_on m e es) ∙ run-last_of (run m (e ∷ [])) es ∙ step (last_of q es)
    where
      step :
          (o : Option E)
          → chosen value (look (run m (e ∷ []))) o
            ≡ chosen value
                (look m)
                (elim o [ some later ↦ some later | none ↦ if q e then some e else none ])
      step (some later) = refl
      step none = elim (Bool-cases (q e)) [
        | inl here ↦ writes m e ∙ rw here refl
        | inr apart ↦ writes m e ∙ rw apart refl
      ]

-- Whether a request has a decision for the call of this key.
abbrev pub decides : DecisionKey → String × PendingHitl → Bool
decides k (id, r) = decides_call r && same_key (key_of r) k

abbrev pub decision_of : String × PendingHitl → Option (HitlDecision × Value)
decision_of (id, r) = r.decision >>= λ d. some (d, r.resume_state)

index_decisions-cons :
    (m : KeyDict (HitlDecision × Value)) (e : String × PendingHitl) (es : Dict PendingHitl)
    → index_decisions m (e ∷ es) ≡ index_decisions (index_decisions m (e ∷ [])) es
unfolding index_decisions
index_decisions-cons m (id, r) es = elim (Option-cases r.decision) [
  | inl open_still ↦ rw (index_decisions, open_still) refl
  | inr (d, decided) ↦ elim (Bool-cases (r.tool_call_id == "")) [
    | inl turn ↦ rw (index_decisions, decided, turn) refl
    | inr call ↦ rw (index_decisions, decided, call) refl
  ]
]

index_decisions-writes :
    (k : DecisionKey) (m : KeyDict (HitlDecision × Value)) (e : String × PendingHitl)
    → lookup_key k (index_decisions m (e ∷ []))
      ≡ (if decides k e then decision_of e else lookup_key k m)
unfolding index_decisions decides_call
index_decisions-writes k m (id, r) = elim (Option-cases r.decision) [
  | inl open_still ↦ rw (index_decisions, open_still) (ground arith)
  | inr (d, decided) ↦ elim (Bool-cases (r.tool_call_id == "")) [
    | inl turn ↦ rw (index_decisions, decided, turn) refl
    | inr call ↦
        rw (index_decisions, decided, call)
          (lookup_key-insert_key (key_of r) k (d, r.resume_state) m)
  ]
]

pub index_decisions-last_of :
    (k : DecisionKey) (resolved : Dict PendingHitl)
    → lookup_key k (index_decisions [] resolved) ≡ (last_of (decides k) resolved >>= decision_of)
unfolding index_decisions lookup_key
index_decisions-last_of k resolved =
    run-last_of (lookup_key k) index_decisions (decides k) decision_of (λ m. refl)
      index_decisions-cons (index_decisions-writes k) [] resolved
    ∙ chosen-none decision_of (last_of (decides k) resolved)

index_owners-writes :
    (k : DecisionKey) (m : KeyDict String) (e : String × PendingHitl)
    → lookup_key k (index_owners m (e ∷ [])) ≡ (if decides k e then some e.0 else lookup_key k m)
unfolding index_owners
index_owners-writes k m (id, r) = elim (Bool-cases (decides_call r)) [
  | inl call ↦ rw (index_owners, call) (lookup_key-insert_key (key_of r) k id m)
  | inr other ↦ rw (index_owners, other) refl
]

pub index_owners-last_of :
    (k : DecisionKey) (resolved : Dict PendingHitl)
    → lookup_key k (index_owners [] resolved) ≡ (last_of (decides k) resolved >>= λ e. some e.0)
unfolding index_owners lookup_key
index_owners-last_of k resolved =
    run-last_of (lookup_key k) index_owners (decides k) (λ e. some e.0) (λ m. refl) (λ m e es. refl)
      (index_owners-writes k) [] resolved
    ∙ chosen-none (λ e. some e.0) (last_of (decides k) resolved)

update-last_of :
    (id : String) (m n : Dict PendingHitl)
    → lookup id (update m n) ≡ chosen (λ e. some e.1) (lookup id m) (last_of (λ e. e.0 == id) n)
unfolding update
update-last_of id m n =
    run-last_of (lookup id) update (λ e. e.0 == id) (λ e. some e.1) (λ m. refl) (λ m e es. refl)
      (λ m e. lookup-insert e.0 id e.1 m) m n

-- The entry of a request under an id
abbrev pub entry_of : String → Dict PendingHitl → Option PendingHitl
entry_of id m = last_of (λ e. e.0 == id) m >>= λ e. some e.1

update-entry_of :
    (id : String) (pending resolved : Dict PendingHitl)
    → lookup id (update (update [] pending) resolved)
      ≡ (elim (entry_of id resolved) [ some r ↦ some r | none ↦ entry_of id pending ])
unfolding lookup
update-entry_of id pending resolved =
    update-last_of id (update [] pending) resolved ∙ step (last_of (λ e. e.0 == id) resolved)
  where
    step :
        (o : Option (String × PendingHitl))
        → chosen (λ e. some e.1) (lookup id (update [] pending)) o
          ≡ (elim (o >>= λ e. some e.1) [ some r ↦ some r | none ↦ entry_of id pending ])
    step (some e) = refl
    step none =
        update-last_of id [] pending
        ∙ chosen-none (λ e. some e.1) (last_of (λ e. e.0 == id) pending)

-- What comes back of the requests: the pending and the resolved ones without what they hold for their
-- process; all of them as the ones that were opened; and for a tool call the decision, and the id, of
-- the last resolved request that has one for it.
pub record IsRebuilt (before after : HitlSnapshot) : Type 0 where
  pub pending_lem : after.pending ≡ map_values cold before.pending
  pub resolved_lem : after.resolved ≡ map_values cold before.resolved
  pub opened_lem :
      (id : String)
      → lookup id after.opened
        ≡ (elim (entry_of id after.resolved) [ some r ↦ some r | none ↦ entry_of id after.pending ])
  pub decisions_lem :
      (k : DecisionKey)
      → lookup_key k after.decisions_for ≡ (last_of (decides k) after.resolved >>= decision_of)
  pub owner_lem :
      (k : DecisionKey)
      → lookup_key k after.decision_owner ≡ (last_of (decides k) after.resolved >>= λ e. some e.0)

pub cold_snapshot-IsRebuilt : (s : HitlSnapshot) → IsRebuilt s (cold_snapshot s)
unfolding cold_snapshot rebuild
cold_snapshot-IsRebuilt s = record {
  pending_lem = refl;
  resolved_lem = refl;
  opened_lem = λ id. update-entry_of id (map_values cold s.pending) (map_values cold s.resolved);
  decisions_lem = λ k. index_decisions-last_of k (map_values cold s.resolved);
  owner_lem = λ k. index_owners-last_of k (map_values cold s.resolved);
}
