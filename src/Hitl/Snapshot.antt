-- ===== src/Hitl/Snapshot.antt =====
-- src/ctx_weft/core/hitl/snapshot.py: the requests of a session, folded from its events.
use ctx_weft.Base.{
  String, ◌≡◌, ◌⊎◌, refl, sym, ap, ap₂, ◌∙◌, inl, inr, Option, none, some, Bool, true, false, List,
  [], ◌∷◌, arith, ◌==◌, eq_iff, eq_refl, ◌&&◌, and_parts, Bool-cases, if◌then◌else◌,
}
use ctx_weft.Base.Dict.{Dict}
use ctx_weft.Base.Value.{Value}
use ctx_weft.Hitl.Contract.{HitlDecision}
use ctx_weft.Hitl.Record.{PendingHitl}

-- `(session_id, tool_call_id, stage)`
pub record DecisionKey : Type 0 where
  pub session_id : String
  pub tool_call_id : String
  pub stage : String

unfoldable pub same_key : DecisionKey → DecisionKey → Bool
same_key a b =
    (a.session_id == b.session_id) && (a.tool_call_id == b.tool_call_id) && (a.stage == b.stage)

-- A dictionary with these keys.
abbrev pub KeyDict {ℓ} : Type ℓ → Type ℓ
KeyDict V = List (DecisionKey × V)

module _ {ℓ} {V : Type ℓ} where
  unfoldable pub lookup_key : DecisionKey → KeyDict V → Option V
  unfolding same_key
  lookup_key k [] = none
  lookup_key k ((j, v) ∷ m) = if same_key j k then some v else lookup_key k m

  unfoldable pub insert_key : DecisionKey → V → KeyDict V → KeyDict V
  unfolding same_key
  insert_key k v [] = (k, v) ∷ []
  insert_key k v ((j, w) ∷ m) =
      let rest = insert_key k v m in if same_key j k then (j, v) ∷ m else (j, w) ∷ rest

  unfoldable pub remove_key : DecisionKey → KeyDict V → KeyDict V
  unfolding same_key
  remove_key k [] = []
  remove_key k ((j, w) ∷ m) =
      let rest = remove_key k m in if same_key j k then rest else (j, w) ∷ rest

pub record HitlSnapshot : Type 0 where
  pub opened : Dict PendingHitl
  pub decision_owner : KeyDict String
  pub pending : Dict PendingHitl
  pub decisions_for : KeyDict (HitlDecision × Value)
  pub resolved : Dict PendingHitl

abbrev pub empty_snapshot : HitlSnapshot
empty_snapshot = record {
  opened = [];
  decision_owner = [];
  pending = [];
  decisions_for = [];
  resolved = [];
}

eq-same_key : (a b : DecisionKey) → same_key a b ≡ true → a ≡ b
unfolding same_key
eq-same_key a b h =
    let (both, third) =
      and_parts ((a.session_id == b.session_id) && (a.tool_call_id == b.tool_call_id))
        (a.stage == b.stage) h in
    let (first, second) =
      and_parts (a.session_id == b.session_id) (a.tool_call_id == b.tool_call_id) both in
    ap (λ s. record a { session_id = s }) ((eq_iff a.session_id b.session_id).0 first)
    ∙ ap₂ (λ c t. record b { tool_call_id = c; stage = t })
        ((eq_iff a.tool_call_id b.tool_call_id).0 second) ((eq_iff a.stage b.stage).0 third)

same_key_self : (a : DecisionKey) → same_key a a ≡ true
unfolding same_key
same_key_self a = rw (eq_refl a.session_id, eq_refl a.tool_call_id, eq_refl a.stage) refl

same_key_apart :
    (i k j : DecisionKey) → same_key i k ≡ false → (same_key i j ≡ true) → (same_key k j ≡ true) → ⊥
same_key_apart i k j differ with_i with_k =
    let same = eq-same_key i j with_i ∙ sym (eq-same_key k j with_k) in
    cc (differ, ap (λ x. same_key x k) same, same_key_self k)

-- The key at the head, the key written and the key looked for.
key_cases :
    (i k j : DecisionKey)
    → ((same_key i k ≡ true) × (same_key i j ≡ same_key k j))
      ⊎ (((same_key i k ≡ false) × ((same_key i j ≡ true) × (same_key k j ≡ false)))
          ⊎ ((same_key i k ≡ false) × (same_key i j ≡ false)))
key_cases i k j = elim (Bool-cases (same_key i k)) [
  | inl same ↦ inl (same, ap (λ x. same_key x j) (eq-same_key i k same))
  | inr differ ↦ elim (Bool-cases (same_key i j)) [
    | inr other ↦ inr (inr (differ, other))
    | inl found ↦ elim (Bool-cases (same_key k j)) [
      | inl here ↦ absurd (same_key_apart i k j differ found here)
      | inr other ↦ inr (inl (differ, (found, other)))
    ]
  ]
]

module _ {ℓ} {V : Type ℓ} where
  pub lookup_key-insert_key :
      (k j : DecisionKey) (v : V) (m : KeyDict V)
      → lookup_key j (insert_key k v m) ≡ (if same_key k j then some v else lookup_key j m)
  unfolding lookup_key insert_key
  lookup_key-insert_key k j v [] = refl
  lookup_key-insert_key k j v ((i, w) ∷ m) =
      let further = lookup_key-insert_key k j v m in
      elim (key_cases i k j) [
        | inl (same, shared) ↦ rw (same, shared) (ground arith)
        | inr (inl (differ, (found, other))) ↦ rw (differ, found, other) refl
        | inr (inr (differ, other)) ↦ rw (differ, other) further
      ]

  pub lookup_key-remove_key :
      (k j : DecisionKey) (m : KeyDict V)
      → lookup_key j (remove_key k m) ≡ (if same_key k j then none else lookup_key j m)
  unfolding lookup_key remove_key
  lookup_key-remove_key k j [] = ground arith
  lookup_key-remove_key k j ((i, w) ∷ m) =
      let further = lookup_key-remove_key k j m in
      elim (key_cases i k j) [
        | inl (same, shared) ↦ rw (same, further, shared) (ground arith)
        | inr (inl (differ, (found, other))) ↦ rw (differ, found, other) refl
        | inr (inr (differ, other)) ↦ rw (differ, other) further
      ]
