-- ===== src/Hitl/Newest.antt =====
-- The newest of the requests that a query selects.
use ctx_weft.Base.{
  ◌≤◌, ◌≡◌, refl, sym, ap, ◌∙◌, Bool, true, false, List, [], ◌∷◌, arith, if◌then◌else◌, select, ltb,
  inl, inr, ◌⊎◌, Bool-cases,
}
use ctx_weft.Hitl.Record.{PendingHitl}
use ctx_weft.Hitl.Registry.{newest}

-- `r` stands in the list.
abbrev pub Stands : PendingHitl → List PendingHitl → Type 0
Stands r [] = ⊥
Stands r (q ∷ rs) = (q ≡ r) ⊎ Stands r rs

later_of : PendingHitl → PendingHitl → PendingHitl
later_of r q = if ltb r.created_at q.created_at then q else r

later_of-bounds :
    (r q : PendingHitl)
    → (r.created_at ≤ (later_of r q).created_at) × (q.created_at ≤ (later_of r q).created_at)
unfolding later_of
later_of-bounds r q = ground arith

later_of-cases : (r q : PendingHitl) → (r ≡ later_of r q) ⊎ (q ≡ later_of r q)
unfolding later_of
later_of-cases r q = elim (Bool-cases (ltb r.created_at q.created_at)) [
  | inl later ↦ inr (rw later refl)
  | inr earlier ↦ inl (rw earlier refl)
]

pub newest-Stands : (r : PendingHitl) (rs : List PendingHitl) → Stands (newest r rs) (r ∷ rs)
unfolding newest later_of
newest-Stands r [] = inl refl
newest-Stands r (q ∷ rs) = elim (newest-Stands (later_of r q) rs) [
  | inl same ↦ elim (later_of-cases r q) [
    | inl old ↦ inl (old ∙ same)
    | inr new ↦ inr (inl (new ∙ same))
  ]
  | inr further ↦ inr (inr further)
]

pub newest-latest :
    (r : PendingHitl) (rs : List PendingHitl) (q : PendingHitl)
    → Stands q (r ∷ rs)
    → q.created_at ≤ (newest r rs).created_at
unfolding newest later_of
newest-latest r [] q (inl same) = rw same (omega arith)
newest-latest r [] q (inr k) = elim k [ ]
newest-latest r (x ∷ rs) q h =
    let (c, d) = later_of-bounds r x in
    let first = newest-latest (later_of r x) rs (later_of r x) (inl refl) in
    elim h [
      | inl same ↦ rw (sym (ap (λ z. z.created_at) same)) (omega arith)
      | inr (inl same) ↦ rw (sym (ap (λ z. z.created_at) same)) (omega arith)
      | inr (inr k) ↦ newest-latest (later_of r x) rs q (inr k)
    ]

pub Stands-select :
    (p : PendingHitl → Bool) (r : PendingHitl) (rs : List PendingHitl)
    → Stands r (select p rs)
    → Stands r rs × (p r ≡ true)
Stands-select p r [] h = elim h [ ]
Stands-select p r (q ∷ rs) h = elim (Bool-cases (p q)) [
  | inl kept ↦ elim (to_sum kept) [
    | inl same ↦ (inl same, ap p (sym same) ∙ kept)
    | inr k ↦ let (a, b) = Stands-select p r rs k in (inr a, b)
  ]
  | inr cut ↦ let (a, b) = Stands-select p r rs (to_rest cut) in (inr a, b)
]
  where
    to_sum : p q ≡ true → (q ≡ r) ⊎ Stands r (select p rs)
    to_sum kept = rw kept at h

    to_rest : p q ≡ false → Stands r (select p rs)
    to_rest cut = rw cut at h

pub select-Stands :
    (p : PendingHitl → Bool) (r : PendingHitl) (rs : List PendingHitl)
    → Stands r rs
    → p r ≡ true
    → Stands r (select p rs)
select-Stands p r [] k h = elim k [ ]
select-Stands p r (q ∷ rs) (inl same) h = rw (ap p same ∙ h) (inl same)
select-Stands p r (q ∷ rs) (inr k) h = elim (Bool-cases (p q)) [
  | inl kept ↦ rw kept (inr (select-Stands p r rs k h))
  | inr cut ↦ rw cut (select-Stands p r rs k h)
]
