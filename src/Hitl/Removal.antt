-- ===== src/Hitl/Removal.antt =====
-- What `forget_session` and `gc` take out of the registry.
use ctx_weft.Base.{
  ℕ, zero, suc, ◌-◌, String, ◌≡◌, refl, ap, ◌∙◌, Option, none, some, Bool, true, false, ◌&&◌, ◌||◌,
  List, [], ◌∷◌, ◌==◌, eq_iff, arith, if◌then◌else◌, select, any, take, length, leb, All, inl, inr,
  Bool-cases, Option-cases, and_parts,
}
use ctx_weft.Base.Dict.{lookup, remove, values, lookup-remove}
use ctx_weft.Hitl.Record.{PendingHitl, resolved}
use ctx_weft.Hitl.Registry.{Requests}
use ctx_weft.Hitl.Registry.Forget.{pop_all, forget_session, insert_by_age, sort_by_age, gc}

-- Every request is under its own id, and no entry hides another.
abbrev IsEntry : Requests → String × PendingHitl → Type 0
IsEntry m (key, r) = (r.id ≡ key) × (lookup key m ≡ some r)

abbrev pub IsRegistry : Requests → Type 0
IsRegistry m = All (IsEntry m) m

-- A test of a request that may be missing.
abbrev pub holds : (PendingHitl → Bool) → Option PendingHitl → Bool
holds p none = false
holds p (some r) = p r

-- One of the requests has the id.
abbrev has_id : String → List PendingHitl → Bool
has_id k rs = any (λ r. r.id == k) rs

lookup-pop_all :
    (k : String) (rs : List PendingHitl) (m : Requests)
    → lookup k (pop_all rs m) ≡ (if has_id k rs then none else lookup k m)
unfolding pop_all
lookup-pop_all k [] m = refl
lookup-pop_all k (r ∷ rs) m =
    ground (arith, lookup-pop_all k rs (remove r.id m), lookup-remove r.id k m)

module _ (p : PendingHitl → Bool) (k : String) (m : Requests) where
  selected :
      (entries : Requests)
      → All (IsEntry m) entries
      → has_id k (select p (values entries)) ≡ true
      → holds p (lookup k m) ≡ true
  unfolding values
  selected [] ok h = cc
  selected ((key, r) ∷ rest) ok h = elim (Bool-cases ((r.id == k) && p r)) [
    | inl here ↦
        let (same, kept) = and_parts (r.id == k) (p r) here in
        rw (← (eq_iff r.id k).0 same, ok.0.0, ok.0.1) kept
    | inr there ↦ selected rest ok.1 (ground arith)
  ]

  found_selected :
      (r : PendingHitl) (entries : Requests)
      → All (IsEntry m) entries
      → lookup k entries ≡ some r
      → p r ≡ true
      → has_id k (select p (values entries)) ≡ true
  unfolding values lookup
  found_selected r [] ok found h = cc
  found_selected r ((key, q) ∷ rest) ok found h = elim (Bool-cases (key == k)) [
    | inl here ↦ ground (arith, eq_iff key k, eq_iff q.id k)
    | inr there ↦ ground (arith, found_selected r rest ok.1)
  ]

  has_id-select : IsRegistry m → has_id k (select p (values m)) ≡ holds p (lookup k m)
  has_id-select ok = both _ _ (selected m ok) back
    where
      both : (a b : Bool) → (a ≡ true → b ≡ true) → (b ≡ true → a ≡ true) → a ≡ b
      both a b f g = ground arith

      back : holds p (lookup k m) ≡ true → has_id k (select p (values m)) ≡ true
      back h = elim (Option-cases (lookup k m)) [
        | inl missing ↦ cc (ap (holds p) missing)
        | inr (r, found) ↦ found_selected r m ok found (ground (arith, ap (holds p) found))
      ]

-- The last word on a session that is destroyed: in a registry with every request under its own id, an
-- id is afterwards found exactly as before if its request is of another session, and not at all if it
-- is of the session.
pub lookup-forget_session :
    (session_id k : String) (m : Requests)
    → IsRegistry m
    → lookup k (forget_session session_id m).1
      ≡ (if holds (λ r. r.session_id == session_id) (lookup k m) then none else lookup k m)
unfolding forget_session
lookup-forget_session session_id k m ok =
    lookup-pop_all k (select (λ r. r.session_id == session_id) (values m)) m
    ∙ ap (λ b. if b then none else lookup k m)
        (has_id-select (λ r. r.session_id == session_id) k m ok)

has_id-take :
    (k : String) (n : ℕ) (rs : List PendingHitl)
    → has_id k rs ≡ false
    → has_id k (take n rs) ≡ false
has_id-take k zero rs h = refl
has_id-take k (suc n) [] h = refl
has_id-take k (suc n) (r ∷ rs) h = ground (arith, has_id-take k n rs)

has_id-insert_by_age :
    (k : String) (r : PendingHitl) (rs : List PendingHitl)
    → has_id k (insert_by_age r rs) ≡ ((r.id == k) || has_id k rs)
unfolding insert_by_age
has_id-insert_by_age k r [] = refl
has_id-insert_by_age k r (q ∷ rs) = ground (arith, has_id-insert_by_age k r rs)

has_id-sort_by_age : (k : String) (rs : List PendingHitl) → has_id k (sort_by_age rs) ≡ has_id k rs
unfolding sort_by_age
has_id-sort_by_age k [] = refl
has_id-sort_by_age k (r ∷ rs) =
    ground (arith, has_id-insert_by_age k r (sort_by_age rs), has_id-sort_by_age k rs)

-- The collection of old requests never takes one that is not resolved: in a registry with every
-- request under its own id, whatever the bound is, such a request is found after `gc` as before.
pub lookup-gc :
    (max_resolved : ℕ) (k : String) (r : PendingHitl) (m : Requests)
    → IsRegistry m
    → lookup k m ≡ some r
    → resolved r ≡ false
    → lookup k (gc max_resolved m) ≡ some r
unfolding gc
lookup-gc max_resolved k r m ok found open_still =
    elim (Bool-cases (leb (length (select resolved (values m))) max_resolved)) [
      | inl few ↦ rw few found
      | inr many ↦ rw many (
          lookup-pop_all k
            (take (length (select resolved (values m)) - max_resolved)
              (sort_by_age (select resolved (values m))))
            m
          ∙ ap (λ b. if b then none else lookup k m) (has_id-take k _ _ spared)
          ∙ found)
    ]
  where
    spared : has_id k (sort_by_age (select resolved (values m))) ≡ false
    spared =
        has_id-sort_by_age k (select resolved (values m))
        ∙ has_id-select resolved k m ok
        ∙ ap (holds resolved) found
        ∙ open_still
