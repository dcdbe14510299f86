-- ===== src/Control/Hitl/Consistent.antt =====
-- src/ctx_weft/core/control/reducers.py, the fold of the human requests: what every event keeps true of
-- the five accounts.
use ctx_weft.Base.{
  String, ◌≡◌, refl, sym, subst, ◌∙◌, inl, inr, none, some, true, false, ◌==◌, eq_iff, eq_refl,
  is_some, Bool-cases, Option-cases, if◌then◌else◌,
}
use ctx_weft.Base.Dict.{Dict, lookup, insert, remove, lookup-insert, lookup-remove}
use ctx_weft.Hitl.Contract.{HitlDecision}
use ctx_weft.Hitl.Record.{PendingHitl}
use ctx_weft.Hitl.Snapshot.{HitlSnapshot, DecisionKey, same_key, lookup_key, lookup_key-insert_key}
use ctx_weft.Control.Blob.Snapshots.{key_of}
use ctx_weft.Control.Hitl.Fold.{open_in, settle_in, cancel_in, reopened, retract_in}

module _ {ℓ κ} {V : Type ℓ} where
  -- What holds of every entry that a lookup finds.
  abbrev pub Holds : (String → V → Type κ) → Dict V → Type (ℓ ⊔ κ)
  Holds P m = (j : String) (v : V) → lookup j m ≡ some v → P j v

  pub insert-Holds :
      (P : String → V → Type κ) (k : String) (w : V) (m : Dict V)
      → P k w
      → ((j : String) (v : V) → (k == j) ≡ false → lookup j m ≡ some v → P j v)
      → Holds P (insert k w m)
  insert-Holds P k w m new old j v found =
      let here : (if k == j then some w else lookup j m) ≡ some v =
        sym (lookup-insert k j w m) ∙ found in
      elim (Bool-cases (k == j)) [
        | inr other ↦ old j v other (rw other at here)
        | inl same ↦
            let value : w ≡ v = (let h : some w ≡ some v = (rw same at here) in cc) in
            subst (λ x. P x v) ((eq_iff k j).0 same) (subst (λ x. P k x) value new)
      ]

  pub remove-Holds :
      (P : String → V → Type κ) (k : String) (m : Dict V)
      → ((j : String) (v : V) → (k == j) ≡ false → lookup j m ≡ some v → P j v)
      → Holds P (remove k m)
  remove-Holds P k m old j v found =
      let here : (if k == j then none else lookup j m) ≡ some v =
        sym (lookup-remove k j m) ∙ found in
      elim (Bool-cases (k == j)) [
        | inr other ↦ old j v other (rw other at here)
        | inl same ↦ let h : none ≡ some v = (rw same at here) in cc
      ]

pub record IsConsistent (s : HitlSnapshot) : Type 0 where
  pub named : (id : String) (r : PendingHitl) → lookup id s.opened ≡ some r → r.id ≡ id
  pub waiting :
      (id : String) (r : PendingHitl)
      → lookup id s.pending ≡ some r
      → (lookup id s.opened ≡ some r) × (r.decision ≡ none)
  pub settled :
      (id : String) (r : PendingHitl) → lookup id s.resolved ≡ some r → is_some r.decision ≡ true
  pub owned :
      (key : DecisionKey)
      → is_some (lookup_key key s.decision_owner) ≡ is_some (lookup_key key s.decisions_for)

module _ (id : String) (s : HitlSnapshot) (ok : IsConsistent s) where
  -- What stands in the accounts under another id.
  opened_elsewhere :
      (j : String) → (id == j) ≡ false → lookup j (remove id s.opened) ≡ lookup j s.opened
  opened_elsewhere j other = rw (lookup-remove id j s.opened, other) refl

  opened_beside :
      (j : String) (r : PendingHitl)
      → (id == j) ≡ false
      → lookup j (insert id r s.opened) ≡ lookup j s.opened
  opened_beside j r other = rw (lookup-insert id j r s.opened, other) refl

  opened_there : (r : PendingHitl) → lookup id (insert id r s.opened) ≡ some r
  opened_there r = rw (lookup-insert id id r s.opened, eq_refl id) refl

  pub open_in-IsConsistent :
      (r : PendingHitl) → r.id ≡ id → r.decision ≡ none → IsConsistent (open_in id r s)
  unfolding open_in
  open_in-IsConsistent r same undecided = record {
    named = insert-Holds (λ j q. q.id ≡ j) id r s.opened same (λ j q other h. ok.named j q h);
    waiting =
        insert-Holds (λ j q. (lookup j (insert id r s.opened) ≡ some q) × (q.decision ≡ none)) id r
          s.pending (opened_there r, undecided)
          (λ j q other h.
            let (at, none_yet) = ok.waiting j q h in (opened_beside j r other ∙ at, none_yet));
    settled = ok.settled;
    owned = ok.owned;
  }

  pub settle_in-IsConsistent :
      (d : HitlDecision) (r : PendingHitl)
      → r.id ≡ id
      → is_some r.decision ≡ true
      → IsConsistent (settle_in id d r s)
  unfolding settle_in
  settle_in-IsConsistent d r same decided = record {
    named = insert-Holds (λ j q. q.id ≡ j) id r s.opened same (λ j q other h. ok.named j q h);
    waiting =
        remove-Holds (λ j q. (lookup j (insert id r s.opened) ≡ some q) × (q.decision ≡ none)) id
          s.pending
          (λ j q other h.
            let (at, none_yet) = ok.waiting j q h in (opened_beside j r other ∙ at, none_yet));
    settled =
        insert-Holds (λ j q. is_some q.decision ≡ true) id r s.resolved decided
          (λ j q other h. ok.settled j q h);
    owned = λ key. elim (Bool-cases (r.tool_call_id == "")) [
      | inl no_call ↦ rw no_call (ok.owned key)
      | inr call ↦
          let before = ok.owned key in
          rw
            (
              call,
              lookup_key-insert_key (key_of r) key id s.decision_owner,
              lookup_key-insert_key (key_of r) key (d, r.resume_state) s.decisions_for,
            )
            (elim (Bool-cases (same_key (key_of r) key)) [
              | inl here ↦ rw here refl
              | inr other ↦ rw other before
            ])
    ];
  }

  pub cancel_in-IsConsistent : IsConsistent (cancel_in id s)
  unfolding cancel_in
  cancel_in-IsConsistent = record {
    named = remove-Holds (λ j q. q.id ≡ j) id s.opened (λ j q other h. ok.named j q h);
    waiting =
        remove-Holds (λ j q. (lookup j (remove id s.opened) ≡ some q) × (q.decision ≡ none)) id
          s.pending
          (λ j q other h.
            let (at, none_yet) = ok.waiting j q h in (opened_elsewhere j other ∙ at, none_yet));
    settled = ok.settled;
    owned = ok.owned;
  }

  -- A decision of an older form that cannot be used takes the request out of those that wait.
  pub unusable-IsConsistent : IsConsistent (record s { pending = remove id s.pending })
  unusable-IsConsistent = record {
    named = ok.named;
    waiting =
        remove-Holds (λ j q. (lookup j s.opened ≡ some q) × (q.decision ≡ none)) id s.pending
          (λ j q other h. ok.waiting j q h);
    settled = ok.settled;
    owned = ok.owned;
  }

  pub retract_in-IsConsistent : IsConsistent (retract_in id s)
  unfolding retract_in
  retract_in-IsConsistent = elim (Option-cases (lookup id s.opened)) [
    | inl absent ↦ rw (retract_in, absent) ok
    | inr (r, found) ↦
        rw (retract_in, found)
          record {
            named =
                insert-Holds (λ j q. q.id ≡ j) id (reopened r) s.opened (ok.named id r found)
                  (λ j q other h. ok.named j q h);
            waiting =
                insert-Holds
                  (λ j q.
                    (lookup j (insert id (reopened r) s.opened) ≡ some q) × (q.decision ≡ none))
                  id (reopened r) s.pending (opened_there (reopened r), refl)
                  (λ j q other h.
                    let (at, none_yet) = ok.waiting j q h in
                    (opened_beside j (reopened r) other ∙ at, none_yet));
            settled =
                remove-Holds (λ j q. is_some q.decision ≡ true) id s.resolved
                  (λ j q other h. ok.settled j q h);
            owned = ok.owned;
          }
  ]
