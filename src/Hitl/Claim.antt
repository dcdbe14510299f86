-- ===== src/Hitl/Claim.antt =====
-- The two stages of an answer: claimed, then committed or given back.
use ctx_weft.Base.{
  ℕ, ◌+◌, String, ◌≡◌, refl, sym, ap, ap₂, ◌∙◌, none, some, false, [], ◌∷◌, eq_iff, arith,
}
use ctx_weft.Base.Dict.{Dict, lookup, insert, lookup-insert}
use ctx_weft.Base.Value.{Value, null}
use ctx_weft.Hitl.Contract.{HitlDecision}
use ctx_weft.Hitl.Record.{PendingHitl, resolved, claim_pending}
use ctx_weft.Hitl.Registry.{
  Requests, resolve_request, claim_request, commit_request, release_request, resolve, claim,
  commit_claim, uncommit_request, uncommit_claim, release_claim,
}

insert-insert {ℓ} :
    {V : Type ℓ} (k : String) (v w : V) (m : Dict V) → insert k v (insert k w m) ≡ insert k v m
unfolding insert
insert-insert k v w [] = ground (arith, eq_iff k k)
insert-insert k v w ((j, x) ∷ m) = ground (arith, insert-insert k v w m)

insert-lookup {ℓ} :
    {V : Type ℓ} (k : String) (v : V) (m : Dict V) → lookup k m ≡ some v → insert k v m ≡ m
unfolding lookup insert
insert-lookup k v [] h = cc
insert-lookup k v ((j, x) ∷ m) h = ground (arith, insert-lookup k v m)

-- A request that nobody has answered.
abbrev pub IsOpen : PendingHitl → Type 0
IsOpen r = (r.decision ≡ none) × (r.pending_decision ≡ none)

lookup_self {ℓ} : {V : Type ℓ} (k : String) (v : V) (m : Dict V) → lookup k (insert k v m) ≡ some v
lookup_self k v m = lookup-insert k k v m ∙ rw ((eq_iff k k).1 refl) refl

module _ (hitl_id : String) (d : HitlDecision) (payload : Value) (m : Requests)
    (r : PendingHitl) where
  claim_open :
      lookup hitl_id m ≡ some r
      → IsOpen r
      → claim hitl_id d payload m
        ≡ (some (claim_request d payload r, r.slot), insert hitl_id (claim_request d payload r) m)
  unfolding claim resolved claim_pending
  claim_open found (undecided, unclaimed) = rw (claim, found, undecided, unclaimed) refl

  commit_claimed :
      (t : ℕ) (q : PendingHitl) (n : Requests)
      → lookup hitl_id n ≡ some q
      → q.decision ≡ none
      → q.pending_decision ≡ some d
      → commit_claim hitl_id t n
        ≡ (some (commit_request t q), insert hitl_id (commit_request t q) n)
  unfolding commit_claim resolved claim_pending
  commit_claimed t q n found undecided claimed = rw (commit_claim, found, undecided, claimed) refl

-- An answer in two stages is an answer in one: a request that nobody has answered, claimed and then
-- committed, is the request resolved with the same decision at the same time, but for the payload of
-- the event, which the claim keeps; the claim hands out the wait slot that `resolve` would hand out.
pub claim-commit_claim :
    (hitl_id : String) (d : HitlDecision) (payload : Value) (t : ℕ) (m : Requests) (r : PendingHitl)
    → lookup hitl_id m ≡ some r
    → IsOpen r
    → (commit_claim hitl_id t (claim hitl_id d payload m).1 ≡ (
      some (record (resolve_request d t r) { pending_event_payload = payload }),
      insert hitl_id (record (resolve_request d t r) { pending_event_payload = payload }) m,
    ))
      × (resolve hitl_id d t m
          ≡ (some (resolve_request d t r, r.slot), insert hitl_id (resolve_request d t r) m))
      × ((claim hitl_id d payload m).0 ≡ some (claim_request d payload r, r.slot))
unfolding resolve resolve_request claim_request commit_request resolved
claim-commit_claim hitl_id d payload t m r found (undecided, unclaimed) =
    let claimed = claim_open hitl_id d payload m r found (undecided, unclaimed) in
    (
      ap (λ p. commit_claim hitl_id t p.1) claimed
          ∙ commit_claimed hitl_id d payload m r t (claim_request d payload r)
              (insert hitl_id (claim_request d payload r) m)
              (lookup_self hitl_id (claim_request d payload r) m) undecided refl
          ∙ ap (λ n. (some (commit_request t (claim_request d payload r)), n))
              (insert-insert hitl_id _ _ m)
          ∙ ap (λ q. (some q, insert hitl_id q m))
              (ap
                (λ o. record (resolve_request d t r) {
                  pending_event_payload = payload;
                  pending_decision = o;
                })
                (sym unclaimed)),
      rw (resolve, found, undecided) refl,
      ap (λ p. p.0) claimed,
    )

uncommitted :
    (hitl_id : String) (q : PendingHitl) (n : Requests) (d : HitlDecision)
    → lookup hitl_id n ≡ some q
    → q.decision ≡ some d
    → q.pending_decision ≡ none
    → uncommit_claim hitl_id n ≡ (some (uncommit_request q), insert hitl_id (uncommit_request q) n)
unfolding uncommit_claim resolved claim_pending
uncommitted hitl_id q n d here decided free = rw (uncommit_claim, here, decided, free) refl

uncommit_request-commit_request :
    (t : ℕ) (r : PendingHitl)
    → r.decision ≡ none
    → r.resolved_at ≡ none
    → uncommit_request (commit_request t r) ≡ r
unfolding uncommit_request commit_request
uncommit_request-commit_request t r undecided unresolved =
    ap₂ (λ a b. record r { decision = a; resolved_at = b }) (sym undecided) (sym unresolved)

-- A commit whose event could not be published is undone exactly: on a request that is claimed and has
-- no time of resolution, `uncommit_claim` after `commit_claim` leaves the registry as it was.
pub uncommit_claim-commit_claim :
    (hitl_id : String) (t : ℕ) (m : Requests) (r : PendingHitl) (d : HitlDecision)
    → lookup hitl_id m ≡ some r
    → r.decision ≡ none
    → r.pending_decision ≡ some d
    → r.resolved_at ≡ none
    → uncommit_claim hitl_id (commit_claim hitl_id t m).1 ≡ (some r, m)
uncommit_claim-commit_claim hitl_id t m r d found undecided claimed unresolved =
    ap (λ p. uncommit_claim hitl_id p.1)
      (commit_claimed hitl_id d null m r t r m found undecided claimed)
    ∙ uncommitted hitl_id (commit_request t r) (insert hitl_id (commit_request t r) m) d
        (lookup_self hitl_id _ m) (unfold commit_request in claimed) (unfold commit_request in refl)
    ∙ ap (λ q. (some q, insert hitl_id q (insert hitl_id (commit_request t r) m)))
        (uncommit_request-commit_request t r undecided unresolved)
    ∙ ap (λ n. (some r, n))
        (insert-insert hitl_id r (commit_request t r) m ∙ insert-lookup hitl_id r m found)

released :
    (hitl_id : String) (q : PendingHitl) (n : Requests) (d : HitlDecision)
    → lookup hitl_id n ≡ some q
    → q.decision ≡ none
    → q.pending_decision ≡ some d
    → release_claim hitl_id n ≡ (some (release_request q), insert hitl_id (release_request q) n)
unfolding release_claim resolved claim_pending
released hitl_id q n d here undecided claimed = rw (release_claim, here, undecided, claimed) refl

-- A claimed answer that is given back is gone but for the count: a request that nobody has answered,
-- claimed and then released, is again one that nobody has answered, without payload and wait slot, no
-- longer taken hot, and with one retracted answer more; every other field, and the rest of the
-- registry, is as it was.
pub release_claim-claim :
    (hitl_id : String) (d : HitlDecision) (payload : Value) (m : Requests) (r : PendingHitl)
    → lookup hitl_id m ≡ some r
    → IsOpen r
    → (release_claim hitl_id (claim hitl_id d payload m).1).1
      ≡ insert hitl_id
          (record r {
            pending_event_payload = null;
            claimed = false;
            slot = none;
            reply_attempt = r.reply_attempt + 1;
          })
          m
unfolding release_request claim_request
release_claim-claim hitl_id d payload m r found (undecided, unclaimed) =
    ap (λ p. (release_claim hitl_id p.1).1)
      (claim_open hitl_id d payload m r found (undecided, unclaimed))
    ∙ ap (λ p. p.1)
        (released hitl_id (claim_request d payload r) (insert hitl_id (claim_request d payload r) m)
          d (lookup_self hitl_id _ m) undecided refl)
    ∙ insert-insert hitl_id _ _ m
    ∙ ap
        (λ o.
          insert hitl_id
            (record r {
              pending_decision = o;
              pending_event_payload = null;
              claimed = false;
              slot = none;
              reply_attempt = r.reply_attempt + 1;
            })
            m)
        (sym unclaimed)
