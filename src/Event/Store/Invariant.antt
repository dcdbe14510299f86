-- ===== src/Event/Store/Invariant.antt =====
-- The log of a session is numbered without a gap, and an event is in the store once.
use mathlib.Core.List.{map-append}
use ctx_weft.Base.{
  ℕ, suc, ◌+◌, String, ◌≡◌, refl, ap, ◌∙◌, inl, inr, Option, none, some, Bool, true, false, not,
  ◌&&◌, ◌||◌, List, [], ◌∷◌, ◌++◌, ◌==◌, eq_iff, map, mem, mem-append, all, length, is_some, arith,
  Bool-cases, and_parts, if◌then◌else◌,
}
use ctx_weft.Base.Dict.{Dict, lookup, insert, lookup-insert}
use ctx_weft.Event.Record.{Event, StoredEvent}
use ctx_weft.Event.Store.{
  EventStore, empty, log, committed_head, fresh_ids, number, claim_ids, commit_batch,
}

abbrev pub events_of : List StoredEvent → List Event
events_of records = map (λ r. r.event) records

abbrev pub event_ids : List Event → List String
event_ids es = map (λ e. e.id) es

abbrev pub ids : String → EventStore → List String
ids sid s = event_ids (events_of (log sid s))

unfoldable pub no_dups : List String → Bool
unfolding mem
no_dups [] = true
no_dups (x ∷ xs) = not (mem x xs) && no_dups xs

-- The log of every session is numbered 1, 2, 3, … in the order of commits, its head is the last
-- number, its events are the session's own, and an id is in one place of one log only, and known.
pub record IsLog (s : EventStore) : Type 0 where
  pub positions : (sid : String) → log sid s ≡ number 0 (events_of (log sid s))
  pub head : (sid : String) → committed_head sid s ≡ length (log sid s)
  pub own : (sid : String) → all (λ r. r.event.session_id == sid) (log sid s) ≡ true
  pub distinct : (sid : String) → no_dups (ids sid s) ≡ true
  pub known : (sid x : String) → mem x (ids sid s) ≡ true → is_some (lookup x s.event_batch) ≡ true
  pub one_log :
      (sid sid' x : String) → mem x (ids sid s) ≡ true → mem x (ids sid' s) ≡ true → sid ≡ sid'

pub IsLog-empty : IsLog empty
unfolding log committed_head no_dups number
IsLog-empty = record {
  positions = λ sid. refl;
  head = λ sid. refl;
  own = λ sid. refl;
  distinct = λ sid. refl;
  known = λ sid x h. cc;
  one_log = λ sid sid' x h k. cc;
}

pub number-append :
    (base : ℕ) (xs ys : List Event)
    → number base (xs ++ ys) ≡ number base xs ++ number (base + length xs) ys
unfolding number
number-append base [] ys = ap (λ n. number n ys) (omega arith)
number-append base (x ∷ xs) ys =
    ap (λ l. record { event = x; position = base + 1 } ∷ l)
      (number-append (base + 1) xs ys ∙ ap (λ n. number (base + 1) xs ++ number n ys) (omega arith))

pub events_of-number : (base : ℕ) (es : List Event) → events_of (number base es) ≡ es
unfolding number
events_of-number base [] = refl
events_of-number base (e ∷ es) = ap (λ l. e ∷ l) (events_of-number (base + 1) es)

pub length-number : (base : ℕ) (es : List Event) → length (number base es) ≡ length es
unfolding number
length-number base [] = refl
length-number base (e ∷ es) = ap suc (length-number (base + 1) es)

pub length-events_of : (rs : List StoredEvent) → length (events_of rs) ≡ length rs
length-events_of [] = refl
length-events_of (r ∷ rs) = ap suc (length-events_of rs)

pub all-append {ℓ} :
    {A : Type ℓ} (p : A → Bool) (xs ys : List A) → all p (xs ++ ys) ≡ (all p xs && all p ys)
all-append p [] ys = refl
all-append p (x ∷ xs) ys = ground (arith, all-append p xs ys)

pub all-number :
    (sid : String) (base : ℕ) (es : List Event)
    → all (λ r. r.event.session_id == sid) (number base es) ≡ all (λ e. e.session_id == sid) es
unfolding number
all-number sid base [] = refl
all-number sid base (e ∷ es) = ap (λ b. (e.session_id == sid) && b) (all-number sid (base + 1) es)

pub no_dups-append :
    (xs ys : List String)
    → no_dups xs ≡ true
    → no_dups ys ≡ true
    → ((x : String) → mem x xs ≡ true → mem x ys ≡ true → ⊥)
    → no_dups (xs ++ ys) ≡ true
unfolding no_dups
no_dups-append [] ys p q apart = q
no_dups-append (x ∷ xs) ys p q apart =
    let (fresh, rest) = and_parts (not (mem x xs)) (no_dups xs) p in
    let tail_ok = no_dups-append xs ys rest q (λ z inside. apart z (ground (arith, eq_iff x z))) in
    let here : mem x (x ∷ xs) ≡ true = ground (arith, eq_iff x x) in
    elim (Bool-cases (mem x ys)) [
      | inl clash ↦ absurd (apart x here clash)
      | inr free ↦ ground (arith, mem-append x xs ys)
    ]

fresh_ids-parts :
    (seen : List String) (m : Dict String) (e : Event) (es : List Event)
    → fresh_ids seen m (e ∷ es) ≡ true
    → (mem e.id seen ≡ false) × (lookup e.id m ≡ none) × (fresh_ids (e.id ∷ seen) m es ≡ true)
fresh_ids-parts seen m e es pass =
    parts (mem e.id seen) (lookup e.id m) (fresh_ids (e.id ∷ seen) m es) (unfold fresh_ids in pass)
  where
    parts :
        (b : Bool) (o : Option String) (rest : Bool)
        → (if b then false else (elim o [ none ↦ rest | some prior ↦ false ])) ≡ true
        → (b ≡ false) × (o ≡ none) × (rest ≡ true)
    parts true o rest h = cc
    parts false none rest h = (refl, refl, h)
    parts false (some prior) rest h = cc

-- An id of a batch that passes the check is not among those seen or stored.
pub fresh_ids-mem :
    (x : String) (seen : List String) (m : Dict String) (es : List Event)
    → fresh_ids seen m es ≡ true
    → mem x (event_ids es) ≡ true
    → (mem x seen ≡ false) × (lookup x m ≡ none)
unfolding mem
fresh_ids-mem x seen m [] pass h = cc
fresh_ids-mem x seen m (e ∷ es) pass h =
    let (unseen, unstored, rest) = fresh_ids-parts seen m e es pass in
    elim (Bool-cases (e.id == x)) [
      | inl same ↦ rw (← (eq_iff e.id x).0 same) (unseen, unstored)
      | inr other ↦
          let (apart, free) = fresh_ids-mem x (e.id ∷ seen) m es rest (ground arith) in
          (ground arith, free)
    ]

pub fresh_ids-no_dups :
    (seen : List String) (m : Dict String) (es : List Event)
    → fresh_ids seen m es ≡ true
    → no_dups (event_ids es) ≡ true
unfolding no_dups
fresh_ids-no_dups seen m [] pass = refl
fresh_ids-no_dups seen m (e ∷ es) pass =
    let (unseen, unstored, rest) = fresh_ids-parts seen m e es pass in
    let tail_ok = fresh_ids-no_dups (e.id ∷ seen) m es rest in
    elim (Bool-cases (mem e.id (event_ids es))) [
      | inl clash ↦
          let (apart, _) = fresh_ids-mem e.id (e.id ∷ seen) m es rest clash in
          absurd (self_clash e.id seen apart)
      | inr free ↦ ground arith
    ]
  where
    self_clash : (x : String) (xs : List String) → mem x (x ∷ xs) ≡ false → ⊥
    self_clash x xs h = ground (arith, eq_iff x x)

pub known-claim_ids :
    (x b : String) (es : List Event) (m : Dict String)
    → is_some (lookup x (claim_ids b es m)) ≡ (mem x (event_ids es) || is_some (lookup x m))
unfolding claim_ids mem
known-claim_ids x b [] m = refl
known-claim_ids x b (e ∷ es) m =
    ground (arith, known-claim_ids x b es (insert e.id b m), lookup-insert e.id x b m)

-- The writes of a batch that passed the checks.
module _ (session_id batch_id : String) (es : List Event) (s : EventStore) where
  abbrev pub after : EventStore
  after = (commit_batch session_id batch_id es s).1

  pub log-commit_batch :
      (sid : String)
      → log sid after ≡ (
          if session_id == sid
          then log session_id s ++ number (committed_head session_id s) es
          else log sid s)
  unfolding commit_batch log
  log-commit_batch sid = ground (
    arith,
    lookup-insert session_id sid (log session_id s ++ number (committed_head session_id s) es)
        s.stored,
  )

  pub committed_head-commit_batch :
      (sid : String)
      → committed_head sid after ≡ (
          if session_id == sid
          then committed_head session_id s + length es
          else committed_head sid s)
  unfolding commit_batch committed_head
  committed_head-commit_batch sid = ground (
    arith,
    lookup-insert session_id sid (committed_head session_id s + length es) s.next_position,
  )

  pub ids-commit_batch :
      (sid : String)
      → ids sid after ≡ (if session_id == sid then ids session_id s ++ event_ids es else ids sid s)
  ids-commit_batch sid = elim (Bool-cases (session_id == sid)) [
    | inl same ↦ rw (log-commit_batch sid, same, map-append, map-append, events_of-number)
    | inr other ↦ rw (log-commit_batch sid, other)
  ]
