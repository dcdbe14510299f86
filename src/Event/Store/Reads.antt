-- ===== src/Event/Store/Reads.antt =====
-- What the reads of the store return.
use ctx_weft.Base.{
  ℕ, ◌+◌, ◌≤◌, String, ◌≡◌, refl, ap₂, Option, none, some, List, [], ◌∷◌, ◌++◌, eq_iff, select, All,
  select-append, mem, length, arith,
}
use ctx_weft.Event.Record.{Event, StoredEvent, CommitReceipt, IsProper}
use ctx_weft.Event.Store.{
  EventStore, ok, append_batch, Range, everything, log, committed_head, number, passes, in_range,
  read_range, last_of_type, read_last_of_type,
}
use ctx_weft.Base.Dict.{lookup}
use ctx_weft.Event.Store.Retry.{append_batch-retry}
use ctx_weft.Event.Store.Invariant.{IsLog, events_of, length-events_of}

module _ (r : Range) (k : ℕ) (ordered : r.after_position ≤ k)
    (unbounded : r.through_position ≡ none) where
  abbrev upto : Range
  upto = record r { through_position = some k }

  abbrev beyond : Range
  beyond = record r { after_position = k }

  -- Beyond `k` only the second read keeps records.
  select-beyond :
      (base : ℕ) (es : List Event)
      → k ≤ base
      → (select (in_range upto) (number base es) ≡ [])
        × (select (in_range beyond) (number base es) ≡ select (in_range r) (number base es))
  unfolding number in_range
  select-beyond base [] h = (refl, refl)
  select-beyond base (e ∷ es) h =
      let (gone, rest) = select-beyond (base + 1) es (omega arith) in ground arith

  -- Up to `k` only the first does.
  select-split :
      (base : ℕ) (es : List Event)
      → select (in_range upto) (number base es) ++ select (in_range beyond) (number base es)
        ≡ select (in_range r) (number base es)
  unfolding number in_range
  select-split base [] = refl
  select-split base (e ∷ es) =
      ground (arith, select-split (base + 1) es, select-beyond (base + 1) es)

-- A reader that stops at a position and later goes on from it sees what one read returns: on a store
-- whose logs are in order, a read without an upper end, with any filters, is its part up to a
-- position `k` (not before its own start) followed by its part after `k`.
pub read_range-split :
    (session_id : String) (s : EventStore) (r : Range) (k : ℕ)
    → IsLog s
    → r.after_position ≤ k
    → r.through_position ≡ none
    → read_range session_id (record r { through_position = some k }) s
        ++ read_range session_id (record r { after_position = k }) s
      ≡ read_range session_id r s
unfolding read_range
read_range-split session_id s r k inv ordered unbounded =
    rw (inv.positions session_id)
      (select-split r k ordered unbounded 0 (events_of (log session_id s)))

-- Before its start a read keeps nothing.
select-before :
    (r : Range) (base : ℕ) (es : List Event)
    → base + length es ≤ r.after_position
    → select (in_range r) (number base es) ≡ []
unfolding number in_range
select-before r base [] h = refl
select-before r base (e ∷ es) h = ground (arith, select-before r (base + 1) es (omega arith))

-- A read from the head on.
pub read_range-head :
    (session_id : String) (s : EventStore) (r : Range)
    → IsLog s
    → committed_head session_id s ≤ r.after_position
    → read_range session_id r s ≡ []
unfolding read_range
read_range-head session_id s r inv h = rw (inv.positions session_id) (
    select-before r 0 (events_of (log session_id s))
      (omega (arith, length-events_of (log session_id s), inv.head session_id)))

select-all :
    (k base : ℕ) (es : List Event)
    → k ≤ base
    → select (in_range (record everything { after_position = k })) (number base es) ≡ number base es
unfolding number in_range passes mem
select-all k base [] h = refl
select-all k base (e ∷ es) h = ground (arith, select-all k (base + 1) es (omega arith))

-- A reader that has everything up to the head of a session and reads after it, once a batch is
-- committed, gets exactly the records of the batch's receipt, when the store's logs were in order, the
-- batch id was new and the dictionaries of the events have each key once.
pub append_batch-read_range :
    (session_id batch_id : String) (es : List Event) (s : EventStore) (receipt : CommitReceipt)
    → IsLog s
    → All IsProper es
    → lookup batch_id s.batches ≡ none
    → (append_batch session_id batch_id es s).0 ≡ ok receipt
    → read_range session_id
        (record everything { after_position = committed_head session_id s })
        (append_batch session_id batch_id es s).1
      ≡ receipt.records
unfolding read_range
append_batch-read_range session_id batch_id es s receipt inv proper new h =
    let done = append_batch-retry session_id batch_id es s receipt proper new h in
    rw (done.logged, select-append)
      (ap₂ (λ a b. a ++ b)
        (read_range-head session_id s
          (record everything { after_position = committed_head session_id s }) inv (omega arith))
        (rw done.numbered (
          select-all (committed_head session_id s) (committed_head session_id s) es (omega arith))))

-- The last of a list.
abbrev pub last : List StoredEvent → Option StoredEvent
last [] = none
last (se ∷ rest) = elim (last rest) [ none ↦ some se | some later ↦ some later ]

last-select :
    (want : String) (base : ℕ) (es : List Event)
    → last_of_type want (number base es)
      ≡ last (select (in_range (record everything { include_types = want ∷ [] })) (number base es))
unfolding last_of_type in_range passes mem number
last-select want base [] = refl
last-select want base (e ∷ es) =
    ground (arith, last-select want (base + 1) es, eq_iff e.type want, eq_iff want e.type)

-- `read_last_of_type` returns the last record of what `read_range` returns with that one type to
-- include, on a store whose logs are in order.
pub read_last_of_type-read_range :
    (session_id type : String) (s : EventStore)
    → IsLog s
    → read_last_of_type session_id type s
      ≡ last (read_range session_id (record everything { include_types = type ∷ [] }) s)
unfolding read_last_of_type read_range
read_last_of_type-read_range session_id type s inv =
    rw (inv.positions session_id) (last-select type 0 (events_of (log session_id s)))
