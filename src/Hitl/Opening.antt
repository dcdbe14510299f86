-- ===== src/Hitl/Opening.antt =====
-- A question is asked once.
use ctx_weft.Base.{
  String, ◌≡◌, refl, sym, ap, ◌∙◌, Option, none, some, Bool, true, false, List, [], ◌∷◌, ◌==◌,
  eq_iff, arith, select, inl, inr, Option-cases,
}
use ctx_weft.Base.Dict.{insert, values}
use ctx_weft.Hitl.Contract.{HitlAsk}
use ctx_weft.Hitl.Record.{PendingHitl}
use ctx_weft.Hitl.Registry.{
  Requests, is_for, newest_of, find_for_tool_call, key_or_none, Opening, fresh_request,
  open_request,
}

-- The only match of a registry is the one that is written into it.
select-insert :
    (p : PendingHitl → Bool) (k : String) (v : PendingHitl) (m : Requests)
    → select p (values m) ≡ []
    → p v ≡ true
    → select p (values (insert k v m)) ≡ v ∷ []
unfolding insert values
select-insert p k v [] h e = rw e refl
select-insert p k v ((j, w) ∷ m) h e = ground (arith, select-insert p k v m)

newest_of-none : (rs : List PendingHitl) → newest_of rs ≡ none → rs ≡ []
unfolding newest_of
newest_of-none [] h = refl
newest_of-none (r ∷ rs) h = cc

fresh_request-is_for :
    (ask : HitlAsk) (o : Opening)
    → is_for o.session_id o.tool_call_id o.stage
        (key_or_none o.invocation_key)
        (fresh_request ask o)
      ≡ true
unfolding is_for key_or_none fresh_request
fresh_request-is_for ask o = ground (
  arith,
  eq_iff o.session_id o.session_id,
  eq_iff o.tool_call_id o.tool_call_id,
  eq_iff o.stage o.stage,
  eq_iff o.invocation_key o.invocation_key,
)

module _ (ask : HitlAsk) (o : Opening) (m : Requests) where
  abbrev found : Requests → Option PendingHitl
  found n = find_for_tool_call o.session_id o.tool_call_id o.stage (key_or_none o.invocation_key) n

  found-fresh :
      (o.tool_call_id == "") ≡ false
      → found m ≡ none
      → found (insert o.hitl_id (fresh_request ask o) m) ≡ some (fresh_request ask o)
  unfolding find_for_tool_call
  found-fresh named h = rw named (
      ap newest_of (
        select-insert (is_for o.session_id o.tool_call_id o.stage (key_or_none o.invocation_key))
          o.hitl_id (fresh_request ask o) m (newest_of-none _ (rw named at h))
          (fresh_request-is_for ask o)))

  -- `open`, on the request that was found
  opened : (r : PendingHitl) (n : Requests) → found n ≡ some r → open_request ask o n ≡ (r, n)
  unfolding open_request
  opened r n h = rw (open_request, h) refl

  made :
      found m ≡ none
      → open_request ask o m ≡ (fresh_request ask o, insert o.hitl_id (fresh_request ask o) m)
  unfolding open_request
  made h = rw (open_request, h) refl

-- Two openings about one call: the id of the request, the task, the agent, the time and the tenant
-- may differ.
abbrev pub SameCall : Opening → Opening → Type 0
SameCall o o' =
    (o'.session_id ≡ o.session_id)
    × (o'.tool_call_id ≡ o.tool_call_id)
    × (o'.stage ≡ o.stage)
    × (o'.invocation_key ≡ o.invocation_key)

-- A question about a tool call is asked once: a second `open` for the same session, tool call, stage and
-- invocation key, whatever it asks and under whatever new id, returns the request that the first `open`
-- returned and changes nothing, if the tool call has an id.
pub open_request-open_request :
    (ask ask' : HitlAsk) (o o' : Opening) (m : Requests)
    → SameCall o o'
    → (o.tool_call_id == "") ≡ false
    → open_request ask' o' (open_request ask o m).1
      ≡ ((open_request ask o m).0, (open_request ask o m).1)
open_request-open_request ask ask' o o' m same named = elim (Option-cases (found ask o m m)) [
  | inl nothing ↦
      ap (λ p. open_request ask' o' p.1) (made ask o m nothing)
      ∙ opened ask' o' (insert o.hitl_id (fresh_request ask o) m) (fresh_request ask o) _ (
          found_same (insert o.hitl_id (fresh_request ask o) m) ∙ found-fresh ask o m named nothing)
      ∙ sym (ap (λ p. (p.0, p.1)) (made ask o m nothing))
  | inr (r, there) ↦
      ap (λ p. open_request ask' o' p.1) (opened ask o m r m there)
      ∙ opened ask' o' m r m (found_same m ∙ there)
      ∙ sym (ap (λ p. (p.0, p.1)) (opened ask o m r m there))
]
  where
    found_same : (n : Requests) → found ask' o' m n ≡ found ask o m n
    found_same n =
        ap (λ x. find_for_tool_call x o'.tool_call_id o'.stage (key_or_none o'.invocation_key) n)
          same.0
        ∙ ap (λ x. find_for_tool_call o.session_id x o'.stage (key_or_none o'.invocation_key) n)
            same.1
        ∙ ap
            (λ x.
              find_for_tool_call o.session_id o.tool_call_id x (key_or_none o'.invocation_key) n)
            same.2
        ∙ ap (λ x. find_for_tool_call o.session_id o.tool_call_id o.stage (key_or_none x) n) same.3
