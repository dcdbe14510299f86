-- ===== src/Hitl/Registry/Forget.antt =====
-- src/ctx_weft/core/hitl/registry.py: what takes requests out of the registry. The warning that
-- `forget_session` logs is left out.
use ctx_weft.Base.{
  ℕ, ◌-◌, String, none, some, List, [], ◌∷◌, ◌==◌, select, take, length, leb, if◌then◌else◌,
}
use ctx_weft.Base.Dict.{remove, values}
use ctx_weft.Hitl.Record.{PendingHitl, resolved}
use ctx_weft.Hitl.Registry.{Requests}

-- `for r in doomed: self._requests.pop(r.id, None)`
unfoldable pub pop_all : List PendingHitl → Requests → Requests
unfolding remove
pop_all [] m = m
pop_all (r ∷ rs) m = pop_all rs (remove r.id m)

unfoldable pub forget_session : String → Requests → ℕ × Requests
unfolding values pop_all
forget_session session_id m =
    let doomed = select (λ r. r.session_id == session_id) (values m) in
    (length doomed, pop_all doomed m)

-- `r.resolved_at or r.created_at`
unfoldable pub age_key : PendingHitl → ℕ
age_key r = elim r.resolved_at [ some t ↦ t | none ↦ r.created_at ]

-- Before the first that is later: the sort is stable.
unfoldable pub insert_by_age : PendingHitl → List PendingHitl → List PendingHitl
unfolding age_key
insert_by_age r [] = r ∷ []
insert_by_age r (q ∷ qs) =
    let rest = insert_by_age r qs in if leb (age_key r) (age_key q) then r ∷ q ∷ qs else q ∷ rest

unfoldable pub sort_by_age : List PendingHitl → List PendingHitl
unfolding insert_by_age
sort_by_age [] = []
sort_by_age (r ∷ rs) = insert_by_age r (sort_by_age rs)

unfoldable pub gc : ℕ → Requests → Requests
unfolding values resolved sort_by_age pop_all
gc max_resolved m =
    let done = select resolved (values m) in
    if leb (length done) max_resolved
    then m
    else pop_all (take (length done - max_resolved) (sort_by_age done)) m
