-- ===== src/Control/Hitl/Tests.antt =====
-- Requests that are answered, closed and answered late, and what their snapshots keep.
use ctx_weft.Base.{◌≡◌, refl, some, length}
use ctx_weft.Base.{List, [], ◌∷◌}
use ctx_weft.Base.Value.{text, field, end}
use ctx_weft.Event.Types.{type_name}
use ctx_weft.Event.Record.{Event}
use ctx_weft.Base.{◌++◌}
use ctx_weft.Content.Json.{content_from_jsonable}
use ctx_weft.Hitl.Snapshot.{HitlSnapshot, empty_snapshot}
use ctx_weft.Control.Blob.Decisions.{delivery_from_payload}
use ctx_weft.Control.Blob.Snapshots.{cold_snapshot}
use ctx_weft.Control.Hitl.Closing.{Gone}
use ctx_weft.Control.Hitl.Closed.{fold_hitl_snapshot-closed}
use ctx_weft.Control.Hitl.Fold.{close_in, fold_hitl_snapshot}
use ctx_weft.Control.Hitl.Consistent.{IsConsistent}
use ctx_weft.Control.Hitl.Preservation.{
  fold_hitl_snapshot-IsConsistent, empty_snapshot-IsConsistent,
}
use ctx_weft.Control.Tests.{event, value, some-value}

-- A request that is opened, and answered.
abbrev asked : List Event
asked =
    event "e5" "HitlOpened" (
      field "hitl_id" (text "h1")
        (field "tool_call_id" (text "c1") (field "stage" (text "tool") end)))
    ∷ event "e9" "HitlResolved"
        (field "hitl_id" (text "h1") (field "outcome" (text "accepted") end))
    ∷ []

abbrev answered : HitlSnapshot
answered = value empty_snapshot (fold_hitl_snapshot asked empty_snapshot)

folded : fold_hitl_snapshot asked empty_snapshot ≡ some answered
unfolding fold_hitl_snapshot content_from_jsonable delivery_from_payload
folded = some-value empty_snapshot (fold_hitl_snapshot asked empty_snapshot) refl

fold_hitl_snapshot-IsConsistent_example : IsConsistent answered
fold_hitl_snapshot-IsConsistent_example =
    fold_hitl_snapshot-IsConsistent asked empty_snapshot answered empty_snapshot-IsConsistent folded

-- The request is closed, and its answer and its retraction come late.
abbrev late : List Event
late =
    event "e9" "HitlResolved" (field "hitl_id" (text "h1") (field "outcome" (text "accepted") end))
    ∷ event "e10" "HitlReplyRetracted" (field "hitl_id" (text "h1") end)
    ∷ []

abbrev after_late : HitlSnapshot
after_late = value empty_snapshot (fold_hitl_snapshot late (close_in "h1" answered))

late_folded : fold_hitl_snapshot late (close_in "h1" answered) ≡ some after_late
unfolding fold_hitl_snapshot content_from_jsonable delivery_from_payload
late_folded = some-value empty_snapshot (fold_hitl_snapshot late (close_in "h1" answered)) refl

fold_hitl_snapshot-closed_example : Gone "h1" after_late
unfolding type_name
fold_hitl_snapshot-closed_example =
    fold_hitl_snapshot-closed "h1" late answered after_late (refl, (refl, tt)) late_folded

-- Two copies of a request for one tool call, both answered, and the later one closed: no decision is
-- cached for the call.
abbrev copies : List Event
copies =
    asked
    ++ event "e11" "HitlOpened" (
        field "hitl_id" (text "h2")
          (field "tool_call_id" (text "c1") (field "stage" (text "tool") end)))
      ∷ event "e12" "HitlResolved"
          (field "hitl_id" (text "h2") (field "outcome" (text "rejected") end))
      ∷ event "e13" "HitlClosed" (field "hitl_id" (text "h2") end)
      ∷ []

abbrev with_copies : HitlSnapshot
with_copies = value empty_snapshot (fold_hitl_snapshot copies empty_snapshot)

nothing_cached : with_copies.decisions_for ≡ []
unfolding fold_hitl_snapshot content_from_jsonable delivery_from_payload
nothing_cached = refl

-- The snapshot of the same log, written and read back, has the decision of the earlier copy.
earlier_cached : length (cold_snapshot with_copies).decisions_for ≡ 1
unfolding fold_hitl_snapshot content_from_jsonable delivery_from_payload cold_snapshot
earlier_cached = refl

-- An answer of an older form without a message: the request waits no longer, and is opened still.
abbrev unusable : List Event
unusable =
    event "e5" "HitlOpened" (field "hitl_id" (text "h1") end)
    ∷ event "e6" "HitlAnswered" (field "hitl_id" (text "h1") end)
    ∷ []

abbrev with_unusable : HitlSnapshot
with_unusable = value empty_snapshot (fold_hitl_snapshot unusable empty_snapshot)

still_opened : (length with_unusable.opened ≡ 1) × (length with_unusable.pending ≡ 0)
unfolding fold_hitl_snapshot content_from_jsonable delivery_from_payload
still_opened = (refl, refl)

-- The snapshot, written and read back, has lost it.
opened_lost : (cold_snapshot with_unusable).opened ≡ []
unfolding fold_hitl_snapshot content_from_jsonable delivery_from_payload cold_snapshot
opened_lost = refl
