-- ===== src/Control/Hitl/Legacy.antt =====
-- src/ctx_weft/core/control/reducers.py: a decision out of the events of an older form.
use ctx_weft.Base.{String, Option, none, some, ◌==◌, if◌then◌else◌, ◌>>=◌}
use ctx_weft.Base.Value.{Fields, null, text, find}
use ctx_weft.Base.Value.Reading.{as_value, or_empty_text, truthy}
use ctx_weft.Content.Json.{content_from_jsonable}
use ctx_weft.Hitl.Contract.{HitlDecision}
use ctx_weft.Event.Types
use ctx_weft.Event.Types.{type_name}

abbrev pub outcome_accepted : String
outcome_accepted = "accepted"

abbrev pub outcome_rejected : String
outcome_rejected = "rejected"

abbrev pub outcome_cancelled : String
outcome_cancelled = "cancelled"

-- The answer of a decision of an older form, for the type of its event: none where it cannot be used.
unfoldable pub decision_of_type : String → HitlDecision → Fields → Option HitlDecision
unfolding find as_value truthy type_name
decision_of_type type accepted fs =
    let arguments = as_value null (find "modified_arguments" fs) in
    if type == type_name Types.hitl_approved
    then some accepted
    else if type == type_name Types.hitl_modified
    then (elim arguments [ null ↦ none | v ↦ some (record accepted { modified_arguments = v }) ])
    else if type == type_name Types.hitl_answered
    then (if truthy (as_value null (find "message" fs)) then some accepted else none)
    else if type == type_name Types.hitl_rejected
    then some (record accepted { outcome = outcome_rejected })
    else none

-- `_legacy_decision(event_type, payload)`
unfoldable pub legacy_decision : String → Fields → Option (Option HitlDecision)
unfolding find as_value or_empty_text decision_of_type
legacy_decision type fs = do
  message ← content_from_jsonable (or_empty_text (as_value (text "") (find "message" fs)))
  some (
      decision_of_type type
        (record { outcome = outcome_accepted; message = message; modified_arguments = null }) fs)
