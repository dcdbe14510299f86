-- ===== src/Control/Blob/Decisions.antt =====
-- src/ctx_weft/core/control/reducers.py, deliveries and decisions in the state blob, and
-- src/ctx_weft/core/hitl/service.py, `delivery_to_payload`.
use ctx_weft.Base.{String, ◌≡◌, refl, Option, none, some, [], ◌∷◌, ◌==◌, if◌then◌else◌, ◌>>=◌}
use ctx_weft.Base.Value.{Value, Fields, Payload, null, text, dict, to_fields, find}
use ctx_weft.Base.Value.Reading.{as_text, as_value, or_empty_text}
use ctx_weft.Content.{Content, no_content, plain, parts}
use ctx_weft.Content.Json.{
  content_to_jsonable, content_from_jsonable, content_from_jsonable-content_to_jsonable,
}
use ctx_weft.Hitl.Contract.{
  Delivery, tool_result_delivery, user_turn_delivery, no_resume_delivery, HitlDecision,
  preface_normal,
}

unfoldable pub delivery_to_payload : Delivery → Payload
delivery_to_payload (tool_result_delivery tool_call_id) =
    ("kind", text "tool_result") ∷ ("tool_call_id", text tool_call_id) ∷ []
delivery_to_payload (user_turn_delivery task_id preface) =
    ("kind", text "user_turn") ∷ ("task_id", text task_id) ∷ ("preface", text preface) ∷ []
delivery_to_payload no_resume_delivery = ("kind", text "no_resume") ∷ []

unfoldable pub delivery_of_kind : String → Fields → Option Delivery
unfolding find as_text
delivery_of_kind kind fs =
    if kind == "tool_result"
    then (as_text "" (find "tool_call_id" fs) >>= λ id. some (tool_result_delivery id))
    else if kind == "user_turn"
    then (as_text "" (find "task_id" fs) >>= λ id.
        as_text preface_normal (find "preface" fs) >>= λ preface.
        some (user_turn_delivery id preface))
    else some no_resume_delivery

-- `_delivery_from_payload`, without its warning.
unfoldable pub delivery_from_payload : Fields → Option Delivery
unfolding find as_text delivery_of_kind
delivery_from_payload fs = as_text "" (find "kind" fs) >>= λ kind. delivery_of_kind kind fs

pub delivery_from_payload-delivery_to_payload :
    (d : Delivery) → delivery_from_payload (to_fields (delivery_to_payload d)) ≡ some d
unfolding delivery_from_payload delivery_to_payload to_fields
delivery_from_payload-delivery_to_payload (tool_result_delivery id) = refl
delivery_from_payload-delivery_to_payload (user_turn_delivery id preface) = refl
delivery_from_payload-delivery_to_payload no_resume_delivery = refl

unfoldable pub write_decision : Option HitlDecision → Value
unfolding to_fields
write_decision none = null
write_decision (some d) = dict (
    to_fields (
      ("outcome", text d.outcome)
      ∷ ("message", content_to_jsonable d.message)
      ∷ ("modified_arguments", d.modified_arguments)
      ∷ []))

unfoldable pub decision_from : Fields → Option HitlDecision
unfolding find as_text as_value or_empty_text
decision_from fs = do
  outcome ← as_text "" (find "outcome" fs)
  message ← content_from_jsonable (or_empty_text (as_value null (find "message" fs)))
  some (record {
    outcome = outcome;
    message = message;
    modified_arguments = as_value null (find "modified_arguments" fs);
  })

unfoldable pub read_decision : Option Value → Option (Option HitlDecision)
unfolding decision_from
read_decision none = some none
read_decision (some null) = some none
read_decision (some (dict fs)) = decision_from fs >>= λ d. some (some d)
read_decision (some _) = none

-- A message as it comes back: one without text or parts is the empty text.
unfoldable pub cold_content : Content → Content
cold_content no_content = plain ""
cold_content (parts []) = plain ""
cold_content c = c

abbrev pub cold_decision : HitlDecision → HitlDecision
cold_decision d = record d { message = cold_content d.message }

abbrev pub cold_decided : Option HitlDecision → Option HitlDecision
cold_decided none = none
cold_decided (some d) = some (cold_decision d)

content_from_jsonable-or_empty_text :
    (c : Content)
    → content_from_jsonable (or_empty_text (content_to_jsonable c)) ≡ some (cold_content c)
unfolding content_from_jsonable content_to_jsonable or_empty_text cold_content
content_from_jsonable-or_empty_text no_content = refl
content_from_jsonable-or_empty_text (plain s) = refl
content_from_jsonable-or_empty_text (parts []) = refl
content_from_jsonable-or_empty_text (parts (p ∷ ps)) =
    content_from_jsonable-content_to_jsonable (parts (p ∷ ps))

pub read_decision-write_decision :
    (o : Option HitlDecision) → read_decision (some (write_decision o)) ≡ some (cold_decided o)
unfolding read_decision write_decision
read_decision-write_decision none = refl
read_decision-write_decision (some d) = rw (content_from_jsonable-or_empty_text d.message) refl
