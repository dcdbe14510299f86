-- ===== src/Event/Record.antt =====
-- src/ctx_weft/protocols/events.py: an event, a stored event, and the receipt of a batch. A time is a
-- number that orders the moments.
use ctx_weft.Base.{
  ℕ, String, ◌≡◌, refl, Option, none, some, Bool, true, false, ◌&&◌, List, ◌==◌, eq_iff, eqb, arith,
}
use ctx_weft.Base.Value.{Value, same_value, is_proper, same_value_self}

pub record Event : Type 0 where
  pub id : String
  pub run_id : Option String
  pub sequence : ℕ
  pub session_id : String
  pub type : String
  pub timestamp : ℕ
  pub tenant_id : String
  pub task_id : Option String
  pub agent_id : Option String
  pub origin : String
  pub payload : Value
  pub metadata : Value
  pub causation_id : Option String
  pub schema_version : ℕ

pub record StoredEvent : Type 0 where
  pub event : Event
  pub position : ℕ

pub record CommitReceipt : Type 0 where
  pub batch_id : String
  pub records : List StoredEvent

unfoldable pub same_option : Option String → Option String → Bool
same_option none none = true
same_option (some s) (some t) = s == t
same_option _ _ = false

-- `==` of the dataclass: every field is equal.
unfoldable pub same_event : Event → Event → Bool
unfolding same_option
same_event a b =
    (a.id == b.id)
    && same_option a.run_id b.run_id
    && eqb a.sequence b.sequence
    && (a.session_id == b.session_id)
    && (a.type == b.type)
    && eqb a.timestamp b.timestamp
    && (a.tenant_id == b.tenant_id)
    && same_option a.task_id b.task_id
    && same_option a.agent_id b.agent_id
    && (a.origin == b.origin)
    && same_value a.payload b.payload
    && same_value a.metadata b.metadata
    && same_option a.causation_id b.causation_id
    && eqb a.schema_version b.schema_version

-- The dictionaries of an event have each key once.
pub record IsProper (e : Event) : Type 0 where
  pub payload : is_proper e.payload ≡ true
  pub metadata : is_proper e.metadata ≡ true

same_option_self : (o : Option String) → same_option o o ≡ true
unfolding same_option
same_option_self none = refl
same_option_self (some s) = (eq_iff s s).1 refl

eqb_self : (n : ℕ) → eqb n n ≡ true
eqb_self n = ground arith

pub same_event_self : (e : Event) → IsProper e → same_event e e ≡ true
unfolding same_event
same_event_self e h = rw (
  (eq_iff e.id e.id).1 refl,
  same_option_self e.run_id,
  eqb_self e.sequence,
  (eq_iff e.session_id e.session_id).1 refl,
  (eq_iff e.type e.type).1 refl,
  eqb_self e.timestamp,
  (eq_iff e.tenant_id e.tenant_id).1 refl,
  same_option_self e.task_id,
  same_option_self e.agent_id,
  (eq_iff e.origin e.origin).1 refl,
  same_value_self e.payload h.payload,
  same_value_self e.metadata h.metadata,
  same_option_self e.causation_id,
  eqb_self e.schema_version,
)
