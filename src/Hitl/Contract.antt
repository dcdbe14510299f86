-- ===== src/Hitl/Contract.antt =====
-- src/ctx_weft/protocols/hitl.py: what is asked of a human, and what the human gives. A time is a
-- number of ticks since the epoch; a dictionary of JSON is a `Value`.
use ctx_weft.Base.{ℕ, String, Option, Bool, List}
use ctx_weft.Base.Value.{Value}
use ctx_weft.Content.{Content}

abbrev pub preface_normal : String
preface_normal = "normal"

abbrev pub preface_after_interrupt : String
preface_after_interrupt = "interrupt"

abbrev pub preface_after_interrupt_edit : String
preface_after_interrupt_edit = "interrupt_edit"

pub data Delivery : Type 0 where
  tool_result_delivery : String → Delivery
  user_turn_delivery : String → String → Delivery
  no_resume_delivery : Delivery

pub record HitlAsk : Type 0 where
  pub form : String
  pub delivery : Delivery
  pub prompt : String
  pub detail : String
  pub fields : List Value
  pub proposal : Value
  pub subject_id : String
  pub resume_state : Value
  pub reply_as_result : Bool

pub record HitlDecision : Type 0 where
  pub outcome : String
  pub message : Content
  pub modified_arguments : Value

-- `HitlRequestView`, without its default values.
pub record HitlRequestView : Type 0 where
  pub id : String
  pub form : String
  pub session_id : String
  pub task_id : String
  pub created_at : ℕ
  pub agent_id : String
  pub subject_id : String
  pub prompt : String
  pub detail : String
  pub fields : List Value
  pub proposal : Value
  pub outcome : String
  pub delivery : Delivery
  pub resolved_at : Option ℕ
