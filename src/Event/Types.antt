-- ===== src/Event/Types.antt =====
-- src/ctx_weft/protocols/events.py: the types of the events, as the source's enumeration and as the
-- texts that an event carries, and the types that are not written to the log.
use ctx_weft.Base.{String, Bool, List, [], ◌∷◌, map, mem}

pub data EventType : Type 0 where
  session_created : EventType
  session_resumed : EventType
  session_status_changed : EventType
  session_finished : EventType
  session_paused_hitl : EventType
  round_committed : EventType
  round_discarded : EventType
  run_started : EventType
  run_canceled : EventType
  run_finished : EventType
  step_started : EventType
  step_completed : EventType
  step_failed : EventType
  task_created : EventType
  task_started : EventType
  task_reviewing : EventType
  task_suspended : EventType
  task_awaiting_human : EventType
  task_interrupted : EventType
  run_interrupted : EventType
  task_resumed : EventType
  task_human_resolved : EventType
  task_finished : EventType
  task_failed : EventType
  task_canceled : EventType
  task_finalized : EventType
  task_requeued : EventType
  task_message_appended : EventType
  blackboard_published : EventType
  agent_instantiated : EventType
  agent_spawned : EventType
  agent_llm_changed : EventType
  agent_running : EventType
  agent_idle : EventType
  agent_waiting_human : EventType
  agent_interrupted : EventType
  agent_terminated : EventType
  spawn_rejected : EventType
  prepare_completed : EventType
  context_tokens_estimated : EventType
  context_assembled : EventType
  llm_request_started : EventType
  llm_prompt_sent : EventType
  llm_token_streamed : EventType
  llm_reasoning_streamed : EventType
  llm_response_finished : EventType
  llm_response_discarded : EventType
  llm_retry_triggered : EventType
  capability_invoked : EventType
  capability_progress : EventType
  capability_finished : EventType
  act_turn_started : EventType
  act_turn_completed : EventType
  max_turns_reached : EventType
  observe_requested : EventType
  observe_applied : EventType
  observe_started : EventType
  observe_completed : EventType
  memory_ingested : EventType
  memory_compact_started : EventType
  memory_compacted : EventType
  memory_compact_finished : EventType
  hitl_required : EventType
  hitl_approved : EventType
  hitl_answered : EventType
  hitl_rejected : EventType
  hitl_modified : EventType
  hitl_cancelled : EventType
  hitl_reply_retracted : EventType
  hitl_closed : EventType
  hitl_opened : EventType
  hitl_resolved : EventType
  state_snapshot : EventType
  failure_threshold_hit : EventType
  recognize_intent_started : EventType
  recognize_intent_llm_prompt : EventType
  recognize_intent_completed : EventType
  recognize_intent_tool_call : EventType
  recognize_intent_skipped : EventType
  background_observe_request_started : EventType
  background_observe_prompt_sent : EventType
  background_observe_token_streamed : EventType
  background_observe_response_finished : EventType
  task_recap_requested : EventType
  task_recap_started : EventType
  task_recap_done : EventType
  events_dropped : EventType

-- The text of a member.
unfoldable pub type_name : EventType → String
type_name session_created = "SessionCreated"
type_name session_resumed = "SessionResumed"
type_name session_status_changed = "SessionStatusChanged"
type_name session_finished = "SessionFinished"
type_name session_paused_hitl = "SessionPausedHitl"
type_name round_committed = "RoundCommitted"
type_name round_discarded = "RoundDiscarded"
type_name run_started = "RunStarted"
type_name run_canceled = "RunCanceled"
type_name run_finished = "RunFinished"
type_name step_started = "StepStarted"
type_name step_completed = "StepCompleted"
type_name step_failed = "StepFailed"
type_name task_created = "TaskCreated"
type_name task_started = "TaskStarted"
type_name task_reviewing = "TaskReviewing"
type_name task_suspended = "TaskSuspended"
type_name task_awaiting_human = "TaskAwaitingHuman"
type_name task_interrupted = "TaskInterrupted"
type_name run_interrupted = "RunInterrupted"
type_name task_resumed = "TaskResumed"
type_name task_human_resolved = "TaskHumanResolved"
type_name task_finished = "TaskFinished"
type_name task_failed = "TaskFailed"
type_name task_canceled = "TaskCanceled"
type_name task_finalized = "TaskFinalized"
type_name task_requeued = "TaskRequeued"
type_name task_message_appended = "TaskMessageAppended"
type_name blackboard_published = "BlackboardPublished"
type_name agent_instantiated = "AgentInstantiated"
type_name agent_spawned = "AgentSpawned"
type_name agent_llm_changed = "AgentLlmChanged"
type_name agent_running = "AgentRunning"
type_name agent_idle = "AgentIdle"
type_name agent_waiting_human = "AgentWaitingHuman"
type_name agent_interrupted = "AgentInterrupted"
type_name agent_terminated = "AgentTerminated"
type_name spawn_rejected = "SpawnRejected"
type_name prepare_completed = "PrepareCompleted"
type_name context_tokens_estimated = "ContextTokensEstimated"
type_name context_assembled = "ContextAssembled"
type_name llm_request_started = "LLMRequestStarted"
type_name llm_prompt_sent = "LLMPromptSent"
type_name llm_token_streamed = "LLMTokenStreamed"
type_name llm_reasoning_streamed = "LLMReasoningStreamed"
type_name llm_response_finished = "LLMResponseFinished"
type_name llm_response_discarded = "LLMResponseDiscarded"
type_name llm_retry_triggered = "LLMRetryTriggered"
type_name capability_invoked = "CapabilityInvoked"
type_name capability_progress = "CapabilityProgress"
type_name capability_finished = "CapabilityFinished"
type_name act_turn_started = "ActTurnStarted"
type_name act_turn_completed = "ActTurnCompleted"
type_name max_turns_reached = "MaxTurnsReached"
type_name observe_requested = "ObserveRequested"
type_name observe_applied = "ObserveApplied"
type_name observe_started = "ObserveStarted"
type_name observe_completed = "ObserveCompleted"
type_name memory_ingested = "MemoryIngested"
type_name memory_compact_started = "MemoryCompactStarted"
type_name memory_compacted = "MemoryCompacted"
type_name memory_compact_finished = "MemoryCompactFinished"
type_name hitl_required = "HitlRequired"
type_name hitl_approved = "HitlApproved"
type_name hitl_answered = "HitlAnswered"
type_name hitl_rejected = "HitlRejected"
type_name hitl_modified = "HitlModified"
type_name hitl_cancelled = "HitlCancelled"
type_name hitl_reply_retracted = "HitlReplyRetracted"
type_name hitl_closed = "HitlClosed"
type_name hitl_opened = "HitlOpened"
type_name hitl_resolved = "HitlResolved"
type_name state_snapshot = "StateSnapshot"
type_name failure_threshold_hit = "FailureThresholdHit"
type_name recognize_intent_started = "RecognizeIntentStarted"
type_name recognize_intent_llm_prompt = "RecognizeIntentLLMPrompt"
type_name recognize_intent_completed = "RecognizeIntentCompleted"
type_name recognize_intent_tool_call = "RecognizeIntentToolCall"
type_name recognize_intent_skipped = "RecognizeIntentSkipped"
type_name background_observe_request_started = "BackgroundObserveRequestStarted"
type_name background_observe_prompt_sent = "BackgroundObservePromptSent"
type_name background_observe_token_streamed = "BackgroundObserveTokenStreamed"
type_name background_observe_response_finished = "BackgroundObserveResponseFinished"
type_name task_recap_requested = "TaskRecapRequested"
type_name task_recap_started = "TaskRecapStarted"
type_name task_recap_done = "TaskRecapDone"
type_name events_dropped = "EventsDropped"

-- `TRANSIENT_EVENT_TYPES`
abbrev pub transient_event_types : List EventType
transient_event_types =
    events_dropped ∷ llm_token_streamed ∷ llm_reasoning_streamed ∷ llm_retry_triggered
    ∷ background_observe_token_streamed ∷ round_committed ∷ round_discarded ∷ []

-- `type in TRANSIENT_EVENT_TYPES`
unfoldable pub is_transient : String → Bool
unfolding mem type_name
is_transient type = mem type (map type_name transient_event_types)
