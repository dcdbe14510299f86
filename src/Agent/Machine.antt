-- ===== src/Agent/Machine.antt =====
-- The agent's state machine over a sequence of inputs, and its states read back from the events.
use ctx_weft.Base.{
  String, ◌≡◌, refl, ap, ◌∙◌, subst, ◌≢◌, Option, none, some, Bool, true, false, List, [], ◌∷◌, any,
  ◌||◌, arith,
}
use ctx_weft.Base.Dict.{lookup}
use ctx_weft.Base.Value.{text}
use ctx_weft.Control.StatusMaps.{agent_status_by_event}
use ctx_weft.Agent.State.{
  AgentStatus, idle, running, waiting_human, interrupted, terminated, AgentInput, task_started,
  awaits_human, human_resolved, is_interrupted, resumed, settled, cancel, AgentTransition, Context,
  status_name, next_agent_transition,
}

-- The fold of a status event into the state of a known agent: a terminated agent stays so, and an
-- event of another type does not come here.
unfoldable pub fold_agent_status : String → AgentStatus → AgentStatus
fold_agent_status event_type terminated = terminated
fold_agent_status event_type current = elim (lookup event_type agent_status_by_event) [
  | none ↦ current
  | some status ↦ status
]

-- One input: the machine stays, or moves and emits; `k` is the rest of the run.
unfoldable pub follow :
    AgentStatus
    → Option AgentTransition
    → (AgentStatus → AgentStatus × List AgentTransition)
    → AgentStatus × List AgentTransition
follow current none k = k current
follow current (some t) k = let (last, ts) = k t.status in (last, t ∷ ts)

-- The machine over a sequence of inputs: the last state and the transitions, in order.
unfoldable pub drive :
    AgentStatus → List (AgentInput × Context) → AgentStatus × List AgentTransition
unfolding follow
drive current [] = (current, [])
drive current ((input, c) ∷ rest) =
    follow current (next_agent_transition current input c) (λ s. drive s rest)

unfoldable pub replay : AgentStatus → List AgentTransition → AgentStatus
replay current [] = current
replay current (t ∷ ts) = replay (fold_agent_status t.event_type current) ts

-- What a transition out of `current` has to satisfy.
abbrev IsSound : AgentStatus → Option AgentTransition → Type 0
IsSound current none = Unit
IsSound current (some t) =
    (fold_agent_status t.event_type current ≡ t.status)
    × (t.status ≢ current)
    × (lookup "from_status" t.payload ≡ some (text (status_name current)))

next_agent_transition-IsSound :
    (current : AgentStatus) (input : AgentInput) (c : Context)
    → IsSound current (next_agent_transition current input c)
unfolding next_agent_transition fold_agent_status agent_status_by_event lookup
next_agent_transition-IsSound terminated input c = tt
next_agent_transition-IsSound running task_started c = tt
next_agent_transition-IsSound running human_resolved c = tt
next_agent_transition-IsSound running resumed c = tt
next_agent_transition-IsSound waiting_human awaits_human c = tt
next_agent_transition-IsSound interrupted is_interrupted c = tt
next_agent_transition-IsSound idle settled c = tt
next_agent_transition-IsSound idle cancel c = (refl, λ e. cc, refl)
next_agent_transition-IsSound _ _ c = (refl, λ e. cc, refl)

-- A transition's event is folded to the state that the machine moved to, the move is to another
-- state, and the event names the state that was left.
pub next_agent_transition-fold :
    (current : AgentStatus) (input : AgentInput) (c : Context) (t : AgentTransition)
    → next_agent_transition current input c ≡ some t
    → (fold_agent_status t.event_type current ≡ t.status)
      × (t.status ≢ current)
      × (lookup "from_status" t.payload ≡ some (text (status_name current)))
next_agent_transition-fold current input c t h =
    subst (IsSound current) h (next_agent_transition-IsSound current input c)

replay-follow :
    (current : AgentStatus) (o : Option AgentTransition)
    (k : AgentStatus → AgentStatus × List AgentTransition)
    → IsSound current o
    → ((s : AgentStatus) → replay s (k s).1 ≡ (k s).0)
    → replay current (follow current o k).1 ≡ (follow current o k).0
unfolding replay follow
replay-follow current none k sound h = h current
replay-follow current (some t) k sound h = ap (λ s. replay s (k t.status).1) sound.0 ∙ h t.status

-- The states that the machine goes through are read back from the events that it emits: for every
-- sequence of inputs, folding the events leads to the machine's last state.
pub replay-drive :
    (inputs : List (AgentInput × Context)) (current : AgentStatus)
    → replay current (drive current inputs).1 ≡ (drive current inputs).0
unfolding drive replay
replay-drive [] current = refl
replay-drive ((input, c) ∷ rest) current =
    replay-follow current (next_agent_transition current input c) (λ s. drive s rest)
      (next_agent_transition-IsSound current input c) (replay-drive rest)

abbrev pub is_cancel : AgentInput → Bool
is_cancel cancel = true
is_cancel _ = false

abbrev pub is_terminated : AgentStatus → Bool
is_terminated terminated = true
is_terminated _ = false

abbrev IsEnding : AgentStatus → AgentInput → Option AgentTransition → Type 0
IsEnding current input none = is_terminated current ≡ (is_terminated current || is_cancel input)
IsEnding current input (some t) =
    is_terminated t.status ≡ (is_terminated current || is_cancel input)

next_agent_transition-IsEnding :
    (current : AgentStatus) (input : AgentInput) (c : Context)
    → IsEnding current input (next_agent_transition current input c)
unfolding next_agent_transition
next_agent_transition-IsEnding terminated input c = refl
next_agent_transition-IsEnding running task_started c = refl
next_agent_transition-IsEnding running human_resolved c = refl
next_agent_transition-IsEnding running resumed c = refl
next_agent_transition-IsEnding waiting_human awaits_human c = refl
next_agent_transition-IsEnding interrupted is_interrupted c = refl
next_agent_transition-IsEnding idle settled c = refl
next_agent_transition-IsEnding idle cancel c = refl
next_agent_transition-IsEnding _ _ c = refl

follow-terminated :
    (current : AgentStatus) (input : AgentInput) (rest : Bool) (o : Option AgentTransition)
    (k : AgentStatus → AgentStatus × List AgentTransition)
    → IsEnding current input o
    → ((s : AgentStatus) → is_terminated (k s).0 ≡ (is_terminated s || rest))
    → is_terminated (follow current o k).0 ≡ (is_terminated current || (is_cancel input || rest))
unfolding follow
follow-terminated current input rest none k e h = ground (arith, h current)
follow-terminated current input rest (some t) k e h = ground (arith, h t.status)

-- An agent is terminated after a sequence of inputs exactly when it was terminated before or one of
-- the inputs is a cancel: no other input ends an agent, and none brings a terminated one back.
pub drive-terminated :
    (inputs : List (AgentInput × Context)) (current : AgentStatus)
    → is_terminated (drive current inputs).0
      ≡ (is_terminated current || any (λ (input, c). is_cancel input) inputs)
unfolding drive
drive-terminated [] current = ground arith
drive-terminated ((input, c) ∷ rest) current =
    follow-terminated current input (any (λ (i, _). is_cancel i) rest)
      (next_agent_transition current input c) (λ s. drive s rest)
      (next_agent_transition-IsEnding current input c) (drive-terminated rest)
