-- ===== src/Control/Apply/Update.antt =====
-- Reads of a payload, and a change of one entry of a view, that `_apply` makes again and again.
use ctx_weft.Base.{String, Option, none, some, Bool, false, ◌==◌, not, ◌>>=◌, if◌then◌else◌}
use ctx_weft.Base.Dict.{Dict, lookup, insert}
use ctx_weft.Base.Value.{Value, Fields, null, dict, end, find}
use ctx_weft.Base.Value.Reading.{as_value, text_or_empty}
use ctx_weft.Control.Views.{RunStateView, SessionView, TaskView, AgentView, new_agent_view}

-- `p.get(key)`
unfoldable pub value_at : String → Fields → Value
unfolding find as_value
value_at key fs = as_value null (find key fs)

-- `p.get(key, {})`, which has to be a dictionary
unfoldable pub as_fields : Option Value → Option Fields
as_fields none = some end
as_fields (some (dict fs)) = some fs
as_fields (some _) = none

-- `bool(o)` of an optional text
abbrev pub given : Option String → Bool
given none = false
given (some s) = not (s == "")

-- `a or b`, for optional texts
abbrev pub first_of : Option String → Option String → Option String
first_of none b = b
first_of (some s) b = if s == "" then b else some s

-- What `first_of` gives for a text that is read with `or ""`.
abbrev pub nonempty_or : String → Option String → Option String
nonempty_or s b = if s == "" then b else some s

-- `view.sessions.get(id)`, changed where it is there.
unfoldable pub with_session :
    String → (SessionView → Option SessionView) → RunStateView → Option RunStateView
unfolding lookup insert
with_session id f v = elim (lookup id v.sessions) [
  | none ↦ some v
  | some s ↦ f s >>= λ changed. some (record v { sessions = insert id changed v.sessions })
]

unfoldable pub with_task :
    String → (TaskView → Option TaskView) → RunStateView → Option RunStateView
unfolding lookup insert
with_task id f v = elim (lookup id v.tasks) [
  | none ↦ some v
  | some t ↦ f t >>= λ changed. some (record v { tasks = insert id changed v.tasks })
]

-- `_agent_slot(view, aid)`, the view that it finds or makes
unfoldable pub agent_slot : String → Dict AgentView → AgentView
unfolding lookup
agent_slot aid agents = elim (lookup aid agents) [ none ↦ new_agent_view aid | some a ↦ a ]

-- A change of what `_agent_slot` gives.
unfoldable pub with_slot : String → (AgentView → AgentView) → RunStateView → RunStateView
unfolding insert agent_slot
with_slot aid f v = record v { agents = insert aid (f (agent_slot aid v.agents)) v.agents }

-- `p.get(key) or ""`
abbrev pub text_at : String → Fields → Option String
text_at key fs = text_or_empty (find key fs)
