-- ===== src/Control/Apply/Observe.antt =====
-- src/ctx_weft/core/control/reducers.py, `_apply`: the observations that have not been carried through.
use Prim.Native.String.{◌++◌}
use ctx_weft.Base.{
  String, Option, none, some, Bool, true, false, List, [], ◌∷◌, map, mem, ◌==◌, not, ◌&&◌, ◌||◌,
  is_some, ◌>>=◌, if◌then◌else◌,
}
use ctx_weft.Base.Dict.{lookup, insert, remove, map_values}
use ctx_weft.Base.Value.{
  Value, Items, Fields, Payload, null, flag, text, list, dict, nil, cons, find, is_text, same_value,
}
use ctx_weft.Base.Value.Reading.{as_text, as_optional, text_or_empty, truthy, optional_text}
use ctx_weft.Event.Types
use ctx_weft.Event.Types.{EventType, type_name}
use ctx_weft.Control.StatusMaps.{task_status_by_event}
use ctx_weft.Control.Views.{RunStateView}
use ctx_weft.Control.Apply.Update.{value_at}

-- The types that older logs name otherwise.
unfoldable pub current_type : String → String
unfolding type_name
current_type type =
    if type == "TaskRecapRequested"
    then type_name Types.observe_requested
    else if type == "TaskRecapStarted"
    then type_name Types.observe_started
    else if type == "TaskRecapDone"
    then type_name Types.observe_applied
    else type

-- `ev.causation_id or p.get("observe_id")`
unfoldable pub owner_of : Option String → Option Value → Option (Option String)
unfolding as_optional
owner_of none observe_id = as_optional observe_id
owner_of (some cause) observe_id = if cause == "" then as_optional observe_id else some (some cause)

-- `info.get(key)`
unfoldable pub info_at : String → Payload → Value
unfolding lookup
info_at key info = elim (lookup key info) [ none ↦ null | some v ↦ v ]

-- `key in effects`
unfoldable pub has_text : String → Items → Bool
unfolding is_text
has_text key nil = false
has_text key (cons v vs) = is_text key v || has_text key vs

-- `effects.append(v)`
unfoldable pub append_item : Items → Value → Items
append_item nil v = cons v nil
append_item (cons w vs) v = cons w (append_item vs v)

unfoldable pub note_effect : String → Payload → Option Payload
unfolding lookup insert has_text append_item
note_effect key info = elim (lookup "effects" info) [
  | none ↦ some (insert "effects" (list (cons (text key) nil)) info)
  | some (list vs) ↦
      some
        (if has_text key vs then info else insert "effects" (list (append_item vs (text key))) info)
  | some _ ↦ none
]

-- The types of the effects of an observation.
abbrev pub effect_types : List EventType
effect_types =
    Types.task_finalized ∷ Types.blackboard_published ∷ Types.memory_ingested
    ∷ Types.memory_compacted ∷ []

-- What an event of this type does to the observation that owns it.
unfoldable pub touch_info : String → Fields → Payload → Option Payload
unfolding find as_text type_name mem lookup insert note_effect task_status_by_event
touch_info type fs info =
    if mem type (map type_name effect_types)
    then (as_text "" (find "source" fs) >>= λ source. note_effect (type ++ ":" ++ source) info)
    else if is_some (lookup type task_status_by_event)
    then some (insert "settled" (flag true) info)
    else some info

unfoldable pub touch_owner : Option String → String → Fields → RunStateView → Option RunStateView
unfolding lookup insert touch_info
touch_owner none type fs v = some v
touch_owner (some owner) type fs v = elim (lookup owner v.pending_observe) [
  | none ↦ some v
  | some info ↦ touch_info type fs info >>= λ changed.
      some (record v { pending_observe = insert owner changed v.pending_observe })
]

-- Whether a judged observation of this task is not the one that owns the event.
unfoldable pub is_abandoned : Option String → Option String → Payload → Bool
unfolding info_at truthy optional_text
is_abandoned owner task_id info =
    same_value (info_at "task_id" info) (optional_text task_id)
    && truthy (info_at "verdict" info)
    && not (same_value (optional_text owner) (info_at "observe_id" info))

abbrev pub mark_abandoned : Option String → Option String → Payload → Payload
mark_abandoned owner task_id info =
    if is_abandoned owner task_id info then insert "abandoned" (flag true) info else info

-- The types that leave an observation behind.
abbrev pub abandoning_types : List EventType
abandoning_types = Types.task_interrupted ∷ Types.task_canceled ∷ Types.task_requeued ∷ []

unfoldable pub abandon :
    Option String → String → Option String → Fields → RunStateView → RunStateView
unfolding mem type_name value_at map_values is_text
abandon owner type task_id fs v =
    if mem type (map type_name abandoning_types)
      && not (is_text "crash_recovery" (value_at "reason" fs))
    then record v { pending_observe = map_values (mark_abandoned owner task_id) v.pending_observe }
    else v

-- The entries that are copied into the record of an observation.
abbrev pub observed_names : List String
observed_names =
    "task_id" ∷ "observe_id" ∷ "boundary" ∷ "agent_id" ∷ "segment_end_at" ∷ "judge_task"
    ∷ "execution_mode" ∷ "verdict" ∷ "disposition" ∷ "report_boundary" ∷ "short_leaf"
    ∷ "context_record_ids" ∷ []

unfoldable pub copy_names : List String → Fields → Payload → Payload
unfolding find insert
copy_names [] fs info = info
copy_names (name ∷ names) fs info =
    copy_names names fs (elim (find name fs) [ none ↦ info | some v ↦ insert name v info ])

-- `view.pending_observe.setdefault(key, {})`, with what the event says of it.
unfoldable pub noted_info : String → String → Fields → Option Payload → Payload
unfolding copy_names insert type_name
noted_info type observe_id fs before =
    let base : Payload = elim before [ none ↦ [] | some info ↦ info ] in
    let copied = copy_names observed_names fs base in
    let started =
      if type == type_name Types.observe_started && not (observe_id == "")
      then insert "started" (flag true) copied
      else copied in
    if type == type_name Types.observe_completed
    then insert "completion" (dict fs) started
    else started

-- The branch for the four types of an observation.
unfoldable pub apply_observe : String → Fields → RunStateView → Option RunStateView
unfolding find as_text text_or_empty type_name lookup insert remove noted_info
apply_observe type fs v = do
  task_id ← as_text "" (find "task_id" fs)
  observe_id ← text_or_empty (find "observe_id" fs)
  let key = if observe_id == "" then task_id else observe_id
  some (
      if task_id == "" || (observe_id == "" && type == type_name Types.observe_completed)
      then v
      else if type == type_name Types.observe_applied
      then record v { pending_observe = remove key v.pending_observe }
      else record v {
        pending_observe =
            insert key (noted_info type observe_id fs (lookup key v.pending_observe))
              v.pending_observe;
      })
