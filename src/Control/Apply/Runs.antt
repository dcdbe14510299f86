-- ===== src/Control/Apply/Runs.antt =====
-- src/ctx_weft/core/control/reducers.py, `_apply`: runs, steps and counters.
use ctx_weft.Base.{ℕ, String, Option, none, some, ◌==◌, ltb, ◌>>=◌, if◌then◌else◌}
use ctx_weft.Base.Dict.{lookup, insert, remove}
use ctx_weft.Base.Value.{Fields, find}
use ctx_weft.Base.Value.Reading.{as_num, as_optional}
use ctx_weft.Event.Record.{Event}
use ctx_weft.Control.Views.{RunStateView, OpenRun}

abbrev pub max : ℕ → ℕ → ℕ
max a b = if ltb a b then b else a

-- Every event of an open run moves its sequence on.
unfoldable pub touch_run : Option String → ℕ → RunStateView → RunStateView
unfolding lookup insert
touch_run none sequence v = v
touch_run (some run_id) sequence v = elim (lookup run_id v.open_runs) [
  | none ↦ v
  | some run ↦ record v {
    open_runs = insert run_id (record run { sequence = max run.sequence sequence }) v.open_runs;
  }
]

-- `StepStarted` and `StepCompleted`, with the key of the step
unfoldable pub apply_step : String → Fields → RunStateView → Option RunStateView
unfolding find as_optional
apply_step key fs v = as_optional (find key fs) >>= λ step. some (record v { current_step = step })

-- `previous.get("sequence", 0)`
abbrev pub sequence_of : Option OpenRun → ℕ
sequence_of none = 0
sequence_of (some run) = run.sequence

unfoldable pub apply_run_started : Event → RunStateView → RunStateView
unfolding lookup insert
apply_run_started ev v = elim ev.run_id [
  | none ↦ v
  | some run_id ↦ if run_id == "" then v else record v {
    open_runs =
        insert run_id
          (record {
            task_id = ev.task_id;
            agent_id = ev.agent_id;
            sequence = max (sequence_of (lookup run_id v.open_runs)) ev.sequence;
          })
          v.open_runs;
  }
]

unfoldable pub apply_run_finished : Event → RunStateView → RunStateView
unfolding remove
apply_run_finished ev v = elim ev.run_id [
  | none ↦ v
  | some run_id ↦ record v { open_runs = remove run_id v.open_runs }
]

unfoldable pub apply_prepared : Fields → RunStateView → Option RunStateView
unfolding find as_num
apply_prepared fs v = as_num 0 (find "assembled_token_count" fs) >>= λ n.
    some (record v { assembled_prompt_tokens = n })

unfoldable pub apply_turn : Fields → RunStateView → Option RunStateView
unfolding find as_num
apply_turn fs v =
    as_num v.transcript_turns (find "turn" fs) >>= λ n. some (record v { transcript_turns = n })
