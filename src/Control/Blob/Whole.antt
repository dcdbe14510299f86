-- ===== src/Control/Blob/Whole.antt =====
-- src/ctx_weft/core/control/reducers.py, `serialize_view` and `deserialize_view`.
use ctx_weft.Base.{◌≡◌, refl, Option, none, some, [], ◌∷◌, ◌>>=◌}
use ctx_weft.Base.Value.{Value, Fields, Payload, num, text, dict, to_fields, find}
use ctx_weft.Base.Value.Reading.{
  as_text, as_num, as_optional, as_dict, optional_text, of_dict, map_fields, read_fields, of_fields,
  of_fields-to_fields, read_fields-map_fields_self, as_optional-optional_text,
}
use ctx_weft.Control.Views.{RunStateView}
use ctx_weft.Control.Blob.Times.{Times, IsTimes}
use ctx_weft.Control.Blob.Sessions.{write_session, read_session, read_session-write_session}
use ctx_weft.Control.Blob.Tasks.{write_task, read_task, read_task-write_task}
use ctx_weft.Control.Blob.Agents.{
  write_agent, read_agent, read_agent-write_agent, write_run, read_run, read_run-write_run,
}
use ctx_weft.Control.Blob.Rebuilt.{IsRebuilt, cold_snapshot-IsRebuilt}
use ctx_weft.Control.Blob.Snapshots.{
  hitl_to_blob, hitl_from_blob, cold_snapshot, hitl_from_blob-hitl_entries,
}

-- `dict(info)` of a pending observation
unfoldable pub write_info : Payload → Value
unfolding to_fields
write_info p = dict (to_fields p)

unfoldable pub read_info : Value → Option Payload
unfolding of_dict of_fields
read_info v = of_dict (λ fs. some (of_fields fs)) v

pub read_info-write_info : (p : Payload) → read_info (write_info p) ≡ some p
unfolding read_info write_info
read_info-write_info p = rw (of_fields-to_fields p) refl

-- A view as it comes back: the two fields about a replay are not written.
unfoldable pub restored : RunStateView → RunStateView
unfolding cold_snapshot
restored v = record v { target_event_id = none; events_replayed = 0; hitl = cold_snapshot v.hitl }

module _ (times : Times) where
  unfoldable pub serialize_view : RunStateView → Payload
  unfolding optional_text map_fields hitl_to_blob write_info write_run write_session write_task
      write_agent
  serialize_view v =
      ("run_id", text v.run_id)
      ∷ ("session_id", text v.session_id)
      ∷ ("task_id", text v.task_id)
      ∷ ("agent_id", text v.agent_id)
      ∷ ("current_step", optional_text v.current_step)
      ∷ ("task_status", text v.task_status)
      ∷ ("assembled_prompt_tokens", num v.assembled_prompt_tokens)
      ∷ ("transcript_turns", num v.transcript_turns)
      ∷ ("events_total", num v.events_total)
      ∷ ("tasks_total", num v.tasks_total)
      ∷ ("hitl", hitl_to_blob times v.hitl)
      ∷ ("pending_observe", dict (map_fields write_info v.pending_observe))
      ∷ ("open_runs", dict (map_fields write_run v.open_runs))
      ∷ ("sessions", dict (map_fields (write_session times) v.sessions))
      ∷ ("tasks", dict (map_fields (write_task times) v.tasks))
      ∷ ("agents", dict (map_fields write_agent v.agents))
      ∷ []

  unfoldable pub deserialize_view : Fields → Option RunStateView
  unfolding find as_text as_num as_optional as_dict read_fields read_info read_run read_session
      read_task read_agent
  deserialize_view fs = do
    raw_sessions ← as_dict (find "sessions" fs)
    sessions ← read_fields (read_session times) raw_sessions
    raw_tasks ← as_dict (find "tasks" fs)
    tasks ← read_fields (read_task times) raw_tasks
    raw_agents ← as_dict (find "agents" fs)
    agents ← read_fields read_agent raw_agents
    run_id ← as_text "" (find "run_id" fs)
    session_id ← as_text "" (find "session_id" fs)
    task_id ← as_text "" (find "task_id" fs)
    agent_id ← as_text "" (find "agent_id" fs)
    current_step ← as_optional (find "current_step" fs)
    task_status ← as_text "UNKNOWN" (find "task_status" fs)
    tokens ← as_num 0 (find "assembled_prompt_tokens" fs)
    turns ← as_num 0 (find "transcript_turns" fs)
    events_total ← as_num 0 (find "events_total" fs)
    tasks_total ← as_num 0 (find "tasks_total" fs)
    raw_hitl ← as_dict (find "hitl" fs)
    hitl ← hitl_from_blob times raw_hitl
    raw_observe ← as_dict (find "pending_observe" fs)
    pending_observe ← read_fields read_info raw_observe
    raw_runs ← as_dict (find "open_runs" fs)
    open_runs ← read_fields read_run raw_runs
    some (record {
      run_id = run_id;
      session_id = session_id;
      task_id = task_id;
      agent_id = agent_id;
      current_step = current_step;
      task_status = task_status;
      assembled_prompt_tokens = tokens;
      transcript_turns = turns;
      events_total = events_total;
      tasks_total = tasks_total;
      target_event_id = none;
      events_replayed = 0;
      hitl = hitl;
      pending_observe = pending_observe;
      open_runs = open_runs;
      sessions = sessions;
      tasks = tasks;
      agents = agents;
    })

  deserialize_view-restored :
      IsTimes times
      → (v : RunStateView) → deserialize_view (to_fields (serialize_view v)) ≡ some (restored v)
  unfolding serialize_view deserialize_view as_dict restored hitl_to_blob to_fields
  deserialize_view-restored ok v =
      rw
        (
          read_fields-map_fields_self (write_session times) (read_session times)
              (read_session-write_session times ok) v.sessions,
          read_fields-map_fields_self (write_task times) (read_task times)
              (read_task-write_task times ok) v.tasks,
          read_fields-map_fields_self write_agent read_agent read_agent-write_agent v.agents,
          as_optional-optional_text v.current_step,
          hitl_from_blob-hitl_entries times ok v.hitl,
          read_fields-map_fields_self write_info read_info read_info-write_info v.pending_observe,
          read_fields-map_fields_self write_run read_run read_run-write_run v.open_runs,
        )
        refl

  -- A state blob is always read back, and gives back the view it was written from, with every session,
  -- task, agent, open run and pending observation as it was. Two things differ: the two fields about a
  -- replay start anew, and so do the accounts of the requests, as `IsRebuilt` says: the pending and the
  -- resolved requests come back without their wait slots, claims and uncommitted answers; those two
  -- together are the opened ones; and for each tool call the cached decision and its owner are those of
  -- the last resolved request with a decision for it.
  pub deserialize_view-serialize_view :
      IsTimes times
      → (v : RunStateView)
      → (w : RunStateView) × (deserialize_view (to_fields (serialize_view v)) ≡ some w)
        × (w ≡ record v { target_event_id = none; events_replayed = 0; hitl = w.hitl })
        × IsRebuilt v.hitl w.hitl
  unfolding restored
  deserialize_view-serialize_view ok v =
      (restored v, deserialize_view-restored ok v, refl, cold_snapshot-IsRebuilt v.hitl)
