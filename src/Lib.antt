-- ===== src/Lib.antt =====
-- ctx_weft is a runtime for agents: sessions of tasks that agents run, recorded as events. This
-- library models its core, the parts that decide, and leaves out what calls models, tools, files and
-- databases. Paths are from the repository's root.
--
-- The parts. A session's tasks wait in the task queue until what they depend on has succeeded. A
-- run of a task ends with an outcome, from which the disposition gives the task's next state and the
-- event that says so. When too many runs fail, the plan of the failure threshold says which tasks are
-- canceled, signalled or failed. Agents have a state machine of their own. Every event goes through the
-- commit gate into the event store; a session is rebuilt from its events by folds. A tool call or a
-- task that needs a human opens a request in the registry of human requests, whose answer is given in
-- one stage or in two.
--
-- The files.
-- Task/Queue: `TaskQueue` of src/ctx_weft/core/orchestrator/task/queue.py. The stack is a list with its
--   top last; the sets are lists without order. The loop of `pop` is a recursion over the list.
-- Task/Threshold: src/ctx_weft/core/orchestrator/task/failure_threshold.py, its three loops as
--   recursions over the table of tasks.
-- Task/Disposition and Task/Outcome: disposition.py and, of manager.py in the same directory,
--   `apply_run_outcome`: its guards, the decision at the end of a run and its application to the task. What
--   it asks of the manager's tables (a pending threshold root, the reason of `_task_tree_cancel_reason`,
--   an emission that waits) is the record `Standing`; the methods that it goes over to are named in its
--   result and not modelled, and the emission of the event succeeds.
-- Task/Verdict, Task/Status, Task/Model: src/ctx_weft/core/utils/verdict.py,
--   src/ctx_weft/core/models/status.py and src/ctx_weft/core/models/task.py.
-- Agent: src/ctx_weft/core/orchestrator/lifecycle/agent_state.py; Agent/Machine runs it over a list of
--   inputs.
-- Control: src/ctx_weft/core/control. Control/Views: the views of types.py; the other files model
--   reducers.py. Control/Blob: the state blob, `serialize_view` and `deserialize_view`; a value of JSON
--   that has another type than the source writes there, or is a negative number, has no result, where
--   Python would carry it on or raise. Control/Blob/Rebuilt describes the accounts of the requests that
--   the reader rebuilds. Control/Apply: `_apply`, one child for each kind of branch, and the loop over a
--   log in Control/Apply/Event. `_apply` calls itself for an event of a type that does not call it again; the
--   inner call is an argument, and two levels are built. Control/Hitl: `fold_hitl_snapshot`.
--   Control/Reduce: `apply_events`, `reduce_events` and `_rebuild_agents`. Control/Prune:
--   `prune_view_for_snapshot`. Control/Snapshot: `snapshot_facts_from_event` and `snapshot_is_usable`.
--   Control/Settling has no code of its own: it composes `disposition_for` of
--   src/ctx_weft/core/orchestrator/task/disposition.py with `_apply`. Objects that
--   several dictionaries of the source share are written to each of them.
-- Content: src/ctx_weft/core/utils/content.py, content as JSON, and the parts of
--   src/ctx_weft/protocols/context.py.
-- Event/Types and Event/Record: src/ctx_weft/protocols/events.py.
-- Event/Store: src/ctx_weft/providers/events/store/in_memory/store.py. A method takes the store and
--   returns its result with the store after it; a call of `append_batch` holds the lock, so it is one
--   step.
-- Event/Gate: src/ctx_weft/core/events/commit_gate.py, over any store and any callback.
-- Hitl: src/ctx_weft/core/hitl/registry.py, the data of src/ctx_weft/protocols/hitl.py and the snapshot
--   of src/ctx_weft/core/hitl/snapshot.py. The registry
--   is a dictionary of records; a method that changes a record writes it back under its key. The objects
--   that a snapshot and the registry share when it is loaded are a list of ids, an argument of
--   `load_snapshot`.
-- Capability/TextWindow: the window of characters of src/ctx_weft/core/capabilities/_text_window.py, as
--   data in place of the text with its hint; the window of lines is not modelled.
-- Base: lists, texts, dictionaries and the values of JSON that the parts share.
--
-- Parameters. `isoformat` and `fromisoformat` of Python's `datetime` are the record `Times`; what is
-- assumed of them is that a written time is read back and is not empty.
--
-- Bounds. The loops of the source that are modelled are recursions over lists, but for two: the loop over
-- the depths of agents has one round for each subagent, and no result where it has not ended by then, and
-- the walk to the ancestors of a task as many steps as there are tasks and one more, since it never visits a parent twice; a reader
-- that follows the hints of a text window is given a number of windows, and the length of the text left
-- and one more are enough. Times, positions and counts are
-- natural numbers without an upper bound, as Python's integers are; a JSON number is an integer, and
-- floating-point numbers are left out. The positions read from a snapshot event are integers.
--
-- Not modelled: the event loop and its tasks, the SQL event store, memory, prompts, gateways to models
-- and tools, the service around the registry, and logging. Interleavings are sequences of calls, since
-- no method modelled here awaits between its reads and its writes, but for `apply_run_outcome`, which holds
-- the manager's lock while it does.
pub mod Agent
pub mod Base
pub mod Capability
pub mod Content
pub mod Control
pub mod Event
pub mod Hitl
pub mod Task
