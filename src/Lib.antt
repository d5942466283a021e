-- ===== src/Lib.antt =====
-- Eventide: a local agent runtime whose only record is an append-only log of facts in SQLite.
--
-- The parts. The store (eventide/store.py) keeps sessions, turns and runs, and the Event Log. The
-- token ledger (eventide/budgets.py) and the scheduler of root runs (eventide/scheduler.py) keep
-- no record of their own: each reads the facts of its types, projects them to a state, decides,
-- and appends. Token counters are normalised by eventide/usage.py, priced by
-- eventide/budget_prices.py, and the characters of a request are measured by
-- eventide/input_composition.py. The plans of a session
-- (eventide/task_plan.py) are validated before they are written to the log. The failure loops of
-- tools (eventide/tool_loops.py) and the messages that a model is sent (eventide/projections.py)
-- are found by reading it, as is the state of a run. Stored results of tools are read by pages
-- (eventide/tool_results.py), files are cut into passages for an index (eventide/rag/chunker.py),
-- and a delivery is repaired in rounds within its limits (eventide/delivery_repair.py). The Host
-- (eventide/host.py) ties these together: it dispatches admitted roots over the scheduler
-- (eventide/run_dispatch.py), sends each model request in attempts that the ledger admits and
-- settles, and closes what an interrupted run has left open.
--
-- The files.
-- Prelude and its children: Boolean tests, lists, texts and dicts as Python has them. A dict is
-- an association list in insertion order. Runtime: exceptions as values, the result of code that
-- may raise, and `BudgetScope`. Facts: the facts of the Event Log with the payloads that the
-- modelled code reads; `other` is a fact of any other type, which has no payload here.
-- Store.State: the tables; Store.Sets: sets of texts, and `sorted`. Store.Log:
-- `_append_fact_locked`, `append_fact`, `transact_facts`, `append_event`, `finish_run`.
-- Store.Sessions: `create_session`, `update_session`,
-- `delete_session`, `commit_session_metadata`. Store.Runs: `create_run`, `admit_run`. Store.Rows
-- splits each operation into the rows that it writes; Store.Calls is any sequence of calls;
-- Store.Finish is about the end of a run; Store.Links is about their foreign keys; Store.Queries
-- asks the log.
-- Usage: `normalize_usage` and `usage_snapshot`. Usage.Ledger: the loop of `build_usage_ledger`.
-- Usage.Rows: `_attempt_row` and `_legacy_row`; Usage.Totals: their order and totals.
-- Usage.Providers:
-- `normalize_provider_usage` (eventide/usage.py).
-- Budgets.Ledger: `_projection`, `_amount`, `_bucket`, `_receipt`. Budgets.Context: `scopes`,
-- `is_service_probe_run`, `_validate_context`. Budgets.Operations: `configure`, `reserve`.
-- Budgets.Settling: `settle`, `resolve_unknown`, `snapshot`. The `decide` closure of a call is
-- its own function, which also returns the state that the closure has changed in place. The
-- other modules of Budgets hold proofs.
-- Scheduler.Queue: `project_queue`. Scheduler.Admission: `RuntimeScheduler`. Scheduler.Slots:
-- `model_slot`, as steps. The other modules of Scheduler hold proofs.
-- TaskPlan.Items: the fields of an item and `_item`. TaskPlan.Dependencies:
-- `_validate_dependencies`. TaskPlan.Updates: `plan_update`, `normalize_todos`, `active_id`
-- (eventide/task_plan.py).
-- Messages: `MessagesProjection` (eventide/projections.py); Messages.Calls and Messages.Answers
-- hold proofs.
-- RunState: `RuntimeStateProjection`; RunState.Ends holds its proofs. Pages: `preview` and `reader`
-- (eventide/tool_results.py) with `get_tool_result` of the store; Pages.Walk and Pages.Bounds hold
-- proofs. Chunks: `_window_chunks` and its helpers (eventide/rag/chunker.py); Chunks.Lines and
-- Chunks.Windows hold proofs. Json: the length of a serialised value.
-- Prices: `register_price` and `_price_lines` (eventide/budget_prices.py); Prices.Estimates:
-- `estimate_cost`; Prices.Summary: `summarize_cost_events`; the other modules of Prices hold
-- proofs. Composition: `measure_input_composition` (eventide/input_composition.py),
-- Composition.Validation:
-- `validate_input_composition`; Composition.Sizes and Composition.RoundTrip hold proofs.
-- Deliveries: `delivery_usage` and `delivery_limit_reason` (eventide/delivery_limits.py).
-- Deliveries.Repair: the rounds
-- of `run_repair`, and Deliveries.Excerpts the search for the excerpts of failed checks,
-- which Deliveries.Feedback fills in
-- (eventide/delivery_repair.py). The other modules of Deliveries hold proofs.
-- Recovery: `_recovery_facts` and `_validate_continue`, and Attempts: `_complete_with_retry`
-- (eventide/host.py); their children hold proofs.
-- Dispatch: `RunDispatch` (eventide/run_dispatch.py) over the scheduler; Dispatch.Reachable:
-- its calls as steps; the other modules of Dispatch hold proofs.
-- Policies: `PolicyEngine.evaluate` (eventide/policy.py) and the modes of a run
-- (eventide/run_policy.py); Policies.Plan holds their proofs.
-- TaskView: `TaskPlanProjection` (eventide/projections.py); its children hold proofs.
-- ToolLoops: the failure window of eventide/tool_loops.py.
-- Tests: runs at concrete inputs.
--
-- How the code is read. A SQLite transaction that raises leaves the store as it was, so an
-- operation returns an error and no store; `create_run` commits its session first, and
-- `create_run_left` is what it leaves then. The answers of `uuid4` and of the clock are functions
-- of the number of rows (`stamp`, `row_stamp`); the uniqueness of `event_id` is left to uuid4. The
-- lock makes calls of the store sequential; `decide` is synchronous and does not write, as its
-- docstring asks. Natural numbers are unbounded, as Python's are; a counter that the code checks
-- for its sign is an integer where it enters. The usage of an attempt has the counters of
-- TOKEN_FIELDS and no others. A digest, the arithmetic of
-- decimals, and the Host's callbacks are arguments. A JSON value is a
-- text, a list or something else, as far as the code tells them apart. Messages of exceptions
-- stand without the values that the code puts into them. A ticket and a lease carry the number of
-- their creation, for comparisons by `is`.
-- Two payloads are compared by the fields that are modelled, where the code compares the dicts (admissions
-- and attempts that conflict). The index `one_terminal` is left to the check before it, which misses only
-- the empty run id; `unfinished_runs` takes terminal facts to name a run; `finish_run` takes the three
-- statuses that its callers give. A writer of a repair does not raise.
--
-- Fuel. The climb from a run to its root (`climb`) is on fuel, one more than the number of
-- recorded parents: each turn visits a key that was not visited, so the fuel is never used up. The
-- same holds of the walk along continued runs (`history`, one more turn than there are runs) and
-- of the depth-first walk over a plan (`visit`, two more than there are tasks: it stops where a
-- task is met again). The windows of a section need one turn more than it has characters, since
-- each turn moves the cursor; the loop of `dispatch` one more than it has futures, since each
-- turn makes one
-- of them ready; the search for an excerpt one more than it has candidates, since each turn
-- narrows them.
--
-- Not modelled: projects, workspaces but for their ids, checkpoints, provider configuration and
-- the reading queries of the store; the sections that a text is cut into before its windows; the
-- timeout of a repair and the texts of its prompts; the rest of the Host (eventide/host.py), which
-- calls these parts, and of `_complete_with_retry` the requests of an evaluation; the snapshot of
-- the dispatch and the tasks that wait on its futures; the checks of a new price; the
-- HTTP API, the providers, tools, sandbox, index and evaluation, which are input and output.
pub mod Prelude
pub mod Runtime
pub mod Facts
pub mod Store
pub mod Usage
pub mod Budgets
pub mod Scheduler
pub mod TaskPlan
pub mod ToolLoops
pub mod Tests
pub mod Attempts
pub mod Chunks
pub mod Composition
pub mod Deliveries
pub mod Dispatch
pub mod Json
pub mod Messages
pub mod Pages
pub mod Policies
pub mod Prices
pub mod Recovery
pub mod RunState
pub mod TaskView
