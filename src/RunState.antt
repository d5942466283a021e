-- ===== src/RunState.antt =====
-- The state of a run as its log gives it: `RuntimeStateProjection` of eventide/projections.py.
-- A JSON value that is only passed on stands as its text.
pub mod Ends
use eventide.Prelude.{
  ℕ, ◌+◌, String, List, [], ◌∷◌, Option, none, some, Bool, true, false, Dict, lookup, insert,
  remove, string_eq, if◌then◌else◌,
}
use eventide.Facts.{truthy}

pub data RunStatus : Type 0 where
  queued running waiting_for_user completed failed interrupted : RunStatus

pub data EndStatus : Type 0 where
  end_completed end_failed end_interrupted : EndStatus

-- `kind.split(".")[1]` of a terminal fact
abbrev pub status_of_end : EndStatus → RunStatus
status_of_end end_completed = completed
status_of_end end_failed = failed
status_of_end end_interrupted = interrupted

pub data ToolStatus : Type 0 where
  prepared tool_completed tool_abandoned : ToolStatus

pub record ToolState : Type 0 where
  pub payload : String
  pub status : ToolStatus

-- The keys that a worker's admission or start adds, where its payload has them.
pub record WorkerKeys : Type 0 where
  pub parent_run_id : Option String
  pub worker_role : Option String
  pub snapshot_id : Option String

pub record RunState : Type 0 where
  pub status : RunStatus
  pub output : String
  pub steps : ℕ
  pub tool_calls : ℕ
  pub duration_ms : ℕ
  pub usage : Dict String ℕ
  pub error : String
  pub pending_approvals : Dict String String
  pub tools : Dict String ToolState
  pub checkpoint : String
  pub reason : String
  pub gap_files : String
  pub worker : WorkerKeys
  pub completed_at : Option ℕ

-- The payload of a terminal fact, by the keys of the state but `status`.
pub record EndPayload : Type 0 where
  pub output : Option String
  pub steps : Option ℕ
  pub tool_calls : Option ℕ
  pub duration_ms : Option ℕ
  pub usage : Option (Dict String ℕ)
  pub error : Option String
  pub pending_approvals : Option (Dict String String)
  pub tools : Option (Dict String ToolState)
  pub checkpoint : Option String
  pub reason : Option String
  pub gap_files : Option String
  pub worker : WorkerKeys

pub data RunFact : Type 0 where
  admitted : WorkerKeys → RunFact
  started : WorkerKeys → RunFact
  -- model.response, with its step
  responded : Option ℕ → Dict String ℕ → RunFact
  -- context.compacted, context.summary_generated and worker.completed
  used : Dict String ℕ → RunFact
  checkpointed : String → RunFact
  tool_begins : String → String → RunFact
  tool_ends : String → String → ToolStatus → RunFact
  approval_required : String → String → RunFact
  approval_resolved : String → RunFact
  ends : EndStatus → EndPayload → RunFact
  unread : RunFact

pub record RunEvent : Type 0 where
  pub partial : Bool
  pub ts : ℕ
  pub fact : RunFact

abbrev pub null : String
null = "null"

abbrev pub first_state : RunState
first_state = record {
  status = running;
  output = "";
  steps = 0;
  tool_calls = 0;
  duration_ms = 0;
  usage = [];
  error = null;
  pending_approvals = [];
  tools = [];
  checkpoint = null;
  reason = null;
  gap_files = null;
  worker = record { parent_run_id = none; worker_role = none; snapshot_id = none };
  completed_at = none;
}

abbrev pub or_else {ℓ} : {A : Type ℓ} → Option A → A → A
or_else none a = a
or_else (some b) a = b

abbrev pub given_else : Option String → Option String → Option String
given_else none a = a
given_else (some b) a = some b

-- `state.update` of the keys that a payload has
abbrev pub merge_worker : WorkerKeys → WorkerKeys → WorkerKeys
merge_worker new old = record {
  parent_run_id = given_else new.parent_run_id old.parent_run_id;
  worker_role = given_else new.worker_role old.worker_role;
  snapshot_id = given_else new.snapshot_id old.snapshot_id;
}

abbrev pub update_worker : WorkerKeys → RunState → RunState
update_worker keys st =
    if truthy keys.parent_run_id then record st { worker = merge_worker keys st.worker } else st

abbrev pub or_zero : Option ℕ → ℕ
or_zero none = 0
or_zero (some n) = n

-- `for key, value in payload.get("usage", {}).items()`
abbrev pub add_usage : Dict String ℕ → Dict String ℕ → Dict String ℕ
add_usage total [] = total
add_usage total ((key, value) ∷ rest) =
    add_usage (insert key (or_zero (lookup key total) + value) total) rest

-- A status, unless the run has ended.
abbrev pub set_status : Bool → RunStatus → RunState → RunState
set_status terminal status st = if terminal then st else record st { status = status }

-- A key of the state that a worker's keys have added may be overwritten, no other key is added.
abbrev pub overwrite : Option String → Option String → Option String
overwrite new none = none
overwrite new (some old) = given_else new (some old)

abbrev pub overwrite_worker : WorkerKeys → WorkerKeys → WorkerKeys
overwrite_worker new old = record {
  parent_run_id = overwrite new.parent_run_id old.parent_run_id;
  worker_role = overwrite new.worker_role old.worker_role;
  snapshot_id = overwrite new.snapshot_id old.snapshot_id;
}

unfoldable pub finish : EndStatus → EndPayload → ℕ → RunState → RunState
finish end p ts st = record {
  status = status_of_end end;
  output = or_else p.output st.output;
  steps = or_else p.steps st.steps;
  tool_calls = or_else p.tool_calls st.tool_calls;
  duration_ms = or_else p.duration_ms st.duration_ms;
  usage = or_else p.usage st.usage;
  error = or_else p.error st.error;
  pending_approvals = or_else p.pending_approvals st.pending_approvals;
  tools = or_else p.tools st.tools;
  checkpoint = or_else p.checkpoint st.checkpoint;
  reason = or_else p.reason st.reason;
  gap_files = or_else p.gap_files st.gap_files;
  worker = overwrite_worker p.worker st.worker;
  completed_at = some ts;
}

-- The loop's body; the flag is `terminal`.
unfoldable pub read_fact : Bool → RunFact → ℕ → RunState → RunState × Bool
read_fact terminal (admitted keys) ts st =
    (set_status terminal queued (update_worker keys st), terminal)
read_fact terminal (started keys) ts st =
    (set_status terminal running (update_worker keys st), terminal)
read_fact terminal (responded step usage) ts st =
    (record st { steps = or_else step st.steps; usage = add_usage st.usage usage }, terminal)
read_fact terminal (used usage) ts st = (record st { usage = add_usage st.usage usage }, terminal)
read_fact terminal (checkpointed checkpoint) ts st =
    (record st { checkpoint = checkpoint }, terminal)
read_fact terminal (tool_begins call_id payload) ts st = (
  record st {
    tool_calls = st.tool_calls + 1;
    tools = insert call_id (record { payload = payload; status = prepared }) st.tools;
  },
  terminal,
)
read_fact terminal (tool_ends call_id payload status) ts st = (
  record st { tools = insert call_id (record { payload = payload; status = status }) st.tools },
  terminal,
)
read_fact terminal (approval_required approval_id payload) ts st = (
  set_status terminal waiting_for_user
      (record st { pending_approvals = insert approval_id payload st.pending_approvals }),
  terminal,
)
read_fact terminal (approval_resolved approval_id) ts st = (
  set_status terminal running
      (record st { pending_approvals = remove approval_id st.pending_approvals }),
  terminal,
)
read_fact true (ends end payload) ts st = (st, true)
read_fact false (ends end payload) ts st = (finish end payload ts st, true)
read_fact terminal unread ts st = (st, terminal)

abbrev pub read_event : RunState × Bool → RunEvent → RunState × Bool
read_event (st, terminal) e =
    if e.partial then (st, terminal) else read_fact terminal e.fact e.ts st

abbrev pub read_events : RunState × Bool → List RunEvent → RunState × Bool
read_events st [] = st
read_events st (e ∷ events) = read_events (read_event st e) events

unfoldable pub project_state : List RunEvent → RunState
project_state events = (read_events (first_state, false) events).0
