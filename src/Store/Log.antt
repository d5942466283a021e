-- ===== src/Store/Log.antt =====
-- Appending to the Event Log: `_append_fact_locked`, `append_fact`, `transact_facts`,
-- `append_event` and `finish_run` of eventide/store.py. An error leaves the store as it was: each
-- of them runs in one SQLite transaction.
pub mod Cases
pub mod Numbering
pub mod Terminals
use eventide.Prelude.{
  ◌+◌, String, List, [], ◌∷◌, ◌++◌, Option, none, some, Bool, true, false, not, ◌&&◌, lookup, has,
  ◌==◌, string_eq, if◌then◌else◌, length,
}
use eventide.Runtime.{
  value_error, integrity_error, Result, ok, err, ◌>>=◌, ◌>>◌, raise_if, or_raise,
}
use eventide.Facts.{Fact, is_terminal, truthy, run_completed, run_failed, run_interrupted}
use eventide.Store.State.{
  Event, Store, Run, session_events, run_events, facts_by_type, max_seq, first_terminal,
  get_session, get_run_identity,
}

-- What the checks on the run of a new fact decide.
pub data Gate : Type 0 where
  -- a new row, with this turn
  proceed : Option String → Gate
  -- the row of an earlier terminal fact is returned, and nothing is written
  replay : Event → Gate

unfoldable pub after_terminal : Run → Fact → Option Event → Result Gate
after_terminal run fact none = ok (proceed (some run.turn_id))
after_terminal run fact (some terminal) =
    if is_terminal fact then ok (replay terminal) else err (value_error "Run already terminated")

-- The block under `if run_id:`.
unfoldable pub gate : Store → String → Fact → Option String → Result Gate
gate s session_id fact none = ok (proceed none)
gate s session_id fact (some run_id) =
    if truthy (some run_id)
    then (do
      run ← or_raise (lookup run_id s.runs) "Run/session identity mismatch"
      raise_if (not (run.session_id == session_id)) "Run/session identity mismatch"
      after_terminal run fact (first_terminal (run_events s.events run_id)))
    else ok (proceed none)

-- Who writes a fact, and about which run.
pub record Writer : Type 0 where
  pub run_id : Option String
  pub role : String
  pub author : String
  pub partial : Bool

abbrev pub runtime : Option String → Writer
runtime run_id = record { run_id = run_id; role = "system"; author = "runtime"; partial = false }

abbrev pub user : Option String → Writer
user run_id = record { run_id = run_id; role = "system"; author = "user"; partial = false }

-- The row that is inserted.
unfoldable pub new_event : Store → String → Fact → Writer → Option String → Event
new_event s session_id fact w turn_id = record {
  event_id = (s.stamp (length s.events)).identity;
  session_id = session_id;
  session_seq = max_seq (session_events s.events session_id) + 1;
  turn_id = turn_id;
  run_id = w.run_id;
  ts = (s.stamp (length s.events)).time;
  fact = fact;
  role = w.role;
  author = w.author;
  partial = w.partial;
}

-- The foreign key of `run_id`.
unfoldable pub references_run : Store → Option String → Bool
references_run s none = true
references_run s (some run_id) = has run_id s.runs

abbrev pub push : Store → Event → Store
push s e = record s { events = s.events ++ e ∷ [] }

-- The INSERT, with its foreign keys `session_id` and `run_id`.
unfoldable pub write : Store → String → Fact → Writer → Gate → Result (Event × Store)
write s session_id fact w (replay terminal) = ok (terminal, s)
write s session_id fact w (proceed turn_id) = elim (get_session s session_id) [
  | none ↦ err integrity_error
  | some _ ↦
      if references_run s w.run_id
      then ok
          (new_event s session_id fact w turn_id, push s (new_event s session_id fact w turn_id))
      else err integrity_error
]

unfoldable pub append_fact : Store → String → Fact → Writer → Result (Event × Store)
append_fact s session_id fact w = do
  raise_if (w.partial && is_terminal fact) "Terminal facts cannot be partial"
  g ← gate s session_id fact w.run_id
  write s session_id fact w g

-- The loop over `additions`.
unfoldable pub append_all : Store → String → Writer → List Fact → Result Store
append_all s session_id w [] = ok s
append_all s session_id w (fact ∷ facts) =
    append_fact s session_id fact w >>= λ r. append_all r.1 session_id w facts

unfoldable pub transact_facts :
    {R : Type 0}
    → Store
    → String
    → List String
    → (List Event → Result (R × List Fact))
    → Writer
    → Result (R × Store)
transact_facts s session_id types decide w = do
  _ ← or_raise (get_session s session_id) "Session not found"
  (result, additions) ← decide (facts_by_type s.events types)
  s' ← append_all s session_id w additions
  ok (result, s')

-- `append_event`; the redaction of the payload is that of eventide/normalization.py, and takes
-- place before.
unfoldable pub append_event : Store → String → Fact → Result (Event × Store)
append_event s run_id fact = do
  identity ← or_raise (get_run_identity s run_id) "Run not found"
  append_fact s identity.session_id fact (runtime (some run_id))

pub data Status : Type 0 where
  completed failed interrupted : Status

-- `f"run.{status}"`
abbrev pub terminal_fact : Status → Fact
terminal_fact completed = run_completed
terminal_fact failed = run_failed
terminal_fact interrupted = run_interrupted

unfoldable pub finish_run : Store → String → Status → Result Store
finish_run s run_id status = do r ← append_event s run_id (terminal_fact status); ok r.1
