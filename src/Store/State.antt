-- ===== src/Store/State.antt =====
-- The tables of eventide/store.py that the Event Log rests on. A table with a primary key is a
-- dict by that key; `runtime_events` is a list in commit order (rowid). Workspaces are the ids of
-- the rows of their table.
use eventide.Prelude.{
  ℕ, String, List, [], ◌∷◌, Option, none, some, Bool, true, false, not, ◌&&◌, ◌||◌, Dict, lookup,
  keys, ◌==◌, string_eq, select, if◌then◌else◌, max,
}
use eventide.Facts.{Fact, type_of, is_terminal}

-- `RuntimeEvent`; the uuid and the time of the k-th event are those of `stamp k` below.
pub record Event : Type 0 where
  pub event_id : String
  pub session_id : String
  pub session_seq : ℕ
  pub turn_id : Option String
  pub run_id : Option String
  pub ts : ℕ
  pub fact : Fact
  pub role : String
  pub author : String
  pub partial : Bool

pub record Session : Type 0 where
  pub workspace_id : String
  pub created_at : ℕ
  pub working_directory : String
  pub title : Option String
  pub archived : Bool

pub record Turn : Type 0 where
  pub session_id : String
  pub continuation_of : Option String

pub record Run : Type 0 where
  pub session_id : String
  pub turn_id : String

-- What `uuid.uuid4().hex` and `time.time()` return for one row.
pub record Stamp : Type 0 where
  pub identity : String
  pub time : ℕ

pub record Store : Type 0 where
  -- the answers of the clock and of uuid4 at the k-th event, and those for the other rows
  pub stamp : ℕ → Stamp
  pub row_stamp : ℕ → Stamp
  -- the workspace that `create_session` registers when none is named
  pub default_workspace : String
  pub workspaces : List String
  pub sessions : Dict String Session
  pub turns : Dict String Turn
  pub runs : Dict String Run
  pub events : List Event

abbrev pub contains : String → List String → Bool
contains k [] = false
contains k (j ∷ js) = k == j || contains k js

-- `r == Some(s)` of an optional column
abbrev pub is_id : Option String → String → Bool
is_id none s = false
is_id (some r) s = r == s

-- `session_events` of the log; the log is in the order of session_seq within a session.
abbrev pub session_events : List Event → String → List Event
session_events events session_id = select (λ e. e.session_id == session_id) events

-- `run_events` of the log
abbrev pub run_events : List Event → String → List Event
run_events events run_id = select (λ e. is_id e.run_id run_id) events

-- `facts_by_type`
unfoldable pub facts_by_type : List Event → List String → List Event
facts_by_type events types = select (λ e. not e.partial && contains (type_of e.fact) types) events

-- `COALESCE(MAX(session_seq),0)` of a session
abbrev pub max_seq : List Event → ℕ
max_seq [] = 0
max_seq (e ∷ events) = max e.session_seq (max_seq events)

-- The terminal row of a run, if there is one.
abbrev pub first_terminal : List Event → Option Event
first_terminal [] = none
first_terminal (e ∷ events) = if is_terminal e.fact then some e else first_terminal events

-- `run_is_terminal`
unfoldable pub run_is_terminal : Store → String → Bool
run_is_terminal s run_id = elim (first_terminal (run_events s.events run_id)) [
  | none ↦ false
  | some _ ↦ true
]

-- `get_session`
abbrev pub get_session : Store → String → Option Session
get_session s session_id = lookup session_id s.sessions

-- The row that `get_run_identity` joins from runs and turns.
pub record RunIdentity : Type 0 where
  pub session_id : String
  pub turn_id : String
  pub continuation_of : Option String

unfoldable pub get_run_identity : Store → String → Option RunIdentity
get_run_identity s run_id = elim (lookup run_id s.runs) [
  | none ↦ none
  | some r ↦ elim (lookup r.turn_id s.turns) [
    | none ↦ none
    | some t ↦ some (record {
      session_id = r.session_id;
      turn_id = r.turn_id;
      continuation_of = t.continuation_of;
    })
  ]
]

-- `unfinished_runs`: the runs with no terminal fact. Rows stand in the order of `started_at`.
unfoldable pub unfinished_runs : Store → List String
unfinished_runs s = select (λ r. not (run_is_terminal s r)) (keys s.runs)
