-- ===== src/Store/Runs.antt =====
-- Run rows of eventide/store.py: `create_run`, `_create_run_locked` and `admit_run`.
use eventide.Prelude.{
  String, List, [], ◌∷◌, Option, none, some, Bool, true, false, not, ◌&&◌, has, insert, any, values,
  string_eq, length, if◌then◌else◌,
}
use eventide.Runtime.{Result, ok, err, integrity_error, ◌>>=◌, or_raise}
use eventide.Facts.{Fact}
use eventide.Store.State.{Store, get_session, is_id}
use eventide.Store.Log.{append_fact}
use eventide.Store.Sessions.{create_session}

-- The key of the next row of `turns`.
abbrev pub fresh_turn : Store → String
fresh_turn s = (s.row_stamp (length s.turns)).identity

-- `continuation_of TEXT UNIQUE REFERENCES runs(id)`
may_continue : Store → Option String → Bool
may_continue s none = true
may_continue s (some r) =
    has r s.runs && not (any (λ t. is_id t.continuation_of r) (values s.turns))

-- `_create_run_locked`: both INSERTs with their constraints.
unfoldable pub create_run_locked : Store → String → String → Option String → Result Store
unfolding may_continue
create_run_locked s run_id session_id continuation_of =
    if has session_id s.sessions
      && not (has (fresh_turn s) s.turns)
      && may_continue s continuation_of
      && not (has run_id s.runs)
    then ok (record s {
      turns =
          insert (fresh_turn s)
            (record { session_id = session_id; continuation_of = continuation_of }) s.turns;
      runs = insert run_id (record { session_id = session_id; turn_id = fresh_turn s }) s.runs;
    })
    else err integrity_error

unfoldable pub create_run : Store → String → String → Option String → Result Store
create_run s run_id session_id continuation_of = do
  s₁ ← create_session s session_id none none none
  create_run_locked s₁ run_id session_id continuation_of

-- The facts that are committed with the run, each with its role and author.
pub record Admission : Type 0 where
  pub fact : Fact
  pub role : String
  pub author : String

unfoldable pub append_admissions : Store → String → String → List Admission → Result Store
append_admissions s session_id run_id [] = ok s
append_admissions s session_id run_id (a ∷ admissions) =
    append_fact s session_id a.fact
      (record { run_id = some run_id; role = a.role; author = a.author; partial = false })
    >>= λ r. append_admissions r.1 session_id run_id admissions

unfoldable pub admit_run : Store → String → String → List Admission → Option String → Result Store
admit_run s run_id session_id facts continuation_of = do
  _ ← or_raise (get_session s session_id) "Session not found"
  s₁ ← create_run_locked s run_id session_id continuation_of
  append_admissions s₁ session_id run_id facts

-- What a `create_run` that raises leaves: its session was committed before.
unfoldable pub create_run_left : Store → String → Store
create_run_left s session_id = elim (create_session s session_id none none none) [
  | ok s₁ ↦ s₁
  | err e ↦ s
]
