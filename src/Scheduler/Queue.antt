-- ===== src/Scheduler/Queue.antt =====
-- `project_queue` of eventide/scheduler.py: one pass over the scheduling facts in commit order.
-- An event whose run id is None or empty is passed over, as one whose payload is partial.
use eventide.Prelude.{
  ℕ, String, List, [], ◌∷◌, Option, none, some, not, ◌||◌, Dict, lookup, insert, has, ◌==◌,
  string_eq, if◌then◌else◌,
}
use eventide.Runtime.{Result, ok, err, value_error, ◌>>=◌}
use eventide.Facts.{Fact, RunIntent, intent_eq, run_admitted, run_started, type_of, truthy}
use eventide.Store.State.{Event, contains}

-- `QueueEntry.status`
pub data QueueStatus : Type 0 where
  queued running completed failed interrupted : QueueStatus

pub record QueueEntry : Type 0 where
  pub run_id : String
  pub session_id : String
  pub project_id : Option String
  pub status : QueueStatus
  pub admitted_at : ℕ
  pub admission_event_id : String
  pub intent : RunIntent

-- The admission event of a run, with its payload.
pub record Admitted : Type 0 where
  pub event_id : String
  pub session_id : String
  pub ts : ℕ
  pub intent : RunIntent

-- The local variables of the loop.
pub record Projection : Type 0 where
  pub admissions : Dict String Admitted
  pub starts : List String
  pub terminals : Dict String QueueStatus

-- `SCHEDULING_FACTS`
abbrev pub scheduling_facts : List String
scheduling_facts =
    "run.admitted" ∷ "run.started" ∷ "run.completed" ∷ "run.failed" ∷ "run.interrupted" ∷ []

-- `kind.removeprefix("run.")` of a kind in TERMINAL_TYPES
unfoldable pub terminal_status : Fact → Option QueueStatus
terminal_status f =
    if type_of f == "run.completed"
    then some completed
    else if type_of f == "run.failed"
    then some failed
    else if type_of f == "run.interrupted"
    then some interrupted
    else none

-- `setdefault`
abbrev pub set_default : {V : Type 0} → String → V → Dict String V → Dict String V
set_default k v d = if has k d then d else insert k v d

-- `admissions.setdefault(run_id, event)`, where no other admission stands
unfoldable pub admit : Projection → String → Admitted → Result Projection
admit p run_id a = elim (lookup run_id p.admissions) [
  | none ↦ ok (record p { admissions = insert run_id a p.admissions })
  | some prior ↦
      if not (prior.session_id == a.session_id) || not (prior.intent == a.intent)
      then err (value_error "Conflicting Run admission facts")
      else ok p
]

unfoldable pub end_run : Projection → String → Option QueueStatus → Result Projection
end_run p run_id none = ok p
end_run p run_id (some status) = ok (record p { terminals = set_default run_id status p.terminals })

-- One event of a named run.
unfoldable pub project_fact : Projection → String → Event → Result Projection
project_fact p run_id e = elim e.fact [
  | run_admitted intent ↦
      admit p run_id
        (record { event_id = e.event_id; session_id = e.session_id; ts = e.ts; intent = intent })
  | run_started intent ↦ ok (record p { starts = run_id ∷ p.starts })
  | _ ↦ end_run p run_id (terminal_status e.fact)
]

unfoldable pub project_event : Projection → Event → Result Projection
project_event p e = if e.partial then ok p else elim e.run_id [
  | none ↦ ok p
  | some run_id ↦ if run_id == "" then ok p else project_fact p run_id e
]

unfoldable pub project_events : Projection → List Event → Result Projection
project_events p [] = ok p
project_events p (e ∷ events) = project_event p e >>= λ q. project_events q events

-- `terminals.get(run_id, "running" if run_id in starts else "queued")`
status_of : Projection → String → QueueStatus
status_of p run_id = elim (lookup run_id p.terminals) [
  | some status ↦ status
  | none ↦ if contains run_id p.starts then running else queued
]

unfoldable pub entry_of : Projection → String → Admitted → QueueEntry
unfolding status_of
entry_of p run_id a = record {
  run_id = run_id;
  session_id = a.session_id;
  project_id = a.intent.project_id;
  status = status_of p run_id;
  admitted_at = a.ts;
  admission_event_id = a.event_id;
  intent = a.intent;
}

-- The entries of the admitted roots.
unfoldable pub roots_of : Projection → Dict String Admitted → List QueueEntry
roots_of p [] = []
roots_of p ((run_id, a) ∷ admissions) =
    let rest = roots_of p admissions in
    if truthy a.intent.parent_run_id then rest else entry_of p run_id a ∷ rest

unfoldable pub project_queue : List Event → Result (List QueueEntry)
project_queue events =
    project_events (record { admissions = []; starts = []; terminals = [] }) events >>= λ p.
    ok (roots_of p p.admissions)
