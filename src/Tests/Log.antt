-- ===== src/Tests/Log.antt =====
-- A session, a run and its facts, in the Event Log.
use eventide.Prelude.{true, false, ◌≡◌, refl, List, [], ◌∷◌, none, some, map, String_discrete}
use eventide.Facts.{type_of, is_terminal, control_session, run_admitted, tool_prepared}
use eventide.Runtime.{ok}
use eventide.Store.State.{Event, Store, Session, get_run_identity, get_session}
use eventide.Store.Finish.{IsFinished, finish_run-IsFinished}
use eventide.Store.Sessions.{
  create_session, choose_workspace, insert_session, receipt, delete_session,
}
use eventide.Store.Runs.{admit_run, create_run_locked, append_admissions}
use eventide.Store.Log.{
  completed, failed, runtime, append_fact, write, gate, references_run, new_event, after_terminal,
  finish_run, append_event,
}
use eventide.Store.Log.Terminals.{IsSound}
use eventide.Store.Calls.{
  Call, perform, left, creates_session, admits_run, appends, finishes, deletes_session, perform_all,
  perform_all-IsSound, perform_all-Extends, Extends,
}
use eventide.Store.Links.{IsLinked, perform_all-IsLinked}
use eventide.Store.Queries.{session_is_control, marks_control}
use eventide.Tests.Data.{blank, intent}

abbrev calls : List Call
calls =
    creates_session "s" none none none
    ∷ admits_run "r" "s"
        (record { fact = run_admitted intent; role = "system"; author = "runtime" } ∷ []) none
    ∷ appends "s" tool_prepared (runtime (some "r"))
    ∷ finishes "r" completed
    ∷ appends "s" tool_prepared (runtime (some "r"))
    ∷ deletes_session "s"
    ∷ []

blank-IsSound : IsSound blank.events
blank-IsSound = record {
  numbered = record { at = λ sid. refl };
  closed = record { at = λ rid named. tt };
}

blank-IsLinked : IsLinked blank
blank-IsLinked = record { events = refl; runs = refl }

perform_all-IsSound_example : IsSound (perform_all blank calls).events
perform_all-IsSound_example = perform_all-IsSound blank calls blank-IsSound

perform_all-IsLinked_example : IsLinked (perform_all blank calls)
perform_all-IsLinked_example = perform_all-IsLinked blank calls blank-IsLinked

perform_all-Extends_example : Extends blank.events (perform_all blank calls).events
perform_all-Extends_example = perform_all-Extends blank calls

-- The log after the calls: nothing follows the terminal fact.
kinds_after :
    map (λ (e : Event). type_of e.fact) (perform_all blank calls).events
    ≡ "run.admitted" ∷ "tool.prepared" ∷ "run.completed" ∷ []
unfolding String_discrete perform_all perform create_session choose_workspace insert_session receipt
    admit_run create_run_locked append_admissions append_fact write gate references_run new_event
    after_terminal is_terminal finish_run append_event get_run_identity delete_session left
kinds_after = refl

abbrev a_session : Session
a_session = record {
  workspace_id = "w";
  created_at = 100;
  working_directory = "/";
  title = none;
  archived = false;
}

-- A run that has not ended.
abbrev open_store : Store
open_store = record blank {
  sessions = ("s", a_session) ∷ [];
  turns = ("t", record { session_id = "s"; continuation_of = none }) ∷ [];
  runs = ("r", record { session_id = "s"; turn_id = "t" }) ∷ [];
}

open_identity :
    get_run_identity open_store "r"
    ≡ some (record { session_id = "s"; turn_id = "t"; continuation_of = none })
unfolding String_discrete get_run_identity
open_identity = refl

open_session : get_session open_store "s" ≡ some a_session
unfolding String_discrete
open_session = refl

finish_run-IsFinished_example :
    (s' : Store) × (finish_run open_store "r" completed ≡ ok s') × IsFinished "r" failed s'
unfolding String_discrete
finish_run-IsFinished_example =
    finish_run-IsFinished open_store "r"
      (record { session_id = "s"; turn_id = "t"; continuation_of = none }) a_session completed
      failed open_identity open_session refl

abbrev probe : Event
probe = record {
  event_id = "e0";
  session_id = "s";
  session_seq = 1;
  turn_id = none;
  run_id = none;
  ts = 100;
  fact = control_session (some "connection_probe");
  role = "system";
  author = "runtime";
  partial = false;
}

abbrev probed : Store
probed = record blank { events = probe ∷ [] }

probed_control : session_is_control probed "s" ≡ true
unfolding String_discrete session_is_control marks_control
probed_control = refl
