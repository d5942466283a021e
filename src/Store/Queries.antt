-- ===== src/Store/Queries.antt =====
-- Questions that eventide/store.py answers from the log: `session_is_control`,
-- `session_is_imported`, `worker_admissions` and the run of `latest_run`.
use eventide.Prelude.{
  String, List, [], ◌∷◌, ◌++◌, Option, none, some, Bool, true, false, not, ◌&&◌, ◌||◌, any,
  any-append, select, Dict, ◌==◌, string_eq, ◌≡◌, arith, if◌then◌else◌,
}
use eventide.Facts.{Fact, control_session, run_started, run_admitted}
use eventide.Store.State.{Event, Store, Run, is_id}
use eventide.Store.Calls.{Call, perform_all, perform_all-Extends}

-- A fact that marks its session as one of control.
unfoldable pub marks_control : Fact → Bool
marks_control (control_session kind) = true
marks_control (run_started intent) =
    is_id intent.source "delivery" || is_id intent.source "verification"
marks_control _ = false

unfoldable pub session_is_control : Store → String → Bool
session_is_control s session_id =
    any (λ e. e.session_id == session_id && marks_control e.fact) s.events

unfoldable pub marks_import : Fact → Bool
marks_import (control_session kind) = is_id kind "legacy_history"
marks_import _ = false

unfoldable pub session_is_imported : Store → String → Bool
session_is_imported s session_id =
    any (λ e. e.session_id == session_id && marks_import e.fact) s.events

unfoldable pub admits_child : String → Fact → Bool
admits_child parent_run_id (run_admitted intent) = is_id intent.parent_run_id parent_run_id
admits_child parent_run_id _ = false

unfoldable pub worker_admissions : Store → String → List Event
worker_admissions s parent_run_id =
    select (λ e. not e.partial && admits_child parent_run_id e.fact) s.events

last_of : String → Option String → Dict String Run → Option String
last_of session_id found [] = found
last_of session_id found ((run_id, run) ∷ runs) =
    last_of session_id (if run.session_id == session_id then some run_id else found) runs

-- The id of `latest_run`.
unfoldable pub latest_run : Store → String → Option String
unfolding last_of
latest_run s session_id = last_of session_id none s.runs

any-left : {A : Type 0} (p : A → Bool) (xs ys : List A) → any p xs ≡ true → any p (xs ++ ys) ≡ true
any-left p xs ys h = ground (arith, any-append p xs ys)

-- A session of control stays one, whatever calls are made on the store.
pub session_is_control-perform_all :
    (s : Store) (calls : List Call) (session_id : String)
    → session_is_control s session_id ≡ true
    → session_is_control (perform_all s calls) session_id ≡ true
unfolding session_is_control
session_is_control-perform_all s calls session_id h =
    let x = perform_all-Extends s calls in
    rw x.split
      (any-left (λ e. e.session_id == session_id && marks_control e.fact) s.events x.more h)
