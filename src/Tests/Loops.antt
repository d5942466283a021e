-- ===== src/Tests/Loops.antt =====
-- A tool that fails three times in the same way.
use native.Mathlib.Decide.{ℕ_discrete}
use eventide.Prelude.{◌≡◌, refl, List, [], ◌∷◌, none, some, true, false, String_discrete, pos}
use eventide.Facts.{ToolOutcome, workspace_checkpoint, tool_completed, truthy, Fact}
use eventide.Store.State.{Event, Store, get_run_identity}
use eventide.ToolLoops.{
  Candidate, history, history_from, failure_loop_candidate, judge, window_of, window_step,
  push_outcome, update_pending, signature_of, differs_from, failure_evidence, is_result,
}
use eventide.ToolLoops.Outcomes.{latest}
use eventide.ToolLoops.Failures.{AreFailures, failure_loop_candidate-AreFailures}
use eventide.Tests.Data.{blank}

abbrev failure : ToolOutcome
failure = record {
  call_id = some "c";
  name = some "shell";
  is_error = true;
  failure_fingerprint = some "f";
  metadata = record {
    outcome_unknown = false;
    code = some "execution_failed";
    exit_code = some (pos 1);
    exception_type = none;
  };
}

abbrev event_of : Fact → Event
event_of fact = record {
  event_id = "e";
  session_id = "s";
  session_seq = 1;
  turn_id = some "t";
  run_id = some "r";
  ts = 100;
  fact = fact;
  role = "system";
  author = "runtime";
  partial = false;
}

abbrev failing : List Event
failing =
    event_of (
      workspace_checkpoint
        (some (record { content = "tree"; is_empty = false; unavailable = false })))
    ∷ event_of (tool_completed failure)
    ∷ event_of (tool_completed failure)
    ∷ event_of (tool_completed failure)
    ∷ []

abbrev store : Store
store = record blank {
  turns = ("t", record { session_id = "s"; continuation_of = none }) ∷ [];
  runs = ("r", record { session_id = "s"; turn_id = "t" }) ∷ [];
  events = failing;
}

abbrev candidate : Candidate
candidate = record {
  threshold = 3;
  matching_failure_window = 3;
  tool = some "shell";
  failure_fingerprint = some "f";
  checkpoint_hash = "tree";
  continued_failure_chain = false;
  calls = (some "r", some "c") ∷ (some "r", some "c") ∷ (some "r", some "c") ∷ [];
}

read : history store "r" ≡ some failing
unfolding String_discrete history history_from get_run_identity is_result
read = refl

found : failure_loop_candidate (λ c. c) store "r" ≡ some (some candidate)
unfolding String_discrete failure_loop_candidate history history_from get_run_identity is_result
    judge window_of window_step push_outcome update_pending signature_of differs_from
    failure_evidence ℕ_discrete
found = refl

failure_loop_candidate-AreFailures_example :
    AreFailures (some "f") (latest [] failing) × (truthy (some "f") ≡ true)
failure_loop_candidate-AreFailures_example =
    failure_loop_candidate-AreFailures (λ c. c) store "r" failing candidate read found
