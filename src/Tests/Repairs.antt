-- ===== src/Tests/Repairs.antt =====
-- A repair that is accepted in its second round, and the states of a run.
use native.Mathlib.Decide.{ℕ_discrete}
use eventide.Prelude.{
  ℕ, zero, suc, map, max, ◌≤◌, ◌≡◌, refl, String, List, [], ◌∷◌, none, some, true, false,
  String_discrete, is_space, is_blank, pos, codes, len,
}
use eventide.Runtime.{ok}
use eventide.RunState.{
  RunEvent, RunFact, running, completed, end_completed, end_failed, admitted, started,
  approval_required, ends, EndPayload, WorkerKeys, project_state,
}
use eventide.RunState.Ends.{EndsBy, project_state-EndsBy}
use eventide.Usage.{no_usage}
use eventide.Usage.Totals.{UsageLedger}
use eventide.Deliveries.{RepairLimits, LimitView, delivery_limit_reason}
use eventide.Deliveries.Repair.{
  Check, Observation, RoundResult, RepairState, repair_started, round_started, round_finished,
  repair_finished, passed, run_repair, run_round, after_writing, check_patch, settle_round, judge,
  execute_rounds, check_request,
}
use eventide.Deliveries.Rounds.{IsRepaired}
use eventide.Deliveries.Accepted.{IsBounded, run_repair-IsRepaired, run_repair-IsBounded}
use eventide.Deliveries.Excerpts.{fit_excerpt, fit_between, excerpt_size}
use eventide.Deliveries.Feedback.{feedback_size, feedback_of, first_entry}
use eventide.Deliveries.Feedback.Bounded.{AreEntriesOf, feedback_of-IsBounded}
use eventide.Json.{escaped_size}

abbrev no_calls : UsageLedger
no_calls = record {
  calls = [];
  reported_totals = no_usage;
  estimated_totals = no_usage;
  attempt_count = 0;
  unknown_attempts = 0;
  incomplete_attempts = 0;
  complete = true;
  authority_references = [];
}

abbrev limits : RepairLimits
limits = record { model_attempts = 36; observed_tokens = 60_000; deadline = 1_000 }

abbrev view : LimitView
view = record {
  started = some limits;
  finished = false;
  owner = some running;
  now = 100;
  ledger = no_calls;
}

abbrev check : Check
check = record {
  call_id = "c";
  content = codes "1 failed";
  is_error = false;
  exit_code = some (pos 1);
}

abbrev if_second : ℕ → String → String → String
if_second zero a b = a
if_second (suc zero) a b = a
if_second (suc (suc n)) a b = b

abbrev observe : ℕ → Observation
observe number = record {
  before = view;
  unknown_before = false;
  worker = record { worker_run_id = "w"; status = completed };
  unknown_stopped = false;
  stopped = view;
  after_writer = view;
  patch = ok (if_second number "first" "second");
  verification = ok (record {
    patch_sha256 = if_second number "first" "second";
    status = if_second number "failed" "passed";
    checks = check ∷ [];
  });
  unknown_after = false;
  after_check = view;
}

abbrev signature : List Check → String
signature [] = ""
signature (c ∷ cs) = "failed"

abbrev round_at : ℕ → RoundResult
round_at number = record {
  round = number;
  worker_run_id = "w";
  patch_sha256 = if_second number "first" "second";
  status = if_second number "failed" "passed";
  checks = check ∷ [];
}

abbrev repaired : RepairState
repaired = record {
  previous_patch = "second";
  failures = "failed" ∷ [];
  rounds = round_at 1 ∷ round_at 2 ∷ [];
  facts =
      repair_started "start"
      ∷ round_started 1
      ∷ round_finished (round_at 1)
      ∷ round_started 2
      ∷ round_finished (round_at 2)
      ∷ repair_finished (some passed) 2
      ∷ [];
}

repaired_run :
    run_repair signature "Fix it"
      ("pytest" ∷ [])
      (some (pos 3))
      (some (pos 60_000))
      (ok "start")
      observe
    ≡ ok (repaired, ok passed)
unfolding String_discrete ℕ_discrete is_blank is_space len check_request run_repair execute_rounds
    run_round after_writing check_patch settle_round judge delivery_limit_reason
repaired_run = refl

run_repair-IsRepaired_example : IsRepaired 3 observe repaired.rounds
run_repair-IsRepaired_example =
    run_repair-IsRepaired signature "Fix it" ("pytest" ∷ []) (some (pos 3)) (some (pos 60_000))
      (ok "start") observe repaired repaired_run

run_repair-IsBounded_example : IsBounded (ok passed) repaired
run_repair-IsBounded_example =
    run_repair-IsBounded signature "Fix it" ("pytest" ∷ []) (some (pos 3)) (some (pos 60_000))
      (ok "start") observe repaired (ok passed) repaired_run

-- A check that failed, and the same as one that passed.
abbrev two_checks : List Check
two_checks = check ∷ record check { is_error = false; exit_code = some (pos 0) } ∷ []

feedback_of-IsBounded_example :
    (feedback_size 11_990 (feedback_of 11_990 two_checks)
      ≤ max 12_000 (feedback_size 11_990 (map first_entry two_checks)))
    × AreEntriesOf 11_990 [] two_checks (feedback_of 11_990 two_checks)
feedback_of-IsBounded_example = feedback_of-IsBounded 11_990 two_checks

-- The newline takes two characters, so seven of the nine are kept.
seven_fit : fit_excerpt 9 (codes "1 failed\n") 8 ≡ some 7
unfolding fit_excerpt fit_between excerpt_size escaped_size ℕ_discrete
seven_fit = refl

abbrev no_keys : WorkerKeys
no_keys = record { parent_run_id = none; worker_role = none; snapshot_id = none }

abbrev end_payload : String → EndPayload
end_payload output = record {
  output = some output;
  steps = none;
  tool_calls = none;
  duration_ms = some 7;
  usage = none;
  error = none;
  pending_approvals = none;
  tools = none;
  checkpoint = none;
  reason = none;
  gap_files = none;
  worker = no_keys;
}

abbrev event_at : ℕ → RunFact → RunEvent
event_at ts fact = record { partial = false; ts = ts; fact = fact }

abbrev run_log : List RunEvent
run_log =
    event_at 1 (admitted no_keys)
    ∷ event_at 2 (started no_keys)
    ∷ event_at 3 (ends end_completed (end_payload "done"))
    ∷ event_at 4 (approval_required "a" "{}")
    ∷ event_at 5 (ends end_failed (end_payload "late"))
    ∷ []

project_state-EndsBy_example :
    EndsBy (some (end_completed, end_payload "done", 3)) (project_state run_log)
project_state-EndsBy_example = project_state-EndsBy run_log
