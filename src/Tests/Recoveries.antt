-- ===== src/Tests/Recoveries.antt =====
-- An interrupted run that may continue, what its recovery would close, and a request that is retried.
use native.Mathlib.Decide.{ℕ_discrete}
use eventide.Prelude.{
  ℕ, suc, ◌≡◌, ◌↔◌, refl, List, [], ◌∷◌, none, some, true, false, String_discrete,
}
use eventide.Runtime.{ok, err, value_error}
use eventide.RunState.{interrupted, prepared, tool_completed as ended_tool}
use eventide.Recovery.{
  HistoryFact, HistoryEvent, tool_use, other_block, responded, tool_completed, approval_required,
  approval_resolved, checkpointed, outcome_unknown, Previous, Surroundings, recovery_facts,
  validate_continue, note_fact, evidence_of, written, tool_abandoned,
}
use eventide.Store.Sets.{sorted}
use eventide.Recovery.Closing.{Closes, recovery_facts-Closes}
use eventide.Recovery.Continue.{MayContinue, validate_continue-MayContinue}
use eventide.Attempts.{
  Request, emitted, budget_warning, is_cancelled, began, timed_out, answered, replied,
  complete_with_retry, attempts, attempt_begun, attempt_finished, retry, slept, status_failed,
  status_completed,
}

abbrev event : ℕ → HistoryFact → HistoryEvent
event n fact = record { partial = false; session_seq = n; fact = fact }

abbrev a_history : List HistoryEvent
a_history =
    event 1 (responded (tool_use "a" "bash" ∷ other_block "text" ∷ tool_use "b" "glob" ∷ []))
    ∷ event 2 (approval_required "y")
    ∷ event 3 (approval_required "x")
    ∷ event 4 (tool_completed "a")
    ∷ event 5 checkpointed
    ∷ []

closed_history :
    recovery_facts a_history "gone"
    ≡ written (
        tool_abandoned (record { call_id = "b"; name = "glob"; is_error = true; content = "gone" }))
      ∷ written (
          approval_resolved
            (record { approval_id = "x"; approved = false; reason = "Source run interrupted" }))
      ∷ written (
          approval_resolved
            (record { approval_id = "y"; approved = false; reason = "Source run interrupted" }))
      ∷ []
unfolding String_discrete ℕ_discrete recovery_facts note_fact sorted
closed_history = refl

recovery_facts-Closes_example : Closes a_history (recovery_facts a_history "gone")
recovery_facts-Closes_example = recovery_facts-Closes a_history "gone"

abbrev a_place : Surroundings
a_place = record { binding = none; git_root = true; checkpoint = some "tree" }

abbrev a_run : Previous
a_run = record {
  id = "r";
  status = interrupted;
  checkpoint = some "tree";
  tools =
      ("a", record { status = ended_tool; readonly = false })
      ∷ ("b", record { status = prepared; readonly = true })
      ∷ [];
}

continued : validate_continue a_place (some a_run) (λ id. a_history) ≡ ok tt
unfolding String_discrete validate_continue evidence_of
continued = refl

not_covered :
    validate_continue a_place (some a_run) (λ id. event 6 (tool_completed "c") ∷ a_history)
    ≡ err (value_error "Missing post-tool checkpoint; session remains parked")
unfolding String_discrete validate_continue evidence_of
not_covered = refl

not_known :
    validate_continue a_place (some a_run) (λ id. event 6 outcome_unknown ∷ a_history)
    ≡ err (value_error "Unknown tool outcome; session remains parked")
unfolding String_discrete validate_continue evidence_of
not_known = refl

validate_continue-MayContinue_example :
    (validate_continue a_place (some a_run) (λ id. a_history) ≡ ok tt)
    ↔ MayContinue a_place (some a_run) (λ id. a_history)
validate_continue-MayContinue_example =
    validate_continue-MayContinue a_place (some a_run) (λ id. a_history)

-- A request that times out once, and is then answered; the budget warns before each attempt.
abbrev a_request : Request
a_request = record {
  kind = "worker";
  can_stream = true;
  timeout_message = "Model request timed out (1s)";
  outcome = λ n. elim n [ suc (suc m) ↦ began (answered "done") | _ ↦ began timed_out ];
  opening = λ n. record { notify_cancelled = false; warning = some emitted };
  closing = λ n. record { notify_cancelled = false; warning = none };
  retry_emission = λ n. emitted;
  blocked_emission = λ n. emitted;
  wakes = λ n. true;
}

answered_request : complete_with_retry a_request 3 ≡ (
  attempt_begun 1
      ∷ budget_warning 1
      ∷ attempt_finished 1 status_failed
      ∷ retry 1 true "Model request timed out (1s)"
      ∷ slept 1
      ∷ attempt_begun 2
      ∷ budget_warning 2
      ∷ attempt_finished 2 status_completed
      ∷ [],
  replied "done",
)
unfolding String_discrete ℕ_discrete complete_with_retry attempts
answered_request = refl

-- A completed request whose task is cancelled while its end is announced does not reply.
abbrev cut_request : Request
cut_request = record a_request {
  outcome = λ n. began (answered "done");
  closing = λ n. record { notify_cancelled = true; warning = none };
}

not_replied :
    complete_with_retry cut_request 3
    ≡ (attempt_begun 1 ∷ budget_warning 1 ∷ attempt_finished 1 status_completed ∷ [], is_cancelled)
unfolding String_discrete ℕ_discrete complete_with_retry attempts
not_replied = refl
