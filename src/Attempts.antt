-- ===== src/Attempts.antt =====
-- The attempts of a model request: `_complete_with_retry` of eventide/host.py. What the slot, the
-- budget and the provider answer to each attempt is an argument, by the attempt's number; so is how
-- the events about it are emitted, and whether the task is cancelled while it waits for the next one.
-- The record of an attempt's end is taken to be written. Times are in quarters of a second.
pub mod Pieces
pub mod Settled
use eventide.Prelude.{
  ℕ, zero, suc, ◌+◌, ◌-◌, ◌*◌, String, List, [], ◌∷◌, ◌++◌, Option, none, some, Bool, true, false,
  not, ◌&&◌, ◌||◌, ltb, leb, nat_eq, string_eq, ◌==◌, if◌then◌else◌,
}
use eventide.Runtime.{Error, value_error, budget_exceeded, Violation}

-- How the request of an attempt ends; a ProviderError has its `retryable` and its cleaned message.
pub data Ending : Type 0 where
  answered : String → Ending
  timed_out : Ending
  provider_error : Bool → String → Ending
  cancelled : Ending
  raised : Error → Ending

-- How an attempt goes: the wait for a slot is cancelled, `begin` raises, or the attempt begins.
pub data Outcome : Type 0 where
  cancelled_before : Outcome
  refused : Error → Outcome
  began : Ending → Outcome

pub data AttemptStatus : Type 0 where
  status_completed status_failed status_cancelled : AttemptStatus

-- What is done in order, by the attempt's number.
pub data AttemptFact : Type 0 where
  attempt_begun : ℕ → AttemptFact
  attempt_finished : ℕ → AttemptStatus → AttemptFact
  retry : ℕ → Bool → String → AttemptFact
  budget_blocked : List Violation → AttemptFact
  budget_warning : ℕ → AttemptFact
  slept : ℕ → AttemptFact

-- What the call gives back or raises.
pub data Completion : Type 0 where
  replied : String → Completion
  fails : Error → Completion
  runtime_error : String → Completion
  provider_fails : String → Completion
  is_cancelled : Completion
  -- RuntimeError("Model attempts exhausted")
  attempts_exhausted : Completion

-- How `_emit` goes: the task may be cancelled once the event is written, or the write raises.
pub data Emission : Type 0 where
  emitted cut_off : Emission
  not_written : Error → Emission

-- What is awaited about an attempt before its request and after its completion: `_notify_model_attempt`,
-- and the warning of its receipt, if it has one.
pub record Notice : Type 0 where
  pub notify_cancelled : Bool
  pub warning : Option Emission

-- What does not change from attempt to attempt; the functions are of the attempt's number.
pub record Request : Type 0 where
  pub kind : String
  pub can_stream : Bool
  pub timeout_message : String
  pub outcome : ℕ → Outcome
  pub opening : ℕ → Notice
  pub closing : ℕ → Notice
  pub retry_emission : ℕ → Emission
  pub blocked_emission : ℕ → Emission
  -- whether the sleep after an attempt ends
  pub wakes : ℕ → Bool

-- What an await about an attempt may raise.
pub data Stop : Type 0 where
  stop_cancelled : Stop
  stop_raised : Error → Stop

abbrev pub emission_stop : Emission → Option Stop
emission_stop emitted = none
emission_stop cut_off = some stop_cancelled
emission_stop (not_written error) = some (stop_raised error)

abbrev pub is_written : Emission → Bool
is_written (not_written error) = false
is_written _ = true

abbrev pub warned_by : Option Emission → Bool
warned_by none = false
warned_by (some emission) = is_written emission

abbrev pub warning_stop : Option Emission → Option Stop
warning_stop none = none
warning_stop (some emission) = emission_stop emission

-- Whether the warning is written, and what stops the awaits.
abbrev pub is_warned : Notice → Bool
is_warned n = not n.notify_cancelled && warned_by n.warning

abbrev pub notice_stop : Notice → Option Stop
notice_stop n = if n.notify_cancelled then some stop_cancelled else warning_stop n.warning

-- `2 ** n`
abbrev pub power_of_two : ℕ → ℕ
power_of_two zero = 1
power_of_two (suc n) = 2 * power_of_two n

abbrev pub is_streaming : Request → Bool
is_streaming r = r.kind == "agent" && r.can_stream

abbrev pub is_retryable : Request → Ending → Bool
is_retryable r timed_out = not (is_streaming r)
is_retryable r (provider_error retryable message) = retryable && not (is_streaming r)
is_retryable r _ = false

abbrev pub message_of : Request → Ending → String
message_of r (provider_error retryable message) = message
message_of r _ = r.timeout_message

abbrev pub failure_of : Request → Ending → Completion
failure_of r (answered response) = replied response
failure_of r timed_out = runtime_error r.timeout_message
failure_of r (provider_error retryable message) = provider_fails message
failure_of r cancelled = is_cancelled
failure_of r (raised error) = fails error

abbrev pub stopped : Stop → Completion
stopped stop_cancelled = is_cancelled
stopped (stop_raised error) = fails error

-- The end of the try block: an await before the request that raises stands for the request's own.
abbrev pub ending_of : Option Stop → Ending → Ending
ending_of none ending = ending
ending_of (some stop_cancelled) ending = cancelled
ending_of (some (stop_raised error)) ending = raised error

-- The facts so far, with those that follow.
abbrev pub after : List AttemptFact → List AttemptFact × Completion → List AttemptFact × Completion
after facts (later, completion) = (facts ++ later, completion)

abbrev pub optional : Bool → AttemptFact → List AttemptFact
optional true fact = fact ∷ []
optional false fact = []

-- An attempt from its begin to its end.
abbrev pub ended : ℕ → Bool → AttemptStatus → List AttemptFact
ended attempt warned status =
    attempt_begun attempt
    ∷ (optional warned (budget_warning attempt) ++ attempt_finished attempt status ∷ [])

-- What follows an event that is emitted.
abbrev pub after_emission : Emission → List AttemptFact × Completion → List AttemptFact × Completion
after_emission emitted next = next
after_emission cut_off next = ([], is_cancelled)
after_emission (not_written error) next = ([], fails error)

-- After the event about a failure; `last` is `attempt == max_attempts`, and the last argument is what
-- the next attempt gives.
abbrev pub retry_or_fail :
    Request → ℕ → Bool → Ending → List AttemptFact × Completion → List AttemptFact × Completion
retry_or_fail r attempt last ending next =
    if not (is_retryable r ending) || last
    then ([], failure_of r ending)
    else after (slept (power_of_two (attempt - 1)) ∷ [])
        (if r.wakes attempt then next else ([], is_cancelled))

-- A timeout or a ProviderError.
abbrev pub settle_failure :
    Request
    → ℕ
    → Bool
    → Bool
    → Ending
    → List AttemptFact × Completion
    → List AttemptFact × Completion
settle_failure r attempt last warned ending next =
    after
      (ended attempt warned status_failed
        ++ optional (is_written (r.retry_emission attempt))
            (retry attempt (is_retryable r ending && not last) (message_of r ending)))
      (after_emission (r.retry_emission attempt) (retry_or_fail r attempt last ending next))

-- The reply, where nothing stops the awaits after the end.
abbrev pub reply_or_stop : Option Stop → String → Completion
reply_or_stop none response = replied response
reply_or_stop (some stop) response = stopped stop

abbrev pub settle_completion : Request → ℕ → Bool → String → List AttemptFact × Completion
settle_completion r attempt warned response = (
  ended attempt warned status_completed
      ++ optional (is_warned (r.closing attempt)) (budget_warning attempt),
  reply_or_stop (notice_stop (r.closing attempt)) response,
)

-- The end of an attempt that has begun.
abbrev pub settle_attempt :
    Request
    → ℕ
    → Bool
    → Bool
    → Ending
    → List AttemptFact × Completion
    → List AttemptFact × Completion
settle_attempt r attempt last warned (answered response) next =
    settle_completion r attempt warned response
settle_attempt r attempt last warned timed_out next =
    settle_failure r attempt last warned timed_out next
settle_attempt r attempt last warned (provider_error retryable message) next =
    settle_failure r attempt last warned (provider_error retryable message) next
settle_attempt r attempt last warned cancelled next =
    (ended attempt warned status_cancelled, is_cancelled)
settle_attempt r attempt last warned (raised error) next =
    (ended attempt warned status_failed, fails error)

-- `begin` raises; the budget's refusal is emitted first.
abbrev pub refuse : Request → ℕ → Error → List AttemptFact × Completion
refuse r attempt (budget_exceeded violations) =
    after (optional (is_written (r.blocked_emission attempt)) (budget_blocked violations))
      (after_emission (r.blocked_emission attempt) ([], fails (budget_exceeded violations)))
refuse r attempt error = ([], fails error)

-- The body of the loop.
abbrev pub settle_outcome :
    Request → ℕ → Bool → Outcome → List AttemptFact × Completion → List AttemptFact × Completion
settle_outcome r attempt last cancelled_before next = ([], is_cancelled)
settle_outcome r attempt last (refused error) next = refuse r attempt error
settle_outcome r attempt last (began ending) next =
    settle_attempt r attempt last (is_warned (r.opening attempt))
      (ending_of (notice_stop (r.opening attempt)) ending) next

-- The loop, with the number of attempts that are left and the attempt's number.
unfoldable pub attempts : Request → ℕ → ℕ → List AttemptFact × Completion
attempts r zero attempt = ([], attempts_exhausted)
attempts r (suc left) attempt =
    settle_outcome r attempt (left == 0) (r.outcome attempt) (attempts r left (attempt + 1))

unfoldable pub complete_with_retry : Request → ℕ → List AttemptFact × Completion
complete_with_retry r max_attempts =
    if leb 1 max_attempts && leb max_attempts 3
    then attempts r max_attempts 1
    else ([], fails (value_error "Invalid model attempt limit"))
