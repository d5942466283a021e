-- ===== src/Deliveries.antt =====
-- The limits of a delivery: eventide/delivery_limits.py. What the store and the clock answer at
-- the time of a check is a `LimitView`.
pub mod Repair
pub mod Excerpts
pub mod Feedback
pub mod Limits
pub mod Rounds
pub mod Accepted
use eventide.Prelude.{
  ℕ, ◌+◌, String, List, [], ◌∷◌, ◌++◌, select, Option, none, some, Bool, true, false, not, ◌&&◌,
  ◌||◌, ◌==◌, string_eq, leb, if◌then◌else◌, count_of,
}
use eventide.RunState.{RunStatus, queued, running, waiting_for_user, completed, failed, interrupted}
use eventide.Usage.Rows.{Row}
use eventide.Usage.Totals.{UsageLedger, build_usage_ledger}
use eventide.Runtime.{Result}
use eventide.Facts.{Fact, budget_reserved, model_attempt_started, model_attempt_finished}
use eventide.Store.State.{Event, Store, contains, is_id, facts_by_type}

-- The payload of delivery.repair_started, as far as it is read here.
pub record RepairLimits : Type 0 where
  pub model_attempts : ℕ
  pub observed_tokens : ℕ
  pub deadline : ℕ

pub record LimitView : Type 0 where
  -- the first delivery.repair_started
  pub started : Option RepairLimits
  -- whether there is a delivery.repair_finished
  pub finished : Bool
  -- the status of the control run, if it is there
  pub owner : Option RunStatus
  pub now : ℕ
  -- `delivery_usage`
  pub ledger : UsageLedger

-- MODEL_FACTS
abbrev pub model_facts : List String
model_facts = "model.attempt_started" ∷ "model.attempt_finished" ∷ []

-- The attempts that are reserved for a delivery.
abbrev pub reserved_for : String → Fact → List String
reserved_for delivery_id (budget_reserved r) =
    if is_id r.context.delivery_id delivery_id then r.attempt_id ∷ [] else []
reserved_for delivery_id _ = []

abbrev pub reserved_attempts : String → List Event → List String
reserved_attempts delivery_id [] = []
reserved_attempts delivery_id (e ∷ events) =
    reserved_for delivery_id e.fact ++ reserved_attempts delivery_id events

abbrev pub is_among : List String → Option String → Bool
is_among attempts none = false
is_among attempts (some attempt_id) = contains attempt_id attempts

abbrev pub is_attempt_of : List String → Fact → Bool
is_attempt_of attempts (model_attempt_started a) = is_among attempts a.attempt_id
is_attempt_of attempts (model_attempt_finished a) = is_among attempts a.attempt_id
is_attempt_of attempts _ = false

-- `delivery_usage`
unfoldable pub delivery_usage : Store → String → Result UsageLedger
delivery_usage s delivery_id =
    let facts = facts_by_type s.events ("budget.reserved" ∷ model_facts) in
    build_usage_ledger (λ row. true)
      (select (λ e. is_attempt_of (reserved_attempts delivery_id facts) e.fact) facts)

pub data LimitReason : Type 0 where
  delivery_closed delivery_owner_stopped delivery_time_limit : LimitReason
  delivery_token_limit delivery_step_limit : LimitReason

abbrev pub is_working : Option RunStatus → Bool
is_working (some running) = true
is_working (some queued) = true
is_working _ = false

abbrev pub or_zero : Option ℕ → ℕ
or_zero none = 0
or_zero (some n) = n

-- The tokens that the provider has reported.
abbrev pub observed_tokens : UsageLedger → ℕ
observed_tokens ledger =
    or_zero ledger.reported_totals.input_tokens + or_zero ledger.reported_totals.output_tokens

-- The calls that are no embeddings.
abbrev pub model_calls : UsageLedger → ℕ
model_calls ledger = count_of (λ (c : Row). not (c.kind == "embedding")) ledger.calls

abbrev pub reason_within : RepairLimits → LimitView → String → Bool → Option LimitReason
reason_within limits view kind admission =
    if admission && view.finished
    then some delivery_closed
    else (if admission && not (is_working view.owner)
        then some delivery_owner_stopped
        else (if leb limits.deadline view.now
            then some delivery_time_limit
            else (if leb limits.observed_tokens (observed_tokens view.ledger)
                then some delivery_token_limit
                else (if admission
                      && not (kind == "embedding")
                      && leb limits.model_attempts (model_calls view.ledger)
                    then some delivery_step_limit
                    else none))))

abbrev pub reason_from : Option RepairLimits → LimitView → String → Bool → Option LimitReason
reason_from none view kind admission = none
reason_from (some limits) view kind admission = reason_within limits view kind admission

unfoldable pub delivery_limit_reason : LimitView → String → Bool → Option LimitReason
delivery_limit_reason view kind admission = reason_from view.started view kind admission
