-- ===== src/Prices/Summary.antt =====
-- `summarize_cost_events` of eventide/budget_prices.py, on the events that its callers select: the
-- reservations and the estimates. `add` is the sum of two decimals at precision 50.
use eventide.Prelude.{
  ℕ, ◌+◌, String, List, [], ◌∷◌, ◌++◌, Option, none, some, Bool, true, false, not, ◌&&◌, string_eq,
  if◌then◌else◌, all, select, length, count_of, Dict, lookup, insert, has, values,
}
use eventide.Facts.{UsageSource, reported, estimated}
use eventide.Store.Sets.{add_id, sorted}
use eventide.Prices.Estimates.{CurrencyEstimate, Estimate}

pub data SummaryEvent : Type 0 where
  was_reserved : String → SummaryEvent
  was_estimated : Estimate → SummaryEvent

-- `latest`, `history` and `attempts`
pub record Gathered : Type 0 where
  pub latest : Dict String Estimate
  pub history : List Estimate
  pub attempts : List String

abbrev pub gather : SummaryEvent → Gathered → Gathered
gather (was_reserved attempt_id) g = record g { attempts = add_id attempt_id g.attempts }
gather (was_estimated e) g = record g {
  history = g.history ++ e ∷ [];
  latest = insert e.intent.attempt_id e g.latest;
}

abbrev pub gather_all : List SummaryEvent → Gathered → Gathered
gather_all [] g = g
gather_all (e ∷ events) g = gather_all events (gather e g)

abbrev pub nothing_gathered : Gathered
nothing_gathered = record { latest = []; history = []; attempts = [] }

abbrev pub is_reported : UsageSource → Bool
is_reported reported = true
is_reported _ = false

abbrev pub is_estimated : UsageSource → Bool
is_estimated estimated = true
is_estimated _ = false

-- `sorted(attempts - set(latest))`
abbrev pub unpriced_ids : Gathered → List String
unpriced_ids g = sorted (select (λ attempt_id. not (has attempt_id g.latest)) g.attempts)

module _ (zero_amount : String) (add : String → String → String) where
  abbrev pub amount_so_far : Option String → String
  amount_so_far none = zero_amount
  amount_so_far (some total) = total

  abbrev pub add_amount : String → Option String → Dict String String → Dict String String
  add_amount currency none totals = totals
  add_amount currency (some known) totals =
      insert currency (add (amount_so_far (lookup currency totals)) known) totals

  abbrev pub add_currencies : Dict String CurrencyEstimate → Dict String String → Dict String String
  add_currencies [] totals = totals
  add_currencies ((currency, value) ∷ estimates) totals =
      add_currencies estimates (add_amount currency value.known_amount totals)

  -- The totals of the estimates whose source passes the test.
  unfoldable pub totals_of :
      (UsageSource → Bool) → List Estimate → Dict String String → Dict String String
  totals_of p [] totals = totals
  totals_of p (e ∷ es) totals =
      totals_of p es (if p e.usage_source then add_currencies e.estimates totals else totals)

pub record CostSummary : Type 0 where
  pub known_costs : Dict String String
  pub estimated_usage_costs : Dict String String
  pub estimated_attempts : ℕ
  pub unknown_attempts : ℕ
  pub unpriced_attempt_ids : List String
  pub complete : Bool
  pub latest : List Estimate
  pub history : List Estimate

abbrev pub is_empty {ℓ} : {A : Type ℓ} → List A → Bool
is_empty [] = true
is_empty (_ ∷ _) = false

abbrev pub is_final : Estimate → Bool
is_final e = e.complete && is_reported e.usage_source

unfoldable pub summarize_cost_events :
    String → (String → String → String) → List SummaryEvent → CostSummary
summarize_cost_events zero_amount add events =
    let g = gather_all events nothing_gathered in
    let latest = values g.latest in
    record {
      known_costs = totals_of zero_amount add (λ s. not (is_estimated s)) latest [];
      estimated_usage_costs = totals_of zero_amount add is_estimated latest [];
      estimated_attempts = count_of (λ (e : Estimate). is_estimated e.usage_source) latest;
      unknown_attempts =
          length (unpriced_ids g) + count_of (λ (e : Estimate). not e.complete) latest;
      unpriced_attempt_ids = unpriced_ids g;
      complete = not (is_empty g.latest) && is_empty (unpriced_ids g) && all is_final latest;
      latest = latest;
      history = g.history;
    }
