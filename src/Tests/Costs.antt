-- ===== src/Tests/Costs.antt =====
-- The price of one attempt.
use eventide.Prelude.{◌≡◌, refl, true, false, any, List, [], ◌∷◌, ◌++◌, none, some, String_discrete}
use eventide.Runtime.{ok}
use eventide.Facts.{Usage, input_output, reported}
use eventide.Usage.{total}
use eventide.Prices.{
  Category-discrete, input, output, cache_read, Price, Rates, price_lines, split_usage, split_total,
  add_lines,
}
use eventide.Prices.Lines.{quantities_of, price_lines-total}
use eventide.Prices.Estimates.{
  Intent, Estimate, CostFact, price_registered, cost_estimated, reserved, settled, Decimals,
  new_estimate, decide_estimate,
}
use eventide.Store.Sets.{sorted}
use eventide.Prices.Summary.{
  SummaryEvent, was_reserved, was_estimated, summarize_cost_events, totals_of,
}
use eventide.Prices.Complete.{reserves_it, IsCosted, summarize_cost_events-IsCosted}
use eventide.Prices.Replays.{decide_estimate-decide_estimate}

abbrev usage : Usage
usage = record {
  input_tokens = some 100;
  output_tokens = some 10;
  cache_read_input_tokens = some 80;
  cache_creation_input_tokens = none;
  cache_miss_input_tokens = none;
  uncached_input_tokens = none;
  reasoning_tokens = some 4;
}

abbrev input_price : Price
input_price = record {
  version_id = "v";
  provider = "p";
  model = "m";
  category = input;
  currency = "EUR";
  price_per_million = "3";
  effective_at = 1;
}

abbrev rates : Rates
rates =
    (input, input_price)
    ∷ (output, record input_price { category = output })
    ∷ (cache_read, record input_price { category = cache_read })
    ∷ []

abbrev decimals : Decimals
decimals = record { amount = λ price quantity. price; sum = λ amounts. "3" }

nothing_unknown : (price_lines decimals.amount input_output usage rates).unknown ≡ []
unfolding Category-discrete price_lines split_usage split_total add_lines
nothing_unknown = refl

price_lines-total_example :
    quantities_of (price_lines decimals.amount input_output usage rates).lines
    ≡ total input_output usage
price_lines-total_example =
    price_lines-total decimals.amount input_output usage rates nothing_unknown

abbrev intent : Intent
intent = record {
  attempt_id = "a";
  provider = "p";
  model = "m";
  estimate_id = "e";
  reevaluation_of = none;
}

abbrev cost_log : List CostFact
cost_log =
    price_registered input_price
    ∷ reserved
        (record { attempt_id = "a"; session_id = "s"; reserved_at = 5; usage_basis = input_output })
    ∷ settled (record { attempt_id = "a"; usage = usage; usage_source = reported })
    ∷ []

abbrev estimated : Estimate
estimated =
    new_estimate decimals "s" intent
      (record { attempt_id = "a"; session_id = "s"; reserved_at = 5; usage_basis = input_output })
      (some (record { attempt_id = "a"; usage = usage; usage_source = reported })) cost_log

estimated_once :
    decide_estimate decimals "s" intent cost_log ≡ ok (estimated, cost_estimated estimated ∷ [])
unfolding String_discrete decide_estimate
estimated_once = refl

decide_estimate-decide_estimate_example :
    decide_estimate decimals "s" intent (
      cost_log
      ++ ((cost_estimated estimated ∷ [])
          ++ price_registered (record input_price { version_id = "w"; effective_at = 2 }) ∷ []))
    ≡ ok (estimated, [])
decide_estimate-decide_estimate_example =
    decide_estimate-decide_estimate decimals "s" intent cost_log
      (price_registered (record input_price { version_id = "w"; effective_at = 2 }) ∷ []) estimated
      (cost_estimated estimated ∷ []) estimated_once

abbrev priced : Estimate
priced = record {
  intent = intent;
  session_id = "s";
  pricing_at = 5;
  usage_source = reported;
  estimates =
      (
        "EUR",
        record { known_amount = some "3"; complete = true; unknown_categories = []; lines = [] },
      )
      ∷ [];
  complete = true;
  unpriced = false;
}

abbrev cost_events : List SummaryEvent
cost_events = was_reserved intent.attempt_id ∷ was_estimated priced ∷ []

summed : (summarize_cost_events "0" (λ a b. b) cost_events).known_costs ≡ ("EUR", "3") ∷ []
unfolding String_discrete summarize_cost_events totals_of
summed = refl

is_complete : (summarize_cost_events "0" (λ a b. b) cost_events).complete ≡ true
unfolding String_discrete summarize_cost_events sorted
is_complete = refl

is_reserved : any (reserves_it intent.attempt_id) cost_events ≡ true
unfolding String_discrete
is_reserved = refl

summarize_cost_events-IsCosted_example :
    IsCosted cost_events intent.attempt_id
    × ((summarize_cost_events "0" (λ a b. b) cost_events).unknown_attempts ≡ 0)
    × ((summarize_cost_events "0" (λ a b. b) cost_events).estimated_attempts ≡ 0)
summarize_cost_events-IsCosted_example =
    summarize_cost_events-IsCosted "0" (λ a b. b) cost_events is_complete intent.attempt_id
      is_reserved
