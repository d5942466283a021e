-- ===== src/Prices/Estimates.antt =====
-- The estimates of eventide/budget_prices.py: `estimate_cost`.
-- The facts of the log that they read, with the fields that they read, are `CostFact`.
use eventide.Prelude.{
  ℕ, String, List, [], ◌∷◌, Option, none, some, Bool, true, false, Dict, lookup, insert, values,
  map, not, ◌&&◌, ◌==◌, string_eq, ltb, leb, if◌then◌else◌, any, all,
}
use eventide.Runtime.{Result, ok, ◌>>=◌, ◌>>◌, raise_if, or_raise}
use eventide.Facts.{Usage, UsageBasis, UsageSource, unknown}
use eventide.Usage.{no_usage}
use eventide.Prices.{Category, category_eq, Price, Rates, Line, price_lines}

pub record Intent : Type 0 where
  pub attempt_id : String
  pub provider : String
  pub model : String
  pub estimate_id : String
  pub reevaluation_of : Option String

pub record CurrencyEstimate : Type 0 where
  pub known_amount : Option String
  pub complete : Bool
  pub unknown_categories : List Category
  pub lines : List Line

pub record Estimate : Type 0 where
  pub intent : Intent
  pub session_id : String
  pub pricing_at : ℕ
  pub usage_source : UsageSource
  pub estimates : Dict String CurrencyEstimate
  pub complete : Bool
  -- "no_effective_price"
  pub unpriced : Bool

-- budget.reserved and budget.settled
pub record ReservedAttempt : Type 0 where
  pub attempt_id : String
  pub session_id : String
  pub reserved_at : ℕ
  pub usage_basis : UsageBasis

pub record SettledAttempt : Type 0 where
  pub attempt_id : String
  pub usage : Usage
  pub usage_source : UsageSource

pub data CostFact : Type 0 where
  price_registered : Price → CostFact
  cost_estimated : Estimate → CostFact
  reserved : ReservedAttempt → CostFact
  settled : SettledAttempt → CostFact

-- The first reservation of an attempt.
abbrev pub find_reservation : String → List CostFact → Option ReservedAttempt
find_reservation attempt_id [] = none
find_reservation attempt_id (reserved r ∷ facts) =
    if r.attempt_id == attempt_id then some r else find_reservation attempt_id facts
find_reservation attempt_id (price_registered p ∷ facts) = find_reservation attempt_id facts
find_reservation attempt_id (cost_estimated e ∷ facts) = find_reservation attempt_id facts
find_reservation attempt_id (settled s ∷ facts) = find_reservation attempt_id facts

abbrev pub estimates_in : List CostFact → List Estimate
estimates_in [] = []
estimates_in (cost_estimated e ∷ facts) = e ∷ estimates_in facts
estimates_in (price_registered p ∷ facts) = estimates_in facts
estimates_in (reserved r ∷ facts) = estimates_in facts
estimates_in (settled s ∷ facts) = estimates_in facts

-- `settlements[-1]`
abbrev pub last_settlement : String → List CostFact → Option SettledAttempt → Option SettledAttempt
last_settlement attempt_id [] last = last
last_settlement attempt_id (settled s ∷ facts) last =
    last_settlement attempt_id facts (if s.attempt_id == attempt_id then some s else last)
last_settlement attempt_id (price_registered p ∷ facts) last = last_settlement attempt_id facts last
last_settlement attempt_id (cost_estimated e ∷ facts) last = last_settlement attempt_id facts last
last_settlement attempt_id (reserved r ∷ facts) last = last_settlement attempt_id facts last

abbrev pub same_optional : Option String → Option String → Bool
same_optional none none = true
same_optional (some a) (some b) = a == b
same_optional none (some b) = false
same_optional (some a) none = false

unfoldable pub same_intent : Intent → Intent → Bool
same_intent a b =
    a.attempt_id == b.attempt_id
    && a.provider == b.provider
    && a.model == b.model
    && a.estimate_id == b.estimate_id
    && same_optional a.reevaluation_of b.reevaluation_of

-- The first earlier estimate with an identity.
abbrev pub find_estimate : String → List Estimate → Option Estimate
find_estimate estimate_id [] = none
find_estimate estimate_id (e ∷ estimates) =
    if e.intent.estimate_id == estimate_id then some e else find_estimate estimate_id estimates

abbrev pub matches : Option Estimate → Intent → Bool
matches none i = false
matches (some previous) i =
    previous.intent.attempt_id == i.attempt_id
    && previous.intent.provider == i.provider
    && previous.intent.model == i.model

-- The checks of a new estimate against the earlier ones.
abbrev pub check_evaluation : Option String → Intent → List Estimate → Result (Unit {0})
check_evaluation none i prior =
    raise_if (any (λ (e : Estimate). e.intent.attempt_id == i.attempt_id) prior)
      "An existing cost estimate requires explicit reevaluation"
check_evaluation (some other) i prior =
    raise_if (not (matches (find_estimate other prior) i))
      "Revaluation must reference an estimate of the same attempt"

-- A later version of a category's price.
abbrev pub is_newer : Option Price → Price → Bool
is_newer none price = true
is_newer (some previous) price = ltb previous.effective_at price.effective_at

abbrev pub rates_or_none : Option Rates → Rates
rates_or_none none = []
rates_or_none (some rates) = rates

abbrev pub put_price : Price → Rates → Rates
put_price price rates =
    if is_newer (lookup price.category rates) price
    then insert price.category price rates
    else rates

-- The prices in force, by currency and category.
unfoldable pub prices_at : Intent → ℕ → List CostFact → Dict String Rates → Dict String Rates
prices_at i at [] currencies = currencies
prices_at i at (price_registered price ∷ facts) currencies = prices_at i at facts (
    if price.provider == i.provider && price.model == i.model && leb price.effective_at at
    then insert price.currency (put_price price (rates_or_none (lookup price.currency currencies)))
        currencies
    else currencies)
prices_at i at (cost_estimated e ∷ facts) currencies = prices_at i at facts currencies
prices_at i at (reserved r ∷ facts) currencies = prices_at i at facts currencies
prices_at i at (settled s ∷ facts) currencies = prices_at i at facts currencies

abbrev pub usage_settled : Option SettledAttempt → Usage
usage_settled none = no_usage
usage_settled (some s) = s.usage

abbrev pub source_settled : Option SettledAttempt → UsageSource
source_settled none = unknown
source_settled (some s) = s.usage_source

abbrev pub nothing {ℓ} : {A : Type ℓ} → List A → Bool
nothing [] = true
nothing (x ∷ xs) = false

-- The arithmetic of Decimal, on texts.
pub record Decimals : Type 0 where
  -- the price times the quantity, over a million
  pub amount : String → ℕ → String
  pub sum : List String → String

module _ (decimals : Decimals) where
  abbrev pub estimate_currency : UsageBasis → Usage → Rates → CurrencyEstimate
  estimate_currency basis u rates =
      let p = price_lines decimals.amount basis u rates in
      record {
        known_amount =
            if nothing p.lines
            then none
            else some (decimals.sum (map (λ (l : Line). l.amount) p.lines));
        complete = nothing p.unknown;
        unknown_categories = p.unknown;
        lines = p.lines;
      }

  abbrev pub estimate_currencies :
      UsageBasis → Usage → Dict String Rates → Dict String CurrencyEstimate
  estimate_currencies basis u [] = []
  estimate_currencies basis u ((currency, rates) ∷ rest) =
      (currency, estimate_currency basis u rates) ∷ estimate_currencies basis u rest

  unfoldable pub new_estimate :
      String → Intent → ReservedAttempt → Option SettledAttempt → List CostFact → Estimate
  new_estimate session_id i r settlement facts =
      let estimates =
        estimate_currencies r.usage_basis (usage_settled settlement)
          (prices_at i r.reserved_at facts []) in
      record {
        intent = i;
        session_id = session_id;
        pricing_at = r.reserved_at;
        usage_source = source_settled settlement;
        estimates = estimates;
        complete =
            not (nothing estimates)
            && all (λ (e : CurrencyEstimate). e.complete) (values estimates);
        unpriced = nothing estimates;
      }

  -- The estimate, and the facts that are appended.
  abbrev pub decide_new :
      String → Intent → ReservedAttempt → List CostFact → Result (Estimate × List CostFact)
  decide_new session_id i r facts =
      let e = new_estimate session_id i r (last_settlement i.attempt_id facts none) facts in
      check_evaluation i.reevaluation_of i (estimates_in facts) >> ok (e, cost_estimated e ∷ [])

  abbrev pub decide_prior :
      Option Estimate
      → String
      → Intent
      → ReservedAttempt
      → List CostFact
      → Result (Estimate × List CostFact)
  decide_prior none session_id i r facts = decide_new session_id i r facts
  decide_prior (some old) session_id i r facts =
      raise_if (not (same_intent old.intent i)) "Cost estimate identity was reused" >> ok (old, [])

  -- The `decide` of `estimate_cost`.
  unfoldable pub decide_estimate :
      String → Intent → List CostFact → Result (Estimate × List CostFact)
  decide_estimate session_id i facts = do
    r ← or_raise (find_reservation i.attempt_id facts) "Unknown attempt reservation"
    raise_if (not (r.session_id == session_id)) "Attempt/session identity mismatch"
    decide_prior (find_estimate i.estimate_id (estimates_in facts)) session_id i r facts
