-- ===== src/Prices.antt =====
-- Prices and the estimates of costs: eventide/budget_prices.py. Instants are numbers. Decimals are
-- an argument of the parts that compute with them.
pub mod Estimates
pub mod Lines
pub mod Replays
pub mod Summary
pub mod Complete
use eventide.Prelude.{
  ℕ, ◌+◌, ◌-◌, String, List, [], ◌∷◌, ◌++◌, Option, none, some, Bool, true, false, Dict, lookup,
  not, ◌||◌, ◌&&◌, Eq, ◌==◌, string_eq, nat_eq, String_discrete, ltb, if◌then◌else◌, any, select,
}
use native.Mathlib.Decide.{ℕ_discrete}
use eventide.Runtime.{Result, ok, err, value_error, ◌>>◌, raise_if}
use eventide.Facts.{Usage, UsageBasis, input_only, input_output}

-- PRICE_CATEGORIES
pub data Category : Type 0 where
  input output cache_read cache_creation reasoning : Category

unfoldable pub Category-discrete : Discrete Category
Category-discrete = hlevel

instance abbrev pub category_eq : Eq Category
category_eq = record { dec = Category-discrete }

-- The payload of a PriceVersion.
pub record Price : Type 0 where
  pub version_id : String
  pub provider : String
  pub model : String
  pub category : Category
  pub currency : String
  pub price_per_million : String
  pub effective_at : ℕ

unfoldable pub Price-discrete : Discrete Price
Price-discrete = hlevel (String_discrete, ℕ_discrete, Category-discrete)

instance abbrev pub price_eq : Eq Price
price_eq = record { dec = Price-discrete }

-- `usage.get(category)`
abbrev pub counter_of : Usage → Category → Option ℕ
counter_of u input = u.input_tokens
counter_of u output = u.output_tokens
counter_of u cache_read = u.cache_read_input_tokens
counter_of u cache_creation = u.cache_creation_input_tokens
counter_of u reasoning = u.reasoning_tokens

abbrev pub Rates : Type 0
Rates = Dict Category Price

abbrev pub Quantities : Type 0
Quantities = List (Category × ℕ)

-- What the loop over `details` leaves: the category that is not known, or the parts and the tokens
-- in them.
pub data Parts : Type 0 where
  missing : Category → Parts
  parts : Quantities → ℕ → Parts

abbrev pub part_of : Option ℕ → Category → Quantities → ℕ → Parts
part_of none detail taken used = missing detail
part_of (some n) detail taken used = parts (taken ++ (detail, n) ∷ []) (used + n)

abbrev pub priced_part : Option Price → Option ℕ → Category → Quantities → ℕ → Parts
priced_part none quantity detail taken used = parts taken used
priced_part (some _) quantity detail taken used = part_of quantity detail taken used

abbrev pub next_part : Usage → Rates → Category → Parts → Parts
next_part u rates detail (missing c) = missing c
next_part u rates detail (parts taken used) =
    priced_part (lookup detail rates) (counter_of u detail) detail taken used

abbrev pub parts_of : Usage → Rates → List Category → Parts → Parts
parts_of u rates [] p = p
parts_of u rates (detail ∷ details) p = parts_of u rates details (next_part u rates detail p)

-- Quantities and unknown categories so far.
pub record Split : Type 0 where
  pub quantities : Quantities
  pub unknown : List Category

-- `if quantity < 0`; the counter of a total is what its details leave of it.
abbrev pub close_total : Category → ℕ → Parts → Split → Split
close_total total quantity (missing detail) s = record s {
  unknown = s.unknown ++ detail ∷ total ∷ [];
}
close_total total quantity (parts taken used) s =
    if ltb quantity used
    then record s { unknown = s.unknown ++ total ∷ [] }
    else record s { quantities = s.quantities ++ (taken ++ (total, quantity - used) ∷ []) }

abbrev pub split_known : Option ℕ → Usage → Rates → Category → List Category → Split → Split
split_known none u rates total details s = record s { unknown = s.unknown ++ total ∷ [] }
split_known (some quantity) u rates total details s =
    close_total total quantity (parts_of u rates details (parts [] 0)) s

unfoldable pub split_total : Usage → Rates → Category → List Category → Split → Split
split_total u rates total details = split_known (counter_of u total) u rates total details

abbrev pub no_split : Split
no_split = record { quantities = []; unknown = [] }

abbrev pub split_input : Usage → Rates → Split
split_input u rates = split_total u rates input (cache_read ∷ cache_creation ∷ []) no_split

-- `usage_total_fields(basis)` has the output, too, or not.
unfoldable pub split_usage : UsageBasis → Usage → Rates → Split
split_usage input_only u rates = split_input u rates
split_usage input_output u rates = split_total u rates output (reasoning ∷ []) (split_input u rates)

-- One of `lines`.
pub record Line : Type 0 where
  pub category : Category
  pub quantity : ℕ
  pub price_version : String
  pub price_per_million : String
  pub amount : String

pub record Priced : Type 0 where
  pub lines : List Line
  pub unknown : List Category

-- `sorted(set(unknown))`: the five categories in alphabetical order.
abbrev pub sorted_set : List Category → List Category
sorted_set unknown =
    select (λ c. any (λ u. u == c) unknown)
      (cache_creation ∷ cache_read ∷ input ∷ output ∷ reasoning ∷ [])

-- `amount` is the price times the quantity, over a million, as a text.
module _ (amount : String → ℕ → String) where
  abbrev pub add_line : Option Price → Category → ℕ → Priced → Priced
  add_line none category quantity p = record p { unknown = p.unknown ++ category ∷ [] }
  add_line (some price) category quantity p = record p {
    lines =
        p.lines
        ++ record {
          category = category;
          quantity = quantity;
          price_version = price.version_id;
          price_per_million = price.price_per_million;
          amount = amount price.price_per_million quantity;
        }
          ∷ [];
  }

  unfoldable pub add_lines : Rates → Quantities → Priced → Priced
  add_lines rates [] p = p
  add_lines rates ((category, quantity) ∷ rest) p =
      add_lines rates rest (add_line (lookup category rates) category quantity p)

  -- `_price_lines`
  unfoldable pub price_lines : UsageBasis → Usage → Rates → Priced
  price_lines basis u rates =
      let s = split_usage basis u rates in
      let p = add_lines rates s.quantities (record { lines = []; unknown = s.unknown }) in
      record { lines = p.lines; unknown = sorted_set p.unknown }

abbrev pub same_slot : Price → Price → Bool
same_slot a b =
    a.provider == b.provider
    && a.model == b.model
    && a.category == b.category
    && a.currency == b.currency
    && a.effective_at == b.effective_at

-- The `decide` of `register_price`, over the registered prices: the price, and whether its fact is
-- appended.
unfoldable pub decide_register : Price → List Price → Result (Price × List Price)
decide_register price [] = ok (price, price ∷ [])
decide_register price (old ∷ prices) =
    let rest = decide_register price prices in
    if old.version_id == price.version_id
    then (if old == price
        then ok (price, [])
        else err (value_error "Price version identity was reused"))
    else (if same_slot old price
        then err (value_error "A price category already has a version at this time")
        else rest)
