-- ===== src/Budgets/Ledger.antt =====
-- The state that `_projection` of eventide/budgets.py folds from the budget facts, and the
-- accounts that `_amount`, `_bucket` and `_receipt` read off it.
use eventide.Prelude.{
  ℕ, ◌+◌, ◌-◌, ◌*◌, max, String, List, [], ◌∷◌, Option, none, some, Bool, true, false, not, ◌&&◌,
  ◌||◌, Dict, lookup, insert, values, ◌==◌, Eq, string_eq, leb, if◌then◌else◌, sum_of, select, map,
}
use eventide.Runtime.{BudgetScope, scope_eq, Bucket, Result, ok, err, value_error, ◌>>=◌}
use eventide.Facts.{
  Fact, budget_configured, budget_reserved, budget_settled, budget_resolved, UsageSource, reported,
  unknown, Configuration, Reservation, Settlement, Resolution, configuration_eq, reservation_eq,
  settlement_eq, resolution_eq, Settlement-discrete, Resolution-discrete,
}

-- What `_change_key` encodes as text: the type and the whole payload, with sorted keys.
pub data Change : Type 0 where
  settled : Settlement → Change
  resolved : Resolution → Change

unfoldable pub Change-discrete : Discrete Change
Change-discrete = hlevel (Settlement-discrete, Resolution-discrete)

instance abbrev pub change_eq : Eq Change
change_eq = record { dec = Change-discrete }

-- One reservation with what has become of it.
pub record Item : Type 0 where
  pub reservation : Reservation
  pub settlement : Option Settlement
  pub resolution : Option Resolution

pub record State : Type 0 where
  pub limits : Dict BudgetScope (Option ℕ)
  pub requests : Dict String Configuration
  pub reservations : Dict String Item
  pub seen_changes : List Change

abbrev pub empty : State
empty = record { limits = []; requests = []; reservations = []; seen_changes = [] }

abbrev pub seen : Change → List Change → Bool
seen c [] = false
seen c (d ∷ ds) = c == d || seen c ds

abbrev pub is_known : Option ℕ → Bool
is_known none = false
is_known (some _) = true

-- `if prior and prior != payload and (field != "settlement" or …)`
abbrev settlement_conflicts : Option Settlement → Settlement → Bool
settlement_conflicts none payload = false
settlement_conflicts (some prior) payload =
    not (prior == payload) && (is_known prior.actual_tokens || not (is_known payload.actual_tokens))

abbrev resolution_conflicts : Option Resolution → Resolution → Bool
resolution_conflicts none payload = false
resolution_conflicts (some prior) payload = not (prior == payload)

configured : State → Configuration → Option Configuration → Result State
configured s payload (some prior) =
    if prior == payload then ok s else err (value_error "Conflicting budget configuration replay")
configured s payload none = ok (record s {
  requests = insert payload.request_id payload s.requests;
  limits = insert payload.scope payload.token_limit s.limits;
})

reserved : State → Reservation → Option Item → Result State
reserved s payload (some prior) =
    if prior.reservation == payload
    then ok s
    else err (value_error "Conflicting budget reservation replay")
reserved s payload none = ok (record s {
  reservations =
      insert payload.attempt_id
        (record { reservation = payload; settlement = none; resolution = none }) s.reservations;
})

settle_item : State → Settlement → Option Item → Result State
settle_item s payload none = err (value_error "Settlement has no reservation")
settle_item s payload (some item) =
    if settlement_conflicts item.settlement payload
    then err (value_error "Conflicting budget settlement replay")
    else ok (record s {
      reservations =
          insert payload.attempt_id (record item { settlement = some payload }) s.reservations;
      seen_changes = settled payload ∷ s.seen_changes;
    })

resolve_item : State → Resolution → Option Item → Result State
resolve_item s payload none = err (value_error "Settlement has no reservation")
resolve_item s payload (some item) =
    if resolution_conflicts item.resolution payload
    then err (value_error "Conflicting budget settlement replay")
    else ok (record s {
      reservations =
          insert payload.attempt_id (record item { resolution = some payload }) s.reservations;
      seen_changes = resolved payload ∷ s.seen_changes;
    })

-- The body of the loop of `_projection`; a fact of another type is passed over.
unfoldable pub apply : State → Fact → Result State
unfolding configured reserved settle_item resolve_item
apply s (budget_configured payload) = configured s payload (lookup payload.request_id s.requests)
apply s (budget_reserved payload) = reserved s payload (lookup payload.attempt_id s.reservations)
apply s (budget_settled payload) =
    if seen (settled payload) s.seen_changes
    then ok s
    else settle_item s payload (lookup payload.attempt_id s.reservations)
apply s (budget_resolved payload) =
    if seen (resolved payload) s.seen_changes
    then ok s
    else resolve_item s payload (lookup payload.attempt_id s.reservations)
apply s other_fact = ok s

unfoldable pub fold : State → List Fact → Result State
fold s [] = ok s
fold s (f ∷ facts) = apply s f >>= λ s'. fold s' facts

-- `_projection`
unfoldable pub projection : List Fact → Result State
unfolding fold
projection facts = fold empty facts

pub data Standing : Type 0 where
  manually_resolved settled_up unsettled : Standing

abbrev pub or_zero : Option ℕ → ℕ
or_zero none = 0
or_zero (some n) = n

-- The tokens that a report has shown of an attempt whose total is not known.
observed : Option Settlement → ℕ
observed none = 0
observed (some s) = elim s.usage_source [
  | reported ↦ or_zero s.usage.input_tokens + or_zero s.usage.output_tokens
  | _ ↦ 0
]

abbrev actual_of : Option Settlement → Option ℕ
actual_of none = none
actual_of (some s) = s.actual_tokens

-- `_amount`: what is held, what is known, and how it stands.
amount_of : Item → Option Resolution → Option ℕ → ℕ × Option ℕ × Standing
amount_of item (some r) known = (0, some r.actual_tokens, manually_resolved)
amount_of item none (some n) = (0, some n, settled_up)
amount_of item none none =
    (max item.reservation.reserved_tokens (observed item.settlement), none, unsettled)

unfoldable pub amount : Item → ℕ × Option ℕ × Standing
unfolding amount_of observed
amount item = amount_of item item.resolution (actual_of item.settlement)

abbrev pub in_scopes : BudgetScope → List BudgetScope → Bool
in_scopes k [] = false
in_scopes k (j ∷ js) = k == j || in_scopes k js

-- The reservations that count towards a scope.
abbrev pub items_of : State → BudgetScope → List Item
items_of s scope = select (λ i. in_scopes scope i.reservation.scopes) (values s.reservations)

abbrev pub held : Item → ℕ
held i = (amount i).0

abbrev pub actual : Item → ℕ
actual i = or_zero (amount i).1

abbrev pub open_count : Item → ℕ
open_count i = elim (amount i).1 [ none ↦ 1 | some _ ↦ 0 ]

unfoldable pub committed : State → BudgetScope → ℕ
committed s scope = sum_of actual (items_of s scope) + sum_of held (items_of s scope)

-- `state["limits"].get(key)`
abbrev pub limit_of : State → BudgetScope → Option ℕ
limit_of s scope = elim (lookup scope s.limits) [ none ↦ none | some limit ↦ limit ]

-- `_bucket`
unfoldable pub bucket : State → BudgetScope → Bucket
unfolding committed
bucket s scope = record {
  scope = scope;
  token_limit = limit_of s scope;
  actual_tokens = sum_of actual (items_of s scope);
  reserved_tokens = sum_of held (items_of s scope);
  committed_tokens = committed s scope;
  unsettled_attempts = sum_of open_count (items_of s scope);
  remaining_tokens = elim (limit_of s scope) [
    | none ↦ none
    | some l ↦ some (l - committed s scope)
  ];
  warning = elim (limit_of s scope) [ none ↦ false | some l ↦ leb (l * 4) (committed s scope * 5) ];
  blocked = elim (limit_of s scope) [ none ↦ false | some l ↦ leb l (committed s scope) ];
}

-- `ReservationReceipt`, with `_receipt`
pub record Receipt : Type 0 where
  pub attempt_id : String
  pub run_id : String
  pub status : Standing
  pub reserved_tokens : ℕ
  pub actual_tokens : Option ℕ
  pub usage_source : UsageSource
  pub buckets : List Bucket
  pub warnings : List Bucket

abbrev source_of : Option Settlement → UsageSource
source_of none = unknown
source_of (some s) = s.usage_source

unfoldable pub receipt : State → String → Item → Receipt
receipt s attempt_id item =
    let buckets = map (bucket s) item.reservation.scopes in
    record {
      attempt_id = attempt_id;
      run_id = item.reservation.run_id;
      status = (amount item).2;
      reserved_tokens = item.reservation.reserved_tokens;
      actual_tokens = (amount item).1;
      usage_source = source_of item.settlement;
      buckets = buckets;
      warnings = select (λ b. b.warning) buckets;
    }
