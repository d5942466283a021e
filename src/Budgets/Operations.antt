-- ===== src/Budgets/Operations.antt =====
-- The ledger's calls: `configure`, `reserve`, `settle`, `resolve_unknown` and `snapshot` of
-- eventide/budgets.py. Each decides on the facts that are read in its transaction; a `decide_`
-- function is the `decide` of the call, with the state that it leaves.
use eventide.Prelude.{
  ℕ, ℤ, pos, negsuc, ◌+◌, String, List, [], ◌∷◌, ◌++◌, Option, none, some, Bool, true, false, not,
  ◌&&◌, ◌||◌, lookup, insert, values, map, ltb, ◌==◌, string_eq, nat_eq, if◌then◌else◌, is_blank,
  len,
}
use eventide.Runtime.{
  BudgetScope, scope_eq, Bucket, Violation, Result, ok, err, value_error, budget_exceeded, ◌>>=◌,
  ◌>>◌, raise_if,
}
use eventide.Facts.{
  Fact, budget_configured, budget_reserved, model_attempt_started, Attempt, UsageBasis,
  input_output, input_only, Configuration, Reservation, BudgetContext, configuration_eq,
  resolution_eq, context_eq, basis_eq, settlement_eq,
}
use eventide.Store.State.{Event, Store}
use eventide.Store.Log.{transact_facts, runtime, user}
use eventide.Budgets.Ledger.{State, Item, bucket, Receipt, receipt, projection, change_eq}
use eventide.Budgets.Context.{scopes, validate_context}

abbrev pub facts_of : List Event → List Fact
facts_of = map (λ e. e.fact)

-- BUDGET_FACTS
abbrev pub budget_facts : List String
budget_facts = "budget.configured" ∷ "budget.reserved" ∷ "budget.settled" ∷ "budget.resolved" ∷ []

-- `_text`
unfoldable pub text : String → String → Result String
text value name = if is_blank value || ltb 256 (len value) then err (value_error name) else ok value

-- `_count`
unfoldable pub count : ℤ → String → Result ℕ
count (pos n) name = ok n
count (negsuc n) name = err (value_error name)

unfoldable pub optional_count : Option ℤ → Result (Option ℕ)
optional_count none = ok none
optional_count (some n) = do c ← count n "token_limit must be a nonnegative integer"; ok (some c)

-- The `decide` of `configure`.
unfoldable pub decide_configure : Configuration → State → Result (Bucket × List Fact × State)
decide_configure payload s = elim (lookup payload.request_id s.requests) [
  | some prior ↦
      if prior == payload
      then ok (bucket s payload.scope, [], s)
      else err (value_error "Budget request identity was reused with different content")
  | none ↦
      let s' : State = record s { limits = insert payload.scope payload.token_limit s.limits } in
      ok (bucket s' payload.scope, budget_configured payload ∷ [], s')
]

abbrev pub on_facts {ℓ} :
    {R : Type ℓ} → (State → Result (R × List Fact × State)) → List Event → Result (R × List Fact)
on_facts decide events = do
  s ← projection (facts_of events)
  (r, additions, _) ← decide s
  ok (r, additions)

unfoldable pub configure :
    Store → String → BudgetScope → Option ℤ → String → Result (Bucket × Store)
configure s session_id scope token_limit request_id = do
  limit ← optional_count token_limit
  request ← text request_id "Invalid request identity"
  transact_facts s session_id budget_facts
      (on_facts
        (decide_configure (record { request_id = request; scope = scope; token_limit = limit })))
      (user none)

-- A `datetime`, as `utc_time` converts it: whether it has an offset, and its UTC texts.
pub record DateTime : Type 0 where
  pub aware : Bool
  pub iso : String
  pub utc_day : String

-- `utc_time`, given the clock
unfoldable pub utc_time : Option DateTime → DateTime → Result DateTime
utc_time none now = ok now
utc_time (some t) now =
    if t.aware then ok t else err (value_error "An explicit UTC offset is required")

abbrev pub opt_eq : Option String → String → Bool
opt_eq none t = false
opt_eq (some s) t = s == t

abbrev is_input_only : UsageBasis → Bool
is_input_only input_only = true
is_input_only input_output = false

abbrev is_zero : ℤ → Bool
is_zero (pos n) = n == 0
is_zero (negsuc n) = false

-- The checks of `reserve` on the attempt that is started with it.
unfoldable pub check_started : String → ℤ → UsageBasis → Option Attempt → Result (Unit {0})
check_started attempt_id output_estimate basis none =
    raise_if (is_input_only basis)
      "Input-only reservations require an embedding attempt without output"
check_started attempt_id output_estimate basis (some a) = do
  raise_if (not (opt_eq a.attempt_id attempt_id)) "Model attempt identity mismatch"
  raise_if
      (is_input_only basis && (not (is_zero output_estimate) || not (opt_eq a.kind "embedding")))
      "Input-only reservations require an embedding attempt without output"
  raise_if (not (a.usage_basis == basis)) "Model attempt usage basis mismatch"

-- `any(original[key] != payload[key] …)` but for `reserved_at` and `scopes`
unfoldable pub same_request : Reservation → Reservation → Bool
same_request a b =
    a.attempt_id == b.attempt_id
    && a.run_id == b.run_id
    && a.session_id == b.session_id
    && a.context == b.context
    && a.input_estimate == b.input_estimate
    && a.output_estimate == b.output_estimate
    && a.estimate_method == b.estimate_method
    && a.reserved_tokens == b.reserved_tokens

-- The reservation is there already: the same request returns its receipt.
unfoldable pub replay_reservation :
    Reservation → Bool → State → Item → Result (Receipt × List Fact × State)
replay_reservation payload dated s prior = do
  raise_if (not (prior.reservation.usage_basis == payload.usage_basis))
      "Attempt identity was reused with different usage basis"
  raise_if (not (same_request prior.reservation payload))
      "Attempt identity was reused with different content"
  raise_if (dated && not (prior.reservation.reserved_at == payload.reserved_at))
      "Attempt identity was reused with a different timestamp"
  ok (receipt s payload.attempt_id prior, [], s)

-- A scope whose limit the request would pass, or that is at its limit already.
unfoldable pub violates : Bucket → ℕ → Bool
violates b tokens = elim b.token_limit [
  | none ↦ false
  | some limit ↦ ltb limit (b.committed_tokens + tokens) || b.blocked
]

unfoldable pub violations : State → ℕ → List BudgetScope → List Violation
violations s tokens [] = []
violations s tokens (scope ∷ rest) =
    let more = violations s tokens rest in
    if violates (bucket s scope) tokens
    then record { bucket = bucket s scope; requested_tokens = tokens } ∷ more
    else more

abbrev pub fresh_item : Reservation → Item
fresh_item payload = record { reservation = payload; settlement = none; resolution = none }

abbrev pub with_item : State → String → Item → State
with_item s attempt_id item = record s { reservations = insert attempt_id item s.reservations }

abbrev started_fact : Option Attempt → List Fact
started_fact none = []
started_fact (some a) = model_attempt_started a ∷ []

abbrev accept : State → Reservation → Option Attempt → Receipt × List Fact × State
accept s payload started =
    let s' : State = with_item s payload.attempt_id (fresh_item payload) in
    (
      receipt s' payload.attempt_id (fresh_item payload),
      budget_reserved payload ∷ started_fact started,
      s',
    )

unfoldable pub within_limits :
    State → Reservation → Option Attempt → List Violation → Result (Receipt × List Fact × State)
within_limits s payload started [] = ok (accept s payload started)
within_limits s payload started (v ∷ vs) = err (budget_exceeded (v ∷ vs))

-- The `decide` of `reserve`, with the check of the context as an argument.
unfoldable pub decide_reserve :
    (List Item → Result (Unit {0}))
    → Reservation
    → Bool
    → Option Attempt
    → State
    → Result (Receipt × List Fact × State)
decide_reserve validate payload dated started s = elim (lookup payload.attempt_id s.reservations) [
  | some prior ↦ replay_reservation payload dated s prior
  | none ↦ do
    validate (values s.reservations)
    within_limits s payload started (violations s payload.reserved_tokens payload.scopes)
]

-- The types that `reserve` reads.
abbrev pub reserve_facts : List String
reserve_facts = budget_facts ++ ("run.admitted" ∷ "run.started" ∷ "control.session" ∷ [])

abbrev run_if_started : Option Attempt → String → Option String
run_if_started none run_id = none
run_if_started (some _) run_id = some run_id

unfoldable pub reserve :
    Store
    → String
    → String
    → String
    → BudgetContext
    → ℤ
    → ℤ
    → String
    → Option DateTime
    → DateTime
    → Option Attempt
    → UsageBasis
    → Result (Receipt × Store)
reserve store session_id run_id attempt_id context input_estimate output_estimate method at now
      started basis =
    do
      timestamp ← utc_time at now
      attempt ← text attempt_id "Invalid attempt identity"
      check_started attempt output_estimate basis started
      run ← text run_id "Invalid Run identity"
      input ← count input_estimate "input estimate must be a nonnegative integer"
      output ← count output_estimate "output estimate must be a nonnegative integer"
      estimate_method ← text method "Invalid estimate method"
      let payload = reservation attempt run timestamp input output estimate_method
      transact_facts store session_id reserve_facts
          (λ events.
            on_facts
              (decide_reserve (validate_context store session_id run context events) payload
                (dated at) started)
              events)
          (runtime (run_if_started started run))
  where
    dated : Option DateTime → Bool
    dated none = false
    dated (some _) = true

    reservation : String → String → DateTime → ℕ → ℕ → String → Reservation
    reservation attempt run timestamp input output estimate_method = record {
      attempt_id = attempt;
      run_id = run;
      session_id = session_id;
      context = context;
      input_estimate = input;
      output_estimate = output;
      estimate_method = estimate_method;
      reserved_tokens = input + output;
      reserved_at = timestamp.iso;
      scopes = scopes context run timestamp.utc_day;
      usage_basis = basis;
    }
