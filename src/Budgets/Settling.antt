-- ===== src/Budgets/Settling.antt =====
-- `settle`, `resolve_unknown` and `snapshot` of eventide/budgets.py.
use eventide.Prelude.{
  ℤ, String, List, [], ◌∷◌, Option, none, some, Bool, true, false, not, ◌&&◌, ◌||◌, lookup, values,
  any, map, keys, ◌==◌, string_eq, if◌then◌else◌, Dict,
}
use eventide.Runtime.{
  BudgetScope, scope_eq, Bucket, Result, ok, err, value_error, ◌>>=◌, ◌>>◌, raise_if, or_raise,
}
use eventide.Facts.{
  Fact, budget_settled, budget_resolved, model_attempt_finished, Attempt, Usage, UsageBasis,
  input_only, input_output, UsageSource, unknown, Settlement, Resolution, resolution_eq, basis_eq,
}
use eventide.Usage.{usage_snapshot, Snapshot, any_counter, no_usage, total}
use eventide.Store.State.{Store, facts_by_type}
use eventide.Store.Log.{transact_facts, runtime, user}
use eventide.Budgets.Ledger.{
  State, Item, settled, change_eq, bucket, Receipt, receipt, projection, amount, seen, is_known,
  in_scopes,
}
use eventide.Budgets.Operations.{budget_facts, text, count, on_facts, with_item, opt_eq, facts_of}

-- `_owned`
unfoldable pub owned : State → String → String → Result Item
owned s session_id attempt_id = do
  item ← or_raise (lookup attempt_id s.reservations) "Unknown attempt reservation"
  raise_if (not (item.reservation.session_id == session_id)) "Attempt/session identity mismatch"
  ok item

abbrev pub given {ℓ} : {A : Type ℓ} → Option A → Bool
given none = false
given (some _) = true

abbrev pub wrong_run : Option String → String → Bool
wrong_run none run_id = false
wrong_run (some r) run_id = not (run_id == r)

abbrev is_input_only : UsageBasis → Bool
is_input_only input_only = true
is_input_only input_output = false

abbrev pub wrong_basis : Option Attempt → UsageBasis → Bool
wrong_basis none basis = false
wrong_basis (some a) basis =
    not (a.usage_basis == basis) || (is_input_only basis && not (opt_eq a.kind "embedding"))

-- The fact that `settle` would write.
unfoldable pub settlement_of : String → Usage → UsageSource → UsageBasis → Snapshot → Settlement
settlement_of attempt_id observed source basis snapshot = record {
  attempt_id = attempt_id;
  usage = observed;
  usage_source = if any_counter observed then source else unknown;
  actual_tokens = if snapshot.complete then some (total basis observed) else none;
}

-- `item["resolution"] or (prior and (…))`
unfoldable pub cannot_settle : Item → Settlement → Bool
cannot_settle item payload = given item.resolution || elim item.settlement [
  | none ↦ false
  | some prior ↦ is_known prior.actual_tokens || not (is_known payload.actual_tokens)
]

unfoldable pub finished_fact : Option Attempt → List Fact
finished_fact none = []
finished_fact (some a) = model_attempt_finished a ∷ []

unfoldable pub apply_settlement :
    State → String → Item → Settlement → Option Attempt → Result (Receipt × List Fact × State)
apply_settlement s attempt_id item payload finished =
    if seen (settled payload) s.seen_changes
    then ok (receipt s attempt_id item, [], s)
    else if cannot_settle item payload
    then err (value_error "Conflicting attempt settlement")
    else let item' : Item = record item { settlement = some payload } in
      let s' : State = with_item s attempt_id item' in
      ok (receipt s' attempt_id item', budget_settled payload ∷ finished_fact finished, s')

-- The `decide` of `settle`.
unfoldable pub decide_settle :
    String
    → String
    → Usage
    → UsageSource
    → Option String
    → Option Attempt
    → State
    → Result (Receipt × List Fact × State)
decide_settle session_id attempt_id observed source run_id finished s = do
  item ← owned s session_id attempt_id
  raise_if (wrong_run run_id item.reservation.run_id) "Attempt/Run identity mismatch"
  let basis = item.reservation.usage_basis
  raise_if (wrong_basis finished basis) "Model attempt usage basis mismatch"
  snapshot ← usage_snapshot observed (some source) basis
  apply_settlement s attempt_id item (settlement_of attempt_id observed source basis snapshot)
      finished

abbrev is_unknown : UsageSource → Bool
is_unknown unknown = true
is_unknown _ = false

abbrev wrong_attempt : Option Attempt → Option String → String → Bool
wrong_attempt none run_id attempt_id = false
wrong_attempt (some a) run_id attempt_id =
    not (given run_id) || not (opt_eq a.attempt_id attempt_id)

abbrev or_no_usage : Option Usage → Usage
or_no_usage none = no_usage
or_no_usage (some u) = u

unfoldable pub settle :
    Store
    → String
    → String
    → Option Usage
    → UsageSource
    → Option String
    → Option Attempt
    → Result (Receipt × Store)
settle store session_id attempt_id usage source run_id finished = do
  raise_if (wrong_attempt finished run_id attempt_id) "Model attempt identity mismatch"
  let observed = or_no_usage usage
  raise_if (is_unknown source && any_counter observed) "Unknown usage cannot contain counters"
  attempt ← text attempt_id "Invalid attempt identity"
  transact_facts store session_id budget_facts
      (on_facts (decide_settle session_id attempt observed source run_id finished)) (runtime run_id)

abbrev pub request_used : String → Item → Bool
request_used request_id item = elim item.resolution [
  | none ↦ false
  | some r ↦ r.request_id == request_id
]

abbrev pub is_resolution : Option Resolution → Resolution → Bool
is_resolution none payload = false
is_resolution (some r) payload = r == payload

unfoldable pub apply_resolution :
    State → String → Item → Resolution → Result (Receipt × List Fact × State)
apply_resolution s attempt_id item payload =
    if is_resolution item.resolution payload then ok (receipt s attempt_id item, [], s) else do
      raise_if (given item.resolution || is_known (amount item).1) "Attempt is already settled"
      raise_if (any (request_used payload.request_id) (values s.reservations))
          "Resolution request identity was reused"
      let item' = resolved_item
      ok (
        receipt (with_item s attempt_id item') attempt_id item',
        budget_resolved payload ∷ [],
        with_item s attempt_id item',
      )
  where
    resolved_item : Item
    resolved_item = record item { resolution = some payload }

-- The `decide` of `resolve_unknown`.
unfoldable pub decide_resolve : String → Resolution → State → Result (Receipt × List Fact × State)
decide_resolve session_id payload s = do
  item ← owned s session_id payload.attempt_id
  apply_resolution s payload.attempt_id item payload

unfoldable pub resolve_unknown :
    Store → String → String → ℤ → String → String → Result (Receipt × Store)
resolve_unknown store session_id attempt_id actual_tokens reason request_id = do
  attempt ← text attempt_id "Invalid attempt identity"
  actual ← count actual_tokens "actual_tokens must be a nonnegative integer"
  why ← text reason "Invalid resolution reason"
  request ← text request_id "Invalid resolution request identity"
  transact_facts store session_id budget_facts
      (on_facts (
        decide_resolve session_id (record {
          attempt_id = attempt;
          actual_tokens = actual;
          reason = why;
          request_id = request;
        })))
      (user none)

abbrev shares : List BudgetScope → List BudgetScope → Bool
shares selected [] = false
shares selected (scope ∷ scopes) = in_scopes scope selected || shares selected scopes

receipts : State → List BudgetScope → Dict String Item → List Receipt
receipts s selected [] = []
receipts s selected ((attempt, item) ∷ items) =
    let rest = receipts s selected items in
    if shows selected item then receipt s attempt item ∷ rest else rest
  where
    shows : List BudgetScope → Item → Bool
    shows [] item = true
    shows (scope ∷ scopes) item = shares (scope ∷ scopes) item.reservation.scopes

abbrev all_if_none : State → List BudgetScope → List BudgetScope
all_if_none s [] = keys s.limits
all_if_none s (scope ∷ scopes) = scope ∷ scopes

unfoldable pub snapshot : Store → List BudgetScope → Result (List Bucket × List Receipt)
unfolding receipts
snapshot store scopes = do
  s ← projection (facts_of (facts_by_type store.events budget_facts))
  ok (map (bucket s) (all_if_none s scopes), receipts s scopes s.reservations)
