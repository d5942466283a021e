-- ===== src/Tests/Ledger.antt =====
-- A reservation, its settlement and its resolution, in the token ledger.
use eventide.Prelude.{
  false, lookup, ◌≡◌, refl, ◌≤◌, ◌+◌, String, List, [], ◌∷◌, none, some, true, String_discrete,
  Dict, string_eq,
}
use eventide.Runtime.{ok, err, value_error, Result, BudgetScope-discrete, scope_eq}
use eventide.Store.State.{get_run_identity}
use eventide.Facts.{budget_reserved, budget_settled, budget_resolved, reported}
use eventide.Usage.{usage_snapshot, any_counter, has_totals, total}
use eventide.Budgets.Ledger.{
  settled, apply, Change-discrete, Item, State, receipt, bucket, amount, committed, held, fold,
}
use eventide.Budgets.Context.{climb, root_of}
use eventide.Budgets.Operations.{decide_reserve, within_limits, violations, violates, with_item}
use eventide.Budgets.Settling.{
  decide_settle, apply_settlement, settlement_of, cannot_settle, finished_fact, owned,
  decide_resolve, apply_resolution,
}
use eventide.Budgets.Limits.{reserve-le-limit}
use eventide.Budgets.Replay.{reserve-fold, reserve-reserve}
use eventide.Budgets.Totals.{settle-fold, settle_with, SameAccounts}
use eventide.Budgets.Conservation.{settle-committed, resolve-committed, counted}
use eventide.Tests.Data.{
  blank, reservation, limited, item, spent, usage, settlement, resolution, project_scope,
}

abbrev valid : List Item → Result (Unit {0})
valid items = ok tt

reserves_once :
    decide_reserve valid reservation true none limited
    ≡ ok (receipt spent "a" item, budget_reserved reservation ∷ [], spent)
unfolding String_discrete BudgetScope-discrete decide_reserve within_limits violations violates
    bucket committed
reserves_once = refl

abbrev settled_state : State
settled_state = with_item spent "a" (settle_with item settlement)

settles_once :
    decide_settle "s" "a" usage reported none none spent
    ≡ ok (
      receipt settled_state "a" (settle_with item settlement),
      budget_settled settlement ∷ [],
      settled_state,
    )
unfolding String_discrete decide_settle apply_settlement settlement_of cannot_settle finished_fact
    owned usage_snapshot any_counter has_totals total
settles_once = refl

abbrev resolved_item : Item
resolved_item = record item { resolution = some resolution }

resolves_once :
    decide_resolve "s" resolution spent
    ≡ ok (
      receipt (with_item spent "a" resolved_item) "a" resolved_item,
      budget_resolved resolution ∷ [],
      with_item spent "a" resolved_item,
    )
unfolding String_discrete decide_resolve apply_resolution owned amount
resolves_once = refl

settled_actual : (receipt settled_state "a" (settle_with item settlement)).actual_tokens ≡ some 35
unfolding receipt amount
settled_actual = refl

reserve-le-limit_example : committed spent project_scope ≤ 80
unfolding BudgetScope-discrete String_discrete
reserve-le-limit_example =
    reserve-le-limit valid reservation true none limited spent (receipt spent "a" item)
      (budget_reserved reservation ∷ []) project_scope 80 refl reserves_once refl refl

reserve-fold_example : fold limited (budget_reserved reservation ∷ []) ≡ ok spent
reserve-fold_example =
    reserve-fold valid reservation true none limited spent (receipt spent "a" item)
      (budget_reserved reservation ∷ []) reserves_once

abbrev logged_state : State
logged_state = record settled_state { seen_changes = settled settlement ∷ [] }

settled_log : fold spent (budget_settled settlement ∷ []) ≡ ok logged_state
unfolding String_discrete fold apply Change-discrete
settled_log = refl

-- The same request a day later, when the attempt has been settled.
reserve-reserve_example :
    (it : Item) × (lookup "a" logged_state.reservations ≡ some it)
    × (decide_reserve valid
          (record reservation { reserved_at = "later"; scopes = project_scope ∷ [] })
          false
          none
          logged_state
        ≡ ok (receipt logged_state "a" it, [], logged_state))
reserve-reserve_example =
    reserve-reserve valid valid reservation true none none limited spent logged_state
      (receipt spent "a" item) (budget_reserved reservation ∷ []) (budget_settled settlement ∷ [])
      "later" (project_scope ∷ []) reserves_once settled_log

settle-fold_example :
    (t : State) × (fold spent (budget_settled settlement ∷ []) ≡ ok t)
    × SameAccounts t settled_state
settle-fold_example =
    settle-fold "s" "a" usage reported none none spent settled_state
      (receipt settled_state "a" (settle_with item settlement)) (budget_settled settlement ∷ [])
      settles_once

settle-committed_example :
    committed settled_state project_scope + counted project_scope reservation (held item)
    ≡ committed spent project_scope + counted project_scope reservation 35
unfolding String_discrete
settle-committed_example =
    settle-committed "s" "a" usage reported none none spent settled_state
      (receipt settled_state "a" (settle_with item settlement)) (budget_settled settlement) [] item
      35 project_scope refl settles_once settled_actual

resolve-committed_example :
    committed (with_item spent "a" resolved_item) project_scope
      + counted project_scope reservation (held item)
    ≡ committed spent project_scope + counted project_scope reservation 40
unfolding String_discrete
resolve-committed_example =
    resolve-committed "s" resolution spent (with_item spent "a" resolved_item)
      (receipt (with_item spent "a" resolved_item) "a" resolved_item) (budget_resolved resolution)
      [] item project_scope refl resolves_once

abbrev looped : Dict String String
looped = ("r", "q") ∷ ("q", "r") ∷ []

looped_root : root_of blank looped "r" ≡ err (value_error "Missing parent Run")
unfolding String_discrete root_of climb get_run_identity
looped_root = refl
