-- ===== src/Budgets/Limits.antt =====
-- The committed tokens of eventide/budgets.py over a reservation, against the limits.
use eventide.Prelude.{
  ℕ, ◌+◌, ◌≤◌, ◌≡◌, refl, List, [], ◌∷◌, Option, none, some, Bool, true, false, lookup, has,
  insert_new, values, values-append, select, sum_of, sum_of-append, string_eq, arith, if◌then◌else◌,
}
use eventide.Runtime.{BudgetScope, scope_eq, Result, ok}
use eventide.Facts.{Fact, Reservation, Attempt}
use eventide.Budgets.Ledger.{
  State, Item, bucket, committed, amount, in_scopes, held, actual, limit_of, Receipt,
}
use eventide.Budgets.Operations.{
  decide_reserve, within_limits, violations, violates, with_item, fresh_item,
}

-- What one item adds to a scope.
abbrev pub share : BudgetScope → Item → ℕ
share scope item = if in_scopes scope item.reservation.scopes then actual item + held item else 0

sum_of-select :
    (scope : BudgetScope) (items : List Item)
    → sum_of actual (select (λ i. in_scopes scope i.reservation.scopes) items)
        + sum_of held (select (λ i. in_scopes scope i.reservation.scopes) items)
      ≡ sum_of (share scope) items
sum_of-select scope [] = refl
sum_of-select scope (i ∷ items) = ground (arith, sum_of-select scope items)

-- The committed tokens of a scope are the sum of the shares.
pub committed-eq-sum_of :
    (s : State) (scope : BudgetScope)
    → committed s scope ≡ sum_of (share scope) (values s.reservations)
unfolding committed
committed-eq-sum_of s scope = sum_of-select scope (values s.reservations)

share-fresh :
    (scope : BudgetScope) (payload : Reservation)
    → share scope (fresh_item payload)
      ≡ (if in_scopes scope payload.scopes then payload.reserved_tokens else 0)
unfolding amount
share-fresh scope payload = ground arith

-- A new reservation adds its tokens to each of its scopes, and nothing to the others.
pub committed-fresh :
    (s : State) (scope : BudgetScope) (payload : Reservation)
    → has payload.attempt_id s.reservations ≡ false
    → committed (with_item s payload.attempt_id (fresh_item payload)) scope
      ≡ committed s scope + (if in_scopes scope payload.scopes then payload.reserved_tokens else 0)
committed-fresh s scope payload new =
    rw
      (
        committed-eq-sum_of s scope,
        committed-eq-sum_of (with_item s payload.attempt_id (fresh_item payload)) scope,
        insert_new payload.attempt_id (fresh_item payload) s.reservations new,
        values-append s.reservations ((payload.attempt_id, fresh_item payload) ∷ []),
        sum_of-append (share scope) (values s.reservations) (fresh_item payload ∷ []),
      )
      (omega (arith, share-fresh scope payload))

-- No scope of a list is over its limit with these tokens.
abbrev Fits : State → ℕ → List BudgetScope → Type 0
Fits s tokens [] = Unit
Fits s tokens (scope ∷ scopes) = (violates (bucket s scope) tokens ≡ false) × Fits s tokens scopes

violations-nil :
    (s : State) (tokens : ℕ) (scopes : List BudgetScope)
    → violations s tokens scopes ≡ []
    → Fits s tokens scopes
unfolding violations
violations-nil s tokens [] h = tt
violations-nil s tokens (scope ∷ scopes) h = ground (arith, violations-nil s tokens scopes)

Fits-limit :
    (s : State) (tokens limit : ℕ) (scopes : List BudgetScope) (scope : BudgetScope)
    → Fits s tokens scopes
    → in_scopes scope scopes ≡ true
    → limit_of s scope ≡ some limit
    → committed s scope + tokens ≤ limit
unfolding violates bucket
Fits-limit s tokens limit [] scope h i l = cc
Fits-limit s tokens limit (x ∷ scopes) scope h i l =
    ground (arith, Fits-limit s tokens limit scopes scope h.1)

-- What an accepted reservation has passed.
pub decide_reserve_inv :
    (validate : List Item → Result (Unit {0})) (payload : Reservation) (dated : Bool)
    (started : Option Attempt) (s s' : State) (r : Receipt) (facts : List Fact)
    → lookup payload.attempt_id s.reservations ≡ none
    → decide_reserve validate payload dated started s ≡ ok (r, facts, s')
    → (violations s payload.reserved_tokens payload.scopes ≡ [])
      × (validate (values s.reservations) ≡ ok tt)
      × (s' ≡ with_item s payload.attempt_id (fresh_item payload))
unfolding decide_reserve within_limits
decide_reserve_inv validate payload dated started s s' r facts new h = ground arith

-- When a reservation that is not a replay is accepted, each of its scopes that has a limit holds at
-- most that limit afterwards, the reserved tokens included.
pub reserve-le-limit :
    (validate : List Item → Result (Unit {0})) (payload : Reservation) (dated : Bool)
    (started : Option Attempt) (s s' : State) (r : Receipt) (facts : List Fact)
    (scope : BudgetScope) (limit : ℕ)
    → lookup payload.attempt_id s.reservations ≡ none
    → decide_reserve validate payload dated started s ≡ ok (r, facts, s')
    → in_scopes scope payload.scopes ≡ true
    → limit_of s scope ≡ some limit
    → committed s' scope ≤ limit
reserve-le-limit validate payload dated started s s' r facts scope limit new h i l =
    let (none_over, _, after) =
      decide_reserve_inv validate payload dated started s s' r facts new h in
    let fits : committed s scope + payload.reserved_tokens ≤ limit =
      Fits-limit s payload.reserved_tokens limit payload.scopes scope
        (violations-nil s payload.reserved_tokens payload.scopes none_over) i l in
    let absent : has payload.attempt_id s.reservations ≡ false = rw (new, has) refl in
    rw after (rw (committed-fresh s scope payload absent, i) fits)
