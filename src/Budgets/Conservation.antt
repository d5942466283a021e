-- ===== src/Budgets/Conservation.antt =====
-- The committed tokens of eventide/budgets.py over a settlement and a manual resolution.
use eventide.Prelude.{
  ℕ, ◌+◌, ◌≤◌, String, ◌≡◌, ◌⊎◌, inl, inr, Option-cases, refl, List, [], ◌∷◌, Option, none, some,
  false, Dict, lookup, insert, values, sum_of, string_eq, arith, if◌then◌else◌,
}
use eventide.Runtime.{BudgetScope, ok, >>=-eq-ok}
use eventide.Facts.{Fact, Settlement, Resolution, Attempt, Usage, UsageSource, Reservation}
use eventide.Budgets.Ledger.{
  State, Item, committed, amount, in_scopes, held, actual, Receipt, receipt,
}
use eventide.Budgets.Operations.{with_item}
use eventide.Budgets.Settling.{
  apply_settlement, cannot_settle, settlement_of, decide_settle, owned, apply_resolution,
  decide_resolve,
}
use eventide.Budgets.Limits.{share, committed-eq-sum_of}
use eventide.Budgets.Totals.{decide_settle_inv, settle_with, owned_item}

sum_of-insert :
    (f : Item → ℕ) (a : String) (new old : Item) (d : Dict String Item)
    → lookup a d ≡ some old
    → sum_of f (values (insert a new d)) + f old ≡ sum_of f (values d) + f new
sum_of-insert f a new old [] h = cc
sum_of-insert f a new old ((k, i) ∷ d) h = ground (arith, sum_of-insert f a new old d)

-- The tokens `n` count towards the scopes of a reservation.
abbrev pub counted : BudgetScope → Reservation → ℕ → ℕ
counted scope r n = if in_scopes scope r.scopes then n else 0

-- An item whose total was unknown is replaced by one of the same reservation, whose total is `n`.
replace-committed :
    (s : State) (a : String) (old new : Item) (n : ℕ) (scope : BudgetScope)
    → lookup a s.reservations ≡ some old
    → (amount old).1 ≡ none
    → new.reservation ≡ old.reservation
    → (amount new).0 ≡ 0
    → (amount new).1 ≡ some n
    → committed (with_item s a new) scope + counted scope old.reservation (held old)
      ≡ committed s scope + counted scope old.reservation n
replace-committed s a old new n scope there open_ same none_held known =
    rw (committed-eq-sum_of s scope, committed-eq-sum_of (with_item s a new) scope)
      (ground (arith, sum_of-insert (share scope) a new old s.reservations))

-- What settles could be settled, so its total was unknown; and a known total holds nothing.
unsettled-none :
    (item : Item) (payload : Settlement)
    → cannot_settle item payload ≡ false
    → (amount item).1 ≡ none
unfolding cannot_settle amount
unsettled-none item payload h = ground arith

settled-held : (item : Item) (n : ℕ) → (amount item).1 ≡ some n → (amount item).0 ≡ 0
unfolding amount
settled-held item n h = ground arith

receipt-settled :
    (s s' : State) (a : String) (item : Item) (payload : Settlement) (finished : Option Attempt)
    (r : Receipt) (fact : Fact) (facts : List Fact)
    → apply_settlement s a item payload finished ≡ ok (r, fact ∷ facts, s')
    → (r.actual_tokens ≡ (amount (settle_with item payload)).1)
      × (cannot_settle item payload ≡ false)
      × (s' ≡ with_item s a (settle_with item payload))
unfolding apply_settlement receipt
receipt-settled s s' a item payload finished r fact facts h =
    (ground arith, ground arith, ground arith)

-- A settlement that is written and whose receipt has a total replaces, in every scope, what the
-- attempt held there by that total, and leaves the committed tokens of all other scopes alone.
pub settle-committed :
    (sid a : String) (observed : Usage) (source : UsageSource) (run_id : Option String)
    (finished : Option Attempt) (s s' : State) (r : Receipt) (fact : Fact) (facts : List Fact)
    (item : Item) (n : ℕ) (scope : BudgetScope)
    → lookup a s.reservations ≡ some item
    → decide_settle sid a observed source run_id finished s ≡ ok (r, fact ∷ facts, s')
    → r.actual_tokens ≡ some n
    → committed s' scope + counted scope item.reservation (held item)
      ≡ committed s scope + counted scope item.reservation n
settle-committed sid a observed source run_id finished s s' r fact facts item n scope there h
      known =
    let (item', there', (snapshot, _, done)) =
      decide_settle_inv sid a observed source run_id finished s s' r (fact ∷ facts) h in
    let same : item' ≡ item = cc in
    let payload = settlement_of a observed source item'.reservation.usage_basis snapshot in
    let (total, can, after) = receipt-settled s s' a item' payload finished r fact facts done in
    let amount_known : (amount (settle_with item' payload)).1 ≡ some n = cc in
    rw (← same) (
      rw after (
        replace-committed s a item' (settle_with item' payload) n scope there'
          (unsettled-none item' payload can) refl
          (settled-held (settle_with item' payload) n amount_known) amount_known))

resolution_inv :
    (s s' : State) (a : String) (item : Item) (payload : Resolution) (r : Receipt) (fact : Fact)
    (facts : List Fact)
    → apply_resolution s a item payload ≡ ok (r, fact ∷ facts, s')
    → ((amount item).1 ≡ none) × (s' ≡ with_item s a (record item { resolution = some payload }))
unfolding apply_resolution amount
resolution_inv s s' a item payload r fact facts h = (ground arith, ground arith)

-- A manual resolution that is written replaces, in every scope, what the attempt held there by the
-- tokens that it states, and leaves the committed tokens of all other scopes alone.
pub resolve-committed :
    (sid : String) (payload : Resolution) (s s' : State) (r : Receipt) (fact : Fact)
    (facts : List Fact) (item : Item) (scope : BudgetScope)
    → lookup payload.attempt_id s.reservations ≡ some item
    → decide_resolve sid payload s ≡ ok (r, fact ∷ facts, s')
    → committed s' scope + counted scope item.reservation (held item)
      ≡ committed s scope + counted scope item.reservation payload.actual_tokens
unfolding decide_resolve
resolve-committed sid payload s s' r fact facts item scope there h =
    let (item', mine, h₁) = >>=-eq-ok (owned s sid payload.attempt_id) _ h in
    let same : item' ≡ item = cc (owned_item s sid payload.attempt_id item' mine) in
    let h₂ = rw same at h₁ in
    let (open_, after) = resolution_inv s s' payload.attempt_id item payload r fact facts h₂ in
    rw after (
      replace-committed s payload.attempt_id item (record item { resolution = some payload })
        payload.actual_tokens scope there open_ refl (unfold amount in refl)
        (unfold amount in refl))

-- What is not known is never free: either an attempt's total is unknown and it holds at least the
-- tokens that were reserved for it, or its total is known, and it holds nothing and counts as that.
pub held-unknown :
    (item : Item)
    → (((amount item).1 ≡ none) × (item.reservation.reserved_tokens ≤ held item))
      ⊎ ((n : ℕ) × ((amount item).1 ≡ some n) × (held item ≡ 0) × (actual item ≡ n))
unfolding amount
held-unknown item = elim (Option-cases (amount item).1) [
  | inl unknown_ ↦ inl (unknown_, ground arith)
  | inr (n, known) ↦ inr (n, known, ground arith, ground arith)
]
