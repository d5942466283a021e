-- ===== src/Budgets/Totals.antt =====
-- Decisions of `settle` of eventide/budgets.py against the log that they write.
use eventide.Prelude.{
  String, ◌≡◌, refl, ◌⊎◌, inl, inr, List, [], ◌∷◌, Option, none, some, true, false, lookup,
  string_eq, arith, Bool-cases,
}
use eventide.Runtime.{scope_eq, ok, >>=-eq-ok, raise_if-bind}
use eventide.Facts.{Fact, budget_settled, Settlement, Attempt, Usage, UsageSource}
use eventide.Usage.{Snapshot, usage_snapshot}
use eventide.Budgets.Ledger.{State, Item, seen, settled, change_eq, fold, apply, Receipt}
use eventide.Budgets.Operations.{with_item}
use eventide.Budgets.Settling.{
  apply_settlement, cannot_settle, settlement_of, decide_settle, finished_fact, owned, wrong_run,
  wrong_basis,
}

-- The same accounts, whatever changes have been seen.
pub record SameAccounts (a b : State) : Type 0 where
  pub limits : a.limits ≡ b.limits
  pub requests : a.requests ≡ b.requests
  pub reservations : a.reservations ≡ b.reservations

abbrev pub settle_with : Item → Settlement → Item
settle_with item payload = record item { settlement = some payload }

-- What a settlement has done: nothing, where it is seen already, or one new fact.
abbrev pub Settles :
    State → String → Item → Settlement → Option Attempt → List Fact → State → Type 0
Settles s a item payload finished facts s' =
    ((seen (settled payload) s.seen_changes ≡ true) × (facts ≡ []) × (s' ≡ s))
    ⊎ ((seen (settled payload) s.seen_changes ≡ false)
        × (cannot_settle item payload ≡ false)
        × (facts ≡ budget_settled payload ∷ finished_fact finished)
        × (s' ≡ with_item s a (settle_with item payload)))

pub apply_settlement_inv :
    (s s' : State) (a : String) (item : Item) (payload : Settlement) (finished : Option Attempt)
    (r : Receipt) (facts : List Fact)
    → apply_settlement s a item payload finished ≡ ok (r, facts, s')
    → Settles s a item payload finished facts s'
unfolding apply_settlement
apply_settlement_inv s s' a item payload finished r facts h =
    elim (Bool-cases (seen (settled payload) s.seen_changes)) [
      | inl old ↦ inl (old, ground arith, ground arith)
      | inr new ↦ inr (new, ground arith, ground arith, ground arith)
    ]

fold-finished : (t : State) (finished : Option Attempt) → fold t (finished_fact finished) ≡ ok t
unfolding finished_fact fold apply
fold-finished t none = refl
fold-finished t (some f) = refl

abbrev settled_state : State → Item → Settlement → State
settled_state s item payload = record (with_item s payload.attempt_id (settle_with item payload)) {
  seen_changes = settled payload ∷ s.seen_changes;
}

-- The projection makes of a settlement that may be made what the decision makes of it.
apply-settled :
    (s : State) (item : Item) (payload : Settlement)
    → lookup payload.attempt_id s.reservations ≡ some item
    → seen (settled payload) s.seen_changes ≡ false
    → cannot_settle item payload ≡ false
    → apply s (budget_settled payload) ≡ ok (settled_state s item payload)
unfolding apply cannot_settle
apply-settled s item payload there new can = ground arith

settlement-fold :
    (s s' : State) (item : Item) (payload : Settlement) (finished : Option Attempt) (r : Receipt)
    (facts : List Fact)
    → lookup payload.attempt_id s.reservations ≡ some item
    → apply_settlement s payload.attempt_id item payload finished ≡ ok (r, facts, s')
    → (t : State) × (fold s facts ≡ ok t) × SameAccounts t s'
unfolding fold
settlement-fold s s' item payload finished r facts there h =
    elim (apply_settlement_inv s s' payload.attempt_id item payload finished r facts h) [
      | inl (_, nothing, same) ↦ (
        s,
        rw nothing refl,
        rw same (record { limits = refl; requests = refl; reservations = refl }),
      )
      | inr (new, can, wrote, after) ↦ (
        settled_state s item payload,
        rw (wrote, apply-settled s item payload there new can) (fold-finished _ finished),
        rw after (record { limits = refl; requests = refl; reservations = refl }),
      )
    ]

pub owned_item :
    (s : State) (sid a : String) (item : Item)
    → owned s sid a ≡ ok item
    → lookup a s.reservations ≡ some item
unfolding owned
owned_item s sid a item h = ground arith

-- The parts of a decision to settle.
pub decide_settle_inv :
    (sid a : String) (observed : Usage) (source : UsageSource) (run_id : Option String)
    (finished : Option Attempt) (s s' : State) (r : Receipt) (facts : List Fact)
    → decide_settle sid a observed source run_id finished s ≡ ok (r, facts, s')
    → (item : Item) × (lookup a s.reservations ≡ some item)
      × ((snapshot : Snapshot) × (usage_snapshot observed (some source) item.reservation.usage_basis
            ≡ ok snapshot)
          × (apply_settlement s a item
                (settlement_of a observed source item.reservation.usage_basis snapshot)
                finished
              ≡ ok (r, facts, s')))
unfolding decide_settle
decide_settle_inv sid a observed source run_id finished s s' r facts h =
    let (item, mine, h₁) = >>=-eq-ok (owned s sid a) _ h in
    let (_, h₂) = raise_if-bind (wrong_run run_id item.reservation.run_id) _ _ h₁ in
    let (_, h₃) = raise_if-bind (wrong_basis finished item.reservation.usage_basis) _ _ h₂ in
    let (snapshot, snapped, h₄) = >>=-eq-ok (usage_snapshot observed (some source) _) _ h₃ in
    (item, owned_item s sid a item mine, (snapshot, snapped, h₄))

-- After a settlement is decided and its facts are written, the projection of the longer log finds
-- the limits, requests and reservations that the decision was answered with.
pub settle-fold :
    (sid a : String) (observed : Usage) (source : UsageSource) (run_id : Option String)
    (finished : Option Attempt) (s s' : State) (r : Receipt) (facts : List Fact)
    → decide_settle sid a observed source run_id finished s ≡ ok (r, facts, s')
    → (t : State) × (fold s facts ≡ ok t) × SameAccounts t s'
unfolding settlement_of
settle-fold sid a observed source run_id finished s s' r facts h =
    let (item, there, (snapshot, _, done)) =
      decide_settle_inv sid a observed source run_id finished s s' r facts h in
    settlement-fold s s' item (settlement_of a observed source _ snapshot) finished r facts there
      done
