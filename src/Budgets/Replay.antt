-- ===== src/Budgets/Replay.antt =====
-- Decisions of `reserve` of eventide/budgets.py against the log that they write, and replays.
use eventide.Prelude.{
  String, ◌≡◌, refl, sym, ap, subst, ◌∙◌, ◌==◌, List, [], ◌∷◌, Option, some, Bool, true, false,
  lookup, insert, Bool-cases, lookup-insert, string_eq, ==-refl, arith, inl, inr, Option-cases,
}
use eventide.Runtime.{BudgetScope, scope_eq, Result, ok, ◌>>=◌, >>=-eq-ok, ok-injective}
use eventide.Facts.{
  Fact, budget_configured, budget_reserved, budget_settled, budget_resolved, Reservation, Attempt,
  basis_eq,
}
use eventide.Budgets.Ledger.{State, Item, apply, fold, seen, settled, resolved, Receipt, receipt}
use eventide.Budgets.Operations.{
  decide_reserve, replay_reservation, within_limits, violations, with_item, fresh_item,
  same_request,
}

-- The log after an accepted or replayed reservation folds to the very state that was decided.
pub reserve-fold :
    (validate : List Item → Result (Unit {0})) (payload : Reservation) (dated : Bool)
    (started : Option Attempt) (s s' : State) (r : Receipt) (facts : List Fact)
    → decide_reserve validate payload dated started s ≡ ok (r, facts, s')
    → fold s facts ≡ ok s'
unfolding decide_reserve within_limits replay_reservation fold apply
reserve-fold validate payload dated started s s' r facts h = ground arith

-- A reservation of an attempt, with whatever has become of it.
abbrev pub Stands : String → Reservation → State → Type 0
Stands a original s =
    (item : Item) × (lookup a s.reservations ≡ some item) × (item.reservation ≡ original)

same_request_refl : (a : Reservation) → same_request a a ≡ true
unfolding same_request
same_request_refl a = simp ==-refl

lookup-with_item :
    (s : State) (a : String) (i : Item) → lookup a (with_item s a i).reservations ≡ some i
lookup-with_item s a i = rw (lookup-insert a a i s.reservations, ==-refl a) refl

insert-Stands :
    (a k : String) (original : Reservation) (s : State) (new : Item)
    → Stands a original s
    → ((old : Item) → lookup k s.reservations ≡ some old → new.reservation ≡ old.reservation)
    → (item : Item) × (lookup a (insert k new s.reservations) ≡ some item)
      × (item.reservation ≡ original)
insert-Stands a k original s new (item, there, same) keeps = elim (Bool-cases (a == k)) [
  | inl it ↦
      let e : a ≡ k = ground arith in
      (new, rw (lookup-insert k a new s.reservations, it) refl, keeps item (rw (← e) there) ∙ same)
  | inr other ↦ (item, rw (lookup-insert k a new s.reservations, other) there, same)
]

same_reservations :
    (a : String) (original : Reservation) (s s' : State)
    → Stands a original s
    → s.reservations ≡ s'.reservations
    → Stands a original s'
same_reservations a original s s' (item, there, same) e = (item, rw (← e) there, same)

inserted :
    (a k : String) (original : Reservation) (s s' : State) (new : Item)
    → Stands a original s
    → ((old : Item) → lookup k s.reservations ≡ some old → new.reservation ≡ old.reservation)
    → insert k new s.reservations ≡ s'.reservations
    → Stands a original s'
inserted a k original s s' new h keeps e =
    let (item, there, same) = insert-Stands a k original s new h keeps in
    (item, rw (← e) there, same)

apply-Stands :
    (a : String) (original : Reservation) (s s' : State) (f : Fact)
    → Stands a original s
    → apply s f ≡ ok s'
    → Stands a original s'
unfolding apply
apply-Stands a original s s' (budget_configured payload) h e =
    let same : s.reservations ≡ s'.reservations = ground arith in
    same_reservations a original s s' h same
apply-Stands a original s s' (budget_reserved payload) h e =
    elim (Option-cases (lookup payload.attempt_id s.reservations)) [
      | inr (prior, there) ↦
          let same : s.reservations ≡ s'.reservations = ground arith in
          same_reservations a original s s' h same
      | inl new ↦
          let after : insert payload.attempt_id (fresh_item payload) s.reservations
              ≡ s'.reservations =
            ground arith in
          inserted a payload.attempt_id original s s' (fresh_item payload) h (λ old there. cc) after
    ]
apply-Stands a original s s' (budget_settled payload) h e =
    elim (Bool-cases (seen (settled payload) s.seen_changes)) [
      | inl known ↦
          let same : s.reservations ≡ s'.reservations = ground arith in
          same_reservations a original s s' h same
      | inr fresh ↦ elim (Option-cases (lookup payload.attempt_id s.reservations)) [
        | inl nothing ↦ absurd (ground arith)
        | inr (item, there) ↦
            let new : Item = record item { settlement = some payload } in
            let after : insert payload.attempt_id new s.reservations ≡ s'.reservations =
              ground arith in
            inserted a payload.attempt_id original s s' new h
              (λ old found. let it : item ≡ old = cc in ap (λ (i : Item). i.reservation) it) after
      ]
    ]
apply-Stands a original s s' (budget_resolved payload) h e =
    elim (Bool-cases (seen (resolved payload) s.seen_changes)) [
      | inl known ↦
          let same : s.reservations ≡ s'.reservations = ground arith in
          same_reservations a original s s' h same
      | inr fresh ↦ elim (Option-cases (lookup payload.attempt_id s.reservations)) [
        | inl nothing ↦ absurd (ground arith)
        | inr (item, there) ↦
            let new : Item = record item { resolution = some payload } in
            let after : insert payload.attempt_id new s.reservations ≡ s'.reservations =
              ground arith in
            inserted a payload.attempt_id original s s' new h
              (λ old found. let it : item ≡ old = cc in ap (λ (i : Item). i.reservation) it) after
      ]
    ]
apply-Stands a original s s' _ h e = subst (Stands a original) (ok-injective e) h

fold-Stands :
    (a : String) (original : Reservation) (s s' : State) (facts : List Fact)
    → Stands a original s
    → fold s facts ≡ ok s'
    → Stands a original s'
unfolding fold
fold-Stands a original s s' [] h e = subst (Stands a original) (ok-injective e) h
fold-Stands a original s s' (f ∷ facts) h e =
    let (t, first, rest) = >>=-eq-ok (apply s f) _ e in
    fold-Stands a original t s' facts (apply-Stands a original s t f h first) rest

-- The reservation that stands after a call for it, and that it asks for the same.
abbrev IsGranted : Reservation → State → Type 0
IsGranted payload s =
    (original : Reservation) × (same_request original payload ≡ true)
    × ((original.usage_basis == payload.usage_basis) ≡ true)
    × Stands payload.attempt_id original s

replay_reservation-IsGranted :
    (payload : Reservation) (dated : Bool) (s s' : State) (prior : Item) (r : Receipt)
    (facts : List Fact)
    → lookup payload.attempt_id s.reservations ≡ some prior
    → replay_reservation payload dated s prior ≡ ok (r, facts, s')
    → IsGranted payload s'
unfolding replay_reservation
replay_reservation-IsGranted payload dated s s' prior r facts there h =
    let same : s ≡ s' = ground arith in
    (
      prior.reservation,
      ground arith,
      ground arith,
      subst (Stands payload.attempt_id prior.reservation) same (prior, there, refl),
    )

within_limits-IsGranted :
    (payload : Reservation) (started : Option Attempt) (s s' : State) (r : Receipt)
    (facts : List Fact) (validated : Result (Unit {0}))
    → (validated >>= λ _.
        within_limits s payload started (violations s payload.reserved_tokens payload.scopes))
      ≡ ok (r, facts, s')
    → IsGranted payload s'
unfolding within_limits
within_limits-IsGranted payload started s s' r facts validated h =
    let after : with_item s payload.attempt_id (fresh_item payload) ≡ s' = ground arith in
    (
      payload,
      same_request_refl payload,
      ==-refl payload.usage_basis,
      subst (Stands payload.attempt_id payload) after
          (fresh_item payload, lookup-with_item s payload.attempt_id (fresh_item payload), refl),
    )

decide_reserve-IsGranted :
    (validate : List Item → Result (Unit {0})) (payload : Reservation) (dated : Bool)
    (started : Option Attempt) (s s' : State) (r : Receipt) (facts : List Fact)
    → decide_reserve validate payload dated started s ≡ ok (r, facts, s')
    → IsGranted payload s'
unfolding decide_reserve
decide_reserve-IsGranted validate payload dated started s s' r facts h =
    elim (Option-cases (lookup payload.attempt_id s.reservations)) [
      | inr (prior, there) ↦
          replay_reservation-IsGranted payload dated s s' prior r facts there
            (rw (there, decide_reserve) at h)
      | inl new ↦
          within_limits-IsGranted payload started s s' r facts _ (rw (new, decide_reserve) at h)
    ]

-- Asking again for a reservation that was granted, with the same content but for the time and the scopes
-- of the request, and without a time that the caller states, gives the receipt of the reservation as it
-- stands, writes nothing and changes nothing, whatever facts the log holds by then, and whatever the
-- context check says and the limits are.
pub reserve-reserve :
    (validate validate' : List Item → Result (Unit {0})) (payload : Reservation) (dated : Bool)
    (started started' : Option Attempt) (s s' s'' : State) (r : Receipt) (facts later : List Fact)
    (time : String) (charged : List BudgetScope)
    → decide_reserve validate payload dated started s ≡ ok (r, facts, s')
    → fold s' later ≡ ok s''
    → (item : Item) × (lookup payload.attempt_id s''.reservations ≡ some item)
      × (decide_reserve validate'
            (record payload { reserved_at = time; scopes = charged })
            false
            started'
            s''
          ≡ ok (receipt s'' payload.attempt_id item, [], s''))
unfolding decide_reserve replay_reservation same_request
reserve-reserve validate validate' payload dated started started' s s' s'' r facts later time
      charged h k =
    let (original, content, basis, stands) =
      decide_reserve-IsGranted validate payload dated started s s' r facts h in
    let (item, there, same) = fold-Stands payload.attempt_id original s' s'' later stands k in
    let content' : same_request item.reservation payload ≡ true =
      subst (λ o. same_request o payload ≡ true) (sym same) content in
    let basis' : (item.reservation.usage_basis == payload.usage_basis) ≡ true =
      subst (λ (o : Reservation). (o.usage_basis == payload.usage_basis) ≡ true) (sym same) basis in
    (item, there, rw (there, decide_reserve, basis', content') refl)
