-- ===== src/Prices/Replays.antt =====
-- Estimates are written once: `estimate_cost` of eventide/budget_prices.py.
use eventide.Prelude.{
  String, ◌≡◌, refl, ap, subst, ◌∙◌, inl, inr, List, [], ◌∷◌, ◌++◌, Option, none, some, true, false,
  not, ◌==◌, ==-refl, string_eq, Option-cases, arith,
}
use eventide.Runtime.{ok, >>=-eq-ok, raise_if-bind, or_raise, ok-injective}
use eventide.Prices.Estimates.{
  Intent, Estimate, CostFact, price_registered, cost_estimated, reserved, settled, ReservedAttempt,
  find_reservation, estimates_in, same_optional, same_intent, find_estimate, check_evaluation,
  Decimals, new_estimate, decide_new, decide_prior, decide_estimate,
}

find_reservation-append :
    (attempt_id : String) (f g : List CostFact) (r : ReservedAttempt)
    → find_reservation attempt_id f ≡ some r
    → find_reservation attempt_id (f ++ g) ≡ some r
find_reservation-append a [] g r h = cc
find_reservation-append a (reserved x ∷ f) g r h = ground (arith, find_reservation-append a f g r)
find_reservation-append a (price_registered x ∷ f) g r h = find_reservation-append a f g r h
find_reservation-append a (cost_estimated x ∷ f) g r h = find_reservation-append a f g r h
find_reservation-append a (settled x ∷ f) g r h = find_reservation-append a f g r h

estimates_in-append :
    (f g : List CostFact) → estimates_in (f ++ g) ≡ estimates_in f ++ estimates_in g
estimates_in-append [] g = refl
estimates_in-append (cost_estimated e ∷ f) g = ap (λ es. e ∷ es) (estimates_in-append f g)
estimates_in-append (price_registered x ∷ f) g = estimates_in-append f g
estimates_in-append (reserved x ∷ f) g = estimates_in-append f g
estimates_in-append (settled x ∷ f) g = estimates_in-append f g

find_estimate-append :
    (k : String) (xs ys : List Estimate) (e : Estimate)
    → find_estimate k xs ≡ some e
    → find_estimate k (xs ++ ys) ≡ some e
find_estimate-append k [] ys e h = cc
find_estimate-append k (x ∷ xs) ys e h = ground (arith, find_estimate-append k xs ys e)

find_estimate_new :
    (k : String) (xs ys : List Estimate) (e : Estimate)
    → find_estimate k xs ≡ none
    → (e.intent.estimate_id == k) ≡ true
    → find_estimate k (xs ++ e ∷ ys) ≡ some e
find_estimate_new k [] ys e h m = rw m refl
find_estimate_new k (x ∷ xs) ys e h m = ground (arith, find_estimate_new k xs ys e)

same_optional_refl : (o : Option String) → same_optional o o ≡ true
same_optional_refl none = refl
same_optional_refl (some s) = ==-refl s

same_intent_refl : (i : Intent) → same_intent i i ≡ true
unfolding same_intent
same_intent_refl i = ground (
  arith,
  ==-refl i.attempt_id,
  ==-refl i.provider,
  ==-refl i.model,
  ==-refl i.estimate_id,
  same_optional_refl i.reevaluation_of,
)

or_raise-ok :
    (o : Option ReservedAttempt) (message : String) (r : ReservedAttempt)
    → or_raise o message ≡ ok r
    → o ≡ some r
or_raise-ok none message r h = cc
or_raise-ok (some x) message r h = ap some (ok-injective h)

module _ (d : Decimals) (session_id : String) (i : Intent) where
  decide_estimate_inv :
      (facts : List CostFact) (e : Estimate) (new : List CostFact)
      → decide_estimate d session_id i facts ≡ ok (e, new)
      → (r : ReservedAttempt) × (find_reservation i.attempt_id facts ≡ some r)
        × (not (r.session_id == session_id) ≡ false)
        × (decide_prior d (find_estimate i.estimate_id (estimates_in facts)) session_id i r facts
            ≡ ok (e, new))
  unfolding decide_estimate
  decide_estimate_inv facts e new h =
      let (r, found, rest) =
        >>=-eq-ok (or_raise (find_reservation i.attempt_id facts) "Unknown attempt reservation") _
          h in
      let checked = raise_if-bind (not (r.session_id == session_id)) _ _ rest in
      (r, or_raise-ok _ _ r found, checked.0, checked.1)

  -- With an estimate of that identity and that intent in the log, it is returned.
  decide_estimate_known :
      (facts : List CostFact) (e : Estimate) (r : ReservedAttempt)
      → find_reservation i.attempt_id facts ≡ some r
      → not (r.session_id == session_id) ≡ false
      → find_estimate i.estimate_id (estimates_in facts) ≡ some e
      → not (same_intent e.intent i) ≡ false
      → decide_estimate d session_id i facts ≡ ok (e, [])
  unfolding decide_estimate
  decide_estimate_known facts e r found here known same = rw (found, here, known, same) refl

  decide_new-ok :
      (facts : List CostFact) (r : ReservedAttempt) (e : Estimate) (new : List CostFact)
      → decide_new d session_id i r facts ≡ ok (e, new)
      → (e.intent ≡ i) × (new ≡ cost_estimated e ∷ [])
  unfolding new_estimate
  decide_new-ok facts r e new h =
      let (_, _, rest) =
        >>=-eq-ok (check_evaluation i.reevaluation_of i (estimates_in facts)) _ h in
      ground arith

  -- The log afterwards holds the estimate, before whatever is appended later.
  found_later :
      (facts later : List CostFact) (e : Estimate) (new : List CostFact)
      → decide_estimate d session_id i facts ≡ ok (e, new)
      → (find_estimate i.estimate_id (estimates_in facts ++ estimates_in (new ++ later)) ≡ some e)
        × (not (same_intent e.intent i) ≡ false)
  found_later facts later e new h =
      let (r, _, _, prior) = decide_estimate_inv facts e new h in
      let before = estimates_in facts in
      elim (Option-cases (find_estimate i.estimate_id before)) [
        | inr (old, known) ↦
            let checked =
              raise_if-bind (not (same_intent old.intent i)) _ _ ((rw known at prior)) in
            let same : old ≡ e =
              ap (λ (q : Estimate × List CostFact). q.0) (ok-injective checked.1) in
            (
              find_estimate-append i.estimate_id before (estimates_in (new ++ later)) e
                  (known ∙ ap some same),
              subst (λ (x : Estimate). not (same_intent x.intent i) ≡ false) same checked.0,
            )
        | inl fresh ↦
            let (mine, written) = decide_new-ok facts r e new ((rw fresh at prior)) in
            (
              rw written (
                  find_estimate_new i.estimate_id before (estimates_in later) e fresh
                    (rw mine (==-refl i.estimate_id))),
              rw (mine, same_intent_refl i) refl,
            )
      ]

-- A cost is estimated once: whatever prices, settlements or other facts are appended after an
-- estimate, the same call returns that estimate, as it was, and appends nothing.
pub decide_estimate-decide_estimate :
    (d : Decimals) (session_id : String) (i : Intent) (facts later : List CostFact) (e : Estimate)
    (new : List CostFact)
    → decide_estimate d session_id i facts ≡ ok (e, new)
    → decide_estimate d session_id i (facts ++ (new ++ later)) ≡ ok (e, [])
decide_estimate-decide_estimate d session_id i facts later e new h =
    let (r, found, here, _) = decide_estimate_inv d session_id i facts e new h in
    let (known, same) = found_later d session_id i facts later e new h in
    decide_estimate_known d session_id i (facts ++ (new ++ later)) e r
      (find_reservation-append i.attempt_id facts (new ++ later) r found) here
      (rw (estimates_in-append facts (new ++ later)) known) same
