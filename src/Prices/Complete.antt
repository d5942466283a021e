-- ===== src/Prices/Complete.antt =====
-- What a summary of `summarize_cost_events` in eventide/budget_prices.py that is complete has counted.
use eventide.Prelude.{
  ◌≡◌, refl, sym, ◌∙◌, ap, inl, inr, String, List, [], ◌∷◌, Option, none, some, Bool, true, false,
  not, ◌&&◌, ◌||◌, ◌==◌, string_eq, if◌then◌else◌, any, all, select, length, count_of, Dict, lookup,
  has, values, lookup-insert, Option-cases, arith,
}
use eventide.Store.State.{contains}
use eventide.Store.Sets.{contains-add_id, contains-sorted}
use eventide.Prices.Estimates.{Estimate}
use eventide.Prices.Summary.{
  SummaryEvent, was_reserved, was_estimated, Gathered, gather, gather_all, nothing_gathered,
  unpriced_ids, is_empty, is_final, is_estimated, summarize_cost_events,
}

abbrev pub reserves_it : String → SummaryEvent → Bool
reserves_it k (was_reserved attempt_id) = k == attempt_id
reserves_it k _ = false

abbrev pub estimates_it : String → SummaryEvent → Option Estimate
estimates_it k (was_estimated e) = if k == e.intent.attempt_id then some e else none
estimates_it k _ = none

abbrev pub or_earlier : Option Estimate → Option Estimate → Option Estimate
or_earlier none earlier = earlier
or_earlier (some e) earlier = some e

-- The last estimate of an attempt.
abbrev pub last_estimate : String → List SummaryEvent → Option Estimate
last_estimate k [] = none
last_estimate k (e ∷ events) = or_earlier (last_estimate k events) (estimates_it k e)

or_earlier_assoc :
    (a b c : Option Estimate) → or_earlier (or_earlier a b) c ≡ or_earlier a (or_earlier b c)
or_earlier_assoc none b c = refl
or_earlier_assoc (some a) b c = refl

gather-latest :
    (k : String) (e : SummaryEvent) (g : Gathered)
    → lookup k (gather e g).latest ≡ or_earlier (estimates_it k e) (lookup k g.latest)
gather-latest k (was_reserved attempt_id) g = refl
gather-latest k (was_estimated e) g = ground (arith, lookup-insert e.intent.attempt_id k e g.latest)

gather_all-latest :
    (k : String) (events : List SummaryEvent) (g : Gathered)
    → lookup k (gather_all events g).latest
      ≡ or_earlier (last_estimate k events) (lookup k g.latest)
gather_all-latest k [] g = refl
gather_all-latest k (e ∷ events) g =
    gather_all-latest k events (gather e g)
    ∙ ap (or_earlier (last_estimate k events)) (gather-latest k e g)
    ∙ sym (or_earlier_assoc (last_estimate k events) (estimates_it k e) (lookup k g.latest))

gather-attempts :
    (k : String) (e : SummaryEvent) (g : Gathered)
    → contains k (gather e g).attempts ≡ (reserves_it k e || contains k g.attempts)
gather-attempts k (was_reserved attempt_id) g = contains-add_id k attempt_id g.attempts
gather-attempts k (was_estimated e) g = refl

gather_all-attempts :
    (k : String) (events : List SummaryEvent) (g : Gathered)
    → contains k (gather_all events g).attempts
      ≡ (any (reserves_it k) events || contains k g.attempts)
gather_all-attempts k [] g = refl
gather_all-attempts k (e ∷ events) g =
    ground (arith, gather_all-attempts k events (gather e g), gather-attempts k e g)

contains-select :
    (k : String) (p : String → Bool) (ids : List String)
    → contains k (select p ids) ≡ (p k && contains k ids)
contains-select k p [] = ground arith
contains-select k p (i ∷ ids) = ground (arith, contains-select k p ids)

all-lookup :
    (p : Estimate → Bool) (k : String) (d : Dict String Estimate) (e : Estimate)
    → all p (values d) ≡ true
    → lookup k d ≡ some e
    → p e ≡ true
all-lookup p k [] e h f = absurd (ground arith)
all-lookup p k ((j, v) ∷ d) e h f = ground (arith, all-lookup p k d e)

none_incomplete :
    (es : List Estimate)
    → all is_final es ≡ true
    → count_of (λ (e : Estimate). not e.complete) es ≡ 0
none_incomplete [] h = refl
none_incomplete (e ∷ es) h = ground (arith, none_incomplete es)

none_estimated :
    (es : List Estimate)
    → all is_final es ≡ true
    → count_of (λ (e : Estimate). is_estimated e.usage_source) es ≡ 0
none_estimated [] h = refl
none_estimated (e ∷ es) h = ground (arith, none_estimated es)

-- The last estimate of the attempt is complete and of reported usage.
abbrev pub IsCosted : List SummaryEvent → String → Type 0
IsCosted events attempt_id =
    (e : Estimate) × (last_estimate attempt_id events ≡ some e) × (is_final e ≡ true)

nothing_in : (k : String) (ids : List String) → is_empty ids ≡ true → contains k ids ≡ false
nothing_in k [] h = refl
nothing_in k (i ∷ ids) h = absurd (ground arith)

length-is_empty : (ids : List String) → is_empty ids ≡ true → length ids ≡ 0
length-is_empty [] h = refl
length-is_empty (i ∷ ids) h = absurd (ground arith)

gathered-IsCosted :
    (events : List SummaryEvent) (attempt_id : String)
    → (let g = gather_all events nothing_gathered in
        (is_empty (unpriced_ids g) ≡ true) × (all is_final (values g.latest) ≡ true))
    → any (reserves_it attempt_id) events ≡ true
    → IsCosted events attempt_id
gathered-IsCosted events attempt_id (priced, final) reserved =
    let g = gather_all events nothing_gathered in
    let unpriced : String → Bool = λ k. not (has k g.latest) in
    let gone = nothing_in attempt_id (unpriced_ids g) priced in
    let known = contains-sorted attempt_id (select unpriced g.attempts) in
    let chosen = contains-select attempt_id unpriced g.attempts in
    let attempted = gather_all-attempts attempt_id events nothing_gathered in
    let found = gather_all-latest attempt_id events nothing_gathered in
    elim (Option-cases (last_estimate attempt_id events)) [
      | inl missing ↦ absurd (ground arith)
      | inr (e, last) ↦ (
        e,
        last,
        all-lookup is_final attempt_id g.latest e final (found ∙ ap (λ o. or_earlier o none) last),
      )
    ]

-- A summary of costs that calls itself complete is: whatever events it is made of, the last estimate
-- of every attempt that they reserve is complete and of reported usage, and no attempt is counted
-- as unknown or as estimated.
pub summarize_cost_events-IsCosted :
    (zero_amount : String) (add : String → String → String) (events : List SummaryEvent)
    → (summarize_cost_events zero_amount add events).complete ≡ true
    → (attempt_id : String) → any (reserves_it attempt_id) events ≡ true
    → IsCosted events attempt_id
      × ((summarize_cost_events zero_amount add events).unknown_attempts ≡ 0)
      × ((summarize_cost_events zero_amount add events).estimated_attempts ≡ 0)
unfolding summarize_cost_events
summarize_cost_events-IsCosted zero_amount add events complete attempt_id reserved =
    let g = gather_all events nothing_gathered in
    let priced : is_empty (unpriced_ids g) ≡ true = ground arith in
    let final : all is_final (values g.latest) ≡ true = ground arith in
    (
      gathered-IsCosted events attempt_id (priced, final) reserved,
      omega
          (arith, length-is_empty (unpriced_ids g) priced, none_incomplete (values g.latest) final),
      none_estimated (values g.latest) final,
    )
