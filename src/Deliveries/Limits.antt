-- ===== src/Deliveries/Limits.antt =====
-- When a delivery may go on: `delivery_limit_reason` of eventide/delivery_limits.py.
use eventide.Prelude.{
  ℕ, ◌+◌, ◌<◌, ◌≡◌, ◌↔◌, refl, String, List, [], ◌∷◌, none, some, Bool, true, false, ◌==◌,
  string_eq, sum_of, count_of, not, arith, if◌then◌else◌,
}
use eventide.Runtime.{ok, >>=-eq-ok, ok-injective}
use eventide.Facts.{Usage, UsageSource, reported, estimated, unknown}
use eventide.Store.State.{Store, Event}
use eventide.Usage.{no_usage, value}
use eventide.Usage.Ledger.{Collected, collect_all, new_runs}
use eventide.Usage.Rows.{Row, attempt_rows, legacy_rows}
use eventide.Usage.Totals.{
  UsageLedger, add_usage, totals_of, is_source, ledger_of, build_usage_ledger,
}
use eventide.Deliveries.{
  RepairLimits, LimitView, or_zero, is_working, observed_tokens, model_calls, reason_within,
  delivery_usage, delivery_limit_reason,
}

-- The input and the output of a call, where the provider has reported them.
abbrev pub reported_tokens : UsageSource → Usage → ℕ
reported_tokens reported u = value u.input_tokens + value u.output_tokens
reported_tokens estimated u = 0
reported_tokens unknown u = 0

abbrev pub tokens_of : List Row → ℕ
tokens_of = sum_of (λ r. reported_tokens r.usage_source r.usage)

-- The model requests among calls, embeddings aside.
abbrev pub requests_in : List Row → ℕ
requests_in [] = 0
requests_in (r ∷ rows) = (if r.kind == "embedding" then 0 else 1) + requests_in rows

-- A request of a kind may be admitted, by the limits of its delivery.
pub record IsOpen (limits : RepairLimits) (view : LimitView) (kind : String) : Type 0 where
  pub unfinished : view.finished ≡ false
  pub owned : is_working view.owner ≡ true
  pub in_time : view.now < limits.deadline
  pub tokens : tokens_of view.ledger.calls < limits.observed_tokens
  pub attempts :
      ((kind == "embedding") ≡ false) → requests_in view.ledger.calls < limits.model_attempts

-- What is under way may go on.
abbrev pub MayGoOn : RepairLimits → LimitView → Type 0
MayGoOn limits view =
    (view.now < limits.deadline) × (tokens_of view.ledger.calls < limits.observed_tokens)

abbrev both : Usage → ℕ
both t = or_zero t.input_tokens + or_zero t.output_tokens

both-add_usage :
    (t u : Usage) → both (add_usage t u) ≡ both t + (value u.input_tokens + value u.output_tokens)
unfolding add_usage
both-add_usage t u = ground arith

-- A call of a source, for what comes after it.
add_if :
    (t u : Usage) (source : UsageSource)
    → both (if is_source reported source then add_usage t u else t)
      ≡ both t + reported_tokens source u
add_if t u reported = both-add_usage t u
add_if t u estimated = omega arith
add_if t u unknown = omega arith

both-totals_of :
    (t : Usage) (rows : List Row) → both (totals_of reported t rows) ≡ both t + tokens_of rows
unfolding totals_of
both-totals_of t [] = omega arith
both-totals_of t (r ∷ rows) =
    let after = if is_source reported r.usage_source then add_usage t r.usage else t in
    omega (arith, both-totals_of after rows, add_if t r.usage r.usage_source)

both-ledger_of :
    (calls : List Row) (c : Collected) (l : UsageLedger)
    → ledger_of calls c.authorities ≡ l
    → both l.reported_totals ≡ tokens_of l.calls
unfolding ledger_of
both-ledger_of calls c l same = rw (← same) (omega (arith, both-totals_of no_usage calls))

build-ledger_of :
    (f : Row → Bool) (events : List Event) (l : UsageLedger)
    → build_usage_ledger f events ≡ ok l
    → both l.reported_totals ≡ tokens_of l.calls
unfolding build_usage_ledger
build-ledger_of f events l h =
    let (c, _, h₁) = >>=-eq-ok (collect_all (new_runs events) _ events) _ h in
    let (attempts, _, h₂) = >>=-eq-ok (attempt_rows c.attempts) _ h₁ in
    let (legacy, _, h₃) = >>=-eq-ok (legacy_rows _) _ h₂ in both-ledger_of _ c l (ok-injective h₃)

model_calls-requests_in :
    (rows : List Row) → count_of (λ (c : Row). not (c.kind == "embedding")) rows ≡ requests_in rows
model_calls-requests_in [] = refl
model_calls-requests_in (r ∷ rows) = ground (arith, model_calls-requests_in rows)

reason_within-IsOpen :
    (limits : RepairLimits) (view : LimitView) (kind : String)
    → observed_tokens view.ledger ≡ tokens_of view.ledger.calls
    → model_calls view.ledger ≡ requests_in view.ledger.calls
    → (reason_within limits view kind true ≡ none) ↔ IsOpen limits view kind
reason_within-IsOpen limits view kind t m = (
  λ h. record {
    unfinished = ground arith;
    owned = ground arith;
    in_time = ground arith;
    tokens = ground (arith, t);
    attempts = λ k. ground (arith, m);
  },
  λ o. ground (arith, o.attempts, t, m),
)

-- Once a repair has started, a request for the delivery is let in exactly when the repair has not finished,
-- its control run is running or queued, the deadline lies ahead, the tokens that the provider has reported
-- for the delivery's calls, input and output together, are below their limit, and, for a request that is
-- no embedding, its calls that are no embeddings are fewer than their limit. Where nothing is admitted, it
-- may go on exactly when the deadline lies ahead and the tokens are below their limit.
pub delivery_limit_reason-IsOpen :
    (s : Store) (delivery_id : String) (limits : RepairLimits) (view : LimitView) (kind : String)
    → view.started ≡ some limits
    → delivery_usage s delivery_id ≡ ok view.ledger
    → ((delivery_limit_reason view kind true ≡ none) ↔ IsOpen limits view kind)
      × ((delivery_limit_reason view kind false ≡ none) ↔ MayGoOn limits view)
unfolding delivery_limit_reason delivery_usage
delivery_limit_reason-IsOpen s delivery_id limits view kind h usage =
    let t : observed_tokens view.ledger ≡ tokens_of view.ledger.calls =
      build-ledger_of _ _ view.ledger usage in
    let m : model_calls view.ledger ≡ requests_in view.ledger.calls =
      model_calls-requests_in view.ledger.calls in
    simp h (
      reason_within-IsOpen limits view kind t m,
      (λ k. (ground arith, ground (arith, t)), λ (now, tokens). ground (arith, t)),
    )
