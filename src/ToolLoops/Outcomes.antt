-- ===== src/ToolLoops/Outcomes.antt =====
-- The outcomes in the window of eventide/tool_loops.py, against the results in the log.
use eventide.Prelude.{
  ℕ, zero, suc, ◌≡◌, refl, ap, ◌∙◌, inl, inr, String, List, [], ◌∷◌, Option, none, some, Bool, true,
  false, take, string_eq, nat_eq, arith, if◌then◌else◌, Bool-cases,
}
use eventide.Facts.{
  Fact, ToolOutcome, tool_completed, tool_outcome_unknown, workspace_checkpoint, truthy,
}
use eventide.Store.State.{Event}
use eventide.ToolLoops.{
  Outcome, Window, Candidate, is_result, signature_of, new_outcome, update_pending, push_outcome,
  window_step, window_of, judge, differs_from, opt_same, failure_window,
}

-- The results among the events, newest first, before those that were gathered already.
abbrev pub latest : List Event → List Event → List Event
latest results [] = results
latest results (e ∷ events) = latest (if is_result e then e ∷ results else results) events

abbrev pub signatures : List Outcome → List (Option String)
signatures [] = []
signatures (o ∷ os) = o.signature ∷ signatures os

abbrev pub marks : List Event → List (Option String)
marks [] = []
marks (e ∷ events) = signature_of e.fact ∷ marks events

signatures-update_pending :
    (pending : Bool) (checkpoint : Option String) (window : List Outcome)
    → signatures (update_pending pending checkpoint window) ≡ signatures window
unfolding update_pending
signatures-update_pending true checkpoint [] = refl
signatures-update_pending true checkpoint (o ∷ window) = refl
signatures-update_pending false checkpoint window = refl

signatures-take : (n : ℕ) (os : List Outcome) → signatures (take n os) ≡ take n (signatures os)
signatures-take zero os = refl
signatures-take (suc n) [] = refl
signatures-take (suc n) (o ∷ os) = ap (λ l. o.signature ∷ l) (signatures-take n os)

take-take-suc :
    {A : Type 0} (n : ℕ) (x : A) (xs : List A)
    → take (suc n) (x ∷ take (suc n) xs) ≡ take (suc n) (x ∷ xs)
take-take-suc zero x xs = refl
take-take-suc (suc n) x [] = refl
take-take-suc (suc n) x (y ∷ ys) = ap (λ l. x ∷ l) (take-take-suc n y ys)

-- The window shows what the latest results are.
abbrev pub Shows : Window → List Event → Type 0
Shows w results = signatures w.window ≡ take failure_window (marks results)

push-Shows :
    (w : Window) (e : Event) (o : ToolOutcome) (results : List Event)
    → Shows w results
    → Shows (push_outcome w e o) (e ∷ results)
unfolding push_outcome
push-Shows w e o results h =
    signatures-take failure_window (new_outcome w e o ∷ w.window)
    ∙ ap (λ l. take failure_window (signature_of e.fact ∷ l)) h
    ∙ take-take-suc 2 (signature_of e.fact) (marks results)

completed_step :
    (w : Window) (e : Event) (o : ToolOutcome)
    → e.partial ≡ false
    → e.fact ≡ tool_completed o
    → window_step w e ≡ push_outcome w e o
unfolding window_step
completed_step w e o whole eq = simp (whole, eq)

completed_result :
    (e : Event) (o : ToolOutcome)
    → e.partial ≡ false
    → e.fact ≡ tool_completed o
    → is_result e ≡ true
unfolding is_result
completed_result e o whole eq = rw (whole, eq, is_result) refl

unknown_step :
    (w : Window) (e : Event) (o : ToolOutcome)
    → e.partial ≡ false
    → e.fact ≡ tool_outcome_unknown o
    → window_step w e ≡ push_outcome w e o
unfolding window_step
unknown_step w e o whole eq = simp (whole, eq)

unknown_result :
    (e : Event) (o : ToolOutcome)
    → e.partial ≡ false
    → e.fact ≡ tool_outcome_unknown o
    → is_result e ≡ true
unfolding is_result
unknown_result e o whole eq = rw (whole, eq, is_result) refl

step-Shows :
    (w : Window) (e : Event) (results : List Event)
    → Shows w results
    → Shows (window_step w e) (if is_result e then e ∷ results else results)
unfolding window_step is_result
step-Shows w e results h = elim (Bool-cases e.partial) [
  | inl part ↦ rw (part, window_step, is_result) h
  | inr whole ↦ by_fact whole e.fact refl
]
  where
    by_fact :
        e.partial ≡ false
        → (f : Fact) → e.fact ≡ f
        → Shows (window_step w e) (if is_result e then e ∷ results else results)
    by_fact whole (workspace_checkpoint value) eq =
        rw (whole, eq, window_step, is_result) (signatures-update_pending w.pending _ w.window ∙ h)
    by_fact whole (tool_completed o) eq =
        rw (completed_step w e o whole eq)
          (rw (completed_result e o whole eq) (push-Shows w e o results h))
    by_fact whole (tool_outcome_unknown o) eq =
        rw (unknown_step w e o whole eq)
          (rw (unknown_result e o whole eq) (push-Shows w e o results h))
    by_fact whole f eq = rw (whole, eq, window_step, is_result) h

pub window_of-Shows :
    (w : Window) (events results : List Event)
    → Shows w results
    → Shows (window_of w events) (latest results events)
unfolding window_of
window_of-Shows w [] results h = h
window_of-Shows w (e ∷ events) results h =
    window_of-Shows (window_step w e) events _ (step-Shows w e results h)

opt_same_eq : (a b : Option String) → opt_same a b ≡ true → a ≡ b
opt_same_eq none none h = refl
opt_same_eq (some a) (some b) h = ground arith
opt_same_eq none (some b) h = cc
opt_same_eq (some a) none h = cc

-- Three outcomes with one signature.
pub judge_inv :
    (digest : String → String) (run_id : String) (window : List Outcome) (c : Candidate)
    → judge digest run_id window ≡ some c
    → (truthy c.failure_fingerprint ≡ true)
      × (signatures window
          ≡ c.failure_fingerprint ∷ c.failure_fingerprint ∷ c.failure_fingerprint ∷ [])
unfolding judge differs_from
judge_inv digest run_id [] c h = cc
judge_inv digest run_id (a ∷ []) c h = ground arith
judge_inv digest run_id (a ∷ b ∷ []) c h = ground arith
judge_inv digest run_id (a ∷ b ∷ d ∷ []) c h = (
  ground arith,
  ground (arith, opt_same_eq b.signature a.signature, opt_same_eq d.signature a.signature),
)
judge_inv digest run_id (a ∷ b ∷ d ∷ e ∷ window) c h = ground arith
