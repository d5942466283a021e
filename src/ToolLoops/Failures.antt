-- ===== src/ToolLoops/Failures.antt =====
-- The candidates of eventide/tool_loops.py, against the log.
use eventide.Prelude.{
  ◌≡◌, refl, sym, ◌∙◌, String, List, [], ◌∷◌, Option, none, some, true, ◌&&◌, take, arith,
  if◌then◌else◌,
}
use eventide.Facts.{Fact, ToolOutcome, tool_completed, truthy}
use eventide.Store.State.{Event, Store}
use eventide.ToolLoops.{
  Candidate, signature_of, failure_evidence, window_of, no_window, judge, history,
  failure_loop_candidate, failure_window,
}
use eventide.ToolLoops.Outcomes.{latest, marks, window_of-Shows, judge_inv}

-- A completed tool with this fingerprint of a failure that the metadata are evidence of.
pub record IsFailure (fingerprint : Option String) (e : Event) : Type 0 where
  pub outcome : ToolOutcome
  pub completed : e.fact ≡ tool_completed outcome
  pub is_error : outcome.is_error ≡ true
  pub evident : failure_evidence outcome.metadata ≡ true
  pub same : outcome.failure_fingerprint ≡ fingerprint

-- The three latest results, newest first, are such failures.
pub record AreFailures (fingerprint : Option String) (results : List Event) : Type 0 where
  pub newest : Event
  pub middle : Event
  pub oldest : Event
  pub earlier : List Event
  pub split : results ≡ newest ∷ middle ∷ oldest ∷ earlier
  pub first : IsFailure fingerprint newest
  pub second : IsFailure fingerprint middle
  pub third : IsFailure fingerprint oldest

signature-IsFailure :
    (fingerprint : Option String) (e : Event)
    → truthy fingerprint ≡ true
    → signature_of e.fact ≡ fingerprint
    → IsFailure fingerprint e
unfolding signature_of
signature-IsFailure fingerprint e t h = by_fact e.fact refl
  where
    by_fact : (f : Fact) → e.fact ≡ f → IsFailure fingerprint e
    by_fact (tool_completed o) eq =
        let h₁ : (if o.is_error && failure_evidence o.metadata then o.failure_fingerprint else none)
            ≡ fingerprint =
          rw (eq, signature_of) at h in
        record {
          outcome = o;
          completed = eq;
          is_error = ground arith;
          evident = ground arith;
          same = ground arith;
        }
    by_fact f eq = absurd (ground arith)

marked-AreFailures :
    (fingerprint : Option String) (results : List Event)
    → truthy fingerprint ≡ true
    → take failure_window (marks results) ≡ fingerprint ∷ fingerprint ∷ fingerprint ∷ []
    → AreFailures fingerprint results
marked-AreFailures fingerprint [] t h = cc
marked-AreFailures fingerprint (a ∷ []) t h = cc
marked-AreFailures fingerprint (a ∷ b ∷ []) t h = cc
marked-AreFailures fingerprint (a ∷ b ∷ c ∷ results) t h = record {
  newest = a;
  middle = b;
  oldest = c;
  earlier = results;
  split = refl;
  first = signature-IsFailure fingerprint a t (cc h);
  second = signature-IsFailure fingerprint b t (cc h);
  third = signature-IsFailure fingerprint c t (cc h);
}

candidate_inv :
    (digest : String → String) (s : Store) (run_id : String) (events : List Event) (c : Candidate)
    → history s run_id ≡ some events
    → failure_loop_candidate digest s run_id ≡ some (some c)
    → judge digest run_id (window_of no_window events).window ≡ some c
unfolding failure_loop_candidate
candidate_inv digest s run_id events c h k = ground arith

-- A candidate for a failure loop is real: in the events that the walk has gathered, the three
-- latest results are completed tools whose metadata are evidence of a failure, all three with the
-- candidate's fingerprint, which is not empty. One success or unknown outcome among them rules a
-- candidate out.
pub failure_loop_candidate-AreFailures :
    (digest : String → String) (s : Store) (run_id : String) (events : List Event) (c : Candidate)
    → history s run_id ≡ some events
    → failure_loop_candidate digest s run_id ≡ some (some c)
    → AreFailures c.failure_fingerprint (latest [] events) × (truthy c.failure_fingerprint ≡ true)
failure_loop_candidate-AreFailures digest s run_id events c h k =
    let (t, three) =
      judge_inv digest run_id (window_of no_window events).window c
        (candidate_inv digest s run_id events c h k) in
    (
      marked-AreFailures c.failure_fingerprint (latest [] events) t
          (sym (window_of-Shows no_window events [] refl) ∙ three),
      t,
    )
