-- ===== src/ToolLoops/Chain.antt =====
-- The fuel of `_history` of eventide/tool_loops.py.
use eventide.Prelude.{
  ℕ, zero, suc, ◌+◌, ◌<◌, ◌≡◌, refl, inl, inr, String, List, [], ◌∷◌, ◌++◌, some, false, ◌||◌,
  lookup, keys, length, leb, count_of, ◌==◌, string_eq, arith, Bool-cases, Option-cases,
}
use eventide.Store.State.{Event, Store, Run, contains, run_events, get_run_identity, RunIdentity}
use eventide.Store.Visits.{unvisited, unvisited-lt, unvisited-nil, length-keys}
use eventide.ToolLoops.{
  history_from, history, is_result, continued, failure_window, failure_loop_candidate, judge,
  window_of, no_window,
}

identity-row :
    (s : Store) (run_id : String) (identity : RunIdentity)
    → get_run_identity s run_id ≡ some identity
    → (run : Run) × (lookup run_id s.runs ≡ some run)
unfolding get_run_identity
identity-row s run_id identity h = elim (Option-cases (lookup run_id s.runs)) [
  | inl missing ↦ ground arith
  | inr there ↦ there
]

history-some :
    (fuel : ℕ) (s : Store) (seen : List String) (count : ℕ) (later : List Event) (run_id : String)
    → unvisited seen (keys s.runs) < fuel
    → (events : List Event) × (history_from fuel s seen count later run_id ≡ some events)
unfolding history_from
history-some zero s seen count later run_id h = absurd (omega arith)
history-some (suc fuel) s seen count later run_id h =
    elim (Bool-cases (run_id == "" || contains run_id seen)) [
      | inl stop ↦ (later, rw (stop, history_from) refl)
      | inr fresh ↦ elim (Option-cases (get_run_identity s run_id)) [
        | inl missing ↦ ([], rw (fresh, missing, history_from) refl)
        | inr (identity, found) ↦
            let results = count + count_of is_result (run_events s.events run_id) in
            elim (Bool-cases (leb failure_window results)) [
              | inl enough ↦ (
                run_events s.events run_id ++ later,
                rw (fresh, found, enough, history_from) refl,
              )
              | inr fewer ↦
                  let (run, row) = identity-row s run_id identity found in
                  let unseen : contains run_id seen ≡ false = ground arith in
                  let (events, e) =
                    history-some fuel s (run_id ∷ seen) results
                      (run_events s.events run_id ++ later) (continued identity)
                      (omega (arith, unvisited-lt run_id seen s.runs run row unseen)) in
                  (events, rw (fresh, found, fewer, history_from) e)
            ]
      ]
    ]

-- Whatever the runs continue, in a cycle too, the walk back along them ends within its fuel, so
-- that a failure loop is always judged, on the window of the events that the walk has gathered.
pub failure_loop_candidate_total :
    (digest : String → String) (s : Store) (run_id : String)
    → (events : List Event) × (history s run_id ≡ some events)
      × (failure_loop_candidate digest s run_id
          ≡ some (judge digest run_id (window_of no_window events).window))
unfolding history failure_loop_candidate
failure_loop_candidate_total digest s run_id =
    let (events, e) =
      history-some (suc (suc (length s.runs))) s [] 0 [] run_id
        (omega (arith, unvisited-nil (keys s.runs), length-keys s.runs)) in
    (events, e, rw (e, failure_loop_candidate) refl)
