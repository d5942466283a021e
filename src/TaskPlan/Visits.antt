-- ===== src/TaskPlan/Visits.antt =====
-- The depth-first walk of `_validate_dependencies` of eventide/task_plan.py: its fuel, and the
-- order in which it leaves the tasks.
use eventide.Prelude.{
  ℕ, zero, suc, ◌<◌, ◌≡◌, refl, inl, inr, String, List, [], ◌∷◌, Option, none, some, true, Dict,
  lookup, keys, length, all, string_eq, arith, Bool-cases, Option-cases,
}
use eventide.Runtime.{Result, ok, err, value_error}
use eventide.Store.State.{contains}
use eventide.Store.Visits.{unvisited, unvisited-lt, unvisited-nil, length-keys}
use eventide.TaskPlan.Items.{Todo}
use eventide.TaskPlan.Dependencies.{prerequisites_of, visit_each, leave, visit, visit_all}

abbrev Answer : Type 0
Answer = Result (List String)

-- One turn of the loop, from what `visit` answers and what the rest gives.
each-some :
    (v : List String → String → Option Answer) (visited : List String) (d : String)
    (ds : List String) (r : Answer)
    → v visited d ≡ some r
    → ((after : List String) → (q : Answer) × (visit_each v after ds ≡ some q))
    → (q : Answer) × (visit_each v visited (d ∷ ds) ≡ some q)
unfolding visit_each
each-some v visited d ds (err e) h k = (err e, rw (h, visit_each) refl)
each-some v visited d ds (ok after) h k = let (q, e) = k after in (q, rw (h, visit_each) e)

visit_each-some :
    (v : List String → String → Option Answer)
    → ((visited : List String) (d : String) → (r : Answer) × (v visited d ≡ some r))
    → (visited ds : List String) → (r : Answer) × (visit_each v visited ds ≡ some r)
unfolding visit_each
visit_each-some v f visited [] = (ok visited, refl)
visit_each-some v f visited (d ∷ ds) =
    let (r, h) = f visited d in each-some v visited d ds r h (λ after. visit_each-some v f after ds)

each-missing :
    (v : List String → String → Option Answer) (by_id : Dict String Todo) (visited : List String)
    (task_id : String)
    → lookup task_id by_id ≡ none
    → visit_each v visited (prerequisites_of by_id task_id) ≡ some (ok visited)
unfolding visit_each
each-missing v by_id visited task_id missing = rw (missing, prerequisites_of) refl

leave-some :
    (task_id : String) (m : Option Answer) (r : Answer)
    → m ≡ some r
    → (q : Answer) × (leave task_id m ≡ some q)
unfolding leave
leave-some task_id m (err e) h = (err e, rw (h, leave) refl)
leave-some task_id m (ok visited) h = (ok (task_id ∷ visited), rw (h, leave) refl)

visit-some :
    (fuel : ℕ) (by_id : Dict String Todo) (visiting visited : List String) (task_id : String)
    → unvisited visiting (keys by_id) < fuel
    → (r : Answer) × (visit fuel by_id visiting visited task_id ≡ some r)
unfolding visit
visit-some zero by_id visiting visited task_id h = absurd (omega arith)
visit-some (suc fuel) by_id visiting visited task_id h =
    elim (Bool-cases (contains task_id visiting)) [
      | inl cycle ↦
          (err (value_error "task dependencies cannot contain a cycle"), rw (cycle, visit) refl)
      | inr fresh ↦ elim (Bool-cases (contains task_id visited)) [
        | inl done ↦ (ok visited, rw (fresh, done, visit) refl)
        | inr new ↦
            let v = visit fuel by_id (task_id ∷ visiting) in
            let (r, each) : (r : Answer) × (visit_each v visited (prerequisites_of by_id task_id)
                  ≡ some r) =
              elim (Option-cases (lookup task_id by_id)) [
                | inl missing ↦ (ok visited, each-missing v by_id visited task_id missing)
                | inr (todo, there) ↦
                    visit_each-some v
                      (λ visited' d.
                        visit-some fuel by_id (task_id ∷ visiting) visited' d
                          (omega (arith, unvisited-lt task_id visiting by_id todo there fresh)))
                      visited (prerequisites_of by_id task_id)
              ] in
            let (q, left) = leave-some task_id _ r each in (q, rw (fresh, new, visit) left)
      ]
    ]

-- Whatever the dependencies are, cyclic ones included, the depth-first walk over a plan ends
-- within its fuel, with an order of the tasks or with an error.
pub visit_all_total :
    (by_id : Dict String Todo) → (r : Result (List String)) × (visit_all by_id ≡ some r)
unfolding visit_all
visit_all_total by_id =
    visit_each-some (visit (suc (suc (length by_id))) by_id [])
      (λ visited d.
        visit-some (suc (suc (length by_id))) by_id [] visited d
          (omega (arith, unvisited-nil (keys by_id), length-keys by_id)))
      [] (keys by_id)

-- Each task stands before all its prerequisites.
abbrev pub IsOrdered : Dict String Todo → List String → Type 0
IsOrdered by_id [] = Unit
IsOrdered by_id (x ∷ xs) =
    (all (λ d. contains d xs) (prerequisites_of by_id x) ≡ true) × IsOrdered by_id xs

record Visited (by_id : Dict String Todo) (visited ds after : List String) : Type 0 where
  ordered : IsOrdered by_id after
  kept : (x : String) → contains x visited ≡ true → contains x after ≡ true
  there : all (λ d. contains d after) ds ≡ true

abbrev Visits : Dict String Todo → (List String → String → Option Answer) → Type 0
Visits by_id v =
    (visited : List String) (d : String) (after : List String)
    → v visited d ≡ some (ok after)
    → IsOrdered by_id visited
    → Visited by_id visited (d ∷ []) after

each-Visited :
    (by_id : Dict String Todo) (v : List String → String → Option Answer) (visited : List String)
    (d : String) (ds after : List String) (m : Option Answer)
    → v visited d ≡ m
    → visit_each v visited (d ∷ ds) ≡ some (ok after)
    → ((middle : List String) → m ≡ some (ok middle) → Visited by_id visited (d ∷ []) middle)
    → ((middle : List String)
        → visit_each v middle ds ≡ some (ok after)
        → IsOrdered by_id middle
        → Visited by_id middle ds after)
    → Visited by_id visited (d ∷ ds) after
unfolding visit_each
each-Visited by_id v visited d ds after none e h f k = absurd (ground arith)
each-Visited by_id v visited d ds after (some (err x)) e h f k = absurd (ground arith)
each-Visited by_id v visited d ds after (some (ok middle)) e h f k =
    let one = f middle refl in
    let rest = k middle (rw (e, visit_each) at h) one.ordered in
    record {
      ordered = rest.ordered;
      kept = λ x t. rest.kept x (one.kept x t);
      there = ground (arith, rest.there, rest.kept d, one.there);
    }

visit_each-Visited :
    (by_id : Dict String Todo) (v : List String → String → Option Answer)
    → Visits by_id v
    → (visited ds after : List String) → visit_each v visited ds ≡ some (ok after)
    → IsOrdered by_id visited
    → Visited by_id visited ds after
unfolding visit_each
visit_each-Visited by_id v f visited [] after h i =
    let same : visited ≡ after = cc in
    rw (← same) (record { ordered = i; kept = λ x k. k; there = refl })
visit_each-Visited by_id v f visited (d ∷ ds) after h i =
    each-Visited by_id v visited d ds after (v visited d) refl h
      (λ middle e. f visited d middle e i) (λ middle. visit_each-Visited by_id v f middle ds after)

leave_inv :
    (task_id : String) (m : Option Answer) (after : List String)
    → leave task_id m ≡ some (ok after)
    → (w : List String) × (m ≡ some (ok w)) × (after ≡ task_id ∷ w)
unfolding leave
leave_inv task_id none after h = cc
leave_inv task_id (some (err e)) after h = cc
leave_inv task_id (some (ok w)) after h = (w, refl, cc)

left-Visited :
    (by_id : Dict String Todo) (visited w : List String) (task_id : String)
    → Visited by_id visited (prerequisites_of by_id task_id) w
    → Visited by_id visited (task_id ∷ []) (task_id ∷ w)
left-Visited by_id visited w task_id v = record {
  ordered = (v.there, v.ordered);
  kept = λ x k. ground (arith, v.kept x k);
  there = ground arith;
}

visit-Visited :
    (fuel : ℕ) (by_id : Dict String Todo) (visiting : List String)
    → Visits by_id (visit fuel by_id visiting)
unfolding visit
visit-Visited zero by_id visiting visited task_id after h i = absurd (ground arith)
visit-Visited (suc fuel) by_id visiting visited task_id after h i =
    elim (Bool-cases (contains task_id visiting)) [
      | inl cycle ↦ absurd (ground arith)
      | inr fresh ↦ elim (Bool-cases (contains task_id visited)) [
        | inl done ↦
            let same : visited ≡ after = ground arith in
            rw (← same) (record { ordered = i; kept = λ x k. k; there = ground arith })
        | inr new ↦
            let (w, each, e) = leave_inv task_id _ after (rw (fresh, new, visit) at h) in
            rw e (
              left-Visited by_id visited w task_id (
                visit_each-Visited by_id (visit fuel by_id (task_id ∷ visiting))
                  (visit-Visited fuel by_id (task_id ∷ visiting)) visited
                  (prerequisites_of by_id task_id) w each i))
      ]
    ]

-- Where the walk over a plan raises no error, it has put every task of the plan into an order in
-- which each stands before all its prerequisites: there is no cycle among the dependencies.
pub visit_all-IsOrdered :
    (by_id : Dict String Todo) (visited : List String)
    → visit_all by_id ≡ some (ok visited)
    → IsOrdered by_id visited × (all (λ d. contains d visited) (keys by_id) ≡ true)
unfolding visit_all
visit_all-IsOrdered by_id visited h =
    let v =
      visit_each-Visited by_id (visit (suc (suc (length by_id))) by_id [])
        (visit-Visited (suc (suc (length by_id))) by_id []) [] (keys by_id) visited h tt in
    (v.ordered, v.there)
