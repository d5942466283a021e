-- ===== src/Budgets/Climb.antt =====
-- The fuel of the climb to the root run, in `_validate_context` of eventide/budgets.py.
use eventide.Prelude.{
  ℕ, zero, suc, ◌<◌, String, ◌≡◌, refl, inl, inr, List, [], ◌∷◌, some, Dict, lookup, keys, length,
  string_eq, arith, Bool-cases, Option-cases,
}
use eventide.Runtime.{Result, ok, err, value_error}
use eventide.Store.State.{Store, contains, get_run_identity}
use eventide.Store.Visits.{unvisited, unvisited-lt, unvisited-nil, length-keys}
use eventide.Budgets.Context.{climb, root_of}

climb-some :
    (fuel : ℕ) (s : Store) (parents : Dict String String) (visited : List String)
    (ancestor : String)
    → unvisited visited (keys parents) < fuel
    → (r : Result String) × (climb fuel s parents visited ancestor ≡ some r)
unfolding climb
climb-some zero s parents visited ancestor h = absurd (omega arith)
climb-some (suc fuel) s parents visited ancestor h = elim (Option-cases (lookup ancestor parents)) [
  | inl top ↦ (ok ancestor, rw (top, climb) refl)
  | inr (parent, up) ↦ elim (Bool-cases (contains ancestor visited)) [
    | inl cycle ↦ (err (value_error "Cyclic parent Run identity"), ground arith)
    | inr fresh ↦ elim (Option-cases (get_run_identity s parent)) [
      | inl missing ↦ (err (value_error "Missing parent Run"), ground arith)
      | inr (identity, found) ↦
          let (r, e) =
            climb-some fuel s parents (ancestor ∷ visited) parent
              (omega (arith, unvisited-lt ancestor visited parents parent up fresh)) in
          (r, ground arith)
    ]
  ]
]

-- Whatever the recorded parents are, cyclic ones included, the climb from a run to its root ends
-- within its fuel, with the root or with an error.
pub climb_total :
    (s : Store) (parents : Dict String String) (run_id : String)
    → (r : Result String) × (climb (suc (length parents)) s parents [] run_id ≡ some r)
      × (root_of s parents run_id ≡ r)
unfolding root_of
climb_total s parents run_id =
    let (r, e) =
      climb-some (suc (length parents)) s parents [] run_id
        (omega (arith, unvisited-nil (keys parents), length-keys parents)) in
    (r, e, rw (e, root_of) refl)
