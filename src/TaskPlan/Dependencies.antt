-- ===== src/TaskPlan/Dependencies.antt =====
-- `_validate_dependencies` of eventide/task_plan.py: known prerequisites, no cycle, and what is
-- started has its prerequisites completed. The depth-first `visit` is on fuel.
use eventide.Prelude.{
  ℕ, zero, suc, String, List, [], ◌∷◌, Option, none, some, Bool, false, not, ◌||◌, Dict, lookup,
  insert, has, keys, length, all, string_eq, if◌then◌else◌,
}
use eventide.Runtime.{Result, ok, err, value_error, ◌>>◌, raise_if}
use eventide.Store.State.{contains}
use eventide.TaskPlan.Items.{Todo, is_completed, is_in_progress}

-- `todo.get("depends_on", [])`
abbrev pub prerequisites : Todo → List String
prerequisites todo = elim todo.depends_on [ none ↦ [] | some ds ↦ ds ]

-- `{todo["id"]: todo for todo in todos}`
unfoldable pub by_id_of : Dict String Todo → List Todo → Dict String Todo
by_id_of by_id [] = by_id
by_id_of by_id (todo ∷ todos) = by_id_of (insert todo.id todo by_id) todos

-- `by_id[task_id].get("depends_on", [])`
abbrev pub prerequisites_of : Dict String Todo → String → List String
prerequisites_of by_id task_id = elim (lookup task_id by_id) [
  | none ↦ []
  | some todo ↦ prerequisites todo
]

-- The loop over the dependencies, with `visit` as an argument; it passes `visited` on.
unfoldable pub visit_each :
    (List String → String → Option (Result (List String)))
    → List String
    → List String
    → Option (Result (List String))
visit_each visit visited [] = some (ok visited)
visit_each visit visited (d ∷ ds) = elim (visit visited d) [
  | none ↦ none
  | some (err e) ↦ some (err e)
  | some (ok after) ↦ visit_each visit after ds
]

-- What `visit` adds to `visited` at its end.
unfoldable pub leave : String → Option (Result (List String)) → Option (Result (List String))
leave task_id none = none
leave task_id (some (err e)) = some (err e)
leave task_id (some (ok visited)) = some (ok (task_id ∷ visited))

-- `visit`; `none` means that the fuel ran out.
unfoldable pub visit :
    ℕ → Dict String Todo → List String → List String → String → Option (Result (List String))
visit zero by_id visiting visited task_id = none
visit (suc fuel) by_id visiting visited task_id =
    if contains task_id visiting
    then some (err (value_error "task dependencies cannot contain a cycle"))
    else if contains task_id visited
    then some (ok visited)
    else leave task_id (
        visit_each (visit fuel by_id (task_id ∷ visiting)) visited (prerequisites_of by_id task_id))

-- `for task_id in by_id: visit(task_id)`
unfoldable pub visit_all : Dict String Todo → Option (Result (List String))
visit_all by_id = visit_each (visit (suc (suc (length by_id))) by_id []) [] (keys by_id)

unfoldable pub no_cycle : Option (Result (List String)) → Result (Unit {0})
no_cycle none = err (value_error "task dependencies cannot contain a cycle")
no_cycle (some (err e)) = err e
no_cycle (some (ok visited)) = ok tt

abbrev pub knows : Dict String Todo → Todo → Bool
knows by_id todo = all (λ d. has d by_id) (prerequisites todo)

-- `by_id[dependency]["status"] == "completed"`
abbrev pub is_met : Dict String Todo → String → Bool
is_met by_id d = elim (lookup d by_id) [ none ↦ false | some todo ↦ is_completed todo.status ]

-- Nothing is unmet of what is in progress or completed.
abbrev pub may_stand : Dict String Todo → Todo → Bool
may_stand by_id todo =
    not (is_in_progress todo.status || is_completed todo.status)
    || all (is_met by_id) (prerequisites todo)

unfoldable pub validate_dependencies : List Todo → Result (Unit {0})
validate_dependencies todos = do
  let by_id = by_id_of [] todos
  raise_if (not (all (knows by_id) todos)) "task references unknown dependency"
  no_cycle (visit_all by_id)
  raise_if (not (all (may_stand by_id) todos)) "task requires completed dependencies"
