-- ===== src/TaskPlan/Plans.antt =====
-- The plans that `plan_update` of eventide/task_plan.py accepts.
use eventide.Prelude.{
  ℕ, ◌+◌, ◌≤◌, ◌≡◌, refl, subst, String, List, [], ◌∷◌, Option, none, some, Bool, true, false, not,
  length, length-append, all, count_of, ltb, arith, keys, Dict,
}
use eventide.Runtime.{Result, ok, err, raise_if, >>=-eq-ok, raise_if-bind, ok-injective}
use eventide.Store.State.{contains}
use eventide.TaskPlan.Items.{Todo, RawItem, is_in_progress, max_todos}
use eventide.TaskPlan.Dependencies.{
  by_id_of, knows, may_stand, no_cycle, visit_all, validate_dependencies,
}
use eventide.TaskPlan.Updates.{
  Progress, plan_item, plan_items, plan_update, available_of, no_progress,
}
use eventide.TaskPlan.Turns.{plan_item-Added}
use eventide.TaskPlan.Visits.{IsOrdered, visit_all-IsOrdered}

-- The order of the tasks is any in which each stands before its prerequisites.
pub record IsPlan (todos : List Todo) : Type 0 where
  pub few : length todos ≤ max_todos
  pub one_active : count_of (λ (t : Todo). is_in_progress t.status) todos ≤ 1
  pub known : all (knows (by_id_of [] todos)) todos ≡ true
  pub ready : all (may_stand (by_id_of [] todos)) todos ≡ true
  pub order : List String
  pub ordered : IsOrdered (by_id_of [] todos) order
  pub complete : all (λ t. contains t order) (keys (by_id_of [] todos)) ≡ true

length-plan_items :
    (available : Dict String Todo) (p : Progress) (value : List RawItem) (q : Progress)
    → plan_items available p value ≡ ok q
    → length q.todos ≡ length p.todos + length value
unfolding plan_items
length-plan_items available p [] q h =
    let same : p ≡ q = ok-injective h in rw (← same) (omega arith)
length-plan_items available p (raw ∷ value) q h =
    let (r, first, h₁) = >>=-eq-ok (plan_item available p raw) _ h in
    let a = plan_item-Added available p raw r first in
    let longer : length r.todos ≡ length p.todos + 1 =
      rw a.todos (length-append p.todos (a.todo ∷ [])) in
    omega (arith, length-plan_items available r value q h₁, longer)

no_cycle_inv :
    (m : Option (Result (List String)))
    → no_cycle m ≡ ok tt
    → (visited : List String) × (m ≡ some (ok visited))
unfolding no_cycle
no_cycle_inv none h = cc
no_cycle_inv (some (err e)) h = cc
no_cycle_inv (some (ok visited)) h = (visited, refl)

not-false : (b : Bool) → not b ≡ false → b ≡ true
not-false true h = refl
not-false false h = cc

raise_if-ok : (b : Bool) (message : String) → raise_if b message ≡ ok tt → b ≡ false
raise_if-ok true message h = cc
raise_if-ok false message h = refl

validated-IsPlan :
    (todos : List Todo)
    → validate_dependencies todos ≡ ok tt
    → length todos ≤ max_todos
    → count_of (λ (t : Todo). is_in_progress t.status) todos ≤ 1
    → IsPlan todos
unfolding validate_dependencies
validated-IsPlan todos h few one =
    let (known, h₁) = raise_if-bind (not (all (knows (by_id_of [] todos)) todos)) _ _ h in
    let (_, acyclic, h₂) = >>=-eq-ok (no_cycle (visit_all (by_id_of [] todos))) _ h₁ in
    let (order, walked) = no_cycle_inv (visit_all (by_id_of [] todos)) acyclic in
    let (ordered, complete) = visit_all-IsOrdered (by_id_of [] todos) order walked in
    record {
      few = few;
      one_active = one;
      known = not-false _ known;
      ready = not-false _ (raise_if-ok _ _ h₂);
      order = order;
      ordered = ordered;
      complete = complete;
    }

-- What `plan_update` accepts is a plan: at most 20 items, at most one of them in progress, every
-- prerequisite an item of the plan, no cycle among them, and everything that is in progress or
-- completed has its prerequisites completed.
pub plan_update-IsPlan :
    (value : Option (List RawItem)) (previous : List Todo) (next_task_seq : Option ℕ)
    (todos : List Todo) (sequence : ℕ)
    → plan_update value previous next_task_seq ≡ ok (todos, sequence)
    → IsPlan todos
unfolding plan_update
plan_update-IsPlan none previous next_task_seq todos sequence h = cc
plan_update-IsPlan (some value) previous next_task_seq todos sequence h =
    let (few, h₁) = raise_if-bind (ltb max_todos (length value)) _ _ h in
    let (p, planned, h₂) =
      >>=-eq-ok (plan_items (available_of [] previous) (no_progress previous next_task_seq) value) _
        h₁ in
    let (one, h₃) =
      raise_if-bind (ltb 1 (count_of (λ (t : Todo). is_in_progress t.status) p.todos)) _ _ h₂ in
    let (_, valid, h₄) = >>=-eq-ok (validate_dependencies p.todos) _ h₃ in
    let long =
      length-plan_items (available_of [] previous) (no_progress previous next_task_seq) value p
        planned in
    accepted p todos sequence (ok-injective h₄)
      (validated-IsPlan p.todos valid (ground (arith, long, few)) (ground (arith, one)))
  where
    accepted :
        (p : Progress) (todos : List Todo) (sequence : ℕ)
        → ◌≡◌ {A = List Todo × ℕ} (p.todos, p.sequence) (todos, sequence)
        → IsPlan p.todos
        → IsPlan todos
    accepted p todos sequence e i = subst (λ (r : List Todo × ℕ). IsPlan (r.0)) e i
