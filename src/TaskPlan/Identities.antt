-- ===== src/TaskPlan/Identities.antt =====
-- The identities that a plan of eventide/task_plan.py gives to its items.
use eventide.Prelude.{
  ℕ, suc, ◌<◌, ◌≡◌, String, List, [], ◌∷◌, Bool, true, false, ◌==◌, any, string_eq,
}
use eventide.Store.State.{contains}
use eventide.TaskPlan.Items.{Todo, is_task_id, number_of}
use eventide.TaskPlan.Updates.{task_label}

-- An item of the previous plan has this identity.
abbrev pub was_issued : List Todo → String → Bool
was_issued previous id = any (λ (t : Todo). t.id == id) previous

-- The items of a plan in their order, after those with the identities `seen`: each keeps an identity of
-- the previous plan that no item before it has, or is given the label of the next number.
pub data AllIssued (previous : List Todo) : List String → ℕ → ℕ → List Todo → Type 0 where
  ends : {seen : List String} {n : ℕ} → AllIssued previous seen n n []
  keeps :
      {seen : List String} {m n : ℕ} {t : Todo} {todos : List Todo}
      → was_issued previous t.id ≡ true
      → contains t.id seen ≡ false
      → AllIssued previous (t.id ∷ seen) m n todos
      → AllIssued previous seen m n (t ∷ todos)
  gives :
      {seen : List String} {m n : ℕ} {t : Todo} {todos : List Todo}
      → t.id ≡ task_label m
      → AllIssued previous (t.id ∷ seen) (suc m) n todos
      → AllIssued previous seen m n (t ∷ todos)

-- Every identity of the pattern has a number below this one.
abbrev pub AreBelow : ℕ → List Todo → Type 0
AreBelow n [] = Unit
AreBelow n (t ∷ todos) = (is_task_id t.id ≡ true → number_of t.id < n) × AreBelow n todos
