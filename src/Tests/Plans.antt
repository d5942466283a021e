-- ===== src/Tests/Plans.antt =====
-- The tasks of a session with two plans, and the evidence between them.
use native.Mathlib.Decide.{ℕ_discrete}
use eventide.Prelude.{
  ℕ, ◌≡◌, refl, String, List, [], ◌∷◌, Option, none, some, false, String_discrete, map,
}
use eventide.TaskView.{
  PlannedTodo, PlanFact, plan_updated, tool_completed, PlanEvent, TaskView, project_tasks,
  read_plan_fact,
}
use eventide.TaskView.Evidence.{IsPlanView, project_tasks-IsPlanView}

abbrev todo : String → String → PlannedTodo
todo id status = record {
  id = some id;
  content = some "work";
  status = some status;
  summary = none;
  depends_on = [];
}

abbrev event : ℕ → PlanFact → PlanEvent
event n fact = record {
  partial = false;
  session_seq = n;
  run_id = some "r";
  event_id = none;
  fact = fact;
}

abbrev end_of : String → PlanFact
end_of name = tool_completed (record { call_id = some "c"; name = some name; is_error = none })

abbrev two_plans : List PlanEvent
two_plans =
    event 1 (plan_updated (todo "task-1" "in_progress" ∷ todo "task-2" "pending" ∷ []))
    ∷ event 2 (end_of "bash")
    ∷ event 3 (end_of "todo_write")
    ∷ event 4 (plan_updated (todo "" "pending" ∷ todo "task-2" "completed" ∷ []))
    ∷ event 5 (end_of "glob")
    ∷ []

abbrev shown_task : TaskView → String × Option ℕ × List ℕ
shown_task v = (v.task.id, v.task.order, map (λ o. o.session_seq) v.evidence)

shown_tasks :
    map shown_task (project_tasks two_plans).tasks
    ≡ ("task-2", some 2, 2 ∷ []) ∷ ("task-1", none, 2 ∷ 5 ∷ []) ∷ []
unfolding String_discrete ℕ_discrete project_tasks read_plan_fact
shown_tasks = refl

active_task : (project_tasks two_plans).active_task_id ≡ none
unfolding String_discrete project_tasks read_plan_fact
active_task = refl

project_tasks-IsPlanView_example : IsPlanView two_plans (project_tasks two_plans)
project_tasks-IsPlanView_example = project_tasks-IsPlanView two_plans
