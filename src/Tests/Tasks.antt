-- ===== src/Tests/Tasks.antt =====
-- A plan of two tasks.
use native.Mathlib.Decide.{ℕ_discrete}
use eventide.Prelude.{
  ◌≤◌, ◌≡◌, ◌≤◌, refl, String, List, [], ◌∷◌, none, some, true, false, String_discrete, Dict,
  is_blank, len, strip, keys, all,
}
use eventide.Runtime.{ok, Result}
use eventide.Store.State.{contains}
use eventide.TaskPlan.Items.{
  Todo, completed, in_progress, Fields, RawItem, dict, string_value, list_value, fields_of,
  content_of, status_of, item, claimed_summary, stripped_summary, dependencies_of,
  check_dependencies, is_task_id, number_of,
}
use eventide.TaskPlan.Dependencies.{
  validate_dependencies, by_id_of, visit_all, visit_each, visit, leave, no_cycle,
}
use eventide.TaskPlan.Updates.{
  plan_update, plan_items, plan_item, identify, reusable, task_label, claimed_sequence,
  available_of,
}
use eventide.TaskPlan.Plans.{IsPlan, plan_update-IsPlan}
use eventide.TaskPlan.Visits.{visit_all_total, visit_all-IsOrdered, IsOrdered}

abbrev written : Todo
written = record {
  id = "t1";
  content = "Write";
  status = completed;
  summary = some "done";
  depends_on = none;
}

abbrev tested : Todo
tested = record {
  id = "t2";
  content = "Test";
  status = in_progress;
  summary = none;
  depends_on = some ("t1" ∷ []);
}

abbrev raw_written : Fields
raw_written = record {
  extra = false;
  id = some (string_value "t1");
  content = some (string_value " Write ");
  status = some (string_value "completed");
  summary = some (string_value "done");
  depends_on = none;
}

abbrev raw_tested : Fields
raw_tested = record {
  extra = false;
  id = none;
  content = some (string_value "Test");
  status = some (string_value "in_progress");
  summary = none;
  depends_on = some (list_value (some "t1" ∷ []));
}

abbrev raw_plan : List RawItem
raw_plan = dict raw_written ∷ dict raw_tested ∷ []

abbrev plan : List Todo
plan = written ∷ tested ∷ []

planned : plan_update (some raw_plan) (written ∷ []) none ≡ ok (plan, 3)
unfolding String_discrete is_blank len strip plan_update plan_items plan_item identify reusable
    task_label claimed_sequence available_of fields_of content_of status_of item claimed_summary
    stripped_summary dependencies_of check_dependencies is_task_id number_of validate_dependencies
    by_id_of visit_all visit_each visit leave no_cycle ℕ_discrete
planned = refl

plan_update-IsPlan_example : IsPlan plan
plan_update-IsPlan_example = plan_update-IsPlan (some raw_plan) (written ∷ []) none plan 3 planned

abbrev by_id : Dict String Todo
by_id = ("t1", written) ∷ ("t2", tested) ∷ []

visit_all_total_example : (r : Result (List String)) × (visit_all by_id ≡ some r)
visit_all_total_example = visit_all_total by_id

walked : visit_all by_id ≡ some (ok ("t2" ∷ "t1" ∷ []))
unfolding String_discrete visit_all visit_each visit leave
walked = refl

visit_all-IsOrdered_example :
    IsOrdered by_id ("t2" ∷ "t1" ∷ [])
    × (all (λ d. contains d ("t2" ∷ "t1" ∷ [])) (keys by_id) ≡ true)
visit_all-IsOrdered_example = visit_all-IsOrdered by_id ("t2" ∷ "t1" ∷ []) walked
