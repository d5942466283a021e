-- ===== src/TaskView/Tasks.antt =====
-- Which tasks `TaskPlanProjection` of eventide/projections.py shows, and in which order.
use eventide.Prelude.{
  ℕ, ◌+◌, ◌≡◌, refl, ◌∙◌, inl, inr, String, List, [], ◌∷◌, Option, none, some, Bool, true, false,
  not, ◌&&◌, ◌||◌, ◌==◌, nat_eq, string_eq, if◌then◌else◌, any, count_of, map, Dict, has, lookup,
  insert, values, lookup-insert, Bool-cases, arith,
}
use eventide.TaskView.{
  PlannedTodo, PlanFact, plan_updated, PlanEvent, TaskRecord, Observed, PlanState, record_of,
  Claims, claim_item, claim_all, drop_unclaimed, read_plan_fact, read_plan_event, read_plan_events,
  TaskView, view_of, key_before, key_of, put_task, in_order,
}

abbrev pub is_named : String → Option String → Bool
is_named k none = false
is_named k (some task_id) = not (task_id == "") && k == task_id

abbrev pub names_task : String → PlanFact → Bool
names_task k (plan_updated todos) = any (λ (todo : PlannedTodo). is_named k todo.id) todos
names_task k _ = false

-- An event that is not partial holds a plan with this task.
abbrev pub is_planned : String → List PlanEvent → Bool
is_planned k = any (λ e. not e.partial && names_task k e.fact)

-- A dict of records by their ids.
abbrev pub IsKeyed : Dict String TaskRecord → Type 0
IsKeyed [] = Unit
IsKeyed ((k, r) ∷ d) = (r.id ≡ k) × (has k d ≡ false) × IsKeyed d

has-insert_record :
    (k j : String) (r : TaskRecord) (d : Dict String TaskRecord)
    → has k (insert j r d) ≡ (k == j || has k d)
has-insert_record k j r d = ground (arith, lookup-insert j k r d)

insert-IsKeyed :
    (k : String) (r : TaskRecord) (d : Dict String TaskRecord)
    → r.id ≡ k
    → IsKeyed d
    → IsKeyed (insert k r d)
insert-IsKeyed k r [] same h = (same, refl, tt)
insert-IsKeyed k r ((j, s) ∷ d) same h =
    ground (arith, insert-IsKeyed k r d same, has-insert_record j k r d)

claim_item-IsKeyed :
    (seq index : ℕ) (todo : PlannedTodo) (task_id : Option String) (c : Claims)
    → IsKeyed c.tasks
    → IsKeyed (claim_item seq index todo task_id c).tasks
claim_item-IsKeyed seq index todo none c h = h
claim_item-IsKeyed seq index todo (some task_id) c h =
    let r = record_of seq index task_id todo (lookup task_id c.tasks) in
    ground (arith, insert-IsKeyed task_id r c.tasks refl h)

has-claim_item :
    (k : String) (seq index : ℕ) (todo : PlannedTodo) (task_id : Option String) (c : Claims)
    → has k (claim_item seq index todo task_id c).tasks ≡ (is_named k task_id || has k c.tasks)
has-claim_item k seq index todo none c = refl
has-claim_item k seq index todo (some task_id) c =
    let r = record_of seq index task_id todo (lookup task_id c.tasks) in
    ground (arith, has-insert_record k task_id r c.tasks)

claim_all-IsKeyed :
    (seq index : ℕ) (todos : List PlannedTodo) (c : Claims)
    → IsKeyed c.tasks
    → IsKeyed (claim_all seq index todos c).tasks
claim_all-IsKeyed seq index [] c h = h
claim_all-IsKeyed seq index (todo ∷ todos) c h =
    claim_all-IsKeyed seq (index + 1) todos (claim_item seq index todo todo.id c)
      (claim_item-IsKeyed seq index todo todo.id c h)

has-claim_all :
    (k : String) (seq index : ℕ) (todos : List PlannedTodo) (c : Claims)
    → has k (claim_all seq index todos c).tasks
      ≡ (any (λ (todo : PlannedTodo). is_named k todo.id) todos || has k c.tasks)
has-claim_all k seq index [] c = refl
has-claim_all k seq index (todo ∷ todos) c = ground (
  arith,
  has-claim_all k seq (index + 1) todos (claim_item seq index todo todo.id c),
  has-claim_item k seq index todo todo.id c,
)

has-drop_unclaimed :
    (k : String) (claimed : List String) (d : Dict String TaskRecord)
    → has k (drop_unclaimed claimed d) ≡ has k d
has-drop_unclaimed k claimed [] = refl
has-drop_unclaimed k claimed ((j, r) ∷ d) = ground (arith, has-drop_unclaimed k claimed d)

drop_unclaimed-IsKeyed :
    (claimed : List String) (d : Dict String TaskRecord)
    → IsKeyed d
    → IsKeyed (drop_unclaimed claimed d)
drop_unclaimed-IsKeyed claimed [] h = tt
drop_unclaimed-IsKeyed claimed ((j, r) ∷ d) h =
    ground (arith, drop_unclaimed-IsKeyed claimed d, has-drop_unclaimed j claimed d)

-- The tasks after a fact, for those before it.
abbrev pub KnowsTasks : (String → Bool) → PlanState → PlanState → Type 0
KnowsTasks named before st =
    IsKeyed st.tasks × ((k : String) → has k st.tasks ≡ (named k || has k before.tasks))

read_plan_fact-KnowsTasks :
    (e : PlanEvent) (fact : PlanFact) (st : PlanState)
    → IsKeyed st.tasks
    → KnowsTasks (λ k. names_task k fact) st (read_plan_fact e fact st)
unfolding read_plan_fact
read_plan_fact-KnowsTasks e (plan_updated todos) st h =
    let c : Claims = record { tasks = st.tasks; claimed = []; active = none } in
    let after = claim_all e.session_seq 1 todos c in
    (
      drop_unclaimed-IsKeyed after.claimed after.tasks
          (claim_all-IsKeyed e.session_seq 1 todos c h),
      λ k. has-drop_unclaimed k after.claimed after.tasks ∙ has-claim_all k e.session_seq 1 todos c,
    )
read_plan_fact-KnowsTasks e _ st h = (h, λ k. refl)

read_plan_event-KnowsTasks :
    (e : PlanEvent) (st : PlanState)
    → IsKeyed st.tasks
    → KnowsTasks (λ k. not e.partial && names_task k e.fact) st (read_plan_event e st)
unfolding read_plan_fact
read_plan_event-KnowsTasks e st h = elim (Bool-cases e.partial) [
  | inl skipped ↦ rw skipped (h, λ k. refl)
  | inr seen ↦ rw seen (read_plan_fact-KnowsTasks e e.fact st h)
]

pub read_plan_events-KnowsTasks :
    (events : List PlanEvent) (st : PlanState)
    → IsKeyed st.tasks
    → KnowsTasks (λ k. is_planned k events) st (read_plan_events st events)
read_plan_events-KnowsTasks [] st h = (h, λ k. refl)
read_plan_events-KnowsTasks (e ∷ events) st h =
    let (kept, named) = read_plan_event-KnowsTasks e st h in
    let (kept', named') = read_plan_events-KnowsTasks events (read_plan_event e st) kept in
    (kept', λ k. ground (arith, named k, named' k))

pub count_of-values :
    (k : String) (outcomes : List Observed) (d : Dict String TaskRecord)
    → IsKeyed d
    → count_of (λ (v : TaskView). v.task.id == k) (map (view_of outcomes) (values d))
      ≡ (if has k d then 1 else 0)
count_of-values k outcomes [] h = refl
count_of-values k outcomes ((j, r) ∷ d) h = ground (arith, count_of-values k outcomes d)

count_of-put_task :
    (p : TaskView → Bool) (v : TaskView) (ws : List TaskView)
    → count_of p (put_task v ws) ≡ count_of p (v ∷ ws)
count_of-put_task p v [] = refl
count_of-put_task p v (w ∷ ws) = ground (arith, count_of-put_task p v ws)

pub count_of-in_order :
    (p : TaskView → Bool) (vs : List TaskView) → count_of p (in_order vs) ≡ count_of p vs
count_of-in_order p [] = refl
count_of-in_order p (v ∷ vs) =
    ground (arith, count_of-in_order p vs, count_of-put_task p v (in_order vs))

-- No task stands before one that is to stand before it.
abbrev pub is_ordered : List TaskView → Bool
is_ordered [] = true
is_ordered (v ∷ []) = true
is_ordered (v ∷ w ∷ ws) = not (key_before (key_of w) (key_of v)) && is_ordered (w ∷ ws)

key_before-asym : (a b : Option ℕ × ℕ) → key_before a b ≡ true → key_before b a ≡ false
key_before-asym (some a, f) (some b, g) h = ground arith
key_before-asym (some a, f) (none, g) h = refl
key_before-asym (none, f) (some b, g) h = absurd (ground arith)
key_before-asym (none, f) (none, g) h = ground arith

put_task-is_ordered :
    (v : TaskView) (ws : List TaskView) → is_ordered ws ≡ true → is_ordered (put_task v ws) ≡ true
put_task-is_ordered v [] h = refl
put_task-is_ordered v (w ∷ []) h = ground (arith, key_before-asym (key_of w) (key_of v))
put_task-is_ordered v (w ∷ x ∷ ws) h =
    ground (arith, put_task-is_ordered v (x ∷ ws), key_before-asym (key_of w) (key_of v))

pub in_order-is_ordered : (vs : List TaskView) → is_ordered (in_order vs) ≡ true
in_order-is_ordered [] = refl
in_order-is_ordered (v ∷ vs) = put_task-is_ordered v (in_order vs) (in_order-is_ordered vs)
