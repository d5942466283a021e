-- ===== src/TaskView/History.antt =====
-- What the log of a session says of one task: the plans that name it, for `TaskPlanProjection` of
-- eventide/projections.py.
use eventide.Prelude.{
  ℕ, ◌+◌, ◌≡◌, refl, sym, ap, ◌∙◌, inl, inr, String, List, [], ◌∷◌, ◌++◌, Option, none, some, Bool,
  false, ◌&&◌, ◌||◌, ◌==◌, string_eq, if◌then◌else◌, all, any, Dict, lookup, lookup-insert,
  Bool-cases, arith,
}
use eventide.Store.State.{contains}
use eventide.TaskView.{
  PlannedTodo, PlanFact, plan_updated, PlanEvent, TaskRecord, PlanState, is_end, record_of, Claims,
  claim_item, claim_all, place, drop_unclaimed, read_plan_fact, read_plan_event, read_plan_events,
}
use eventide.TaskView.Tasks.{is_named}

-- The items of an event that is a plan and not partial.
abbrev pub plan_in : Bool → PlanFact → Option (List PlannedTodo)
plan_in false (plan_updated todos) = some todos
plan_in _ _ = none

abbrev pub plan_of : PlanEvent → Option (List PlannedTodo)
plan_of e = plan_in e.partial e.fact

abbrev pub names : String → List PlannedTodo → Bool
names k = any (λ (todo : PlannedTodo). is_named k todo.id)

abbrev pub or_then {ℓ} : {A : Type ℓ} → Option A → Option A → Option A
or_then none b = b
or_then (some a) b = some a

abbrev pub named_at : String → ℕ → List PlannedTodo → Option ℕ
named_at k seq todos = if names k todos then some seq else none

-- The number of the first plan that names a task.
abbrev pub first_planned : String → List PlanEvent → Option ℕ
first_planned k [] = none
first_planned k (e ∷ events) =
    or_then (elim (plan_of e) [ none ↦ none | some todos ↦ named_at k e.session_seq todos ])
      (first_planned k events)

-- The last plan of the log, and the place of a task in it: the last that names it.
abbrev pub last_plan : List PlanEvent → Option (List PlannedTodo)
last_plan [] = none
last_plan (e ∷ events) = or_then (last_plan events) (plan_of e)

abbrev pub place_of : String → ℕ → List PlannedTodo → Option ℕ
place_of k index [] = none
place_of k index (todo ∷ todos) =
    or_then (place_of k (index + 1) todos) (if is_named k todo.id then some index else none)

abbrev pub last_place : String → Option (List PlannedTodo) → Option ℕ
last_place k none = none
last_place k (some todos) = place_of k 1 todos

-- What the plans say of a task, in their order: the number of the plan, and whether it calls the task
-- completed or blocked.
abbrev pub marks_in : ℕ → String → List PlannedTodo → List (ℕ × Bool)
marks_in seq k [] = []
marks_in seq k (todo ∷ todos) =
    if is_named k todo.id
    then (seq, is_end todo.status) ∷ marks_in seq k todos
    else marks_in seq k todos

abbrev pub marks_of : String → List PlanEvent → List (ℕ × Bool)
marks_of k [] = []
marks_of k (e ∷ events) =
    (elim (plan_of e) [ none ↦ [] | some todos ↦ marks_in e.session_seq k todos ])
    ++ marks_of k events

abbrev pub are_ends : List (ℕ × Bool) → Bool
are_ends = all (λ (m : ℕ × Bool). m.1)

-- The first plan from which on all call the task completed or blocked.
abbrev pub settled_since : List (ℕ × Bool) → Option ℕ
settled_since [] = none
settled_since ((seq, end) ∷ marks) = if end && are_ends marks then some seq else settled_since marks

-- The record of one task, from plan to plan.
abbrev pub mention : ℕ → ℕ → String → PlannedTodo → Option TaskRecord → Option TaskRecord
mention seq index k todo o = if is_named k todo.id then some (record_of seq index k todo o) else o

abbrev pub mention_all : ℕ → ℕ → String → List PlannedTodo → Option TaskRecord → Option TaskRecord
mention_all seq index k [] o = o
mention_all seq index k (todo ∷ todos) o =
    mention_all seq (index + 1) k todos (mention seq index k todo o)

abbrev pub placed : Bool → Option TaskRecord → Option TaskRecord
placed named none = none
placed named (some r) = some (if named then r else record r { order = none })

abbrev pub planned : ℕ → String → Option (List PlannedTodo) → Option TaskRecord → Option TaskRecord
planned seq k none o = o
planned seq k (some todos) o = placed (names k todos) (mention_all seq 1 k todos o)

abbrev pub history : String → List PlanEvent → Option TaskRecord → Option TaskRecord
history k [] o = o
history k (e ∷ events) o = history k events (planned e.session_seq k (plan_of e) o)

lookup-claim_item :
    (k : String) (seq index : ℕ) (todo : PlannedTodo) (task_id : Option String) (c : Claims)
    → lookup k (claim_item seq index todo task_id c).tasks ≡ (
        if is_named k task_id
        then some (record_of seq index k todo (lookup k c.tasks))
        else lookup k c.tasks)
lookup-claim_item k seq index todo none c = refl
lookup-claim_item k seq index todo (some task_id) c = elim (Bool-cases (task_id == "")) [
  | inl empty ↦ rw empty refl
  | inr named ↦ elim (Bool-cases (k == task_id)) [
    | inl it ↦
        let same : k ≡ task_id = ground arith in
        let r = record_of seq index task_id todo (lookup task_id c.tasks) in
        rw (named, lookup-insert task_id k r c.tasks, it)
          (ap (λ j. some (record_of seq index j todo (lookup j c.tasks))) (sym same))
    | inr other ↦
        let r = record_of seq index task_id todo (lookup task_id c.tasks) in
        rw (named, lookup-insert task_id k r c.tasks, other) refl
  ]
]

lookup-claim_all :
    (k : String) (seq index : ℕ) (todos : List PlannedTodo) (c : Claims)
    → lookup k (claim_all seq index todos c).tasks
      ≡ mention_all seq index k todos (lookup k c.tasks)
lookup-claim_all k seq index [] c = refl
lookup-claim_all k seq index (todo ∷ todos) c =
    lookup-claim_all k seq (index + 1) todos (claim_item seq index todo todo.id c)
    ∙ ap (mention_all seq (index + 1) k todos) (lookup-claim_item k seq index todo todo.id c)

contains-claim_item :
    (k : String) (seq index : ℕ) (todo : PlannedTodo) (task_id : Option String) (c : Claims)
    → contains k (claim_item seq index todo task_id c).claimed
      ≡ (is_named k task_id || contains k c.claimed)
contains-claim_item k seq index todo none c = refl
contains-claim_item k seq index todo (some task_id) c = ground arith

contains-claim_all :
    (k : String) (seq index : ℕ) (todos : List PlannedTodo) (c : Claims)
    → contains k (claim_all seq index todos c).claimed ≡ (names k todos || contains k c.claimed)
contains-claim_all k seq index [] c = refl
contains-claim_all k seq index (todo ∷ todos) c = ground (
  arith,
  contains-claim_all k seq (index + 1) todos (claim_item seq index todo todo.id c),
  contains-claim_item k seq index todo todo.id c,
)

lookup-drop_unclaimed :
    (k : String) (claimed : List String) (d : Dict String TaskRecord)
    → lookup k (drop_unclaimed claimed d) ≡ placed (contains k claimed) (lookup k d)
lookup-drop_unclaimed k claimed [] = refl
lookup-drop_unclaimed k claimed ((j, r) ∷ d) = elim (Bool-cases (k == j)) [
  | inl it ↦
      let same : k ≡ j = ground arith in rw it (ap (λ i. some (place claimed i r)) (sym same))
  | inr other ↦ rw other (lookup-drop_unclaimed k claimed d)
]

lookup-read_plan_fact :
    (k : String) (e : PlanEvent) (f : PlanFact) (st : PlanState)
    → lookup k (read_plan_fact e f st).tasks
      ≡ planned e.session_seq k (plan_in false f) (lookup k st.tasks)
unfolding read_plan_fact
lookup-read_plan_fact k e (plan_updated todos) st =
    let c : Claims = record { tasks = st.tasks; claimed = []; active = none } in
    let after = claim_all e.session_seq 1 todos c in
    let claimed : contains k after.claimed ≡ names k todos =
      ground (arith, contains-claim_all k e.session_seq 1 todos c) in
    lookup-drop_unclaimed k after.claimed after.tasks
    ∙ ap (λ b. placed b (lookup k after.tasks)) claimed
    ∙ ap (placed (names k todos)) (lookup-claim_all k e.session_seq 1 todos c)
lookup-read_plan_fact k e _ st = refl

lookup-read_plan_event :
    (k : String) (e : PlanEvent) (st : PlanState)
    → lookup k (read_plan_event e st).tasks
      ≡ planned e.session_seq k (plan_of e) (lookup k st.tasks)
unfolding read_plan_fact
lookup-read_plan_event k e st = elim (Bool-cases e.partial) [
  | inl skipped ↦ rw skipped refl
  | inr seen ↦ rw seen (lookup-read_plan_fact k e e.fact st)
]

pub lookup-read_plan_events :
    (k : String) (events : List PlanEvent) (st : PlanState)
    → lookup k (read_plan_events st events).tasks ≡ history k events (lookup k st.tasks)
lookup-read_plan_events k [] st = refl
lookup-read_plan_events k (e ∷ events) st =
    lookup-read_plan_events k events (read_plan_event e st)
    ∙ ap (history k events) (lookup-read_plan_event k e st)
