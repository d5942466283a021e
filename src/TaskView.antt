-- ===== src/TaskView.antt =====
-- The tasks of a session as its log gives them: `TaskPlanProjection` of eventide/projections.py.
pub mod Tasks
pub mod History
pub mod Told
pub mod Evidence
use eventide.Prelude.{
  ℕ, ◌+◌, ◌-◌, String, List, [], ◌∷◌, ◌++◌, Option, none, some, Bool, true, false, not, ◌&&◌, ◌||◌,
  ltb, leb, ◌==◌, nat_eq, string_eq, if◌then◌else◌, length, drop, select, map, Dict, lookup, insert,
  values,
}
use eventide.Facts.{truthy}
use eventide.Store.State.{contains, is_id}

-- An item of a plan; an id that is no text, and a key that is absent, is `none`.
pub record PlannedTodo : Type 0 where
  pub id : Option String
  pub content : Option String
  pub status : Option String
  pub summary : Option String
  pub depends_on : List String

-- The payload of the end of a tool.
pub record ToolPayload : Type 0 where
  pub call_id : Option String
  pub name : Option String
  pub is_error : Option Bool

pub data PlanFact : Type 0 where
  plan_updated : List PlannedTodo → PlanFact
  tool_completed tool_abandoned : ToolPayload → PlanFact
  unread : PlanFact

pub record PlanEvent : Type 0 where
  pub partial : Bool
  pub session_seq : ℕ
  pub run_id : Option String
  pub event_id : Option String
  pub fact : PlanFact

pub record TaskRecord : Type 0 where
  pub id : String
  pub first_seq : ℕ
  pub settled_seq : Option ℕ
  pub order : Option ℕ
  pub content : String
  pub status : String
  pub summary : Option String
  pub depends_on : List String

-- An entry of `outcomes`.
pub record Observed : Type 0 where
  pub run_id : Option String
  pub call_id : Option String
  pub name : Option String
  pub is_error : Bool
  pub event_id : Option String
  pub session_seq : ℕ

pub record PlanState : Type 0 where
  pub tasks : Dict String TaskRecord
  pub outcomes : List Observed
  pub active : Option String
  pub updated_seq : ℕ

abbrev pub value_or {ℓ} : {A : Type ℓ} → A → Option A → A
value_or default none = default
value_or default (some a) = a

abbrev pub is_end : Option String → Bool
is_end status = is_id status "completed" || is_id status "blocked"

-- `record["settled_seq"]`: where it is None, this event's number.
abbrev pub settled_at : ℕ → Option ℕ → Option ℕ
settled_at seq none = some seq
settled_at seq (some before) = some before

abbrev pub first_of : ℕ → Option TaskRecord → ℕ
first_of seq none = seq
first_of seq (some r) = r.first_seq

abbrev pub settled_of : Option TaskRecord → Option ℕ
settled_of none = none
settled_of (some r) = r.settled_seq

-- The record after an item, from the one before it.
abbrev pub record_of : ℕ → ℕ → String → PlannedTodo → Option TaskRecord → TaskRecord
record_of seq index task_id todo before = record {
  id = task_id;
  first_seq = first_of seq before;
  settled_seq = if is_end todo.status then settled_at seq (settled_of before) else none;
  order = some index;
  content = value_or "" todo.content;
  status = value_or "pending" todo.status;
  summary = todo.summary;
  depends_on = todo.depends_on;
}

-- `tasks`, `claimed` and `active` in the loop over the items.
pub record Claims : Type 0 where
  pub tasks : Dict String TaskRecord
  pub claimed : List String
  pub active : Option String

abbrev pub claim : ℕ → ℕ → PlannedTodo → String → Claims → Claims
claim seq index todo task_id c = record {
  tasks = insert task_id (record_of seq index task_id todo (lookup task_id c.tasks)) c.tasks;
  claimed = task_id ∷ c.claimed;
  active = if is_id todo.status "in_progress" then some task_id else c.active;
}

-- An item without an id is passed over.
abbrev pub claim_item : ℕ → ℕ → PlannedTodo → Option String → Claims → Claims
claim_item seq index todo none c = c
claim_item seq index todo (some task_id) c =
    if task_id == "" then c else claim seq index todo task_id c

abbrev pub claim_all : ℕ → ℕ → List PlannedTodo → Claims → Claims
claim_all seq index [] c = c
claim_all seq index (todo ∷ todos) c =
    claim_all seq (index + 1) todos (claim_item seq index todo todo.id c)

abbrev pub place : List String → String → TaskRecord → TaskRecord
place claimed task_id r = if contains task_id claimed then r else record r { order = none }

abbrev pub drop_unclaimed : List String → Dict String TaskRecord → Dict String TaskRecord
drop_unclaimed claimed [] = []
drop_unclaimed claimed ((task_id, r) ∷ tasks) =
    (task_id, place claimed task_id r) ∷ drop_unclaimed claimed tasks

abbrev pub observed : PlanEvent → Bool → ToolPayload → Observed
observed e abandoned p = record {
  run_id = e.run_id;
  call_id = p.call_id;
  name = p.name;
  is_error = value_or abandoned p.is_error;
  event_id = e.event_id;
  session_seq = e.session_seq;
}

-- The plan's own tool is no evidence.
abbrev pub outcome_of : PlanEvent → Bool → ToolPayload → List Observed
outcome_of e abandoned p = if is_id p.name "todo_write" then [] else observed e abandoned p ∷ []

abbrev pub add_outcomes : List Observed → PlanState → PlanState
add_outcomes more st = record st { outcomes = st.outcomes ++ more }

abbrev pub update_plan : ℕ → Claims → PlanState → PlanState
update_plan seq c st = record {
  tasks = drop_unclaimed c.claimed c.tasks;
  outcomes = st.outcomes;
  active = c.active;
  updated_seq = seq;
}

unfoldable pub read_plan_fact : PlanEvent → PlanFact → PlanState → PlanState
read_plan_fact e (plan_updated todos) st =
    update_plan e.session_seq
      (claim_all e.session_seq 1 todos (record { tasks = st.tasks; claimed = []; active = none }))
      st
read_plan_fact e (tool_completed p) st = add_outcomes (outcome_of e false p) st
read_plan_fact e (tool_abandoned p) st = add_outcomes (outcome_of e true p) st
read_plan_fact e unread st = st

abbrev pub read_plan_event : PlanEvent → PlanState → PlanState
read_plan_event e st = if e.partial then st else read_plan_fact e e.fact st

abbrev pub read_plan_events : PlanState → List PlanEvent → PlanState
read_plan_events st [] = st
read_plan_events st (e ∷ events) = read_plan_events (read_plan_event e st) events

abbrev pub max_evidence : ℕ
max_evidence = 8

abbrev pub within_settled : Option ℕ → ℕ → Bool
within_settled none seq = true
within_settled (some settled) seq = leb seq settled

abbrev pub in_window : TaskRecord → Observed → Bool
in_window r o = ltb r.first_seq o.session_seq && within_settled r.settled_seq o.session_seq

-- A task with its evidence.
pub record TaskView : Type 0 where
  pub task : TaskRecord
  pub evidence_omitted : ℕ
  pub evidence : List Observed

abbrev pub view_of : List Observed → TaskRecord → TaskView
view_of outcomes r =
    let window = select (in_window r) outcomes in
    record {
      task = r;
      evidence_omitted = length window - max_evidence;
      evidence = drop (length window - max_evidence) window;
    }

-- `<` on the keys of the sort: whether the order is None, the order or 0, and the first number.
abbrev pub key_before : Option ℕ × ℕ → Option ℕ × ℕ → Bool
key_before (some a, f) (some b, g) = ltb a b || (a == b && ltb f g)
key_before (some a, f) (none, g) = true
key_before (none, f) (some b, g) = false
key_before (none, f) (none, g) = ltb f g

abbrev pub key_of : TaskView → Option ℕ × ℕ
key_of v = (v.task.order, v.task.first_seq)

-- The sort is stable.
abbrev pub put_task : TaskView → List TaskView → List TaskView
put_task v [] = v ∷ []
put_task v (w ∷ ws) = if key_before (key_of w) (key_of v) then w ∷ put_task v ws else v ∷ w ∷ ws

abbrev pub in_order : List TaskView → List TaskView
in_order [] = []
in_order (v ∷ vs) = put_task v (in_order vs)

pub record PlanView : Type 0 where
  pub tasks : List TaskView
  pub active_task_id : Option String
  pub updated_seq : ℕ

abbrev pub first_plan_state : PlanState
first_plan_state = record { tasks = []; outcomes = []; active = none; updated_seq = 0 }

unfoldable pub project_tasks : List PlanEvent → PlanView
project_tasks events =
    let st = read_plan_events first_plan_state events in
    record {
      tasks = in_order (map (view_of st.outcomes) (values st.tasks));
      active_task_id = st.active;
      updated_seq = st.updated_seq;
    }
