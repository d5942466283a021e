-- ===== src/TaskView/Evidence.antt =====
-- The evidence that `TaskPlanProjection` of eventide/projections.py shows for a task.
use eventide.Prelude.{
  ℕ, zero, suc, ◌-◌, ◌≡◌, refl, sym, subst, ◌∙◌, ap, min, String, List, [], ◌∷◌, ◌++◌, Option, none,
  some, Bool, true, false, ◌==◌, ◌&&◌, string_eq, if◌then◌else◌, select, count_of, length, take,
  drop, length-drop, length-take, map, values, Dict, lookup, ltb, leb, arith,
}
use mathlib.Core.List.{append-nil, append_assoc}
use eventide.TaskView.{
  plan_updated, tool_completed, tool_abandoned, unread, PlanFact, PlanEvent, TaskRecord, Observed,
  PlanState, outcome_of, read_plan_fact, read_plan_event, read_plan_events, max_evidence, in_window,
  TaskView, view_of, put_task, in_order, PlanView, first_plan_state, project_tasks,
}
use eventide.TaskView.Tasks.{
  is_planned, IsKeyed, read_plan_events-KnowsTasks, count_of-values, count_of-in_order, is_ordered,
  in_order-is_ordered,
}
use eventide.TaskView.History.{first_planned, settled_since, marks_of}
use eventide.TaskView.Told.{IsTold, read_plan_events-IsTold}

-- What the tools of a log have come to, other than the plan's own.
abbrev pub outcomes_in : PlanEvent → PlanFact → List Observed
outcomes_in e (plan_updated todos) = []
outcomes_in e (tool_completed p) = outcome_of e false p
outcomes_in e (tool_abandoned p) = outcome_of e true p
outcomes_in e unread = []

abbrev pub outcomes_of : List PlanEvent → List Observed
outcomes_of [] = []
outcomes_of (e ∷ events) = (if e.partial then [] else outcomes_in e e.fact) ++ outcomes_of events

outcomes-read_plan_fact :
    (e : PlanEvent) (fact : PlanFact) (st : PlanState)
    → (read_plan_fact e fact st).outcomes ≡ st.outcomes ++ outcomes_in e fact
unfolding read_plan_fact
outcomes-read_plan_fact e (plan_updated todos) st = sym (append-nil st.outcomes)
outcomes-read_plan_fact e (tool_completed p) st = refl
outcomes-read_plan_fact e (tool_abandoned p) st = refl
outcomes-read_plan_fact e unread st = sym (append-nil st.outcomes)

outcomes-read_plan_event :
    (e : PlanEvent) (st : PlanState)
    → (read_plan_event e st).outcomes
      ≡ st.outcomes ++ (if e.partial then [] else outcomes_in e e.fact)
outcomes-read_plan_event e st =
    ground (arith, outcomes-read_plan_fact e e.fact st, append-nil st.outcomes)

outcomes-read_plan_events :
    (events : List PlanEvent) (st : PlanState)
    → (read_plan_events st events).outcomes ≡ st.outcomes ++ outcomes_of events
outcomes-read_plan_events [] st = sym (append-nil st.outcomes)
outcomes-read_plan_events (e ∷ events) st =
    outcomes-read_plan_events events (read_plan_event e st)
    ∙ ap (λ l. l ++ outcomes_of events) (outcomes-read_plan_event e st)
    ∙ append_assoc st.outcomes (if e.partial then [] else outcomes_in e e.fact) (outcomes_of events)

-- Whether a number comes after the first, and no later than the settling, that a log tells of a task.
abbrev pub is_after : Option ℕ → ℕ → Bool
is_after none seq = false
is_after (some first) seq = ltb first seq

abbrev pub is_until : Option ℕ → ℕ → Bool
is_until none seq = true
is_until (some settled) seq = leb seq settled

-- The outcomes that belong to a task.
abbrev pub is_evidence_of : List PlanEvent → String → Observed → Bool
is_evidence_of events k o =
    is_after (first_planned k events) o.session_seq
    && is_until (settled_since (marks_of k events)) o.session_seq

-- A task is what the log tells of it, and its evidence is the last eight, or all, of the outcomes that
-- belong to it, in their order, with the number of those before.
pub record IsEvidence (events : List PlanEvent) (v : TaskView) : Type 0 where
  pub told : IsTold events v.task
  pub earlier : List Observed
  pub split : select (is_evidence_of events v.task.id) (outcomes_of events) ≡ earlier ++ v.evidence
  pub omitted : v.evidence_omitted ≡ length earlier
  pub size :
      length v.evidence
      ≡ min 8 (length (select (is_evidence_of events v.task.id) (outcomes_of events)))

abbrev pub AllEvidence : List PlanEvent → List TaskView → Type 0
AllEvidence events [] = Unit
AllEvidence events (v ∷ vs) = IsEvidence events v × AllEvidence events vs

take-drop : (n : ℕ) (os : List Observed) → take n os ++ drop n os ≡ os
take-drop zero os = refl
take-drop (suc n) [] = refl
take-drop (suc n) (o ∷ os) = ap (λ l. o ∷ l) (take-drop n os)

is_until-in_window :
    (r : TaskRecord) (o : Observed)
    → (is_after (some r.first_seq) o.session_seq && is_until r.settled_seq o.session_seq)
      ≡ in_window r o
is_until-in_window r o = ground arith

select-told :
    (events : List PlanEvent) (r : TaskRecord) (os : List Observed)
    → IsTold events r
    → select (is_evidence_of events r.id) os ≡ select (in_window r) os
select-told events r [] told = refl
select-told events r (o ∷ os) told =
    let same : is_evidence_of events r.id o ≡ in_window r o =
      rw (told.first, ← told.settled) (is_until-in_window r o) in
    ground (arith, same, select-told events r os told)

view_of-IsEvidence :
    (events : List PlanEvent) (r : TaskRecord)
    → IsTold events r
    → IsEvidence events (view_of (outcomes_of events) r)
view_of-IsEvidence events r told =
    let outcomes = outcomes_of events in
    let window = select (in_window r) outcomes in
    let before = length window - max_evidence in
    let same = select-told events r outcomes told in
    record {
      told = told;
      earlier = take before window;
      split = same ∙ sym (take-drop before window);
      omitted = omega (arith, length-take before window);
      size = rw same (omega (arith, length-drop before window));
    }

values-AllEvidence :
    (events : List PlanEvent) (d : Dict String TaskRecord)
    → IsKeyed d
    → ((k : String) (r : TaskRecord) → lookup k d ≡ some r → r.id ≡ k → IsTold events r)
    → AllEvidence events (map (view_of (outcomes_of events)) (values d))
values-AllEvidence events [] keyed told = tt
values-AllEvidence events ((k, r) ∷ d) (same, once, keyed) told = (
  view_of-IsEvidence events r (told k r (ground arith) same),
  values-AllEvidence events d keyed
      (λ j s there. let other : (j == k) ≡ false = ground arith in told j s (rw other there)),
)

put_task-AllEvidence :
    (events : List PlanEvent) (v : TaskView) (ws : List TaskView)
    → IsEvidence events v
    → AllEvidence events ws
    → AllEvidence events (put_task v ws)
put_task-AllEvidence events v [] h k = (h, tt)
put_task-AllEvidence events v (w ∷ ws) h k = ground (arith, put_task-AllEvidence events v ws h)

in_order-AllEvidence :
    (events : List PlanEvent) (vs : List TaskView)
    → AllEvidence events vs
    → AllEvidence events (in_order vs)
in_order-AllEvidence events [] h = tt
in_order-AllEvidence events (v ∷ vs) (h, k) =
    put_task-AllEvidence events v (in_order vs) h (in_order-AllEvidence events vs k)

abbrev pub IsPlanView : List PlanEvent → PlanView → Type 0
IsPlanView events plan =
    ((k : String)
      → count_of (λ (v : TaskView). v.task.id == k) plan.tasks
        ≡ (if is_planned k events then 1 else 0))
    × (is_ordered plan.tasks ≡ true)
    × AllEvidence events plan.tasks

-- The tasks that a session's log shows, whatever it holds: every id that is not empty and stands in a
-- plan that is not partial has exactly one task, and no other id has one. The first number of a task is
-- that of the first plan that names it, it is settled by the first plan from which on all that name it
-- call it completed or blocked, and its place is the one that it has in the last plan, or none. The tasks
-- stand by their places, those without one last, and by their first numbers; and the evidence of each is
-- the last eight, or all, of the outcomes of tools, the plan's own aside, after its first number and up to
-- its settling, with the number of those before.
pub project_tasks-IsPlanView : (events : List PlanEvent) → IsPlanView events (project_tasks events)
unfolding project_tasks
project_tasks-IsPlanView events =
    let st = read_plan_events first_plan_state events in
    let views = map (view_of st.outcomes) (values st.tasks) in
    let (keyed, named) = read_plan_events-KnowsTasks events first_plan_state tt in
    (
      λ k.
          count_of-in_order (λ v. v.task.id == k) views
          ∙ count_of-values k st.outcomes st.tasks keyed
          ∙ ground (arith, named k),
      in_order-is_ordered views,
      in_order-AllEvidence events views (
          subst (λ os. AllEvidence events (map (view_of os) (values st.tasks)))
            (sym (outcomes-read_plan_events events first_plan_state))
            (values-AllEvidence events st.tasks keyed (λ k r there same.
              read_plan_events-IsTold k events first_plan_state r refl there same))),
    )
