-- ===== src/TaskView/Told.antt =====
-- The records of tasks against the log, for `TaskPlanProjection` of eventide/projections.py.
use eventide.Prelude.{
  ℕ, ◌+◌, ◌≡◌, refl, sym, ap, ◌∙◌, inl, inr, String, List, [], ◌∷◌, ◌++◌, Option, none, some, Bool,
  true, false, string_eq, if◌then◌else◌, lookup, Bool-cases, Option-cases, arith,
}
use eventide.TaskView.{
  PlannedTodo, PlanEvent, TaskRecord, PlanState, settled_at, settled_of, record_of,
  read_plan_events,
}
use eventide.TaskView.Tasks.{is_named}
use eventide.TaskView.History.{
  plan_of, names, or_then, named_at, first_planned, last_plan, place_of, last_place, marks_in,
  marks_of, are_ends, settled_since, mention, mention_all, placed, planned, history,
  lookup-read_plan_events,
}

-- The first number.
abbrev starts : Option TaskRecord → Option ℕ
starts none = none
starts (some r) = some r.first_seq

starts-mention_all :
    (seq index : ℕ) (k : String) (todos : List PlannedTodo) (o : Option TaskRecord)
    → starts (mention_all seq index k todos o) ≡ or_then (starts o) (named_at k seq todos)
starts-mention_all seq index k [] none = refl
starts-mention_all seq index k [] (some r) = refl
starts-mention_all seq index k (todo ∷ todos) none =
    ground (arith, starts-mention_all seq (index + 1) k todos (mention seq index k todo none))
starts-mention_all seq index k (todo ∷ todos) (some r) =
    ground (arith, starts-mention_all seq (index + 1) k todos (mention seq index k todo (some r)))

starts-placed : (b : Bool) (o : Option TaskRecord) → starts (placed b o) ≡ starts o
starts-placed b none = refl
starts-placed true (some r) = refl
starts-placed false (some r) = refl

or_then_assoc : {A : Type 0} (a b c : Option A) → or_then (or_then a b) c ≡ or_then a (or_then b c)
or_then_assoc none b c = refl
or_then_assoc (some a) b c = refl

starts-history :
    (k : String) (events : List PlanEvent) (o : Option TaskRecord)
    → starts (history k events o) ≡ or_then (starts o) (first_planned k events)
starts-history k [] none = refl
starts-history k [] (some r) = refl
starts-history k (e ∷ events) o = elim (Option-cases (plan_of e)) [
  | inl nothing ↦ rw nothing (starts-history k events o)
  | inr (todos, plan) ↦ rw plan (
      starts-history k events (planned e.session_seq k (some todos) o)
      ∙ ap (λ s. or_then s (first_planned k events))
          (starts-placed (names k todos) (mention_all e.session_seq 1 k todos o)
            ∙ starts-mention_all e.session_seq 1 k todos o)
      ∙ or_then_assoc (starts o) (named_at k e.session_seq todos) (first_planned k events))
]

-- The place.
abbrev order_of : Option TaskRecord → Option ℕ
order_of none = none
order_of (some r) = r.order

order_of-mention_all :
    (seq index : ℕ) (k : String) (todos : List PlannedTodo) (o : Option TaskRecord)
    → order_of (mention_all seq index k todos o) ≡ or_then (place_of k index todos) (order_of o)
order_of-mention_all seq index k [] o = refl
order_of-mention_all seq index k (todo ∷ todos) o =
    ground (arith, order_of-mention_all seq (index + 1) k todos (mention seq index k todo o))

names-place_of :
    (k : String) (index : ℕ) (todos : List PlannedTodo)
    → (names k todos ≡ false → place_of k index todos ≡ none)
      × (names k todos ≡ true → (i : ℕ) × (place_of k index todos ≡ some i))
names-place_of k index [] = (λ h. refl, λ h. absurd (ground arith))
names-place_of k index (todo ∷ todos) =
    let (absent, there) = names-place_of k (index + 1) todos in
    elim (Option-cases (place_of k (index + 1) todos)) [
      | inr (i, found) ↦ (λ h. ground (arith, absent), λ h. (i, rw found refl))
      | inl missing ↦ elim (Bool-cases (is_named k todo.id)) [
        | inl it ↦ (λ h. absurd (ground arith), λ h. (index, rw (missing, it) refl))
        | inr other ↦ (
          λ h. rw (missing, other) refl,
          λ h. let (i, found) = there (ground arith) in absurd (none-some (sym missing ∙ found)),
        )
      ]
    ]
  where
    none-some : {i : ℕ} → ◌≡◌ {A = Option ℕ} none (some i) → ⊥
    none-some h = cc

order_of-planned :
    (seq : ℕ) (k : String) (todos : List PlannedTodo) (o : Option TaskRecord)
    → order_of (planned seq k (some todos) o) ≡ place_of k 1 todos
order_of-planned seq k todos o =
    let m = order_of-mention_all seq 1 k todos o in
    let (absent, there) = names-place_of k 1 todos in
    elim (Bool-cases (names k todos)) [
      | inl named ↦
          let (i, found) = there named in
          kept (mention_all seq 1 k todos o) named (m ∙ rw found refl ∙ sym found)
      | inr unnamed ↦ rw unnamed (dropped (mention_all seq 1 k todos o) ∙ sym (absent unnamed))
    ]
  where
    kept :
        (p : Option TaskRecord)
        → names k todos ≡ true
        → order_of p ≡ place_of k 1 todos
        → order_of (placed (names k todos) p) ≡ place_of k 1 todos
    kept none named h = h
    kept (some r) named h = rw named h

    dropped : (p : Option TaskRecord) → order_of (placed false p) ≡ none
    dropped none = refl
    dropped (some r) = refl

order_of-history :
    (k : String) (events : List PlanEvent) (o : Option TaskRecord)
    → order_of (history k events o)
      ≡ (elim (last_plan events) [ none ↦ order_of o | some todos ↦ place_of k 1 todos ])
order_of-history k [] o = refl
order_of-history k (e ∷ events) o = elim (Option-cases (last_plan events)) [
  | inr (later, last) ↦
      rw last (order_of-history k events (planned e.session_seq k (plan_of e) o) ∙ rw last refl)
  | inl none_later ↦ elim (Option-cases (plan_of e)) [
    | inl nothing ↦ rw (none_later, nothing) (order_of-history k events o ∙ rw none_later refl)
    | inr (todos, plan) ↦
        rw (none_later, plan)
          (order_of-history k events (planned e.session_seq k (some todos) o)
            ∙ rw none_later (order_of-planned e.session_seq k todos o))
  ]
]

-- The settling.
abbrev settle_all : List (ℕ × Bool) → Option ℕ → Option ℕ
settle_all [] o = o
settle_all ((seq, end) ∷ marks) o = settle_all marks (if end then settled_at seq o else none)

settle_all-append :
    (a b : List (ℕ × Bool)) (o : Option ℕ) → settle_all (a ++ b) o ≡ settle_all b (settle_all a o)
settle_all-append [] b o = refl
settle_all-append ((seq, end) ∷ a) b o =
    settle_all-append a b (if end then settled_at seq o else none)

settled_of-mention_all :
    (seq index : ℕ) (k : String) (todos : List PlannedTodo) (o : Option TaskRecord)
    → settled_of (mention_all seq index k todos o)
      ≡ settle_all (marks_in seq k todos) (settled_of o)
settled_of-mention_all seq index k [] o = refl
settled_of-mention_all seq index k (todo ∷ todos) o = elim (Bool-cases (is_named k todo.id)) [
  | inl it ↦
      rw it (settled_of-mention_all seq (index + 1) k todos (some (record_of seq index k todo o)))
  | inr other ↦ rw other (settled_of-mention_all seq (index + 1) k todos o)
]

settled_of-placed : (b : Bool) (o : Option TaskRecord) → settled_of (placed b o) ≡ settled_of o
settled_of-placed b none = refl
settled_of-placed true (some r) = refl
settled_of-placed false (some r) = refl

settled_of-history :
    (k : String) (events : List PlanEvent) (o : Option TaskRecord)
    → settled_of (history k events o) ≡ settle_all (marks_of k events) (settled_of o)
settled_of-history k [] o = refl
settled_of-history k (e ∷ events) o = elim (Option-cases (plan_of e)) [
  | inl nothing ↦ rw nothing (settled_of-history k events o)
  | inr (todos, plan) ↦ rw plan (
      settled_of-history k events (planned e.session_seq k (some todos) o)
      ∙ ap (settle_all (marks_of k events)) (
          settled_of-placed (names k todos) (mention_all e.session_seq 1 k todos o)
          ∙ settled_of-mention_all e.session_seq 1 k todos o)
      ∙ sym (settle_all-append (marks_in e.session_seq k todos) (marks_of k events) (settled_of o)))
]

settle_all-settled_since :
    (marks : List (ℕ × Bool))
    → (settle_all marks none ≡ settled_since marks)
      × ((s : ℕ)
          → settle_all marks (some s) ≡ (if are_ends marks then some s else settled_since marks))
settle_all-settled_since [] = (refl, λ s. refl)
settle_all-settled_since ((seq, true) ∷ marks) =
    let (fresh, kept) = settle_all-settled_since marks in
    (kept seq, λ s. kept s ∙ ground (arith, kept s))
settle_all-settled_since ((seq, false) ∷ marks) =
    let (fresh, kept) = settle_all-settled_since marks in (fresh, λ s. fresh)

-- A record tells what the log says of its task.
pub record IsTold (events : List PlanEvent) (r : TaskRecord) : Type 0 where
  pub first : first_planned r.id events ≡ some r.first_seq
  pub settled : r.settled_seq ≡ settled_since (marks_of r.id events)
  pub place : r.order ≡ last_place r.id (last_plan events)

place-last_place :
    (k : String) (p : Option (List PlannedTodo))
    → (elim p [ none ↦ none | some todos ↦ place_of k 1 todos ]) ≡ last_place k p
place-last_place k none = refl
place-last_place k (some todos) = refl

pub read_plan_events-IsTold :
    (k : String) (events : List PlanEvent) (st : PlanState) (r : TaskRecord)
    → lookup k st.tasks ≡ none
    → lookup k (read_plan_events st events).tasks ≡ some r
    → r.id ≡ k
    → IsTold events r
read_plan_events-IsTold k events st r new there same =
    let told : history k events none ≡ some r =
      ap (history k events) (sym new) ∙ sym (lookup-read_plan_events k events st) ∙ there in
    rw same (record {
      first = sym (starts-history k events none) ∙ ap starts told;
      settled =
          sym (ap settled_of told)
          ∙ settled_of-history k events none
          ∙ (settle_all-settled_since (marks_of k events)).0;
      place =
          sym (ap order_of told)
          ∙ order_of-history k events none
          ∙ place-last_place k (last_plan events);
    })
