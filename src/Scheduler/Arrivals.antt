-- ===== src/Scheduler/Arrivals.antt =====
-- The order of `project_queue` of eventide/scheduler.py, against that of the admissions in the log.
use eventide.Prelude.{
  ◌≡◌, refl, ap, sym, subst, ◌∙◌, inl, inr, String, List, [], ◌∷◌, ◌++◌, Option, some, none, true,
  false, not, ◌&&◌, ◌==◌, Dict, lookup, insert, has, keys, map, string_eq, arith, Bool-cases,
  Option-cases, if◌then◌else◌, String_discrete,
}
use eventide.Runtime.{ok, >>=-eq-ok, ok-injective}
use eventide.Facts.{Fact, run_admitted, run_started, type_of, truthy}
use eventide.Store.State.{Event, Store, contains, facts_by_type}
use eventide.Scheduler.Queue.{
  QueueEntry, Admitted, Projection, QueueStatus, admit, end_run, project_fact, project_event,
  project_events, roots_of, entry_of, project_queue, scheduling_facts, terminal_status,
}
use eventide.Scheduler.Admission.{entries}

-- The run that an event admits, if it does and is not partial.
abbrev pub run_of : Option String → List String
run_of none = []
run_of (some run_id) = if run_id == "" then [] else run_id ∷ []

abbrev pub admits : Event → Fact → List String
admits e (run_admitted intent) = if e.partial then [] else run_of e.run_id
admits e _ = []

-- A run that is known already is not added again.
abbrev pub add_arrivals : List String → List String → List String
add_arrivals known [] = known
add_arrivals known (k ∷ ks) = if contains k known then known else known ++ k ∷ []

-- The runs that are known, and those that are admitted after them, each by its first admission.
abbrev pub arrivals_after : List String → List Event → List String
arrivals_after known [] = known
arrivals_after known (e ∷ events) = arrivals_after (add_arrivals known (admits e e.fact)) events

-- The runs in the order of their first admissions in the log.
abbrev pub arrivals : List Event → List String
arrivals = arrivals_after []

pub data IsSubsequence : List String → List String → Type 0 where
  nothing : IsSubsequence [] []
  passed : {k : String} {xs ys : List String} → IsSubsequence xs ys → IsSubsequence xs (k ∷ ys)
  shared :
      {k : String} {xs ys : List String} → IsSubsequence xs ys → IsSubsequence (k ∷ xs) (k ∷ ys)

abbrev pub run_ids : List QueueEntry → List String
run_ids = map (λ e. e.run_id)

roots_of-IsSubsequence :
    (p : Projection) (d : Dict String Admitted) → IsSubsequence (run_ids (roots_of p d)) (keys d)
unfolding roots_of entry_of
roots_of-IsSubsequence p [] = nothing
roots_of-IsSubsequence p ((run_id, a) ∷ d) = elim (Bool-cases (truthy a.intent.parent_run_id)) [
  | inl child ↦ rw (child, roots_of) (passed (roots_of-IsSubsequence p d))
  | inr root ↦ rw (root, roots_of) (shared (roots_of-IsSubsequence p d))
]

contains-keys : (k : String) (d : Dict String Admitted) → contains k (keys d) ≡ has k d
contains-keys k [] = refl
contains-keys k ((j, a) ∷ d) = ground (arith, contains-keys k d)

keys-insert :
    (k : String) (a : Admitted) (d : Dict String Admitted)
    → keys (insert k a d) ≡ (if contains k (keys d) then keys d else keys d ++ k ∷ [])
keys-insert k a [] = refl
keys-insert k a ((j, b) ∷ d) = ground (arith, keys-insert k a d)

keys-admit :
    (p q : Projection) (run_id : String) (a : Admitted)
    → admit p run_id a ≡ ok q
    → keys q.admissions ≡ (
        if contains run_id (keys p.admissions)
        then keys p.admissions
        else keys p.admissions ++ run_id ∷ [])
unfolding admit
keys-admit p q run_id a h = elim (Option-cases (lookup run_id p.admissions)) [
  | inl new ↦
      let after : insert run_id a p.admissions ≡ q.admissions = ground arith in
      rw (← after) (keys-insert run_id a p.admissions)
  | inr (prior, there) ↦
      let same : p.admissions ≡ q.admissions = ground arith in
      let known : contains run_id (keys p.admissions) ≡ true =
        ground (arith, contains-keys run_id p.admissions) in
      rw (← same, known) refl
]

keys-end_run :
    (p q : Projection) (run_id : String) (status : Option QueueStatus)
    → end_run p run_id status ≡ ok q
    → keys p.admissions ≡ keys q.admissions
unfolding end_run
keys-end_run p q run_id none h = ap (λ (x : Projection). keys x.admissions) (ok-injective h)
keys-end_run p q run_id (some status) h =
    ap (λ (x : Projection). keys x.admissions) (ok-injective h)

keys-project_fact :
    (p q : Projection) (run_id : String) (e : Event) (f : Fact)
    → e.partial ≡ false
    → e.run_id ≡ some run_id
    → (run_id == "") ≡ false
    → e.fact ≡ f
    → project_fact p run_id e ≡ ok q
    → add_arrivals (keys p.admissions) (admits e f) ≡ keys q.admissions
unfolding project_fact
keys-project_fact p q run_id e (run_admitted intent) whole run named eq h =
    rw (whole, run, named) (sym (keys-admit p q run_id _ (rw (eq, project_fact) at h)))
keys-project_fact p q run_id e (run_started intent) whole run named eq h =
    ap (λ (x : Projection). keys x.admissions) (ok-injective (rw (eq, project_fact) at h))
keys-project_fact p q run_id e f whole run named eq h =
    keys-end_run p q run_id (terminal_status e.fact) (rw (eq, project_fact) at h)

-- A fact of a run without a name, or one that is partial, admits nothing.
admits-skipped : (e : Event) (f : Fact) → e.partial ≡ true → admits e f ≡ []
admits-skipped e (run_admitted intent) h = rw h refl
admits-skipped e f h = refl

admits-unnamed : (e : Event) (f : Fact) → run_of e.run_id ≡ [] → admits e f ≡ []
admits-unnamed e (run_admitted intent) h = ground (arith, h)
admits-unnamed e f h = refl

keys-project_event :
    (p q : Projection) (e : Event)
    → project_event p e ≡ ok q
    → add_arrivals (keys p.admissions) (admits e e.fact) ≡ keys q.admissions
unfolding project_event
keys-project_event p q e h = elim (Bool-cases e.partial) [
  | inl skipped ↦
      rw (admits-skipped e e.fact skipped) (
        ap (λ (x : Projection). keys x.admissions)
          (ok-injective (rw (skipped, project_event) at h)))
  | inr whole ↦ elim (Option-cases e.run_id) [
    | inl unnamed ↦ rw (admits-unnamed e e.fact (ap run_of unnamed)) (
        ap (λ (x : Projection). keys x.admissions)
          (ok-injective (rw (whole, unnamed, project_event) at h)))
    | inr (run_id, run) ↦ elim (Bool-cases (run_id == "")) [
      | inl empty ↦
          let none_ : run_of e.run_id ≡ [] = rw (run, empty) refl in
          rw (admits-unnamed e e.fact none_) (
            ap (λ (x : Projection). keys x.admissions)
              (ok-injective (rw (whole, run, empty, project_event) at h)))
      | inr named ↦
          keys-project_fact p q run_id e e.fact whole run named refl
            (rw (whole, run, named, project_event) at h)
    ]
  ]
]

keys-project_events :
    (p q : Projection) (events : List Event)
    → project_events p events ≡ ok q
    → arrivals_after (keys p.admissions) events ≡ keys q.admissions
unfolding project_events
keys-project_events p q [] h = ap (λ (x : Projection). keys x.admissions) (ok-injective h)
keys-project_events p q (e ∷ events) h =
    let (p', first, rest) = >>=-eq-ok (project_event p e) _ h in
    ap (λ known. arrivals_after known events) (keys-project_event p p' e first)
    ∙ keys-project_events p' q events rest

-- The facts that the scheduler reads hold every admission.
unread-admits :
    (e : Event) (f : Fact)
    → (not e.partial && contains (type_of f) scheduling_facts) ≡ false
    → admits e f ≡ []
unfolding String_discrete
unread-admits e (run_admitted intent) h = ground arith
unread-admits e f h = refl

arrivals-facts_by_type :
    (known : List String) (events : List Event)
    → arrivals_after known (facts_by_type events scheduling_facts) ≡ arrivals_after known events
unfolding facts_by_type
arrivals-facts_by_type known [] = refl
arrivals-facts_by_type known (e ∷ events) =
    elim (Bool-cases (not e.partial && contains (type_of e.fact) scheduling_facts)) [
      | inl read ↦
          rw (read, facts_by_type)
            (arrivals-facts_by_type (add_arrivals known (admits e e.fact)) events)
      | inr unread ↦
          rw (unread, facts_by_type)
            (rw (unread-admits e e.fact unread) (arrivals-facts_by_type known events))
    ]

-- The queue holds its runs in the order in which the log admits them.
pub entries-IsSubsequence :
    (s : Store) (queue : List QueueEntry)
    → entries s ≡ ok queue
    → IsSubsequence (run_ids queue) (arrivals s.events)
unfolding entries project_queue
entries-IsSubsequence s queue h =
    let start : Projection = record { admissions = []; starts = []; terminals = [] } in
    let (p, read, made) =
      >>=-eq-ok (project_events start (facts_by_type s.events scheduling_facts)) _ h in
    let order : arrivals s.events ≡ keys p.admissions =
      sym (arrivals-facts_by_type [] s.events)
      ∙ keys-project_events start p (facts_by_type s.events scheduling_facts) read in
    subst (λ q. IsSubsequence (run_ids q) (arrivals s.events)) (ok-injective made)
      (subst (IsSubsequence (run_ids (roots_of p p.admissions))) (sym order)
        (roots_of-IsSubsequence p p.admissions))
