-- ===== src/Scheduler/Distinct.antt =====
-- The run ids in the queue of `project_queue` of eventide/scheduler.py.
use eventide.Prelude.{
  ◌≤◌, ◌≡◌, refl, inl, inr, String, List, [], ◌∷◌, Option, some, none, Bool, false, Dict, lookup,
  insert, has, IsDict, count_of, ◌==◌, string_eq, lookup-insert, arith, Option-cases, Bool-cases,
}
use eventide.Runtime.{ok, >>=-eq-ok, ok-injective}
use eventide.Facts.{Fact, run_admitted, run_started}
use eventide.Store.State.{Event}
use eventide.Scheduler.Queue.{
  QueueEntry, QueueStatus, Projection, Admitted, admit, project_fact, project_events, project_event,
  end_run, entry_of, roots_of, project_queue,
}

has-insert_ne :
    {V : Type 0} (k j : String) (v : V) (d : Dict String V)
    → has j d ≡ false
    → (j == k) ≡ false
    → has j (insert k v d) ≡ false
has-insert_ne k j v d h n = ground (arith, lookup-insert k j v d)

insert-IsDict :
    {V : Type 0} (k : String) (v : V) (d : Dict String V) → IsDict d → IsDict (insert k v d)
insert-IsDict k v [] i = (refl, tt)
insert-IsDict k v ((j, w) ∷ d) i = elim (Bool-cases (k == j)) [
  | inl same ↦ rw same i
  | inr other ↦ rw other (has-insert_ne k j v d (i.0) (ground arith), insert-IsDict k v d (i.1))
]

admit-IsDict :
    (p : Projection) (run_id : String) (a : Admitted) (q : Projection)
    → admit p run_id a ≡ ok q
    → IsDict p.admissions
    → IsDict q.admissions
unfolding admit
admit-IsDict p run_id a q h i = elim (Option-cases (lookup run_id p.admissions)) [
  | inl new ↦
      let h₁ = rw (new, admit) at h in
      let same : record p { admissions = insert run_id a p.admissions } ≡ q = ok-injective h₁ in
      rw (← same) (insert-IsDict run_id a p.admissions i)
  | inr (prior, there) ↦ let same : p ≡ q = ground arith in rw (← same) i
]

end_run-admissions :
    (p : Projection) (run_id : String) (status : Option QueueStatus) (q : Projection)
    → end_run p run_id status ≡ ok q
    → q.admissions ≡ p.admissions
unfolding end_run
end_run-admissions p run_id none q h = ground arith
end_run-admissions p run_id (some status) q h = ground arith

project_fact-IsDict :
    (p : Projection) (run_id : String) (e : Event) (q : Projection)
    → project_fact p run_id e ≡ ok q
    → IsDict p.admissions
    → IsDict q.admissions
unfolding project_fact
project_fact-IsDict p run_id e q h i = by_fact e.fact refl
  where
    by_fact : (f : Fact) → e.fact ≡ f → IsDict q.admissions
    by_fact (run_admitted intent) eq =
        let h₁ = rw (eq, project_fact) at h in admit-IsDict p run_id _ q h₁ i
    by_fact (run_started intent) eq =
        let h₁ = rw (eq, project_fact) at h in
        let same : record p { starts = run_id ∷ p.starts } ≡ q = ok-injective h₁ in rw (← same) i
    by_fact f eq = let h₁ = rw (eq, project_fact) at h in rw (end_run-admissions p run_id _ q h₁) i

project_event-IsDict :
    (p : Projection) (e : Event) (q : Projection)
    → project_event p e ≡ ok q
    → IsDict p.admissions
    → IsDict q.admissions
unfolding project_event
project_event-IsDict p e q h i = elim (Bool-cases e.partial) [
  | inl part ↦ let same : p ≡ q = ground arith in rw (← same) i
  | inr whole ↦ elim (Option-cases e.run_id) [
    | inl none_ ↦ let same : p ≡ q = ground arith in rw (← same) i
    | inr (run_id, named) ↦ elim (Bool-cases (run_id == "")) [
      | inl empty ↦ let same : p ≡ q = ground arith in rw (← same) i
      | inr full ↦ project_fact-IsDict p run_id e q (ground arith) i
    ]
  ]
]

project_events-IsDict :
    (p : Projection) (events : List Event) (q : Projection)
    → project_events p events ≡ ok q
    → IsDict p.admissions
    → IsDict q.admissions
unfolding project_events
project_events-IsDict p [] q h i = let same : p ≡ q = ok-injective h in rw (← same) i
project_events-IsDict p (e ∷ events) q h i =
    let (r, first, h₁) = >>=-eq-ok (project_event p e) _ h in
    project_events-IsDict r events q h₁ (project_event-IsDict p e r first i)

abbrev pub of_run : String → QueueEntry → Bool
of_run run_id e = e.run_id == run_id

roots-absent :
    (p : Projection) (run_id : String) (d : Dict String Admitted)
    → has run_id d ≡ false
    → count_of (of_run run_id) (roots_of p d) ≡ 0
unfolding roots_of entry_of
roots-absent p run_id [] h = refl
roots-absent p run_id ((r, a) ∷ d) h = ground (arith, roots-absent p run_id d)

roots-once :
    (p : Projection) (run_id : String) (d : Dict String Admitted)
    → IsDict d
    → count_of (of_run run_id) (roots_of p d) ≤ 1
unfolding roots_of entry_of
roots-once p run_id [] i = omega arith
roots-once p run_id ((r, a) ∷ d) i =
    ground (arith, roots-once p run_id d (i.1), roots-absent p run_id d)

-- A run stands in the queue at most once, whatever events the log holds.
pub project_queue-once :
    (events : List Event) (queue : List QueueEntry) (run_id : String)
    → project_queue events ≡ ok queue
    → count_of (of_run run_id) queue ≤ 1
unfolding project_queue
project_queue-once events queue run_id h =
    let (p, done, h₁) = >>=-eq-ok (project_events _ events) _ h in
    let same : roots_of p p.admissions ≡ queue = ok-injective h₁ in
    rw (← same) (roots-once p run_id p.admissions (project_events-IsDict _ events p done tt))
