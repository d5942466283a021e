-- ===== src/RunState/Ends.antt =====
-- How a run ends in `RuntimeStateProjection` of eventide/projections.py.
use eventide.Prelude.{
  ℕ, ◌≡◌, refl, sym, subst, ◌∙◌, inl, inr, String, List, [], ◌∷◌, Option, none, some, Bool, true,
  false, arith, Bool-cases, if◌then◌else◌,
}
use eventide.RunState.{
  RunStatus, queued, running, waiting_for_user, completed, failed, interrupted, EndStatus,
  status_of_end, EndPayload, RunState, RunFact, ends, unread, RunEvent, first_state, or_else, null,
  finish, read_fact, read_event, read_events, project_state,
}

-- The fields that only the end of a run may set.
pub record Outcome : Type 0 where
  pub output : String
  pub duration_ms : ℕ
  pub error : String
  pub reason : String
  pub gap_files : String
  pub completed_at : Option ℕ

abbrev pub outcome_of : RunState → Outcome
outcome_of st = record {
  output = st.output;
  duration_ms = st.duration_ms;
  error = st.error;
  reason = st.reason;
  gap_files = st.gap_files;
  completed_at = st.completed_at;
}

-- The first terminal fact of a log that is not partial, with its time.
abbrev pub end_of : RunFact → ℕ → Option (EndStatus × EndPayload × ℕ)
end_of (ends end payload) ts = some (end, payload, ts)
end_of _ ts = none

abbrev pub or_later :
    Option (EndStatus × EndPayload × ℕ)
    → Option (EndStatus × EndPayload × ℕ)
    → Option (EndStatus × EndPayload × ℕ)
or_later none later = later
or_later (some end) later = some end

abbrev has_ended : Option (EndStatus × EndPayload × ℕ) → Bool
has_ended none = false
has_ended (some end) = true

abbrev pub event_end : RunEvent → Option (EndStatus × EndPayload × ℕ)
event_end e = if e.partial then none else end_of e.fact e.ts

abbrev pub first_end : List RunEvent → Option (EndStatus × EndPayload × ℕ)
first_end [] = none
first_end (e ∷ events) = or_later (event_end e) (first_end events)

abbrev pub is_live : RunStatus → Bool
is_live queued = true
is_live running = true
is_live waiting_for_user = true
is_live completed = false
is_live failed = false
is_live interrupted = false

-- A run without a terminal fact is live, and its outcome is that of a new run. Otherwise status
-- and outcome are those of the first terminal fact.
abbrev pub EndsBy : Option (EndStatus × EndPayload × ℕ) → RunState → Type 0
EndsBy none st = (is_live st.status ≡ true) × (outcome_of st ≡ outcome_of first_state)
EndsBy (some (end, p, ts)) st =
    (st.status ≡ status_of_end end)
    × (outcome_of st ≡ record {
      output = or_else p.output "";
      duration_ms = or_else p.duration_ms 0;
      error = or_else p.error null;
      reason = or_else p.reason null;
      gap_files = or_else p.gap_files null;
      completed_at = some ts;
    })

-- After the end nothing changes status and outcome.
read_fact-ended :
    (fact : RunFact) (ts : ℕ) (st : RunState)
    → let r = read_fact true fact ts st in
      (r.1 ≡ true) × (r.0.status ≡ st.status) × (outcome_of r.0 ≡ outcome_of st)
unfolding read_fact
read_fact-ended unread ts st = (refl, refl, refl)
read_fact-ended _ ts st = ground arith

read_fact-live :
    (fact : RunFact) (ts : ℕ) (st : RunState)
    → EndsBy none st
    → let r = read_fact false fact ts st in
      (r.1 ≡ has_ended (end_of fact ts)) × EndsBy (end_of fact ts) r.0
unfolding read_fact finish
read_fact-live unread ts st h = (refl, h)
read_fact-live _ ts st h = ground arith

read_event-EndsBy :
    (o : Option (EndStatus × EndPayload × ℕ)) (st : RunState) (e : RunEvent)
    → EndsBy o st
    → let r = read_event (st, has_ended o) e in
      (r.1 ≡ has_ended (or_later o (event_end e))) × EndsBy (or_later o (event_end e)) r.0
read_event-EndsBy none st e h = elim (Bool-cases e.partial) [
  | inl skipped ↦ rw skipped (refl, h)
  | inr seen ↦ rw seen (read_fact-live e.fact e.ts st h)
]
read_event-EndsBy (some end) st e h = elim (Bool-cases e.partial) [
  | inl skipped ↦ rw skipped (refl, h)
  | inr seen ↦
      let (flag, status, outcome) = read_fact-ended e.fact e.ts st in
      rw seen (flag, (status ∙ h.0, outcome ∙ h.1))
]

or_later_assoc :
    (a b c : Option (EndStatus × EndPayload × ℕ))
    → or_later (or_later a b) c ≡ or_later a (or_later b c)
or_later_assoc none b c = refl
or_later_assoc (some a) b c = refl

read_events-EndsBy :
    (events : List RunEvent) (o : Option (EndStatus × EndPayload × ℕ)) (st : RunState)
    → EndsBy o st
    → EndsBy (or_later o (first_end events)) (read_events (st, has_ended o) events).0
read_events-EndsBy [] none st h = h
read_events-EndsBy [] (some end) st h = h
read_events-EndsBy (e ∷ events) o st h =
    let o' = or_later o (event_end e) in
    let r = read_event (st, has_ended o) e in
    let (flag, kept) = read_event-EndsBy o st e h in
    let later = read_events-EndsBy events o' r.0 kept in
    subst (λ b. EndsBy (or_later o (first_end (e ∷ events))) (read_events (r.0, b) events).0)
      (sym flag)
      (subst (λ u. EndsBy u (read_events (r.0, has_ended o') events).0)
        (or_later_assoc o (event_end e) (first_end events)) later)

-- A projected run is over exactly when its log holds a terminal fact that is not partial: then
-- status, output, duration, error, reason, missing files and time of completion are those that
-- the first such fact gives, whatever follows it. Otherwise the status is queued, running or
-- waiting for the user, and those fields are as in a new run.
pub project_state-EndsBy :
    (events : List RunEvent) → EndsBy (first_end events) (project_state events)
unfolding project_state
project_state-EndsBy events = read_events-EndsBy events none first_state (refl, refl)
