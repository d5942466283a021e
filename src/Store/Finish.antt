-- ===== src/Store/Finish.antt =====
-- The end of a run: `finish_run` of eventide/store.py.
use eventide.Prelude.{
  String, ◌≡◌, refl, ◌∙◌, inl, inr, List, [], ◌∷◌, ◌++◌, Option, none, some, true, lookup, ==-refl,
  string_eq, arith, Bool-cases, Option-cases,
}
use eventide.Runtime.{ok}
use eventide.Facts.{Fact, is_terminal, truthy}
use eventide.Store.State.{
  Event, Store, Run, Session, RunIdentity, get_run_identity, get_session, run_is_terminal,
  run_events, first_terminal, is_id,
}
use eventide.Store.Log.Terminals.{run_events-push}
use eventide.Store.Log.{
  Status, completed, failed, interrupted, terminal_fact, Gate, proceed, replay, gate,
  after_terminal, write, push, new_event, references_run, append_fact, append_event, finish_run,
  runtime,
}

terminal_fact-terminal : (status : Status) → is_terminal (terminal_fact status) ≡ true
unfolding is_terminal
terminal_fact-terminal completed = ground arith
terminal_fact-terminal failed = ground arith
terminal_fact-terminal interrupted = ground arith

identity-run :
    (s : Store) (run_id : String) (i : RunIdentity)
    → get_run_identity s run_id ≡ some i
    → (run : Run) × (lookup run_id s.runs ≡ some run) × (run.session_id ≡ i.session_id)
unfolding get_run_identity
identity-run s run_id i h = elim (Option-cases (lookup run_id s.runs)) [
  | inl missing ↦ absurd (ground arith)
  | inr (run, there) ↦ (run, there, ground arith)
]

-- The gate of a terminal fact.
gate-terminal :
    (s : Store) (sid run_id : String) (run : Run) (fact : Fact) (g : Gate)
    → lookup run_id s.runs ≡ some run
    → run.session_id ≡ sid
    → truthy (some run_id) ≡ true
    → after_terminal run fact (first_terminal (run_events s.events run_id)) ≡ ok g
    → gate s sid fact (some run_id) ≡ ok g
unfolding gate after_terminal
gate-terminal s sid run_id run fact g there mine named k = rw (named, there, mine, ==-refl sid) k

finish-gated :
    (s s' : Store) (run_id : String) (i : RunIdentity) (status : Status) (g : Gate) (e : Event)
    → get_run_identity s run_id ≡ some i
    → gate s i.session_id (terminal_fact status) (some run_id) ≡ ok g
    → write s i.session_id (terminal_fact status) (runtime (some run_id)) g ≡ ok (e, s')
    → finish_run s run_id status ≡ ok s'
unfolding finish_run append_event append_fact
finish-gated s s' run_id i status g e h k w = rw (h, k, w) refl

-- A closed run stays as it is.
finish-closed :
    (s : Store) (run_id : String) (i : RunIdentity) (status : Status) (t : Event)
    → get_run_identity s run_id ≡ some i
    → truthy (some run_id) ≡ true
    → first_terminal (run_events s.events run_id) ≡ some t
    → finish_run s run_id status ≡ ok s
unfolding after_terminal write
finish-closed s run_id i status t h named e =
    let (run, there, mine) = identity-run s run_id i h in
    finish-gated s s run_id i status (replay t) t h
      (gate-terminal s i.session_id run_id run (terminal_fact status) (replay t) there mine named
        (rw (e, terminal_fact-terminal status) refl))
      refl

first_terminal-append :
    (xs : List Event) (e : Event)
    → first_terminal xs ≡ none
    → is_terminal e.fact ≡ true
    → first_terminal (xs ++ e ∷ []) ≡ some e
first_terminal-append [] e h t = rw t refl
first_terminal-append (x ∷ xs) e h t = elim (Bool-cases (is_terminal x.fact)) [
  | inl ends ↦ absurd (ground arith)
  | inr goes_on ↦ rw goes_on (first_terminal-append xs e (ground arith) t)
]

first_terminal-push :
    (events : List Event) (e : Event) (run_id : String)
    → is_id e.run_id run_id ≡ true
    → first_terminal (run_events events run_id) ≡ none
    → is_terminal e.fact ≡ true
    → first_terminal (run_events (events ++ e ∷ []) run_id) ≡ some e
first_terminal-push events e run_id about h t =
    rw (run_events-push events e run_id, about)
      (first_terminal-append (run_events events run_id) e h t)

push-identity :
    (s : Store) (e : Event) (run_id : String)
    → get_run_identity (push s e) run_id ≡ get_run_identity s run_id
unfolding get_run_identity
push-identity s e run_id = refl

-- The run is over in `s'`, and stays so.
pub record IsFinished (run_id : String) (again : Status) (s' : Store) : Type 0 where
  pub terminal : run_is_terminal s' run_id ≡ true
  pub settled : finish_run s' run_id again ≡ ok s'

closed-IsFinished :
    (s : Store) (run_id : String) (i : RunIdentity) (again : Status) (t : Event)
    → get_run_identity s run_id ≡ some i
    → truthy (some run_id) ≡ true
    → first_terminal (run_events s.events run_id) ≡ some t
    → IsFinished run_id again s
unfolding run_is_terminal
closed-IsFinished s run_id i again t h named e = record {
  terminal = rw (run_is_terminal, e) refl;
  settled = finish-closed s run_id i again t h named e;
}

references_run-lookup :
    (s : Store) (run_id : String) (run : Run)
    → lookup run_id s.runs ≡ some run
    → references_run s (some run_id) ≡ true
unfolding references_run
references_run-lookup s run_id run there = ground arith

write-proceed :
    (s : Store) (sid run_id : String) (session : Session) (run : Run) (fact : Fact)
    → (turn_id : Option String) → get_session s sid ≡ some session
    → lookup run_id s.runs ≡ some run
    → (let e = new_event s sid fact (runtime (some run_id)) turn_id in
        write s sid fact (runtime (some run_id)) (proceed turn_id) ≡ ok (e, push s e))
unfolding write
write-proceed s sid run_id session run fact turn_id h there =
    rw (write, h, references_run-lookup s run_id run there) refl

finish-open :
    (s : Store) (run_id : String) (i : RunIdentity) (session : Session) (status : Status)
    → get_run_identity s run_id ≡ some i
    → get_session s i.session_id ≡ some session
    → truthy (some run_id) ≡ true
    → first_terminal (run_events s.events run_id) ≡ none
    → (e : Event) × (finish_run s run_id status ≡ ok (push s e))
      × (is_id e.run_id run_id ≡ true)
      × (is_terminal e.fact ≡ true)
unfolding after_terminal write new_event references_run
finish-open s run_id i session status h open_ named running =
    let (run, there, mine) = identity-run s run_id i h in
    let fact = terminal_fact status in
    let e = new_event s i.session_id fact (runtime (some run_id)) (some run.turn_id) in
    (
      e,
      finish-gated s (push s e) run_id i status (proceed (some run.turn_id)) e h
          (gate-terminal s i.session_id run_id run (terminal_fact status)
            (proceed (some run.turn_id)) there mine named (rw running refl))
          (write-proceed s i.session_id run_id session run fact (some run.turn_id) open_ there),
      ==-refl run_id,
      terminal_fact-terminal status,
    )

-- For a run with a row, whose session exists and whose id is not the empty text, `finish_run`
-- succeeds and `run_is_terminal` holds afterwards; a second `finish_run`, with whatever status,
-- succeeds and leaves the store as it is.
pub finish_run-IsFinished :
    (s : Store) (run_id : String) (i : RunIdentity) (session : Session) (status again : Status)
    → get_run_identity s run_id ≡ some i
    → get_session s i.session_id ≡ some session
    → truthy (some run_id) ≡ true
    → (s' : Store) × (finish_run s run_id status ≡ ok s') × IsFinished run_id again s'
finish_run-IsFinished s run_id i session status again h open_ named =
    elim (Option-cases (first_terminal (run_events s.events run_id))) [
      | inl running ↦
          let (e, done, about, ends) =
            finish-open s run_id i session status h open_ named running in
          (
            push s e,
            done,
            closed-IsFinished (push s e) run_id i again e (push-identity s e run_id ∙ h) named
                (first_terminal-push s.events e run_id about running ends),
          )
      | inr (t, ended) ↦ (
        s,
        finish-closed s run_id i status t h named ended,
        closed-IsFinished s run_id i again t h named ended,
      )
    ]
