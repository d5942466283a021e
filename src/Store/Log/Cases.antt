-- ===== src/Store/Log/Cases.antt =====
-- The cases of a successful append to the log of eventide/store.py.
use eventide.Prelude.{
  String, ◌≡◌, refl, ◌⊎◌, inl, inr, List, Option, none, some, true, lookup, string_eq, arith,
  Option-cases,
}
use eventide.Runtime.{ok, >>=-eq-ok}
use eventide.Facts.{Fact, is_terminal, truthy}
use eventide.Store.State.{Event, Store, Run, first_terminal, run_events}
use eventide.Store.Log.{
  Writer, Gate, proceed, replay, gate, after_terminal, write, push, new_event, append_fact,
}

-- No terminal fact stands in the log for the run that is written about.
abbrev pub IsOpen : List Event → Option String → Type 0
IsOpen events none = Unit
IsOpen events (some run_id) =
    truthy (some run_id) ≡ true → first_terminal (run_events events run_id) ≡ none

abbrev pub Appended : Store → String → Fact → Writer → Event × Store → Type 0
Appended s session_id fact w (e, s') =
    ((s' ≡ s) × (is_terminal fact ≡ true))
    ⊎ ((turn_id : Option String) × (e ≡ new_event s session_id fact w turn_id)
        × (s' ≡ push s e)
        × IsOpen s.events w.run_id)

abbrev GateOf : Store → Fact → Option String → Gate → Type 0
GateOf s fact run_id (proceed turn_id) = IsOpen s.events run_id
GateOf s fact run_id (replay terminal) = is_terminal fact ≡ true

after_terminal-GateOf :
    (s : Store) (run : Run) (fact : Fact) (r : String) (o : Option Event) (g : Gate)
    → first_terminal (run_events s.events r) ≡ o
    → after_terminal run fact o ≡ ok g
    → GateOf s fact (some r) g
unfolding after_terminal
after_terminal-GateOf s run fact r none (proceed t) e h = λ _. e
after_terminal-GateOf s run fact r none (replay t) e h = cc
after_terminal-GateOf s run fact r (some t) (proceed u) e h = ground arith
after_terminal-GateOf s run fact r (some t) (replay u) e h = ground arith

-- The checks of the gate, one by one.
gate-GateOf :
    (s : Store) (sid : String) (fact : Fact) (run_id : Option String) (g : Gate)
    → gate s sid fact run_id ≡ ok g
    → GateOf s fact run_id g
unfolding gate
gate-GateOf s sid fact none (proceed t) h = tt
gate-GateOf s sid fact none (replay e) h = cc
gate-GateOf s sid fact (some r) (proceed t) h = λ tr. elim (Option-cases (lookup r s.runs)) [
  | inl missing ↦ ground arith
  | inr (run, found) ↦
      after_terminal-GateOf s run fact r (first_terminal (run_events s.events r)) (proceed t) refl
        (ground arith) tr
]
gate-GateOf s sid fact (some r) (replay e) h = elim (Option-cases (lookup r s.runs)) [
  | inl missing ↦ ground arith
  | inr (run, found) ↦
      after_terminal-GateOf s run fact r (first_terminal (run_events s.events r)) (replay e) refl
        (ground arith)
]

write-Appended :
    (s : Store) (sid : String) (fact : Fact) (w : Writer) (g : Gate) (r : Event × Store)
    → GateOf s fact w.run_id g
    → write s sid fact w g ≡ ok r
    → Appended s sid fact w r
unfolding write
write-Appended s sid fact w (replay t) (e, s') open_ h = inl (ground arith, open_)
write-Appended s sid fact w (proceed t) (e, s') open_ h = inr (t, ground arith, ground arith, open_)

pub append_fact_inv :
    (s : Store) (sid : String) (fact : Fact) (w : Writer) (r : Event × Store)
    → append_fact s sid fact w ≡ ok r
    → (g : Gate) × (gate s sid fact w.run_id ≡ ok g) × (write s sid fact w g ≡ ok r)
unfolding append_fact
append_fact_inv s sid fact w r h =
    >>=-eq-ok (gate s sid fact w.run_id) (write s sid fact w) (ground arith)

-- Every append that succeeds is one of the two.
pub append_fact-Appended :
    (s : Store) (sid : String) (fact : Fact) (w : Writer) (r : Event × Store)
    → append_fact s sid fact w ≡ ok r
    → Appended s sid fact w r
append_fact-Appended s sid fact w r h =
    let (g, passed, written) = append_fact_inv s sid fact w r h in
    write-Appended s sid fact w g r (gate-GateOf s sid fact w.run_id g passed) written
