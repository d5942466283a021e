-- ===== src/Store/Log/Terminals.antt =====
-- The terminal facts of runs in the log of eventide/store.py.
use mathlib.Core.List.{append-nil}
use eventide.Prelude.{
  String, ◌≡◌, inl, inr, List, [], ◌∷◌, ◌++◌, Option, none, some, true, false, arith, Bool-cases,
  select-append,
}
use eventide.Runtime.{Result, ok, >>=-eq-ok, ok-injective, or_raise}
use eventide.Facts.{Fact, is_terminal, truthy}
use eventide.Store.State.{
  Event, Store, run_events, first_terminal, is_id, facts_by_type, get_session,
}
use eventide.Store.Log.{Writer, new_event, append_fact, append_all, transact_facts}
use eventide.Store.Log.Cases.{IsOpen, append_fact-Appended}
use eventide.Store.Log.Numbering.{IsNumbered, append_fact-IsNumbered}

-- Only the last event of a run may be terminal.
abbrev pub Closed : List Event → Type 0
Closed [] = Unit
Closed (e ∷ []) = Unit
Closed (e ∷ f ∷ events) = (is_terminal e.fact ≡ false) × Closed (f ∷ events)

-- So it is for every run. (A run with an empty id would be no run for `if run_id:`.)
pub record IsClosed (events : List Event) : Type 0 where
  pub at : (run_id : String) → truthy (some run_id) ≡ true → Closed (run_events events run_id)

Closed-append : (xs : List Event) (e : Event) → first_terminal xs ≡ none → Closed (xs ++ e ∷ [])
Closed-append [] e h = tt
Closed-append (x ∷ []) e h = (ground arith, tt)
Closed-append (x ∷ y ∷ xs) e h = (ground arith, Closed-append (y ∷ xs) e (ground arith))

pub run_events-push :
    (events : List Event) (e : Event) (rid : String)
    → run_events (events ++ e ∷ []) rid ≡ run_events events rid ++ run_events (e ∷ []) rid
run_events-push events e rid = select-append (λ x. is_id x.run_id rid) events (e ∷ [])

is_id-eq : (r : Option String) (rid : String) → is_id r rid ≡ true → r ≡ some rid
is_id-eq none rid h = cc
is_id-eq (some r) rid h = ground arith

-- A row about an open run keeps every run closed.
push-IsClosed :
    (events : List Event) (e : Event)
    → IsOpen events e.run_id
    → IsClosed events
    → IsClosed (events ++ e ∷ [])
push-IsClosed events e open_ h = record {
  at = λ rid t. rw (run_events-push events e rid) (elim (Bool-cases (is_id e.run_id rid)) [
    | inl about ↦
        rw about
          (Closed-append (run_events events rid) e ((rw (is_id-eq e.run_id rid about) at open_) t))
    | inr other ↦ rw (other, append-nil) (h.at rid t)
  ]);
}

append_fact-IsClosed :
    (s : Store) (sid : String) (fact : Fact) (w : Writer) (r : Event × Store)
    → append_fact s sid fact w ≡ ok r
    → IsClosed s.events
    → IsClosed r.1.events
unfolding new_event
append_fact-IsClosed s sid fact w r h c = elim (append_fact-Appended s sid fact w r h) [
  | inl (same, _) ↦ rw same c
  | inr (t, row, after, open_) ↦ rw after (push-IsClosed s.events r.0 (rw row open_) c)
]

-- The invariant of the log.
pub record IsSound (events : List Event) : Type 0 where
  pub numbered : IsNumbered events
  pub closed : IsClosed events

pub append_fact-IsSound :
    (s : Store) (sid : String) (fact : Fact) (w : Writer) (r : Event × Store)
    → append_fact s sid fact w ≡ ok r
    → IsSound s.events
    → IsSound r.1.events
append_fact-IsSound s sid fact w r h i = record {
  numbered = append_fact-IsNumbered s sid fact w r h i.numbered;
  closed = append_fact-IsClosed s sid fact w r h i.closed;
}

pub append_all-IsSound :
    (s : Store) (sid : String) (w : Writer) (facts : List Fact) (s' : Store)
    → append_all s sid w facts ≡ ok s'
    → IsSound s.events
    → IsSound s'.events
unfolding append_all
append_all-IsSound s sid w [] s' h i = rw (← ok-injective h) i
append_all-IsSound s sid w (fact ∷ facts) s' h i =
    let (r, one, rest) = >>=-eq-ok (append_fact s sid fact w) (λ r. append_all r.1 sid w facts) h in
    append_all-IsSound r.1 sid w facts s' rest (append_fact-IsSound s sid fact w r one i)

-- A transaction that succeeds has appended what its callback decided from the log.
pub transact_facts_inv :
    {R : Type 0} (s : Store) (sid : String) (types : List String)
    (decide : List Event → Result (R × List Fact)) (w : Writer) (r : R × Store)
    → transact_facts s sid types decide w ≡ ok r
    → (facts : List Fact) × (decide (facts_by_type s.events types) ≡ ok (r.0, facts))
      × (append_all s sid w facts ≡ ok r.1)
unfolding transact_facts
transact_facts_inv s sid types decide w r h =
    let (_, _, h₁) = >>=-eq-ok (or_raise (get_session s sid) "Session not found") _ h in
    let (a, decided, h₂) = >>=-eq-ok (decide (facts_by_type s.events types)) _ h₁ in
    let (s', appended, h₃) = >>=-eq-ok (append_all s sid w a.1) _ h₂ in
    (a.1, rw decided (ground arith), rw appended (ground arith))

pub transact_facts-IsSound :
    {R : Type 0} (s : Store) (sid : String) (types : List String)
    (decide : List Event → Result (R × List Fact)) (w : Writer) (r : R × Store)
    → transact_facts s sid types decide w ≡ ok r
    → IsSound s.events
    → IsSound r.1.events
transact_facts-IsSound s sid types decide w r h i =
    let (facts, _, appended) = transact_facts_inv s sid types decide w r h in
    append_all-IsSound s sid w facts r.1 appended i
