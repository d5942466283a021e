-- ===== src/Store/Calls.antt =====
-- Any sequence of calls of the operations of eventide/store.py. A call that raises leaves the
-- store as it was, but for `create_run`, whose session is committed first; the next call follows.
use eventide.Prelude.{
  String, ◌≡◌, refl, sym, List, [], ◌∷◌, ◌++◌, Option, none, Bool, ap, ◌∙◌, inl, inr, arith,
}
use mathlib.Core.List.{append-nil, append_assoc}
use eventide.Runtime.{Result, ok, err, ok-injective}
use eventide.Facts.{Fact}
use eventide.Store.State.{Event, Store, Session}
use eventide.Store.Log.{Writer, Status, append_fact, transact_facts, append_event, finish_run}
use eventide.Store.Log.Cases.{append_fact-Appended}
use eventide.Store.Log.Terminals.{IsSound, append_fact-IsSound}
use eventide.Store.Sessions.{
  create_session, update_session, delete_session, commit_session_metadata,
}
use eventide.Store.Runs.{create_run, create_run_left, create_run_locked, admit_run, Admission}
use eventide.Store.Rows.{
  Change, Changes, unchanged, changed, appended, session_put, session_removed, run_created,
  workspace_put, Changes-trans, append_fact-Changes, transact_facts-Changes, append_event-Changes,
  finish_run-Changes,
}
use eventide.Store.Rows.Operations.{
  create_session-Changes, update_session-Changes, delete_session-Changes,
  commit_session_metadata-Changes, create_run-Changes, admit_run-Changes,
}

pub data Call : Type 0 where
  creates_session : String → Option String → Option String → Option (String × String) → Call
  updates_session : String → Option String → Option Bool → Call
  deletes_session : String → Call
  commits_metadata :
      (String → Session → String)
      → String
      → String
      → String
      → String
      → Bool
      → Option String
      → Option Bool
      → Call
  creates_run : String → String → Option String → Call
  admits_run : String → String → List Admission → Option String → Call
  appends : String → Fact → Writer → Call
  transacts : String → List String → (List Event → Result (Unit {0} × List Fact)) → Writer → Call
  appends_event : String → Fact → Call
  finishes : String → Status → Call

second : {A : Type 0} → Result (A × Store) → Result Store
second (ok r) = ok r.1
second (err e) = err e

unfoldable pub perform : Store → Call → Result Store
unfolding second
perform s (creates_session sid w d m) = create_session s sid w d m
perform s (updates_session sid t a) = update_session s sid t a
perform s (deletes_session sid) = delete_session s sid
perform s (commits_metadata digest owner sid hash identity del t a) =
    commit_session_metadata digest s owner sid hash identity del t a
perform s (creates_run rid sid c) = create_run s rid sid c
perform s (admits_run rid sid facts c) = admit_run s rid sid facts c
perform s (appends sid fact w) = second (append_fact s sid fact w)
perform s (transacts sid types decide w) = second (transact_facts s sid types decide w)
perform s (appends_event rid fact) = second (append_event s rid fact)
perform s (finishes rid status) = finish_run s rid status

-- The store that a call leaves when it raises.
unfoldable pub left : Store → Call → Store
left s (creates_run rid sid c) = create_run_left s sid
left s c = s

abbrev pub after : Store → Call → Result Store → Store
after s c (ok s') = s'
after s c (err e) = left s c

unfoldable pub perform_all : Store → List Call → Store
perform_all s [] = s
perform_all s (c ∷ calls) = perform_all (after s c (perform s c)) calls

second-eq-ok :
    {A : Type 0} (m : Result (A × Store)) (s' : Store)
    → second m ≡ ok s'
    → (a : A) × (m ≡ ok (a, s'))
unfolding second
second-eq-ok (ok (a, s)) s' h = (a, ap ok (ap (λ t. (a, t)) (ok-injective h)))
second-eq-ok (err e) s' h = cc

-- A call that succeeds is a sequence of row changes.
pub perform-Changes : (s : Store) (c : Call) (s' : Store) → perform s c ≡ ok s' → Changes s s'
unfolding perform
perform-Changes s (creates_session sid w d m) s' h = create_session-Changes s sid w d m s' h
perform-Changes s (updates_session sid t a) s' h = update_session-Changes s sid t a s' h
perform-Changes s (deletes_session sid) s' h = delete_session-Changes s sid s' h
perform-Changes s (commits_metadata digest owner sid hash identity del t a) s' h =
    commit_session_metadata-Changes digest s owner sid hash identity del t a s' h
perform-Changes s (creates_run rid sid c) s' h = create_run-Changes s rid sid c s' h
perform-Changes s (admits_run rid sid facts c) s' h = admit_run-Changes s rid sid facts c s' h
perform-Changes s (appends sid fact w) s' h =
    let (e, done) = second-eq-ok (append_fact s sid fact w) s' h in
    append_fact-Changes s sid fact w (e, s') done
perform-Changes s (transacts sid types decide w) s' h =
    let (u, done) = second-eq-ok (transact_facts s sid types decide w) s' h in
    transact_facts-Changes s sid types decide w (u, s') done
perform-Changes s (appends_event rid fact) s' h =
    let (e, done) = second-eq-ok (append_event s rid fact) s' h in
    append_event-Changes s rid fact (e, s') done
perform-Changes s (finishes rid status) s' h = finish_run-Changes s rid status s' h

create_run_left-Changes : (s : Store) (sid : String) → Changes s (create_run_left s sid)
unfolding create_run_left
create_run_left-Changes s sid = by_result (create_session s sid none none none) refl
  where
    by_result :
        (r : Result Store)
        → create_session s sid none none none ≡ r
        → Changes s (create_run_left s sid)
    by_result (ok s₁) eq =
        rw (eq, create_run_left) (create_session-Changes s sid none none none s₁ eq)
    by_result (err e) eq = rw (eq, create_run_left) unchanged

left-Changes : (s : Store) (c : Call) → Changes s (left s c)
unfolding left
left-Changes s (creates_run rid sid c) = create_run_left-Changes s sid
left-Changes s c = unchanged

after-Changes :
    (s : Store) (c : Call) (r : Result Store) → perform s c ≡ r → Changes s (after s c r)
after-Changes s c (ok s') h = perform-Changes s c s' h
after-Changes s c (err e) h = left-Changes s c

pub perform_all-Changes : (s : Store) (calls : List Call) → Changes s (perform_all s calls)
unfolding perform_all
perform_all-Changes s [] = unchanged
perform_all-Changes s (c ∷ calls) =
    Changes-trans (after-Changes s c (perform s c) refl)
      (perform_all-Changes (after s c (perform s c)) calls)

-- The creation of a run writes no event.
pub events-create_run_locked :
    (s : Store) (rid sid : String) (continued : Option String) (s' : Store)
    → create_run_locked s rid sid continued ≡ ok s'
    → s'.events ≡ s.events
unfolding create_run_locked
events-create_run_locked s rid sid continued s' h = ground arith

Change-IsSound : {s s' : Store} → Change s s' → IsSound s.events → IsSound s'.events
Change-IsSound (appended sid fact w e h) i = append_fact-IsSound _ sid fact w (e, _) h i
Change-IsSound (session_put sid row h) i = rw h i
Change-IsSound (session_removed sid kept h) i = rw h i
Change-IsSound (run_created {s} {s'} rid sid c h) i =
    rw (events-create_run_locked s rid sid c s' h) i
Change-IsSound (workspace_put w h) i = rw h i

Changes-IsSound : {s s' : Store} → Changes s s' → IsSound s.events → IsSound s'.events
Changes-IsSound unchanged i = i
Changes-IsSound (changed cs c) i = Change-IsSound c (Changes-IsSound cs i)

-- Whatever calls are made on a store where it is so, whether they succeed or raise: in every
-- session the events stay numbered 1, 2, 3, … in the order of the log, and in every run with a non-empty id no event
-- follows a terminal fact, so that there is at most one.
pub perform_all-IsSound :
    (s : Store) (calls : List Call) → IsSound s.events → IsSound (perform_all s calls).events
perform_all-IsSound s calls i = Changes-IsSound (perform_all-Changes s calls) i

-- The events of `b` are those of `a` and then more.
pub record Extends (a b : List Event) : Type 0 where
  pub more : List Event
  pub split : b ≡ a ++ more

Extends-refl : {a b : List Event} → b ≡ a → Extends a b
Extends-refl h = record { more = []; split = h ∙ sym (append-nil _) }

Extends-trans : {a b c : List Event} → Extends a b → Extends b c → Extends a c
Extends-trans {a} f g = record {
  more = f.more ++ g.more;
  split = g.split ∙ ap (λ l. l ++ g.more) f.split ∙ append_assoc a f.more g.more;
}

Change-Extends : {s s' : Store} → Change s s' → Extends s.events s'.events
Change-Extends (appended {s} {s'} sid fact w e h) =
    elim (append_fact-Appended s sid fact w (e, s') h) [
      | inl (same, _) ↦ Extends-refl (ap (λ (t : Store). t.events) same)
      | inr (t, _, after_, _) ↦ record {
        more = e ∷ [];
        split = ap (λ (t : Store). t.events) after_;
      }
    ]
Change-Extends (session_put sid row h) = Extends-refl (ap (λ (t : Store). t.events) h)
Change-Extends (session_removed sid kept h) = Extends-refl (ap (λ (t : Store). t.events) h)
Change-Extends (run_created {s} {s'} rid sid c h) =
    Extends-refl (events-create_run_locked s rid sid c s' h)
Change-Extends (workspace_put w h) = Extends-refl (ap (λ (t : Store). t.events) h)

Changes-Extends : {s s' : Store} → Changes s s' → Extends s.events s'.events
Changes-Extends unchanged = Extends-refl refl
Changes-Extends (changed cs c) = Extends-trans (Changes-Extends cs) (Change-Extends c)

-- The Event Log is append-only: whatever calls are made, the events that were there are still
-- there, in the same order, before any others.
pub perform_all-Extends :
    (s : Store) (calls : List Call) → Extends s.events (perform_all s calls).events
perform_all-Extends s calls = Changes-Extends (perform_all-Changes s calls)
