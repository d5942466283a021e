-- ===== src/Store/Links.antt =====
-- The foreign keys of the rows of eventide/store.py.
use eventide.Prelude.{
  String, ◌≡◌, refl, List, [], ◌∷◌, Option, none, some, Bool, true, false, not, ◌&&◌, ◌||◌, ◌⊎◌,
  inl, inr, lookup, has, insert, remove, values, all, all-append, all_mono, all_mono_unless,
  has-insert, has-remove_ne, insert_new, values-append, lookup-insert, ◌==◌, string_eq, arith,
}
use eventide.Runtime.{ok}
use eventide.Facts.{Fact, truthy}
use eventide.Store.State.{Event, Store, Session, Turn, Run}
use eventide.Store.Log.{
  Writer, Gate, proceed, replay, append_fact, gate, write, references_run, new_event, push,
}
use eventide.Store.Log.Cases.{append_fact_inv}
use eventide.Store.Sessions.{has_history}
use eventide.Store.Runs.{create_run_locked, fresh_turn}
use eventide.Store.Rows.{
  Change, Changes, unchanged, changed, appended, session_put, session_removed, run_created,
  workspace_put,
}
use eventide.Store.Calls.{Call, perform_all, perform_all-Changes}

-- The run of an event is there, and of the event's session (an empty id is no run to the source).
abbrev owned : Store → String → Option String → Bool
owned s sid none = true
owned s sid (some r) = elim (lookup r s.runs) [
  | none ↦ false
  | some run ↦ (run.session_id == sid) || not (truthy (some r))
]

abbrev event_linked : Store → Event → Bool
event_linked s e = has e.session_id s.sessions && owned s e.session_id e.run_id

abbrev run_linked : Store → Run → Bool
run_linked s r = has r.session_id s.sessions && has r.turn_id s.turns

-- Every event's session and run exist, the run being of that session; every run's session and
-- turn exist.
pub record IsLinked (s : Store) : Type 0 where
  pub events : all (event_linked s) s.events ≡ true
  pub runs : all (run_linked s) (values s.runs) ≡ true

gate-owned :
    (s : Store) (sid : String) (fact : Fact) (run_id : Option String) (t : Option String)
    → gate s sid fact run_id ≡ ok (proceed t)
    → references_run s run_id ≡ true
    → owned s sid run_id ≡ true
unfolding gate references_run
gate-owned s sid fact none t h f = refl
gate-owned s sid fact (some r) t h f = ground arith

write-linked :
    (s : Store) (sid : String) (fact : Fact) (w : Writer) (g : Gate) (e : Event) (s' : Store)
    → gate s sid fact w.run_id ≡ ok g
    → write s sid fact w g ≡ ok (e, s')
    → (s' ≡ s) ⊎ ((s' ≡ push s e) × (event_linked s e ≡ true))
unfolding write new_event
write-linked s sid fact w (replay t) e s' h k = inl (ground arith)
write-linked s sid fact w (proceed t) e s' h k =
    inr (ground arith, ground (arith, gate-owned s sid fact w.run_id t))

append-IsLinked :
    (s : Store) (sid : String) (fact : Fact) (w : Writer) (e : Event) (s' : Store)
    → append_fact s sid fact w ≡ ok (e, s')
    → IsLinked s
    → IsLinked s'
append-IsLinked s sid fact w e s' h i =
    let (g, passed, written) = append_fact_inv s sid fact w (e, s') h in
    elim (write-linked s sid fact w g e s' passed written) [
      | inl same ↦ rw same i
      | inr (row, linked) ↦ rw row (record {
        events = rw (all-append (event_linked s) s.events (e ∷ []), i.events, linked) refl;
        runs = i.runs;
      })
    ]

-- A session row that is put hides no session.
put-IsLinked :
    (s : Store) (sid : String) (row : Session)
    → IsLinked s
    → IsLinked (record s { sessions = insert sid row s.sessions })
put-IsLinked s sid row i =
    let s' : Store = record s { sessions = insert sid row s.sessions } in
    record {
      events =
          all_mono (event_linked s) (event_linked s') s.events
            (λ e h. ground (arith, has-insert sid e.session_id row s.sessions)) i.events;
      runs =
          all_mono (run_linked s) (run_linked s') (values s.runs)
            (λ r h. ground (arith, has-insert sid r.session_id row s.sessions)) i.runs;
    }

-- A session with no history is referred to by nothing.
removed-IsLinked :
    (s : Store) (sid : String)
    → has_history s sid ≡ false
    → IsLinked s
    → IsLinked (record s { sessions = remove sid s.sessions })
unfolding has_history
removed-IsLinked s sid h i =
    let s' : Store = record s { sessions = remove sid s.sessions } in
    record {
      events =
          all_mono_unless (λ e. e.session_id == sid) (event_linked s) (event_linked s') s.events
            (λ e n k. ground (arith, has-remove_ne sid e.session_id s.sessions)) (ground arith)
            i.events;
      runs =
          all_mono_unless (λ r. r.session_id == sid) (run_linked s) (run_linked s') (values s.runs)
            (λ r n k. ground (arith, has-remove_ne sid r.session_id s.sessions)) (ground arith)
            i.runs;
    }

abbrev with_run : Store → String → Turn → String → Run → Store
with_run s tid turn rid run = record s {
  turns = insert tid turn s.turns;
  runs = insert rid run s.runs;
}

owned-with_run :
    (s : Store) (tid : String) (turn : Turn) (rid : String) (run : Run) (sid : String)
    (r : Option String)
    → has rid s.runs ≡ false
    → owned s sid r ≡ true
    → owned (with_run s tid turn rid run) sid r ≡ true
owned-with_run s tid turn rid run sid none new h = refl
owned-with_run s tid turn rid run sid (some r) new h =
    ground (arith, lookup-insert rid r run s.runs)

with_run-IsLinked :
    (s : Store) (tid : String) (turn : Turn) (rid : String) (run : Run)
    → has rid s.runs ≡ false
    → has run.session_id s.sessions ≡ true
    → run.turn_id ≡ tid
    → IsLinked s
    → IsLinked (with_run s tid turn rid run)
with_run-IsLinked s tid turn rid run new session turns i =
    let s' : Store = with_run s tid turn rid run in
    record {
      events =
          all_mono (event_linked s) (event_linked s') s.events
            (λ e h. ground (arith, owned-with_run s tid turn rid run e.session_id e.run_id))
            i.events;
      runs =
          rw
            (
              insert_new rid run s.runs new,
              values-append s.runs ((rid, run) ∷ []),
              all-append (run_linked s') (values s.runs) (run ∷ []),
            )
            (ground (
              arith,
              all_mono (run_linked s) (run_linked s') (values s.runs)
                  (λ (r : Run) (h : run_linked s r ≡ true).
                    ground (arith, has-insert tid r.turn_id turn s.turns))
                  i.runs,
              lookup-insert tid run.turn_id turn s.turns,
            ));
    }

Change-IsLinked : {s s' : Store} → Change s s' → IsLinked s → IsLinked s'
unfolding create_run_locked
Change-IsLinked (appended {s} {s'} sid fact w e h) i = append-IsLinked s sid fact w e s' h i
Change-IsLinked (session_put {s} sid row h) i = rw h (put-IsLinked s sid row i)
Change-IsLinked (session_removed {s} sid kept h) i = rw h (removed-IsLinked s sid kept i)
Change-IsLinked (run_created {s} {s'} rid sid c h) i =
    let (new, session, same) = created s rid sid c s' h in
    rw same (with_run-IsLinked s _ _ rid _ new session refl i)
  where
    created :
        (s : Store) (rid sid : String) (c : Option String) (s' : Store)
        → create_run_locked s rid sid c ≡ ok s'
        → (has rid s.runs ≡ false)
          × (has sid s.sessions ≡ true)
          × (s'
              ≡ with_run s
                  (fresh_turn s)
                  (record { session_id = sid; continuation_of = c })
                  rid
                  (record { session_id = sid; turn_id = fresh_turn s }))
    created s rid sid c s' h = (ground arith, ground arith, ground arith)
Change-IsLinked (workspace_put w h) i = rw h (record { events = i.events; runs = i.runs })

Changes-IsLinked : {s s' : Store} → Changes s s' → IsLinked s → IsLinked s'
Changes-IsLinked unchanged i = i
Changes-IsLinked (changed cs c) i = Change-IsLinked c (Changes-IsLinked cs i)

-- Whatever calls are made on a store where it is so, deletions included: every event's session and
-- run still exist, and the run is of the event's session; every run's session and turn still exist.
pub perform_all-IsLinked :
    (s : Store) (calls : List Call) → IsLinked s → IsLinked (perform_all s calls)
perform_all-IsLinked s calls i = Changes-IsLinked (perform_all-Changes s calls) i
