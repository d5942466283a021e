-- ===== src/Dispatch/Reachable.antt =====
-- The calls of `RunDispatch` in eventide/run_dispatch.py as steps, and what holds after any of them.
use eventide.Prelude.{
  ◌≡◌, refl, sym, ◌∙◌, ap, subst, inl, inr, String, [], Option, none, some, Bool, true, Dict,
  string_eq, arith,
}
use eventide.Runtime.{Result, ok}
use eventide.Store.State.{Store, run_is_terminal}
use eventide.Scheduler.Admission.{
  Scheduler, AdmissionTicket, SchedulingLimits, reserve_admission, release_ticket, with_ticket,
}
use eventide.Scheduler.Cases.{reserve_admission-Reserved, release_ticket_inv}
use eventide.Scheduler.Sequences.{new_scheduler}
use eventide.Dispatch.{Host, Dispatch, admitted, start, finished}
use eventide.Dispatch.Steps.{Agrees, AllAgree, admitted-Agrees, start-AllAgree, finished-AllAgree}

-- The states of a dispatch, over stores and Hosts that change between its calls: a call that raises
-- leaves a state, too. `finished` is called for a run that has ended, as its docstring says, and the Host
-- claims and releases keys by itself.
pub data Reaches : Dispatch → Type 0 where
  begins :
      (limits : SchedulingLimits) (admissions : Dict String String)
      → Reaches (record {
        scheduler = new_scheduler limits;
        leases = [];
        ready = [];
        admissions = admissions;
      })
  host_changes :
      (d : Dispatch) (admissions : Dict String String)
      → Reaches d
      → Reaches (record d { admissions = admissions })
  reserves :
      (d : Dispatch) (s : Store) (run_id session_id : String) (startable : Bool)
      (ticket : AdmissionTicket) (sch : Scheduler)
      → Reaches d
      → reserve_admission s d.scheduler run_id session_id startable ≡ ok (ticket, sch)
      → Reaches (record d { scheduler = sch })
  gives_back :
      (d : Dispatch) (s : Store) (ticket : AdmissionTicket) (released : Bool) (sch : Scheduler)
      → Reaches d
      → release_ticket s d.scheduler ticket ≡ ok (released, sch)
      → Reaches (record d { scheduler = sch })
  admits :
      (d d' : Dispatch) (s : Store) (released : String → Dict String String)
      (ticket : AdmissionTicket)
      → Reaches d
      → admitted s released d ticket ≡ ok d'
      → Reaches d'
  starts :
      (d d' : Dispatch) (s : Store) (h : Host) (run_id : String) (result : Result (Unit {0}))
      → Reaches d
      → start s h d run_id ≡ some (d', result)
      → Reaches d'
  finishes :
      (d d' : Dispatch) (s : Store) (h : Host) (run_id : String) (result : Result (Unit {0}))
      → Reaches d
      → run_is_terminal s run_id ≡ true
      → finished s h d run_id ≡ some (d', result)
      → Reaches d'

release_ticket-roots :
    (s : Store) (sch : Scheduler) (ticket : AdmissionTicket) (released : Bool) (sch' : Scheduler)
    → release_ticket s sch ticket ≡ ok (released, sch')
    → sch.roots ≡ sch'.roots
release_ticket-roots s sch ticket released sch' h =
    elim (release_ticket_inv s sch ticket released sch' h) [ inl same ↦ cc | inr gone ↦ cc ]

one-Agrees :
    {d : Dispatch} {result : Result (Unit {0})} (o : Option (Dispatch × Result (Unit {0})))
    → AllAgree o
    → o ≡ some (d, result)
    → Agrees d
one-Agrees none all h = absurd (ground arith)
one-Agrees (some (d, result)) all h = subst AllAgree h all

-- Whatever calls of the dispatch and the scheduler are made, in whatever order, over stores, locks and keys
-- that change in between, and whether they succeed or raise, where `finished` is called only for
-- runs that have ended: the leases that the dispatch holds are those of the scheduler, each under
-- its own run.
pub Reaches-Agrees : (d : Dispatch) → Reaches d → Agrees d
unfolding with_ticket
Reaches-Agrees _ (begins limits admissions) = (refl, tt)
Reaches-Agrees _ (host_changes d admissions before) = Reaches-Agrees d before
Reaches-Agrees _ (reserves d s run_id session_id startable ticket sch before reserved) =
    let (same, keyed) = Reaches-Agrees d before in
    let done =
      (reserve_admission-Reserved s d.scheduler run_id session_id startable ticket sch
        reserved).done in
    (same ∙ ap (λ (x : Scheduler). x.roots) (sym done), keyed)
Reaches-Agrees _ (gives_back d s ticket released sch before back) =
    let (same, keyed) = Reaches-Agrees d before in
    (same ∙ release_ticket-roots s d.scheduler ticket released sch back, keyed)
Reaches-Agrees d' (admits d _ s released ticket before committed) =
    admitted-Agrees s released d d' ticket committed (Reaches-Agrees d before)
Reaches-Agrees d' (starts d _ s h run_id result before started) =
    one-Agrees (start s h d run_id) (start-AllAgree s h d run_id (Reaches-Agrees d before)) started
Reaches-Agrees d' (finishes d _ s h run_id result before ended over) =
    one-Agrees (finished s h d run_id)
      (finished-AllAgree s h d run_id ended (Reaches-Agrees d before)) over
