-- ===== src/Dispatch.antt =====
-- The dispatch of admitted roots over the scheduler: `RunDispatch` of eventide/run_dispatch.py but
-- its snapshot. A future in `_ready` stands as whether it is done. The Host's locks and the key
-- under which a run executes are arguments, as is what `_release_execution_claims` leaves of its
-- admissions.
pub mod Loop
pub mod Steps
pub mod Reachable
use eventide.Prelude.{
  ℕ, zero, suc, String, List, [], ◌∷◌, Option, none, some, Bool, true, false, not, ◌&&◌, ◌||◌, Dict,
  lookup, insert, remove, has, length, string_eq, if◌then◌else◌,
}
use eventide.Runtime.{Error, Result, ok, err, ◌>>=◌}
use eventide.Store.State.{Store}
use eventide.Scheduler.Queue.{QueueEntry}
use eventide.Scheduler.Admission.{
  Scheduler, AdmissionTicket, RootLease, commit_admission, claim_next, release_root,
}

-- What the dispatch asks of the Host.
pub record Host : Type 0 where
  pub closed : Bool
  pub execution_key : String → String
  pub workspace_locked : String → Bool
  pub session_locked : String → Bool

pub record Dispatch : Type 0 where
  pub scheduler : Scheduler
  pub leases : Dict String RootLease
  pub ready : Dict String Bool
  -- the Host's `_admissions`
  pub admissions : Dict String String

abbrev pub is_waiting : Option Bool → Bool
is_waiting none = false
is_waiting (some done) = not done

-- The guards of `_claim`.
abbrev pub may_claim : Host → Dispatch → QueueEntry → Bool
may_claim h d e =
    let key = h.execution_key e.run_id in
    is_waiting (lookup e.run_id d.ready)
    && not (has key d.admissions || h.workspace_locked key || h.session_locked e.session_id)

-- What a claim and the body of the loop change.
abbrev pub take_lease : Host → Dispatch → RootLease → Scheduler → Dispatch
take_lease h d lease sch = record {
  scheduler = sch;
  leases = insert lease.run_id lease d.leases;
  ready = insert lease.run_id true d.ready;
  admissions = insert (h.execution_key lease.run_id) lease.run_id d.admissions;
}

-- The loop of `dispatch`, on fuel.
unfoldable pub dispatch_loop : ℕ → Store → Host → Dispatch → Option (Dispatch × Result (Unit {0}))
dispatch_loop zero s h d = none
dispatch_loop (suc fuel) s h d = elim (claim_next s d.scheduler (may_claim h d)) [
  | err raised ↦ some (d, err raised)
  | ok (none, sch) ↦ some (record d { scheduler = sch }, ok tt)
  | ok (some lease, sch) ↦ dispatch_loop fuel s h (take_lease h d lease sch)
]

-- One turn more than there are runs to be made ready is fuel enough, see Dispatch.Loop.
unfoldable pub dispatch : Store → Host → Dispatch → Option (Dispatch × Result (Unit {0}))
dispatch s h d = if h.closed then some (d, ok tt) else dispatch_loop (suc (length d.ready)) s h d

abbrev pub keep_lease :
    (String → Dict String String) → Dispatch → String → Option RootLease × Scheduler → Dispatch
keep_lease released d run_id (none, sch) = record d {
  scheduler = sch;
  admissions = released run_id;
}
keep_lease released d run_id (some lease, sch) = record d {
  scheduler = sch;
  leases = insert run_id lease d.leases;
}

unfoldable pub admitted :
    Store → (String → Dict String String) → Dispatch → AdmissionTicket → Result Dispatch
admitted s released d ticket =
    commit_admission s d.scheduler ticket >>= λ r. ok (keep_lease released d ticket.run_id r)

-- `start`, for a task that is made.
unfoldable pub start : Store → Host → Dispatch → String → Option (Dispatch × Result (Unit {0}))
start s h d run_id =
    if has run_id d.leases
    then some (record d { ready = insert run_id true d.ready }, ok tt)
    else dispatch s h (record d { ready = insert run_id false d.ready })

abbrev pub without_run : Dispatch → String → Dispatch
without_run d run_id = record d { ready = remove run_id d.ready; leases = remove run_id d.leases }

abbrev pub after_release :
    Store → Host → Dispatch → Result (Bool × Scheduler) → Option (Dispatch × Result (Unit {0}))
after_release s h d (err raised) = some (d, err raised)
after_release s h d (ok (released, sch)) = dispatch s h (record d { scheduler = sch })

-- The rest of `finished`, for the lease that was held.
abbrev pub finish_with :
    Store → Host → Dispatch → Scheduler → Option RootLease → Option (Dispatch × Result (Unit {0}))
finish_with s h d sch none = dispatch s h d
finish_with s h d sch (some lease) = after_release s h d (release_root s sch lease)

unfoldable pub finished : Store → Host → Dispatch → String → Option (Dispatch × Result (Unit {0}))
finished s h d run_id = finish_with s h (without_run d run_id) d.scheduler (lookup run_id d.leases)
