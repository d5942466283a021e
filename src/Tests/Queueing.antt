-- ===== src/Tests/Queueing.antt =====
-- Admission, claim and model slots of the scheduler.
use eventide.Prelude.{
  ◌≡◌, ◌⊎◌, refl, ◌+◌, ◌≤◌, List, [], ◌∷◌, none, some, false, true, String_discrete, arith,
}
use eventide.Runtime.{ok}
use eventide.Facts.{run_admitted}
use eventide.Store.State.{Store, facts_by_type, Event, Session}
use eventide.Scheduler.Queue.{
  QueueEntry, queued, project_queue, project_events, project_event, project_fact, admit, roots_of,
  entry_of,
}
use eventide.Scheduler.Admission.{
  Scheduler, RootLease, entries, claim_next, active_count, waiting_count, claim_from, claim_entry,
  is_eligible, session_runs,
}
use eventide.Scheduler.Capacity.{IsWithin}
use eventide.Scheduler.Exclusive.{IsExclusive, holders}
use eventide.Scheduler.Sequences.{
  SchedulerCall, reserves, claims, call, call_all, call_all-IsExclusive, new_scheduler,
}
use eventide.Scheduler.Limits.{call-IsWithin}
use eventide.Scheduler.Arrivals.{IsSubsequence, run_ids, arrivals}
use eventide.Scheduler.Order.{claim_next-IsOldest, IsOldest}
use eventide.Scheduler.Slots.{
  Reaches, starts, steps, waits, acquires, new_slots, wait_slot, take_slot, active_models-le,
}
use eventide.Dispatch.{Host, Dispatch, start, dispatch, dispatch_loop}
use eventide.Dispatch.Steps.{Agrees}
use eventide.Dispatch.Reachable.{begins, starts as starts_run, Reaches-Agrees}
use eventide.Dispatch.Loop.{HasSettled, dispatch-HasSettled}
use eventide.Tests.Data.{blank, limits, intent}

abbrev admission : Event
admission = record {
  event_id = "e0";
  session_id = "s";
  session_seq = 1;
  turn_id = some "t";
  run_id = some "r";
  ts = 100;
  fact = run_admitted intent;
  role = "system";
  author = "runtime";
  partial = false;
}

abbrev session : Session
session = record {
  workspace_id = "w";
  created_at = 100;
  working_directory = ".";
  title = none;
  archived = false;
}

-- A store with one admitted run that waits.
abbrev waiting_store : Store
waiting_store = record blank {
  sessions = ("s", session) ∷ ("s2", session) ∷ [];
  events = admission ∷ [];
}

abbrev entry : QueueEntry
entry = record {
  run_id = "r";
  session_id = "s";
  project_id = some "p";
  status = queued;
  admitted_at = 100;
  admission_event_id = "e0";
  intent = intent;
}

queue_read : entries waiting_store ≡ ok (entry ∷ [])
unfolding String_discrete entries project_queue facts_by_type project_events project_event
    project_fact admit roots_of entry_of
queue_read = refl

within : IsWithin (new_scheduler limits) (entry ∷ [])
unfolding active_count waiting_count
within = record { active_roots = omega arith; waiting_roots = omega arith }

abbrev taking : SchedulerCall
taking = reserves "r2" "s2" true

call-IsWithin_example : IsWithin (call waiting_store (new_scheduler limits) taking) (entry ∷ [])
call-IsWithin_example =
    call-IsWithin waiting_store (new_scheduler limits) taking (entry ∷ []) queue_read refl within

nothing_held : IsExclusive (new_scheduler limits)
unfolding holders
nothing_held sid = omega arith

call_all-IsExclusive_example : IsExclusive (
    call_all
      (new_scheduler limits)
      ((waiting_store, taking) ∷ (waiting_store, claims (λ e. true)) ∷ []))
call_all-IsExclusive_example =
    call_all-IsExclusive (new_scheduler limits)
      ((waiting_store, taking) ∷ (waiting_store, claims (λ e. true)) ∷ []) nothing_held

abbrev lease : RootLease
lease = record { object = 0; run_id = "r"; session_id = "s" }

abbrev leased : Scheduler
leased = record { limits = limits; tickets = []; roots = ("r", lease) ∷ []; objects = 1 }

claims_once : claim_next waiting_store (new_scheduler limits) (λ e. true) ≡ ok (some lease, leased)
unfolding String_discrete entries project_queue facts_by_type project_events project_event
    project_fact admit roots_of entry_of claim_next active_count claim_from claim_entry is_eligible
    session_runs
claims_once = refl

claim_next-IsOldest_example :
    (queue : List QueueEntry) × (entries waiting_store ≡ ok queue)
    × IsSubsequence (run_ids queue) (arrivals waiting_store.events)
    × ((e : QueueEntry) × IsOldest (λ e. true) (new_scheduler limits) queue queue e
        × ("r" ≡ e.run_id)
        × ("s" ≡ e.session_id))
claim_next-IsOldest_example =
    claim_next-IsOldest waiting_store (new_scheduler limits) leased (λ e. true) lease claims_once

one_active : Reaches 2 (take_slot (wait_slot (new_slots 2)))
unfolding take_slot wait_slot new_slots
one_active = steps (steps starts waits) (acquires (omega arith) (omega arith))

active_models-le_example :
    ((take_slot (wait_slot (new_slots 2))).active_models ≤ 2)
    × ((take_slot (wait_slot (new_slots 2))).permits
          + (take_slot (wait_slot (new_slots 2))).active_models
        ≡ 2)
active_models-le_example = active_models-le one_active

abbrev a_host : Host
a_host = record {
  closed = false;
  execution_key = λ run_id. "workspace";
  workspace_locked = λ key. false;
  session_locked = λ session_id. false;
}

-- The dispatch when the task of the admitted run has been made.
abbrev a_dispatch : Dispatch
a_dispatch = record {
  scheduler = new_scheduler limits;
  leases = [];
  ready = ("r", false) ∷ [];
  admissions = [];
}

dispatched :
    dispatch waiting_store a_host a_dispatch
    ≡ some (
      record {
        scheduler = leased;
        leases = leased.roots;
        ready = ("r", true) ∷ [];
        admissions = ("workspace", "r") ∷ [];
      },
      ok tt,
    )
unfolding String_discrete entries project_queue facts_by_type project_events project_event
    project_fact admit roots_of entry_of claim_next active_count claim_from claim_entry is_eligible
    session_runs dispatch dispatch_loop
dispatched = refl

-- The start of the task of the admitted run.
started :
    start waiting_store a_host (record a_dispatch { ready = [] }) "r"
    ≡ some (
      record {
        scheduler = leased;
        leases = leased.roots;
        ready = ("r", true) ∷ [];
        admissions = ("workspace", "r") ∷ [];
      },
      ok tt,
    )
unfolding String_discrete entries project_queue facts_by_type project_events project_event
    project_fact admit roots_of entry_of claim_next active_count claim_from claim_entry is_eligible
    session_runs start dispatch dispatch_loop
started = refl

abbrev started_dispatch : Dispatch
started_dispatch = record {
  scheduler = leased;
  leases = leased.roots;
  ready = ("r", true) ∷ [];
  admissions = ("workspace", "r") ∷ [];
}

Reaches-Agrees_example : Agrees started_dispatch
Reaches-Agrees_example = Reaches-Agrees started_dispatch (
    starts_run (record a_dispatch { ready = [] }) started_dispatch waiting_store a_host "r" (ok tt)
      (begins limits []) started)

dispatch-HasSettled_example :
    ((a_host.closed ≡ true) × (dispatch waiting_store a_host a_dispatch ≡ some (a_dispatch, ok tt)))
    ⊎ ((a_host.closed ≡ false)
        × HasSettled waiting_store a_host (entry ∷ []) (dispatch waiting_store a_host a_dispatch))
dispatch-HasSettled_example =
    dispatch-HasSettled waiting_store a_host a_dispatch (entry ∷ []) queue_read (within, refl)
