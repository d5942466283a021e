-- ===== src/Scheduler/Capacity.antt =====
-- The counts of active and waiting roots of eventide/scheduler.py, before and after a ticket, a
-- lease and a claim.
use eventide.Prelude.{
  ◌+◌, ◌≤◌, ◌≡◌, String, List, Option, some, none, Bool, true, false, not, ◌&&◌, count_of, leb,
  string_eq, has-insert, arith, if◌then◌else◌,
}
use eventide.Runtime.{ok}
use eventide.Scheduler.Queue.{QueueEntry, QueueStatus}
use eventide.Scheduler.Admission.{
  Scheduler, AdmissionTicket, Lane, active, waiting, is_owned, is_queued, is_running, is_active,
  active_count, waiting_count, choose_lane, with_ticket, with_root, claim_entry,
}
use eventide.Scheduler.Counting.{count_of-insert, count_of_mono, length-insert-le}

pub record IsWithin (sch : Scheduler) (queue : List QueueEntry) : Type 0 where
  pub active_roots : active_count sch queue ≤ sch.limits.active_roots
  pub waiting_roots : waiting_count sch queue ≤ sch.limits.waiting_roots

abbrev pub is_lane : Lane → AdmissionTicket → Bool
is_lane active t = is_active t.lane
is_lane waiting t = not (is_active t.lane)

abbrev pub unowned : (QueueStatus → Bool) → Scheduler → QueueEntry → Bool
unowned status sch e = status e.status && not (is_owned sch e.run_id)

-- Fewer entries are unowned when more runs are owned.
pub unowned_mono :
    (status : QueueStatus → Bool) (sch sch' : Scheduler) (queue : List QueueEntry)
    → ((r : String) → is_owned sch r ≡ true → is_owned sch' r ≡ true)
    → count_of (unowned status sch') queue ≤ count_of (unowned status sch) queue
unowned_mono status sch sch' queue f =
    count_of_mono (unowned status sch') (unowned status sch) queue
      (λ e h. ground (arith, f e.run_id))

owned-with_ticket :
    (sch : Scheduler) (run_id session_id : String) (lane : Lane) (r : String)
    → is_owned sch r ≡ true
    → is_owned (with_ticket sch run_id session_id lane).1 r ≡ true
unfolding with_ticket
owned-with_ticket sch run_id session_id lane r h =
    ground (arith, has-insert run_id r (with_ticket sch run_id session_id lane).0 sch.tickets)

owned-with_root :
    (sch : Scheduler) (run_id session_id r : String)
    → is_owned sch r ≡ true
    → is_owned (with_root sch run_id session_id).1 r ≡ true
owned-with_root sch run_id session_id r h =
    ground (arith, has-insert run_id r (with_root sch run_id session_id).0 sch.roots)

-- What a new ticket adds.
with_ticket-active :
    (sch : Scheduler) (queue : List QueueEntry) (run_id session_id : String) (lane : Lane)
    → active_count (with_ticket sch run_id session_id lane).1 queue
      ≤ active_count sch queue + (if is_active lane then 1 else 0)
unfolding active_count with_ticket
with_ticket-active sch queue run_id session_id lane = omega (
  arith,
  count_of-insert (λ (t : AdmissionTicket). is_active t.lane) run_id
      (with_ticket sch run_id session_id lane).0 sch.tickets,
  unowned_mono is_running sch (with_ticket sch run_id session_id lane).1 queue
      (owned-with_ticket sch run_id session_id lane),
)

with_ticket-waiting :
    (sch : Scheduler) (queue : List QueueEntry) (run_id session_id : String) (lane : Lane)
    → waiting_count (with_ticket sch run_id session_id lane).1 queue
      ≤ waiting_count sch queue + (if is_active lane then 0 else 1)
unfolding waiting_count with_ticket
with_ticket-waiting sch queue run_id session_id lane = ground (
  arith,
  count_of-insert (λ (t : AdmissionTicket). not (is_active t.lane)) run_id
      (with_ticket sch run_id session_id lane).0 sch.tickets,
  unowned_mono is_queued sch (with_ticket sch run_id session_id lane).1 queue
      (owned-with_ticket sch run_id session_id lane),
)

-- A lane is chosen only where it has room.
choose_lane-room :
    (sch : Scheduler) (queue : List QueueEntry) (startable : Bool) (lane : Lane)
    → choose_lane sch queue startable ≡ ok lane
    → IsWithin sch queue
    → (active_count sch queue + (if is_active lane then 1 else 0) ≤ sch.limits.active_roots)
      × (waiting_count sch queue + (if is_active lane then 0 else 1) ≤ sch.limits.waiting_roots)
unfolding choose_lane
choose_lane-room sch queue startable active h i =
    (ground (arith, i.active_roots), ground (arith, i.waiting_roots))
choose_lane-room sch queue startable waiting h i =
    (ground (arith, i.active_roots), ground (arith, i.waiting_roots))

pub with_ticket-IsWithin :
    (sch : Scheduler) (queue : List QueueEntry) (run_id session_id : String) (startable : Bool)
    (lane : Lane)
    → choose_lane sch queue startable ≡ ok lane
    → IsWithin sch queue
    → IsWithin (with_ticket sch run_id session_id lane).1 queue
unfolding with_ticket
with_ticket-IsWithin sch queue run_id session_id startable lane h i =
    let (a, w) = choose_lane-room sch queue startable lane h i in
    record {
      active_roots = omega (arith, a, with_ticket-active sch queue run_id session_id lane);
      waiting_roots = omega (arith, w, with_ticket-waiting sch queue run_id session_id lane);
    }

with_root-IsWithin :
    (sch : Scheduler) (queue : List QueueEntry) (run_id session_id : String)
    → leb sch.limits.active_roots (active_count sch queue) ≡ false
    → IsWithin sch queue
    → IsWithin (with_root sch run_id session_id).1 queue
unfolding active_count waiting_count
with_root-IsWithin sch queue run_id session_id room i =
    let after = (with_root sch run_id session_id).1 in
    let more = owned-with_root sch run_id session_id in
    record {
      active_roots = ground (
        arith,
        i.active_roots,
        unowned_mono is_running sch after queue more,
        length-insert-le run_id (with_root sch run_id session_id).0 sch.roots,
      );
      waiting_roots = omega (arith, i.waiting_roots, unowned_mono is_queued sch after queue more);
    }

pub claim_entry-IsWithin :
    (sch : Scheduler) (queue : List QueueEntry) (taken : Option QueueEntry)
    → leb sch.limits.active_roots (active_count sch queue) ≡ false
    → IsWithin sch queue
    → IsWithin (claim_entry sch taken).1 queue
unfolding claim_entry
claim_entry-IsWithin sch queue none room i = i
claim_entry-IsWithin sch queue (some e) room i =
    with_root-IsWithin sch queue e.run_id e.session_id room i
