-- ===== src/Scheduler/Transfers.antt =====
-- The counts of roots over `commit_admission` of eventide/scheduler.py.
use eventide.Prelude.{
  ◌+◌, ◌≤◌, ◌≡◌, refl, inl, inr, String, List, [], ◌∷◌, some, Bool, true, false, not, ◌&&◌, lookup,
  count_of, ◌==◌, string_eq, lookup-insert, arith, Bool-cases,
}
use eventide.Scheduler.Queue.{QueueEntry, QueueStatus}
use eventide.Scheduler.Admission.{
  Scheduler, AdmissionTicket, Lane, active, waiting, is_owned, is_queued, is_running, is_active,
  active_count, waiting_count, with_root, transfer, without_ticket, matches_ticket, find_entry,
}
use eventide.Scheduler.Counting.{count_of-remove, length-insert-le, has-remove}
use eventide.Scheduler.Distinct.{of_run}
use eventide.Scheduler.Capacity.{IsWithin, unowned, unowned_mono}

-- Every owned run but one is still owned without its ticket.
owned-without :
    (sch : Scheduler) (run_id r : String)
    → is_owned sch r ≡ true
    → (r == run_id) ≡ false
    → is_owned (without_ticket sch run_id) r ≡ true
owned-without sch run_id r h n = ground (arith, has-remove run_id r sch.tickets)

unowned-without :
    (status : QueueStatus → Bool) (sch : Scheduler) (run_id : String) (queue : List QueueEntry)
    → count_of (unowned status (without_ticket sch run_id)) queue
      ≤ count_of (unowned status sch) queue
        + count_of (λ e. of_run run_id e && status e.status) queue
unowned-without status sch run_id [] = omega arith
unowned-without status sch run_id (e ∷ queue) =
    ground (arith, owned-without sch run_id e.run_id, unowned-without status sch run_id queue)

-- What passes a test of a run's one entry.
count-status-le :
    (status : QueueStatus → Bool) (run_id : String) (queue : List QueueEntry)
    → count_of (λ e. of_run run_id e && status e.status) queue ≤ count_of (of_run run_id) queue
count-status-le status run_id [] = omega arith
count-status-le status run_id (e ∷ queue) = ground (arith, count-status-le status run_id queue)

queued-not-running :
    (t : AdmissionTicket) (queue : List QueueEntry)
    → count_of (of_run t.run_id) queue ≤ 1
    → matches_ticket t (find_entry t.run_id queue) ≡ true
    → count_of (λ e. of_run t.run_id e && is_running e.status) queue ≡ 0
unfolding find_entry matches_ticket
queued-not-running t [] o h = refl
queued-not-running t (e ∷ queue) o h = elim (Bool-cases (of_run t.run_id e)) [
  | inl it ↦ ground (arith, count-status-le is_running t.run_id queue)
  | inr other ↦ ground (arith, queued-not-running t queue)
]

owned-transfer :
    (sch : Scheduler) (t : AdmissionTicket) (r : String)
    → is_owned sch r ≡ true
    → is_owned (without_ticket (with_root sch t.run_id t.session_id).1 t.run_id) r ≡ true
owned-transfer sch t r h = ground (
  arith,
  has-remove t.run_id r sch.tickets,
  lookup-insert t.run_id r (with_root sch t.run_id t.session_id).0 sch.roots,
)

leased-IsWithin :
    (sch : Scheduler) (queue : List QueueEntry) (t : AdmissionTicket)
    → lookup t.run_id sch.tickets ≡ some t
    → is_active t.lane ≡ true
    → IsWithin sch queue
    → IsWithin (without_ticket (with_root sch t.run_id t.session_id).1 t.run_id) queue
unfolding active_count waiting_count
leased-IsWithin sch queue t held lane i =
    let after = without_ticket (with_root sch t.run_id t.session_id).1 t.run_id in
    let more = owned-transfer sch t in
    record {
      active_roots = ground (
        arith,
        i.active_roots,
        unowned_mono is_running sch after queue more,
        length-insert-le t.run_id (with_root sch t.run_id t.session_id).0 sch.roots,
        count_of-remove (λ (u : AdmissionTicket). is_active u.lane) t.run_id t sch.tickets held,
      );
      waiting_roots = ground (
        arith,
        i.waiting_roots,
        unowned_mono is_queued sch after queue more,
        count_of-remove (λ (u : AdmissionTicket). not (is_active u.lane)) t.run_id t sch.tickets
            held,
      );
    }

queued-IsWithin :
    (sch : Scheduler) (queue : List QueueEntry) (t : AdmissionTicket)
    → lookup t.run_id sch.tickets ≡ some t
    → is_active t.lane ≡ false
    → count_of (of_run t.run_id) queue ≤ 1
    → matches_ticket t (find_entry t.run_id queue) ≡ true
    → IsWithin sch queue
    → IsWithin (without_ticket sch t.run_id) queue
unfolding active_count waiting_count
queued-IsWithin sch queue t held lane once matched i = record {
  active_roots = ground (
    arith,
    i.active_roots,
    unowned-without is_running sch t.run_id queue,
    queued-not-running t queue once matched,
    count_of-remove (λ (u : AdmissionTicket). is_active u.lane) t.run_id t sch.tickets held,
  );
  waiting_roots = ground (
    arith,
    i.waiting_roots,
    unowned-without is_queued sch t.run_id queue,
    count-status-le is_queued t.run_id queue,
    once,
    count_of-remove (λ (u : AdmissionTicket). not (is_active u.lane)) t.run_id t sch.tickets held,
  );
}

pub transfer-IsWithin :
    (sch : Scheduler) (queue : List QueueEntry) (t : AdmissionTicket)
    → lookup t.run_id sch.tickets ≡ some t
    → count_of (of_run t.run_id) queue ≤ 1
    → matches_ticket t (find_entry t.run_id queue) ≡ true
    → IsWithin sch queue
    → IsWithin (transfer sch t).1 queue
unfolding transfer
transfer-IsWithin sch queue t held once matched i = by_lane t.lane refl
  where
    by_lane : (lane : Lane) → t.lane ≡ lane → IsWithin (transfer sch t).1 queue
    by_lane active eq = rw (eq, transfer) (leased-IsWithin sch queue t held (rw eq refl) i)
    by_lane waiting eq =
        rw (eq, transfer) (queued-IsWithin sch queue t held (rw eq refl) once matched i)
