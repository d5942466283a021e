-- ===== src/Scheduler/Limits.antt =====
-- The calls of eventide/scheduler.py that take capacity, against its limits.
use eventide.Prelude.{◌≡◌, sym, ◌∙◌, inl, inr, List, Bool, true, false, String, count_of, ◌≤◌}
use eventide.Runtime.{ok, ok-injective}
use eventide.Store.State.{Store, facts_by_type}
use eventide.Scheduler.Queue.{QueueEntry, scheduling_facts}
use eventide.Scheduler.Admission.{
  Scheduler, entries, reserve_admission, commit_admission, claim_next, choose_lane,
}
use eventide.Scheduler.Cases.{
  reserve_admission-Reserved, commit_admission-Committed, claim_next_inv,
}
use eventide.Scheduler.Distinct.{of_run, project_queue-once}
use eventide.Scheduler.Capacity.{IsWithin, with_ticket-IsWithin, claim_entry-IsWithin}
use eventide.Scheduler.Transfers.{transfer-IsWithin}
use eventide.Scheduler.Sequences.{
  SchedulerCall, reserves, commits, gives_back, claims, frees, call, kept-ok,
}

abbrev pub takes_capacity : SchedulerCall → Bool
takes_capacity (gives_back t) = false
takes_capacity (frees l) = false
takes_capacity _ = true

same_queue :
    (s : Store) (queue queue' : List QueueEntry)
    → entries s ≡ ok queue
    → entries s ≡ ok queue'
    → queue' ≡ queue
same_queue s queue queue' h h' = ok-injective (sym h' ∙ h)

entries-once :
    (s : Store) (queue : List QueueEntry) (run_id : String)
    → entries s ≡ ok queue
    → count_of (of_run run_id) queue ≤ 1
unfolding entries
entries-once s queue run_id h =
    project_queue-once (facts_by_type s.events scheduling_facts) queue run_id h

-- Where the active roots and the waiting roots are within their limits, an admission, a commit or
-- a claim leaves them within their limits, whether it succeeds or raises: what a ticket has
-- reserved is what its commit needs.
pub call-IsWithin :
    (s : Store) (sch : Scheduler) (c : SchedulerCall) (queue : List QueueEntry)
    → entries s ≡ ok queue
    → takes_capacity c ≡ true
    → IsWithin sch queue
    → IsWithin (call s sch c) queue
unfolding call
call-IsWithin s sch (reserves run_id session_id startable) queue read t i =
    kept-ok (λ x. IsWithin x queue) sch (reserve_admission s sch run_id session_id startable) i
      (λ t sch' h.
        let r = reserve_admission-Reserved s sch run_id session_id startable t sch' h in
        let same = same_queue s queue r.queue read r.read in
        let chosen : choose_lane sch queue startable ≡ ok r.lane = rw same at r.chosen in
        rw r.done (with_ticket-IsWithin sch queue run_id session_id startable r.lane chosen i))
call-IsWithin s sch (commits t) queue read k i =
    kept-ok (λ x. IsWithin x queue) sch (commit_admission s sch t) i
      (λ l sch' h.
        let c = commit_admission-Committed s sch t l sch' h in
        let same = same_queue s queue c.queue read c.read in
        rw c.done (
          transfer-IsWithin sch queue t c.held (entries-once s queue t.run_id read)
            (rw same at c.matched) i))
call-IsWithin s sch (claims f) queue read k i =
    kept-ok (λ x. IsWithin x queue) sch (claim_next s sch f) i
      (λ l sch' h. elim (claim_next_inv s sch f l sch' h) [
        | inl same ↦ rw (same.0) i
        | inr taken ↦
            let same = same_queue s queue taken.queue read taken.read in
            rw taken.done (claim_entry-IsWithin sch queue _ (rw same at taken.room) i)
      ])
call-IsWithin s sch (gives_back t) queue read k i = cc
call-IsWithin s sch (frees l) queue read k i = cc
