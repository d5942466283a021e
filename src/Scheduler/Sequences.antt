-- ===== src/Scheduler/Sequences.antt =====
-- Any sequence of calls of eventide/scheduler.py, each on the store as it is then.
use eventide.Prelude.{◌≤◌, ◌≡◌, refl, inl, inr, String, List, [], ◌∷◌, Bool, arith}
use eventide.Runtime.{Result, ok, err}
use eventide.Store.State.{Store}
use eventide.Scheduler.Queue.{QueueEntry}
use eventide.Scheduler.Admission.{
  Scheduler, SchedulingLimits, AdmissionTicket, RootLease, reserve_admission, commit_admission,
  release_ticket, claim_next, release_root, with_ticket, transfer, without_ticket,
}
use eventide.Scheduler.Cases.{
  Reserved, reserve_admission-Reserved, commit_admission-Committed, release_ticket_inv,
  release_root_inv, claim_next_inv,
}
use eventide.Scheduler.Exclusive.{
  holders, IsExclusive, idle-holders, holders-with_ticket, one-more, transfer-holders,
  without_ticket-holders, without_root-holders, claimed-IsExclusive,
}

pub data SchedulerCall : Type 0 where
  reserves : String → String → Bool → SchedulerCall
  commits : AdmissionTicket → SchedulerCall
  gives_back : AdmissionTicket → SchedulerCall
  claims : (QueueEntry → Bool) → SchedulerCall
  frees : RootLease → SchedulerCall

abbrev pub kept : {A : Type 0} → Scheduler → Result (A × Scheduler) → Scheduler
kept sch (ok r) = r.1
kept sch (err e) = sch

-- A call that raises leaves the scheduler as it was.
unfoldable pub call : Store → Scheduler → SchedulerCall → Scheduler
call s sch (reserves run_id session_id startable) =
    kept sch (reserve_admission s sch run_id session_id startable)
call s sch (commits t) = kept sch (commit_admission s sch t)
call s sch (gives_back t) = kept sch (release_ticket s sch t)
call s sch (claims claim_execution) = kept sch (claim_next s sch claim_execution)
call s sch (frees l) = kept sch (release_root s sch l)

unfoldable pub call_all : Scheduler → List (Store × SchedulerCall) → Scheduler
call_all sch [] = sch
call_all sch ((s, c) ∷ calls) = call_all (call s sch c) calls

-- `RuntimeScheduler.__init__`
abbrev pub new_scheduler : SchedulingLimits → Scheduler
new_scheduler limits = record { limits = limits; tickets = []; roots = []; objects = 0 }

fewer :
    (sch sch' : Scheduler)
    → ((other : String) → holders sch' other ≤ holders sch other)
    → IsExclusive sch
    → IsExclusive sch'
fewer sch sch' f i other = omega (arith, f other, i other)

pub kept-ok :
    {A : Type 0} (P : Scheduler → Type 0) (sch : Scheduler) (m : Result (A × Scheduler))
    → P sch
    → ((a : A) (sch' : Scheduler) → m ≡ ok (a, sch') → P sch')
    → P (kept sch m)
kept-ok P sch (ok (a, sch')) p f = f a sch' refl
kept-ok P sch (err e) p f = p

Reserved-IsExclusive :
    (s : Store) (sch : Scheduler) (run_id session_id : String) (startable : Bool) (sch' : Scheduler)
    → Reserved s sch run_id session_id startable sch'
    → IsExclusive sch
    → IsExclusive sch'
Reserved-IsExclusive s sch run_id session_id startable sch' r i = rw r.done (
    one-more sch (with_ticket sch run_id session_id r.lane).1 session_id
      (λ other. holders-with_ticket sch run_id session_id other r.lane)
      (idle-holders sch r.queue session_id r.idle) i)

call-IsExclusive :
    (s : Store) (sch : Scheduler) (c : SchedulerCall) → IsExclusive sch → IsExclusive (call s sch c)
unfolding call
call-IsExclusive s sch (reserves run_id session_id startable) i =
    kept-ok IsExclusive sch (reserve_admission s sch run_id session_id startable) i (λ t sch' h.
      Reserved-IsExclusive s sch run_id session_id startable sch'
        (reserve_admission-Reserved s sch run_id session_id startable t sch' h) i)
call-IsExclusive s sch (commits t) i =
    kept-ok IsExclusive sch (commit_admission s sch t) i (λ l sch' h.
      let c = commit_admission-Committed s sch t l sch' h in
      rw c.done (fewer sch (transfer sch t).1 (λ other. transfer-holders sch t other c.held) i))
call-IsExclusive s sch (gives_back t) i =
    kept-ok IsExclusive sch (release_ticket s sch t) i (λ b sch' h.
      elim (release_ticket_inv s sch t b sch' h) [
        | inl same ↦ rw same i
        | inr out ↦
            rw out (fewer sch (without_ticket sch t.run_id) (without_ticket-holders sch t.run_id) i)
      ])
call-IsExclusive s sch (claims c) i = kept-ok IsExclusive sch (claim_next s sch c) i (λ l sch' h.
    elim (claim_next_inv s sch c l sch' h) [
      | inl same ↦ rw (same.0) i
      | inr taken ↦ rw taken.done (claimed-IsExclusive sch taken.queue c _ refl i)
    ])
call-IsExclusive s sch (frees l) i = kept-ok IsExclusive sch (release_root s sch l) i (λ b sch' h.
    elim (release_root_inv s sch l b sch' h) [
      | inl same ↦ rw same i
      | inr out ↦ rw out (fewer sch _ (without_root-holders sch l.run_id) i)
    ])

-- Whatever calls are made, on stores that change in between: where every session has at most one
-- ticket or lease, every session has at most one ticket or lease afterwards.
pub call_all-IsExclusive :
    (sch : Scheduler) (calls : List (Store × SchedulerCall))
    → IsExclusive sch
    → IsExclusive (call_all sch calls)
unfolding call_all
call_all-IsExclusive sch [] i = i
call_all-IsExclusive sch ((s, c) ∷ calls) i =
    call_all-IsExclusive (call s sch c) calls (call-IsExclusive s sch c i)
