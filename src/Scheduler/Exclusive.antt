-- ===== src/Scheduler/Exclusive.antt =====
-- The tickets and leases of one session, in the scheduler of eventide/scheduler.py.
use eventide.Prelude.{
  ℕ, ◌+◌, ◌≤◌, ◌≡◌, String, List, [], ◌∷◌, Option, some, none, Bool, true, false, lookup, values,
  count_of, remove, ◌==◌, string_eq, arith, if◌then◌else◌,
}
use eventide.Scheduler.Queue.{QueueEntry}
use eventide.Scheduler.Admission.{
  Scheduler, AdmissionTicket, RootLease, Lane, is_busy, with_ticket, with_root, transfer,
  claim_from, claim_entry, is_eligible, session_runs, without_ticket,
}
use eventide.Scheduler.Counting.{
  count_of-insert, count_of-remove, count_of-remove-le, count_of-none,
}

abbrev of_ticket : String → AdmissionTicket → Bool
of_ticket session_id t = t.session_id == session_id

abbrev of_lease : String → RootLease → Bool
of_lease session_id l = l.session_id == session_id

-- The tickets and leases of a session.
unfoldable pub holders : Scheduler → String → ℕ
holders sch session_id =
    count_of (of_ticket session_id) (values sch.tickets)
    + count_of (of_lease session_id) (values sch.roots)

abbrev pub IsExclusive : Scheduler → Type 0
IsExclusive sch = (session_id : String) → holders sch session_id ≤ 1

pub idle-holders :
    (sch : Scheduler) (queue : List QueueEntry) (session_id : String)
    → is_busy sch queue session_id ≡ false
    → holders sch session_id ≡ 0
unfolding holders is_busy
idle-holders sch queue session_id h = ground (
  arith,
  count_of-none (of_ticket session_id) (values sch.tickets),
  count_of-none (of_lease session_id) (values sch.roots),
)

pub holders-with_ticket :
    (sch : Scheduler) (run_id session_id other : String) (lane : Lane)
    → holders (with_ticket sch run_id session_id lane).1 other
      ≤ holders sch other + (if session_id == other then 1 else 0)
unfolding holders with_ticket
holders-with_ticket sch run_id session_id other lane = omega (
  arith,
  count_of-insert (of_ticket other) run_id (with_ticket sch run_id session_id lane).0 sch.tickets,
)

holders-with_root :
    (sch : Scheduler) (run_id session_id other : String)
    → holders (with_root sch run_id session_id).1 other
      ≤ holders sch other + (if session_id == other then 1 else 0)
unfolding holders
holders-with_root sch run_id session_id other =
    omega
      (arith, count_of-insert (of_lease other) run_id (with_root sch run_id session_id).0 sch.roots)

-- A new holder of a session that had none.
pub one-more :
    (sch sch' : Scheduler) (session_id : String)
    → ((other : String)
        → holders sch' other ≤ holders sch other + (if session_id == other then 1 else 0))
    → holders sch session_id ≡ 0
    → IsExclusive sch
    → IsExclusive sch'
one-more sch sch' session_id more none_yet i other = ground (arith, more other, i other)

pub transfer-holders :
    (sch : Scheduler) (t : AdmissionTicket) (other : String)
    → lookup t.run_id sch.tickets ≡ some t
    → holders (transfer sch t).1 other ≤ holders sch other
unfolding holders transfer
transfer-holders sch t other h = ground (
  arith,
  count_of-remove (of_ticket other) t.run_id t sch.tickets h,
  count_of-insert (of_lease other) t.run_id (with_root sch t.run_id t.session_id).0 sch.roots,
)

pub without_ticket-holders :
    (sch : Scheduler) (run_id other : String)
    → holders (without_ticket sch run_id) other ≤ holders sch other
unfolding holders
without_ticket-holders sch run_id other =
    omega (arith, count_of-remove-le (of_ticket other) run_id sch.tickets)

pub without_root-holders :
    (sch : Scheduler) (run_id other : String)
    → holders (record sch { roots = remove run_id sch.roots }) other ≤ holders sch other
unfolding holders
without_root-holders sch run_id other =
    omega (arith, count_of-remove-le (of_lease other) run_id sch.roots)

eligible-holders :
    (sch : Scheduler) (queue : List QueueEntry) (e : QueueEntry)
    → is_eligible sch queue e ≡ true
    → holders sch e.session_id ≡ 0
unfolding is_eligible session_runs holders
eligible-holders sch queue e h = ground (
  arith,
  count_of-none (of_ticket e.session_id) (values sch.tickets),
  count_of-none (of_lease e.session_id) (values sch.roots),
)

-- What a claim takes is eligible and accepted.
pub claim_from_eligible :
    (claim_execution : QueueEntry → Bool) (sch : Scheduler) (all_entries queue : List QueueEntry)
    (e : QueueEntry)
    → claim_from claim_execution sch all_entries queue ≡ some e
    → (is_eligible sch all_entries e ≡ true) × (claim_execution e ≡ true)
unfolding claim_from
claim_from_eligible c sch all_entries [] e h = cc
claim_from_eligible c sch all_entries (x ∷ queue) e h =
    ground (arith, claim_from_eligible c sch all_entries queue e)

pub claimed-IsExclusive :
    (sch : Scheduler) (queue : List QueueEntry) (claim_execution : QueueEntry → Bool)
    (taken : Option QueueEntry)
    → claim_from claim_execution sch queue queue ≡ taken
    → IsExclusive sch
    → IsExclusive (claim_entry sch taken).1
unfolding claim_entry
claimed-IsExclusive sch queue c none h i = i
claimed-IsExclusive sch queue c (some e) h i =
    one-more sch (with_root sch e.run_id e.session_id).1 e.session_id
      (λ other. holders-with_root sch e.run_id e.session_id other)
      (eligible-holders sch queue e (claim_from_eligible c sch queue queue e h).0) i
