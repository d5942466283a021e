-- ===== src/Scheduler/Admission.antt =====
-- `RuntimeScheduler` of eventide/scheduler.py without its model slots. Tickets and leases are
-- objects that the source compares by `is`: each carries the number of its creation, so that two
-- are the same object when they are equal.
use eventide.Prelude.{
  ℕ, suc, ◌+◌, String, List, [], ◌∷◌, Option, none, some, Bool, true, false, not, ◌&&◌, ◌||◌, Dict,
  lookup, insert, remove, has, values, length, any, count_of, ltb, leb, ◌==◌, string_eq, Eq,
  String_discrete, if◌then◌else◌,
}
use native.Mathlib.Decide.{ℕ_discrete}
use eventide.Runtime.{Result, ok, err, queue_full, ◌>>=◌, ◌>>◌, raise_if}
use eventide.Store.State.{Store, facts_by_type, get_session, get_run_identity, run_is_terminal}
use eventide.Scheduler.Queue.{
  QueueEntry, QueueStatus, queued, running, project_queue, scheduling_facts,
}

pub record SchedulingLimits : Type 0 where
  pub active_roots : ℕ
  pub model_requests : ℕ
  pub waiting_roots : ℕ

-- `SchedulingLimits.__post_init__`
unfoldable pub scheduling_limits : ℕ → ℕ → ℕ → Result SchedulingLimits
scheduling_limits active models waiting = do
  raise_if (ltb active 1) "Invalid active_roots"
  raise_if (ltb models 1) "Invalid model_requests"
  ok (record { active_roots = active; model_requests = models; waiting_roots = waiting })

pub data Lane : Type 0 where
  active waiting : Lane

pub record AdmissionTicket : Type 0 where
  pub object : ℕ
  pub run_id : String
  pub session_id : String
  pub lane : Lane

pub record RootLease : Type 0 where
  pub object : ℕ
  pub run_id : String
  pub session_id : String

pub Lane-discrete : Discrete Lane
Lane-discrete = hlevel

unfoldable pub AdmissionTicket-discrete : Discrete AdmissionTicket
AdmissionTicket-discrete = hlevel (String_discrete, ℕ_discrete, Lane-discrete)

unfoldable pub RootLease-discrete : Discrete RootLease
RootLease-discrete = hlevel (String_discrete, ℕ_discrete)

instance abbrev pub ticket_eq : Eq AdmissionTicket
ticket_eq = record { dec = AdmissionTicket-discrete }

instance abbrev pub lease_eq : Eq RootLease
lease_eq = record { dec = RootLease-discrete }

pub record Scheduler : Type 0 where
  pub limits : SchedulingLimits
  pub tickets : Dict String AdmissionTicket
  pub roots : Dict String RootLease
  -- how many tickets and leases have been made
  pub objects : ℕ

abbrev pub is_queued : QueueStatus → Bool
is_queued queued = true
is_queued _ = false

abbrev pub is_running : QueueStatus → Bool
is_running running = true
is_running _ = false

abbrev pub is_active : Lane → Bool
is_active active = true
is_active waiting = false

-- `run_id in self._tickets or run_id in self._roots`
abbrev pub is_owned : Scheduler → String → Bool
is_owned sch run_id = has run_id sch.tickets || has run_id sch.roots

unfoldable pub entries : Store → Result (List QueueEntry)
entries s = project_queue (facts_by_type s.events scheduling_facts)

-- The two counts of `counts` that admission reads.
unfoldable pub active_count : Scheduler → List QueueEntry → ℕ
active_count sch queue =
    length sch.roots
    + count_of (λ (t : AdmissionTicket). is_active t.lane) (values sch.tickets)
    + count_of (λ (e : QueueEntry). is_running e.status && not (is_owned sch e.run_id)) queue

unfoldable pub waiting_count : Scheduler → List QueueEntry → ℕ
waiting_count sch queue =
    count_of (λ (t : AdmissionTicket). not (is_active t.lane)) (values sch.tickets)
    + count_of (λ (e : QueueEntry). is_queued e.status && not (is_owned sch e.run_id)) queue

abbrev pub is_some : {A : Type 0} → Option A → Bool
is_some none = false
is_some (some _) = true

-- A session that holds a ticket, a lease, or an unfinished root.
unfoldable pub is_busy : Scheduler → List QueueEntry → String → Bool
is_busy sch queue session_id =
    any (λ (t : AdmissionTicket). t.session_id == session_id) (values sch.tickets)
    || any (λ (l : RootLease). l.session_id == session_id) (values sch.roots)
    || any
        (λ (e : QueueEntry).
          e.session_id == session_id && (is_queued e.status || is_running e.status))
        queue

-- The lane of a new ticket.
unfoldable pub choose_lane : Scheduler → List QueueEntry → Bool → Result Lane
choose_lane sch queue startable =
    if startable && ltb (active_count sch queue) sch.limits.active_roots
    then ok active
    else if leb sch.limits.waiting_roots (waiting_count sch queue)
    then err queue_full
    else ok waiting

unfoldable pub with_ticket : Scheduler → String → String → Lane → AdmissionTicket × Scheduler
with_ticket sch run_id session_id lane =
    let ticket : AdmissionTicket = record {
      object = sch.objects;
      run_id = run_id;
      session_id = session_id;
      lane = lane;
    } in
    (ticket, record sch { tickets = insert run_id ticket sch.tickets; objects = suc sch.objects })

unfoldable pub reserve_admission :
    Store → Scheduler → String → String → Bool → Result (AdmissionTicket × Scheduler)
reserve_admission s sch run_id session_id startable = do
  raise_if (run_id == "" || session_id == "" || not (is_some (get_session s session_id)))
      "A Run identity and existing Session are required"
  raise_if (is_owned sch run_id || is_some (get_run_identity s run_id)) "Run identity already used"
  queue ← entries s
  raise_if (is_busy sch queue session_id) "Session is busy with pending work"
  lane ← choose_lane sch queue startable
  ok (with_ticket sch run_id session_id lane)

-- `self._tickets.get(ticket.run_id) is ticket`
abbrev pub holds_ticket : Scheduler → AdmissionTicket → Bool
holds_ticket sch ticket = elim (lookup ticket.run_id sch.tickets) [
  | none ↦ false
  | some t ↦ t == ticket
]

abbrev pub holds_lease : Scheduler → RootLease → Bool
holds_lease sch lease = elim (lookup lease.run_id sch.roots) [ none ↦ false | some l ↦ l == lease ]

-- `next((item for item in entries if item.run_id == run_id), None)`
unfoldable pub find_entry : String → List QueueEntry → Option QueueEntry
find_entry run_id [] = none
find_entry run_id (e ∷ queue) = if e.run_id == run_id then some e else find_entry run_id queue

unfoldable pub matches_ticket : AdmissionTicket → Option QueueEntry → Bool
matches_ticket ticket none = false
matches_ticket ticket (some e) = e.session_id == ticket.session_id && is_queued e.status

abbrev pub with_root : Scheduler → String → String → RootLease × Scheduler
with_root sch run_id session_id =
    let lease : RootLease = record {
      object = sch.objects;
      run_id = run_id;
      session_id = session_id;
    } in
    (lease, record sch { roots = insert run_id lease sch.roots; objects = suc sch.objects })

abbrev pub without_ticket : Scheduler → String → Scheduler
without_ticket sch run_id = record sch { tickets = remove run_id sch.tickets }

unfoldable pub transfer : Scheduler → AdmissionTicket → Option RootLease × Scheduler
transfer sch ticket = elim ticket.lane [
  | active ↦
      let (lease, after) = with_root sch ticket.run_id ticket.session_id in
      (some lease, without_ticket after ticket.run_id)
  | waiting ↦ (none, without_ticket sch ticket.run_id)
]

unfoldable pub commit_admission :
    Store → Scheduler → AdmissionTicket → Result (Option RootLease × Scheduler)
commit_admission s sch ticket = do
  raise_if (not (holds_ticket sch ticket)) "Admission ticket is not owned by this scheduler"
  queue ← entries s
  raise_if (not (matches_ticket ticket (find_entry ticket.run_id queue)))
      "Matching unstarted root admission is required"
  ok (transfer sch ticket)

unfoldable pub release_ticket : Store → Scheduler → AdmissionTicket → Result (Bool × Scheduler)
release_ticket s sch ticket =
    if not (holds_ticket sch ticket)
    then ok (false, sch)
    else raise_if
        (is_some (get_run_identity s ticket.run_id) && not (run_is_terminal s ticket.run_id))
        "Durable admission must be committed or terminated before release"
      >> ok (true, without_ticket sch ticket.run_id)

-- `entry.session_id in busy_sessions`
unfoldable pub session_runs : Scheduler → List QueueEntry → String → Bool
session_runs sch queue session_id =
    any (λ (e : QueueEntry). is_running e.status && e.session_id == session_id) queue
    || any (λ (l : RootLease). l.session_id == session_id) (values sch.roots)
    || any (λ (t : AdmissionTicket). t.session_id == session_id) (values sch.tickets)

-- An entry that the loop of `claim_next` does not pass over.
unfoldable pub is_eligible : Scheduler → List QueueEntry → QueueEntry → Bool
is_eligible sch queue e =
    is_queued e.status && not (is_owned sch e.run_id) && not (session_runs sch queue e.session_id)

-- The loop over the queue; `all_entries` is the whole of it.
unfoldable pub claim_from :
    (QueueEntry → Bool) → Scheduler → List QueueEntry → List QueueEntry → Option QueueEntry
claim_from claim_execution sch all_entries [] = none
claim_from claim_execution sch all_entries (e ∷ queue) =
    let rest = claim_from claim_execution sch all_entries queue in
    if is_eligible sch all_entries e && claim_execution e then some e else rest

unfoldable pub claim_entry : Scheduler → Option QueueEntry → Option RootLease × Scheduler
claim_entry sch none = (none, sch)
claim_entry sch (some e) =
    let (lease, after) = with_root sch e.run_id e.session_id in (some lease, after)

unfoldable pub claim_next :
    Store → Scheduler → (QueueEntry → Bool) → Result (Option RootLease × Scheduler)
claim_next s sch claim_execution = entries s >>= λ queue.
    if leb sch.limits.active_roots (active_count sch queue)
    then ok (none, sch)
    else ok (claim_entry sch (claim_from claim_execution sch queue queue))

unfoldable pub release_root : Store → Scheduler → RootLease → Result (Bool × Scheduler)
release_root s sch lease =
    if not (holds_lease sch lease)
    then ok (false, sch)
    else raise_if (not (run_is_terminal s lease.run_id))
        "Root must reach a terminal fact before releasing its lease"
      >> ok (true, record sch { roots = remove lease.run_id sch.roots })
