-- ===== src/Scheduler/Cases.antt =====
-- What a call of eventide/scheduler.py that succeeds has passed, and what it did.
use eventide.Prelude.{
  ◌≡◌, refl, sym, ap, String, List, Option, some, none, Bool, true, false, not, ◌||◌, lookup,
  remove, leb, ◌⊎◌, inl, inr, string_eq, arith, Bool-cases, Option-cases,
}
use eventide.Runtime.{ok, >>=-eq-ok, raise_if-bind, ok-injective}
use eventide.Store.State.{Store}
use eventide.Scheduler.Queue.{QueueEntry}
use eventide.Scheduler.Admission.{
  Scheduler, AdmissionTicket, RootLease, Lane, entries, is_busy, is_owned, choose_lane, with_ticket,
  reserve_admission, commit_admission, release_ticket, claim_next, release_root, transfer,
  holds_ticket, ticket_eq, lease_eq, matches_ticket, find_entry, claim_from, claim_entry,
  active_count, without_ticket,
}

pub record Reserved (s : Store) (sch : Scheduler) (run_id session_id : String) (startable : Bool)
    (sch' : Scheduler) : Type 0 where
  pub queue : List QueueEntry
  pub lane : Lane
  pub read : entries s ≡ ok queue
  pub idle : is_busy sch queue session_id ≡ false
  pub fresh : is_owned sch run_id ≡ false
  pub chosen : choose_lane sch queue startable ≡ ok lane
  pub done : sch' ≡ (with_ticket sch run_id session_id lane).1

or-false : (a b : Bool) → (a || b) ≡ false → (a ≡ false) × (b ≡ false)
or-false true b h = cc
or-false false b h = (refl, h)

pub reserve_admission-Reserved :
    (s : Store) (sch : Scheduler) (run_id session_id : String) (startable : Bool)
    (t : AdmissionTicket) (sch' : Scheduler)
    → reserve_admission s sch run_id session_id startable ≡ ok (t, sch')
    → Reserved s sch run_id session_id startable sch'
unfolding reserve_admission
reserve_admission-Reserved s sch run_id session_id startable t sch' h =
    let (_, h₁) = raise_if-bind _ _ _ h in
    let (new, h₂) = raise_if-bind _ _ _ h₁ in
    let (queue, read, h₃) = >>=-eq-ok (entries s) _ h₂ in
    let (idle, h₄) = raise_if-bind (is_busy sch queue session_id) _ _ h₃ in
    let (lane, chosen, h₅) = >>=-eq-ok (choose_lane sch queue startable) _ h₄ in
    let done : with_ticket sch run_id session_id lane ≡ (t, sch') = ok-injective h₅ in
    record {
      queue = queue;
      lane = lane;
      read = read;
      idle = idle;
      fresh = (or-false _ _ new).0;
      chosen = chosen;
      done = sym (ap (λ (r : AdmissionTicket × Scheduler). r.1) done);
    }

pub record Committed (s : Store) (sch : Scheduler) (t : AdmissionTicket) (sch' : Scheduler)
    : Type 0 where
  pub queue : List QueueEntry
  pub read : entries s ≡ ok queue
  pub held : lookup t.run_id sch.tickets ≡ some t
  pub matched : matches_ticket t (find_entry t.run_id queue) ≡ true
  pub done : sch' ≡ (transfer sch t).1

not-false : (b : Bool) → not b ≡ false → b ≡ true
not-false true h = refl
not-false false h = cc

held_ticket :
    (sch : Scheduler) (t : AdmissionTicket)
    → holds_ticket sch t ≡ true
    → lookup t.run_id sch.tickets ≡ some t
held_ticket sch t h = elim (Option-cases (lookup t.run_id sch.tickets)) [
  | inl missing ↦ ground arith
  | inr (u, there) ↦ ground arith
]

-- A commit that is accepted is a transfer.
pub commit_admission-transfer :
    (s : Store) (sch : Scheduler) (t : AdmissionTicket) (r : Option RootLease × Scheduler)
    → commit_admission s sch t ≡ ok r
    → transfer sch t ≡ r
unfolding commit_admission
commit_admission-transfer s sch t r h =
    let (owned, h₁) = raise_if-bind (not (holds_ticket sch t)) _ _ h in
    let (queue, read, h₂) = >>=-eq-ok (entries s) _ h₁ in
    ok-injective (raise_if-bind (not (matches_ticket t (find_entry t.run_id queue))) _ _ h₂).1

pub commit_admission-Committed :
    (s : Store) (sch : Scheduler) (t : AdmissionTicket) (l : Option RootLease) (sch' : Scheduler)
    → commit_admission s sch t ≡ ok (l, sch')
    → Committed s sch t sch'
unfolding commit_admission
commit_admission-Committed s sch t l sch' h =
    let (owned, h₁) = raise_if-bind (not (holds_ticket sch t)) _ _ h in
    let (queue, read, h₂) = >>=-eq-ok (entries s) _ h₁ in
    let (matched, h₃) = raise_if-bind (not (matches_ticket t (find_entry t.run_id queue))) _ _ h₂ in
    let done : transfer sch t ≡ (l, sch') = ok-injective h₃ in
    record {
      queue = queue;
      read = read;
      held = held_ticket sch t (not-false _ owned);
      matched = not-false _ matched;
      done = sym (ap (λ (r : Option RootLease × Scheduler). r.1) done);
    }

-- A call that gives a ticket or a lease back removes it, or changes nothing.
pub release_ticket_inv :
    (s : Store) (sch : Scheduler) (t : AdmissionTicket) (b : Bool) (sch' : Scheduler)
    → release_ticket s sch t ≡ ok (b, sch')
    → (sch' ≡ sch) ⊎ (sch' ≡ without_ticket sch t.run_id)
unfolding release_ticket
release_ticket_inv s sch t b sch' h = ground arith

pub release_root_inv :
    (s : Store) (sch : Scheduler) (l : RootLease) (b : Bool) (sch' : Scheduler)
    → release_root s sch l ≡ ok (b, sch')
    → (sch' ≡ sch) ⊎ (sch' ≡ record sch { roots = remove l.run_id sch.roots })
unfolding release_root
release_root_inv s sch l b sch' h = ground arith

-- A claim changes nothing, or takes an entry while there is room.
pub record Claimed (s : Store) (sch : Scheduler) (claim_execution : QueueEntry → Bool)
    (l : Option RootLease) (sch' : Scheduler) : Type 0 where
  pub queue : List QueueEntry
  pub read : entries s ≡ ok queue
  pub room : leb sch.limits.active_roots (active_count sch queue) ≡ false
  pub leased : (claim_entry sch (claim_from claim_execution sch queue queue)).0 ≡ l
  pub done : sch' ≡ (claim_entry sch (claim_from claim_execution sch queue queue)).1

pub claim_next_inv :
    (s : Store) (sch : Scheduler) (claim_execution : QueueEntry → Bool) (l : Option RootLease)
    (sch' : Scheduler)
    → claim_next s sch claim_execution ≡ ok (l, sch')
    → ((sch' ≡ sch) × (l ≡ none)) ⊎ Claimed s sch claim_execution l sch'
unfolding claim_next
claim_next_inv s sch claim_execution l sch' h =
    let (queue, read, h₁) = >>=-eq-ok (entries s) _ h in
    elim (Bool-cases (leb sch.limits.active_roots (active_count sch queue))) [
      | inl full ↦ inl (ground arith, ground arith)
      | inr room ↦
          let h₂ = rw room at h₁ in
          let done : claim_entry sch (claim_from claim_execution sch queue queue) ≡ (l, sch') =
            ok-injective h₂ in
          inr (record {
            queue = queue;
            read = read;
            room = room;
            leased = ap (λ (r : Option RootLease × Scheduler). r.0) done;
            done = sym (ap (λ (r : Option RootLease × Scheduler). r.1) done);
          })
    ]
