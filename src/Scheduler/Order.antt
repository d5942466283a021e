-- ===== src/Scheduler/Order.antt =====
-- The order in which `claim_next` of eventide/scheduler.py goes through the queue.
use eventide.Prelude.{
  ◌≡◌, refl, ap, inl, inr, List, [], ◌∷◌, ◌++◌, Option, some, none, Bool, true, false, ◌&&◌, any,
  string_eq, arith, Bool-cases,
}
use eventide.Runtime.{ok}
use eventide.Store.State.{Store}
use eventide.Scheduler.Queue.{QueueEntry}
use eventide.Scheduler.Admission.{
  Scheduler, RootLease, entries, claim_next, claim_from, claim_entry, is_eligible,
}
use eventide.Scheduler.Cases.{claim_next_inv}
use eventide.Scheduler.Arrivals.{IsSubsequence, run_ids, arrivals, entries-IsSubsequence}

-- An entry of the queue that may be claimed now.
abbrev pub claimable : (QueueEntry → Bool) → Scheduler → List QueueEntry → QueueEntry → Bool
claimable claim_execution sch queue e = is_eligible sch queue e && claim_execution e

-- `e` is the first entry of `entries` that may be claimed.
pub record IsOldest (claim_execution : QueueEntry → Bool) (sch : Scheduler)
    (queue entries : List QueueEntry) (e : QueueEntry) : Type 0 where
  pub older : List QueueEntry
  pub newer : List QueueEntry
  pub split : entries ≡ older ++ e ∷ newer
  pub passed : any (claimable claim_execution sch queue) older ≡ false
  pub eligible : is_eligible sch queue e ≡ true
  pub accepted : claim_execution e ≡ true

claim_from-IsOldest :
    (c : QueueEntry → Bool) (sch : Scheduler) (queue entries : List QueueEntry) (e : QueueEntry)
    → claim_from c sch queue entries ≡ some e
    → IsOldest c sch queue entries e
unfolding claim_from
claim_from-IsOldest c sch queue [] e h = cc
claim_from-IsOldest c sch queue (x ∷ entries) e h = elim (Bool-cases (claimable c sch queue x)) [
  | inl yes_ ↦
      let same : x ≡ e = ground arith in
      record {
        older = [];
        newer = entries;
        split = ap (λ y. y ∷ entries) same;
        passed = refl;
        eligible = ground arith;
        accepted = ground arith;
      }
  | inr no_ ↦
      let i = claim_from-IsOldest c sch queue entries e (ground arith) in
      record {
        older = x ∷ i.older;
        newer = i.newer;
        split = ap (λ l. x ∷ l) i.split;
        passed = ground (arith, i.passed);
        eligible = i.eligible;
        accepted = i.accepted;
      }
]

lease-entry :
    (sch : Scheduler) (taken : Option QueueEntry) (l : RootLease)
    → (claim_entry sch taken).0 ≡ some l
    → (e : QueueEntry) × (taken ≡ some e) × (l.run_id ≡ e.run_id) × (l.session_id ≡ e.session_id)
unfolding claim_entry
lease-entry sch none l h = cc
lease-entry sch (some e) l h = (e, refl, ground arith, ground arith)

-- A lease that `claim_next` gives is for the oldest root of the queue that can be claimed: the queue
-- stands in the order in which the log first admits its runs, and every root before it is not queued, is
-- owned, has a busy session, or was refused by the Host.
pub claim_next-IsOldest :
    (s : Store) (sch sch' : Scheduler) (claim_execution : QueueEntry → Bool) (l : RootLease)
    → claim_next s sch claim_execution ≡ ok (some l, sch')
    → (queue : List QueueEntry) × (entries s ≡ ok queue)
      × IsSubsequence (run_ids queue) (arrivals s.events)
      × ((e : QueueEntry) × IsOldest claim_execution sch queue queue e
          × (l.run_id ≡ e.run_id)
          × (l.session_id ≡ e.session_id))
claim_next-IsOldest s sch sch' c l h = elim (claim_next_inv s sch c (some l) sch' h) [
  | inl (_, nothing) ↦ cc
  | inr t ↦
      let (e, found, run, session) =
        lease-entry sch (claim_from c sch t.queue t.queue) l t.leased in
      (
        t.queue,
        t.read,
        entries-IsSubsequence s t.queue t.read,
        (e, claim_from-IsOldest c sch t.queue t.queue e found, run, session),
      )
]
