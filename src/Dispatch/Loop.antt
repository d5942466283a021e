-- ===== src/Dispatch/Loop.antt =====
-- That the loop of `dispatch` in eventide/run_dispatch.py ends, and how.
use eventide.Prelude.{
  ℕ, zero, suc, ◌≤◌, ◌<◌, ◌≡◌, ◌⊎◌, refl, sym, ◌∙◌, ap, subst, inl, inr, String, List, [], ◌∷◌,
  Option, none, some, Bool, true, false, not, Dict, lookup, insert, values, length, count_of,
  string_eq, if◌then◌else◌, Bool-cases, arith,
}
use eventide.Runtime.{Error, Result, ok, err}
use eventide.Store.State.{Store}
use eventide.Scheduler.Queue.{QueueEntry}
use eventide.Scheduler.Admission.{
  Scheduler, RootLease, entries, claim_next, claim_from, claim_entry,
}
use eventide.Scheduler.Cases.{claim_next_inv}
use eventide.Scheduler.Capacity.{IsWithin}
use eventide.Scheduler.Sequences.{claims, kept, call}
use eventide.Scheduler.Limits.{call-IsWithin}
use eventide.Scheduler.Order.{claim_next-IsOldest}
use eventide.Dispatch.{Host, Dispatch, is_waiting, may_claim, take_lease, dispatch_loop, dispatch}

-- The runs that wait to be made ready.
abbrev pub waiting : Dict String Bool → ℕ
waiting ready = count_of not (values ready)

waiting-insert :
    (k : String) (ready : Dict String Bool)
    → is_waiting (lookup k ready) ≡ true
    → suc (waiting (insert k true ready)) ≡ waiting ready
waiting-insert k [] h = absurd (ground arith)
waiting-insert k ((j, done) ∷ ready) h = ground (arith, waiting-insert k ready)

waiting-le : (ready : Dict String Bool) → waiting ready ≤ length ready
waiting-le [] = omega arith
waiting-le ((j, done) ∷ ready) = ground (arith, waiting-le ready)

claim_entry-roots :
    (sch : Scheduler) (taken : Option QueueEntry) (l : RootLease)
    → (claim_entry sch taken).0 ≡ some l
    → (claim_entry sch taken).1.roots ≡ insert l.run_id l sch.roots
unfolding claim_entry
claim_entry-roots sch none l h = cc
claim_entry-roots sch (some e) l h = cc

pub claimed-roots :
    (s : Store) (sch : Scheduler) (f : QueueEntry → Bool) (l : RootLease) (sch' : Scheduler)
    → claim_next s sch f ≡ ok (some l, sch')
    → sch'.roots ≡ insert l.run_id l sch.roots
claimed-roots s sch f l sch' h = elim (claim_next_inv s sch f (some l) sch' h) [
  | inl (same, none_) ↦ cc
  | inr c ↦
      ap (λ (x : Scheduler). x.roots) c.done
      ∙ claim_entry-roots sch (claim_from f sch c.queue c.queue) l c.leased
]

claimed-IsWithin :
    (s : Store) (sch : Scheduler) (f : QueueEntry → Bool) (l : Option RootLease) (sch' : Scheduler)
    (queue : List QueueEntry)
    → entries s ≡ ok queue
    → claim_next s sch f ≡ ok (l, sch')
    → IsWithin sch queue
    → IsWithin sch' queue
unfolding call
claimed-IsWithin s sch f l sch' queue read h i =
    subst (λ x. IsWithin x queue) (ap (kept sch) h)
      (call-IsWithin s sch (claims f) queue read refl i)

claim_entry-none :
    (sch : Scheduler) (taken : Option QueueEntry)
    → (claim_entry sch taken).0 ≡ none
    → (claim_entry sch taken).1 ≡ sch
unfolding claim_entry
claim_entry-none sch none h = refl
claim_entry-none sch (some e) h = cc

pub nothing_claimed :
    (s : Store) (sch : Scheduler) (f : QueueEntry → Bool) (sch' : Scheduler)
    → claim_next s sch f ≡ ok (none, sch')
    → sch' ≡ sch
nothing_claimed s sch f sch' h = elim (claim_next_inv s sch f none sch' h) [
  | inl (same, none_) ↦ same
  | inr c ↦ c.done ∙ claim_entry-none sch (claim_from f sch c.queue c.queue) c.leased
]

claimed-is_waiting :
    (s : Store) (h : Host) (d : Dispatch) (l : RootLease) (sch' : Scheduler)
    → claim_next s d.scheduler (may_claim h d) ≡ ok (some l, sch')
    → is_waiting (lookup l.run_id d.ready) ≡ true
claimed-is_waiting s h d l sch' c =
    let (queue, read, order, (e, oldest, run, session)) =
      claim_next-IsOldest s d.scheduler sch' (may_claim h d) l c in
    let accepted = oldest.accepted in
    let waits : is_waiting (lookup e.run_id d.ready) ≡ true = ground arith in
    ap (λ k. is_waiting (lookup k d.ready)) run ∙ waits

-- The scheduler and the dispatch agree on the leases, and the scheduler is within its limits.
abbrev pub IsSound : List QueueEntry → Dispatch → Type 0
IsSound queue d = IsWithin d.scheduler queue × (d.leases ≡ d.scheduler.roots)

-- The loop has ended, soundly, and there is nothing left that it could claim.
abbrev pub HasSettled :
    Store → Host → List QueueEntry → Option (Dispatch × Result (Unit {0})) → Type 0
HasSettled s h queue result =
    (d : Dispatch) × (result ≡ some (d, ok tt))
    × IsSound queue d
    × (claim_next s d.scheduler (may_claim h d) ≡ ok (none, d.scheduler))

-- Where the queue can be read, a claim does not raise.
claim_next-ok :
    (s : Store) (sch : Scheduler) (f : QueueEntry → Bool) (queue : List QueueEntry) (raised : Error)
    → entries s ≡ ok queue
    → claim_next s sch f ≡ err raised
    → ⊥
unfolding claim_next
claim_next-ok s sch f queue raised read h = ground arith

turn-HasSettled :
    (fuel : ℕ) (s : Store) (h : Host) (d : Dispatch) (queue : List QueueEntry)
    (r : Result (Option RootLease × Scheduler))
    → claim_next s d.scheduler (may_claim h d) ≡ r
    → entries s ≡ ok queue
    → waiting d.ready < suc fuel
    → IsSound queue d
    → ((d' : Dispatch)
        → waiting d'.ready < fuel
        → IsSound queue d'
        → HasSettled s h queue (dispatch_loop fuel s h d'))
    → HasSettled s h queue (elim r [
      | err raised ↦ some (d, err raised)
      | ok (none, sch) ↦ some (record d { scheduler = sch }, ok tt)
      | ok (some lease, sch) ↦ dispatch_loop fuel s h (take_lease h d lease sch)
    ])
turn-HasSettled fuel s h d queue (err raised) claimed read bound sound later =
    absurd (claim_next-ok s d.scheduler (may_claim h d) queue raised read claimed)
turn-HasSettled fuel s h d queue (ok (none, sch)) claimed read bound sound later =
    let same = nothing_claimed s d.scheduler (may_claim h d) sch claimed in
    (
      d,
      ap (λ x. some (record d { scheduler = x }, ok tt)) same,
      sound,
      claimed ∙ ap (λ x. ok (none, x)) same,
    )
turn-HasSettled fuel s h d queue (ok (some lease, sch)) claimed read bound (within, leases) later =
    let lower = waiting-insert lease.run_id d.ready (claimed-is_waiting s h d lease sch claimed) in
    later (take_lease h d lease sch) (omega (arith, lower, bound)) (
      claimed-IsWithin s d.scheduler (may_claim h d) (some lease) sch queue read claimed within,
      ap (insert lease.run_id lease) leases
          ∙ sym (claimed-roots s d.scheduler (may_claim h d) lease sch claimed),
    )

dispatch_loop-HasSettled :
    (fuel : ℕ) (s : Store) (h : Host) (d : Dispatch) (queue : List QueueEntry)
    → entries s ≡ ok queue
    → waiting d.ready < fuel
    → IsSound queue d
    → HasSettled s h queue (dispatch_loop fuel s h d)
unfolding dispatch_loop
dispatch_loop-HasSettled zero s h d queue read bound sound = absurd (omega arith)
dispatch_loop-HasSettled (suc fuel) s h d queue read bound sound =
    turn-HasSettled fuel s h d queue (claim_next s d.scheduler (may_claim h d)) refl read bound
      sound (λ d' bound' sound'. dispatch_loop-HasSettled fuel s h d' queue read bound' sound')

-- Where the queue can be read, the dispatch and the scheduler agree on the leases, and the active and
-- the waiting roots are within their limits, a dispatch ends within its fuel and raises nothing. All
-- of this still holds then, and either the Host is closed and nothing has changed, or no root of
-- the queue is left that could be claimed.
pub dispatch-HasSettled :
    (s : Store) (h : Host) (d : Dispatch) (queue : List QueueEntry)
    → entries s ≡ ok queue
    → IsSound queue d
    → ((h.closed ≡ true) × (dispatch s h d ≡ some (d, ok tt)))
      ⊎ ((h.closed ≡ false) × HasSettled s h queue (dispatch s h d))
unfolding dispatch
dispatch-HasSettled s h d queue read sound = elim (Bool-cases h.closed) [
  | inl shut ↦ inl (shut, simp shut refl)
  | inr up ↦
      let settled =
        dispatch_loop-HasSettled (suc (length d.ready)) s h d queue read
          (omega (arith, waiting-le d.ready)) sound in
      inr (
        up,
        subst
            (λ c.
              HasSettled s h queue
                (if c then some (d, ok tt) else dispatch_loop (suc (length d.ready)) s h d))
            (sym up) settled,
      )
]
