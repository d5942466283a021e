-- ===== src/Dispatch/Steps.antt =====
-- What a call of `RunDispatch` in eventide/run_dispatch.py leaves of the leases.
use eventide.Prelude.{
  ℕ, zero, suc, ◌≡◌, refl, sym, ◌∙◌, ap, subst, String, [], ◌∷◌, Option, none, some, true, false,
  Dict, lookup, insert, remove, has, length, string_eq, if◌then◌else◌, arith,
}
use eventide.Runtime.{Result, ok, err, >>=-eq-ok, ok-injective}
use eventide.Store.State.{Store, run_is_terminal}
use eventide.Scheduler.Admission.{
  Scheduler, AdmissionTicket, RootLease, active, waiting, commit_admission, transfer, claim_next,
  release_root,
}
use eventide.Scheduler.Cases.{commit_admission-transfer}
use eventide.Dispatch.{
  Host, Dispatch, may_claim, take_lease, dispatch_loop, dispatch, keep_lease, admitted, start,
  without_run, after_release, finish_with, finished,
}
use eventide.Dispatch.Loop.{claimed-roots, nothing_claimed}

-- Every lease stands under its run.
abbrev pub AreKeyed : Dict String RootLease → Type 0
AreKeyed [] = Unit
AreKeyed ((run_id, lease) ∷ leases) = (lease.run_id ≡ run_id) × AreKeyed leases

-- The dispatch holds the leases of the scheduler, each under its run.
abbrev pub Agrees : Dispatch → Type 0
Agrees d = (d.leases ≡ d.scheduler.roots) × AreKeyed d.leases

insert-AreKeyed :
    (lease : RootLease) (leases : Dict String RootLease)
    → AreKeyed leases
    → AreKeyed (insert lease.run_id lease leases)
insert-AreKeyed lease [] h = (refl, tt)
insert-AreKeyed lease ((k, l) ∷ leases) h = ground (arith, insert-AreKeyed lease leases)

remove-AreKeyed :
    (run_id : String) (leases : Dict String RootLease)
    → AreKeyed leases
    → AreKeyed (remove run_id leases)
remove-AreKeyed run_id [] h = tt
remove-AreKeyed run_id ((k, l) ∷ leases) h = ground (arith, remove-AreKeyed run_id leases)

lookup-AreKeyed :
    (run_id : String) (lease : RootLease) (leases : Dict String RootLease)
    → AreKeyed leases
    → lookup run_id leases ≡ some lease
    → lease.run_id ≡ run_id
lookup-AreKeyed run_id lease [] h f = absurd (ground arith)
lookup-AreKeyed run_id lease ((k, l) ∷ leases) h f =
    ground (arith, lookup-AreKeyed run_id lease leases)

remove_missing :
    (run_id : String) (leases : Dict String RootLease)
    → lookup run_id leases ≡ none
    → remove run_id leases ≡ leases
remove_missing run_id [] h = refl
remove_missing run_id ((k, l) ∷ leases) h = ground (arith, remove_missing run_id leases)

take_lease-Agrees :
    (s : Store) (h : Host) (d : Dispatch) (lease : RootLease) (sch : Scheduler)
    → claim_next s d.scheduler (may_claim h d) ≡ ok (some lease, sch)
    → Agrees d
    → Agrees (take_lease h d lease sch)
take_lease-Agrees s h d lease sch claimed (same, keyed) = (
  ap (insert lease.run_id lease) same
      ∙ sym (claimed-roots s d.scheduler (may_claim h d) lease sch claimed),
  insert-AreKeyed lease d.leases keyed,
)

-- What a dispatch has become, where it has not run out of fuel.
abbrev pub AllAgree : Option (Dispatch × Result (Unit {0})) → Type 0
AllAgree none = Unit
AllAgree (some (d, result)) = Agrees d

turn-AllAgree :
    (fuel : ℕ) (s : Store) (h : Host) (d : Dispatch) (r : Result (Option RootLease × Scheduler))
    → claim_next s d.scheduler (may_claim h d) ≡ r
    → Agrees d
    → ((d' : Dispatch) → Agrees d' → AllAgree (dispatch_loop fuel s h d'))
    → AllAgree (elim r [
      | err raised ↦ some (d, err raised)
      | ok (none, sch) ↦ some (record d { scheduler = sch }, ok tt)
      | ok (some lease, sch) ↦ dispatch_loop fuel s h (take_lease h d lease sch)
    ])
turn-AllAgree fuel s h d (err raised) claimed agrees later = agrees
turn-AllAgree fuel s h d (ok (none, sch)) claimed (same, keyed) later = (
  same
      ∙ ap (λ (x : Scheduler). x.roots)
          (sym (nothing_claimed s d.scheduler (may_claim h d) sch claimed)),
  keyed,
)
turn-AllAgree fuel s h d (ok (some lease, sch)) claimed agrees later =
    later (take_lease h d lease sch) (take_lease-Agrees s h d lease sch claimed agrees)

dispatch_loop-AllAgree :
    (fuel : ℕ) (s : Store) (h : Host) (d : Dispatch)
    → Agrees d
    → AllAgree (dispatch_loop fuel s h d)
unfolding dispatch_loop
dispatch_loop-AllAgree zero s h d agrees = tt
dispatch_loop-AllAgree (suc fuel) s h d agrees =
    turn-AllAgree fuel s h d (claim_next s d.scheduler (may_claim h d)) refl agrees
      (dispatch_loop-AllAgree fuel s h)

dispatch-AllAgree : (s : Store) (h : Host) (d : Dispatch) → Agrees d → AllAgree (dispatch s h d)
unfolding dispatch
dispatch-AllAgree s h d agrees =
    elim h.closed
      as (λ closed.
        AllAgree (if closed then some (d, ok tt) else dispatch_loop (suc (length d.ready)) s h d)) [
          | true ↦ agrees
          | false ↦ dispatch_loop-AllAgree (suc (length d.ready)) s h d agrees
        ]

keep_lease-Agrees :
    (released : String → Dict String String) (d : Dispatch) (ticket : AdmissionTicket)
    → Agrees d
    → Agrees (keep_lease released d ticket.run_id (transfer d.scheduler ticket))
unfolding transfer
keep_lease-Agrees released d ticket (same, keyed) =
    elim ticket.lane
      as (λ lane. Agrees (
        keep_lease released d ticket.run_id
          (transfer d.scheduler (record ticket { lane = lane })))) [
            | active ↦ (
              ap (insert ticket.run_id _) same,
              insert-AreKeyed
                  (record {
                    object = d.scheduler.objects;
                    run_id = ticket.run_id;
                    session_id = ticket.session_id;
                  })
                  d.leases keyed,
            )
            | waiting ↦ (same, keyed)
          ]

pub admitted-Agrees :
    (s : Store) (released : String → Dict String String) (d d' : Dispatch)
    (ticket : AdmissionTicket)
    → admitted s released d ticket ≡ ok d'
    → Agrees d
    → Agrees d'
unfolding admitted
admitted-Agrees s released d d' ticket h agrees =
    let (r, committed, kept) = >>=-eq-ok (commit_admission s d.scheduler ticket) _ h in
    let moved = commit_admission-transfer s d.scheduler ticket r committed in
    subst Agrees (ap (keep_lease released d ticket.run_id) moved ∙ ok-injective kept)
      (keep_lease-Agrees released d ticket agrees)

pub start-AllAgree :
    (s : Store) (h : Host) (d : Dispatch) (run_id : String)
    → Agrees d
    → AllAgree (start s h d run_id)
unfolding start
start-AllAgree s h d run_id agrees =
    elim (has run_id d.leases)
      as (λ leased. AllAgree (
        if leased
        then some (record d { ready = insert run_id true d.ready }, ok tt)
        else dispatch s h (record d { ready = insert run_id false d.ready }))) [
          | true ↦ agrees
          | false ↦ dispatch-AllAgree s h (record d { ready = insert run_id false d.ready }) agrees
        ]

release_held :
    (s : Store) (sch : Scheduler) (lease : RootLease)
    → lookup lease.run_id sch.roots ≡ some lease
    → run_is_terminal s lease.run_id ≡ true
    → release_root s sch lease ≡ ok (true, record sch { roots = remove lease.run_id sch.roots })
unfolding release_root
release_held s sch lease held ended = ground arith

finish_with-AllAgree :
    (s : Store) (h : Host) (d : Dispatch) (run_id : String) (held : Option RootLease)
    → lookup run_id d.leases ≡ held
    → run_is_terminal s run_id ≡ true
    → Agrees d
    → AllAgree (finish_with s h (without_run d run_id) d.scheduler held)
finish_with-AllAgree s h d run_id none missing ended (same, keyed) =
    dispatch-AllAgree s h (without_run d run_id)
      (remove_missing run_id d.leases missing ∙ same, remove-AreKeyed run_id d.leases keyed)
finish_with-AllAgree s h d run_id (some lease) held ended (same, keyed) =
    let its_run = lookup-AreKeyed run_id lease d.leases keyed held in
    let found : lookup lease.run_id d.scheduler.roots ≡ some lease =
      ap (lookup lease.run_id) (sym same) ∙ ap (λ k. lookup k d.leases) its_run ∙ held in
    let over = ap (run_is_terminal s) its_run ∙ ended in
    let without = record d.scheduler { roots = remove lease.run_id d.scheduler.roots } in
    subst (λ r. AllAgree (after_release s h (without_run d run_id) r))
      (sym (release_held s d.scheduler lease found over))
      (dispatch-AllAgree s h (record (without_run d run_id) { scheduler = without })
        (
          ap (remove run_id) same ∙ ap (λ k. remove k d.scheduler.roots) (sym its_run),
          remove-AreKeyed run_id d.leases keyed,
        ))

pub finished-AllAgree :
    (s : Store) (h : Host) (d : Dispatch) (run_id : String)
    → run_is_terminal s run_id ≡ true
    → Agrees d
    → AllAgree (finished s h d run_id)
unfolding finished
finished-AllAgree s h d run_id ended agrees =
    finish_with-AllAgree s h d run_id (lookup run_id d.leases) refl ended agrees
