-- ===== src/Recovery/Continue.antt =====
-- What `_validate_continue` of eventide/host.py lets in.
use eventide.Prelude.{
  ℕ, ◌≡◌, refl, ◌↔◌, String, List, [], ◌∷◌, Option, none, some, Bool, true, false, not, ◌&&◌, ◌||◌,
  ltb, leb, any, all, values, nat_eq, string_eq, arith,
}
use eventide.Runtime.{Result, ok, err, raise_if, ◌>>=◌, ◌>>◌}
use eventide.Store.State.{contains, is_id}
use eventide.Recovery.{
  HistoryEvent, Operation, Previous, Surroundings, is_interrupted, evidence_of, has_changed,
  is_unknown_outcome, is_checkpoint, completed_call, last_checkpoint, readonly_calls,
  lacks_checkpoint, is_unsettled, check_history, validate_continue,
}

-- The event is not a tool's end, or of a call that only reads, or a checkpoint of the log is not older
-- than it; a number of 0 counts as a checkpoint's.
abbrev pub is_covered : List HistoryEvent → HistoryEvent → Bool
is_covered events e = elim (completed_call e.fact) [
  | none ↦ true
  | some call_id ↦
      contains call_id (readonly_calls events)
      || leb e.session_seq 0
      || any (λ (c : HistoryEvent). is_checkpoint c.fact && leb e.session_seq c.session_seq) events
]

abbrev pub is_known : HistoryEvent → Bool
is_known e = not (is_unknown_outcome e.fact)

abbrev pub is_settled : Operation → Bool
is_settled o = not (is_unsettled o)

-- The run was interrupted, and what has been recorded of it is the whole of what it did.
abbrev pub IsParked : Surroundings → Previous → List HistoryEvent → Type 0
IsParked around previous events =
    (is_interrupted previous.status ≡ true)
    × ((evidence : String) × (evidence_of around ≡ ok (some evidence))
        × (is_id previous.checkpoint evidence ≡ true))
    × (all is_known events ≡ true)
    × (all (is_covered events) events ≡ true)
    × (all is_settled (values previous.tools) ≡ true)

abbrev pub MayContinue : Surroundings → Option Previous → (String → List HistoryEvent) → Type 0
MayContinue around none run_events = ⊥
MayContinue around (some previous) run_events = IsParked around previous (run_events previous.id)

all-not {ℓ} :
    {A : Type ℓ} (p q : A → Bool)
    → ((a : A) → q a ≡ not (p a))
    → (xs : List A) → all q xs ≡ not (any p xs)
all-not p q h [] = refl
all-not p q h (x ∷ xs) = ground (arith, h x, all-not p q h xs)

ltb-last_checkpoint :
    (s : ℕ) (events : List HistoryEvent)
    → (leb s 0 || any (λ (c : HistoryEvent). is_checkpoint c.fact && leb s c.session_seq) events)
      ≡ not (ltb (last_checkpoint events) s)
ltb-last_checkpoint s [] = ground arith
ltb-last_checkpoint s (e ∷ events) = ground (arith, ltb-last_checkpoint s events)

is_covered-lacks_checkpoint :
    (events : List HistoryEvent) (e : HistoryEvent)
    → is_covered events e
      ≡ not (lacks_checkpoint (last_checkpoint events) (readonly_calls events) e)
is_covered-lacks_checkpoint events e = ground (arith, ltb-last_checkpoint e.session_seq events)

all_covered :
    (events : List HistoryEvent)
    → all (is_covered events) events
      ≡ not (any (lacks_checkpoint (last_checkpoint events) (readonly_calls events)) events)
all_covered events =
    all-not (lacks_checkpoint (last_checkpoint events) (readonly_calls events)) (is_covered events)
      (is_covered-lacks_checkpoint events) events

check_history-IsCovered :
    (events : List HistoryEvent)
    → (check_history events ≡ ok tt)
      ↔ ((all is_known events ≡ true) × (all (is_covered events) events ≡ true))
check_history-IsCovered events =
    let unknown : HistoryEvent → Bool = λ e. is_unknown_outcome e.fact in
    let lacking = lacks_checkpoint (last_checkpoint events) (readonly_calls events) in
    let known = all-not unknown is_known (λ e. refl) events in
    let covered = all_covered events in ground (arith, known, covered)

settled_iff :
    (operations : List Operation) (message : String)
    → (raise_if (any is_unsettled operations) message ≡ ok tt) ↔ (all is_settled operations ≡ true)
settled_iff operations message =
    ground (arith, all-not is_unsettled is_settled (λ o. refl) operations)

-- Checks in a row let pass what each of them lets pass.
>>_iff :
    (check rest : Result (Unit {0})) {P Q : Type 0}
    → (check ≡ ok tt) ↔ P
    → (rest ≡ ok tt) ↔ Q
    → ((check >> rest) ≡ ok tt) ↔ (P × Q)
>>_iff (err raised) rest (p, p') q = ((λ h. cc), (λ (h, k). let fails = p' h in cc))
>>_iff (ok tt) rest (p, p') (q, q') = ((λ h. (p refl, q h)), (λ (h, k). q' k))

raise_if_iff : (c : Bool) (message : String) → (raise_if (not c) message ≡ ok tt) ↔ (c ≡ true)
raise_if_iff true message = ground arith
raise_if_iff false message = ground arith

evidence_iff :
    (call : Result (Option String)) (checkpoint : Option String) (message : String)
    (rest : Result (Unit {0})) {P : Type 0}
    → (rest ≡ ok tt) ↔ P
    → ((call >>= λ evidence. raise_if (has_changed evidence checkpoint) message >> rest) ≡ ok tt)
      ↔ (((evidence : String) × (call ≡ ok (some evidence)) × (is_id checkpoint evidence ≡ true))
          × P)
evidence_iff (err raised) checkpoint message rest q = ((λ h. cc), (λ ((e, h, k), r). cc))
evidence_iff (ok none) checkpoint message rest q = ((λ h. cc), (λ ((e, h, k), r). cc))
evidence_iff (ok (some evidence)) checkpoint message rest q =
    let (split, join) =
      >>_iff (raise_if (not (is_id checkpoint evidence)) message) rest
        (raise_if_iff (is_id checkpoint evidence) message) q in
    (
      (λ h. ((evidence, refl, (split h).0), (split h).1)),
      (λ ((e, same, h), r). join ((let found : evidence ≡ e = cc in cc), r)),
    )

validate_some :
    (around : Surroundings) (previous : Previous) (events : List HistoryEvent)
    → (validate_continue around (some previous) (λ id. events) ≡ ok tt)
      ↔ IsParked around previous events
unfolding validate_continue
validate_some around previous events =
    let tools : String = "Unknown tool outcome; session remains parked" in
    let settled = settled_iff (values previous.tools) tools in
    let history =
      >>_iff (check_history events) (raise_if (any is_unsettled (values previous.tools)) tools)
        (check_history-IsCovered events) settled in
    let evidence = evidence_iff (evidence_of around) previous.checkpoint _ _ history in
    let (split, join) = >>_iff _ _ (raise_if_iff (is_interrupted previous.status) _) evidence in
    (
      (λ h.
          let (stopped, (found, ((known, covered), done))) = split h in
          (stopped, found, known, covered, done)),
      (λ (stopped, found, known, covered, done). join (stopped, (found, ((known, covered), done)))),
    )

-- A run continues exactly when it may: it was interrupted; the checkpoint of its copy, or of its
-- workspace with a Git root, can be had and is the one recorded; its log holds no tool of unknown
-- outcome; every tool that ended only reads, or a checkpoint of the log is not older than its end (an
-- end numbered 0 counts as covered); and every tool that was only prepared only reads. Otherwise
-- Continue raises.
pub validate_continue-MayContinue :
    (around : Surroundings) (previous : Option Previous) (run_events : String → List HistoryEvent)
    → (validate_continue around previous run_events ≡ ok tt)
      ↔ MayContinue around previous run_events
unfolding validate_continue
validate_continue-MayContinue around none run_events = ((λ h. cc), (λ h. absurd h))
validate_continue-MayContinue around (some previous) run_events =
    validate_some around previous (run_events previous.id)
