-- ===== src/Deliveries/Accepted.antt =====
-- What `run_repair` of eventide/delivery_repair.py returns.
use eventide.Prelude.{
  ℕ, ◌≤◌, ℤ, pos, negsuc, ◌≡◌, refl, ap, subst, String, List, [], ◌∷◌, ◌++◌, Option, none, some,
  false, not, ◌&&◌, leb, length, length-append, arith,
}
use eventide.Runtime.{Result, ok, err, >>=-eq-ok, ok-injective, raise_if-bind}
use eventide.Deliveries.Repair.{
  Check, Observation, RepairFact, repair_finished, RepairState, StopReason, passed, Turn, returns,
  raises, goes_on, execute_rounds, close_repair, run_repair, count_from, in_range, check_request,
  first_repair, round_of,
}
use eventide.Deliveries.Rounds.{IsRepaired, Repaired, execute_rounds-Repaired}

close_repair-IsRepaired :
    (limit : ℕ) (observe : ℕ → Observation) (t : Turn) (st : RepairState)
    → Repaired limit observe t
    → close_repair t ≡ (st, ok passed)
    → IsRepaired limit observe st.rounds
close_repair-IsRepaired limit observe (returns passed st') st h e =
    subst (λ (r : RepairState × Result StopReason). IsRepaired limit observe r.0.rounds) e h
close_repair-IsRepaired limit observe (goes_on st') st h e = absurd h
close_repair-IsRepaired limit observe (raises x st') st h e = absurd (ground arith)
close_repair-IsRepaired limit observe (returns _ st') st h e = absurd (ground arith)

range_le : (n : ℕ) → not (leb 1 n && leb n 3) ≡ false → n ≤ 3
range_le n h = ground arith

-- The checks of the arguments that let pass bound the rounds.
check_request-rounds :
    (goal : String) (checks : List String) (max_rounds tokens : Option ℤ)
    → check_request goal checks max_rounds tokens ≡ ok tt
    → count_from max_rounds ≤ 3
unfolding check_request
check_request-rounds goal checks none tokens h = omega arith
check_request-rounds goal checks (some (negsuc n)) tokens h = omega arith
check_request-rounds goal checks (some (pos n)) tokens h =
    let rest = raise_if-bind _ _ _ h in
    let within = raise_if-bind (not (in_range 1 3 (some (pos n)))) _ _ rest.1 in range_le n within.0

module _ (signature : List Check → String) (goal : String) (checks : List String)
    (max_rounds tokens : Option ℤ) (initial : Result String) (observe : ℕ → Observation)
    (st : RepairState) (r : Result StopReason)
    (ran : run_repair signature goal checks max_rounds tokens initial observe ≡ ok (st, r)) where
  run_repair_inv :
      (patch : String) × (check_request goal checks max_rounds tokens ≡ ok tt)
      × (close_repair
            (execute_rounds signature (count_from max_rounds) 1 observe (first_repair patch))
          ≡ (st, r))
  unfolding run_repair
  run_repair_inv =
      let (_, allowed, rest) = >>=-eq-ok (check_request goal checks max_rounds tokens) _ ran in
      let (patch, _, done) = >>=-eq-ok initial _ rest in (patch, allowed, ok-injective done)

rounds-Repaired :
    (signature : List Check → String) (limit : ℕ) (observe : ℕ → Observation) (patch : String)
    → Repaired limit observe (execute_rounds signature limit 1 observe (first_repair patch))
rounds-Repaired signature limit observe patch =
    execute_rounds-Repaired signature limit limit 1 observe (first_repair patch) (omega arith)
      (record { counted = refl; failed = refl })

-- A repair that returns "passed" has been accepted, and at once: the last of its rounds, which is
-- within the number of rounds asked for, ended with checks of that round's own verification that
-- passed, with no tool of unknown outcome, and with the delivery within its limits afterwards. No
-- round before it had passed.
pub run_repair-IsRepaired :
    (signature : List Check → String) (goal : String) (checks : List String)
    (max_rounds tokens : Option ℤ) (initial : Result String) (observe : ℕ → Observation)
    (st : RepairState)
    → run_repair signature goal checks max_rounds tokens initial observe ≡ ok (st, ok passed)
    → IsRepaired (count_from max_rounds) observe st.rounds
run_repair-IsRepaired signature goal checks max_rounds tokens initial observe st h =
    let (patch, _, e) =
      run_repair_inv signature goal checks max_rounds tokens initial observe st (ok passed) h in
    close_repair-IsRepaired (count_from max_rounds) observe
      (execute_rounds signature (count_from max_rounds) 1 observe (first_repair patch)) st
      (rounds-Repaired signature (count_from max_rounds) observe patch) e

-- What `repair_finished` says of how the loop ended.
abbrev pub said : Result StopReason → Option StopReason
said (ok reason) = some reason
said (err e) = none

pub record IsBounded (r : Result StopReason) (st : RepairState) : Type 0 where
  pub earlier : List RepairFact
  pub few : length st.rounds ≤ 3
  pub closed : st.facts ≡ earlier ++ repair_finished (said r) (length st.rounds) ∷ []

Repaired-le :
    (limit : ℕ) (observe : ℕ → Observation) (t : Turn)
    → Repaired limit observe t
    → length (close_repair t).0.rounds ≤ limit
Repaired-le limit observe (returns passed st) h = omega (
  arith,
  ap length h.accepted.rounds_are,
  length-append h.earlier (round_of h.number (observe h.number) h.accepted.verification ∷ []),
  h.numbered,
  h.in_time,
)
Repaired-le limit observe (goes_on st) h = absurd h
Repaired-le limit observe (raises x st) h = h
Repaired-le limit observe (returns _ st) h = h

-- The facts before the last.
abbrev facts_of : Turn → List RepairFact
facts_of (returns reason st) = st.facts
facts_of (raises e st) = st.facts
facts_of (goes_on st) = st.facts

close_repair-facts :
    (t : Turn)
    → (close_repair t).0.facts
      ≡ facts_of t
        ++ repair_finished (said (close_repair t).1) (length (close_repair t).0.rounds) ∷ []
close_repair-facts (returns reason st) = refl
close_repair-facts (raises e st) = refl
close_repair-facts (goes_on st) = refl

-- Whatever the Host, the writer and the checks answer, a repair that is let in ends, after at
-- most three verified candidates; its last fact says how it ended, and with how many of them.
pub run_repair-IsBounded :
    (signature : List Check → String) (goal : String) (checks : List String)
    (max_rounds tokens : Option ℤ) (initial : Result String) (observe : ℕ → Observation)
    (st : RepairState) (r : Result StopReason)
    → run_repair signature goal checks max_rounds tokens initial observe ≡ ok (st, r)
    → IsBounded r st
run_repair-IsBounded signature goal checks max_rounds tokens initial observe st r h =
    let (patch, allowed, e) =
      run_repair_inv signature goal checks max_rounds tokens initial observe st r h in
    let limit = count_from max_rounds in
    let t = execute_rounds signature limit 1 observe (first_repair patch) in
    let few = Repaired-le limit observe t (rounds-Repaired signature limit observe patch) in
    let low = check_request-rounds goal checks max_rounds tokens allowed in
    subst (λ (q : RepairState × Result StopReason). IsBounded q.1 q.0) e
      (record {
        earlier = facts_of t;
        few = omega (arith, few, low);
        closed = close_repair-facts t;
      })
