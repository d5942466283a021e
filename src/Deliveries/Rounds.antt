-- ===== src/Deliveries/Rounds.antt =====
-- What the rounds of `run_repair` of eventide/delivery_repair.py show.
use eventide.Prelude.{
  ℕ, zero, suc, ◌+◌, ◌≤◌, ◌≡◌, refl, inl, inr, String, List, [], ◌∷◌, ◌++◌, none, Bool, true, false,
  not, ◌==◌, string_eq, length, all, all-append, length-append, arith, Bool-cases, Option-cases,
}
use eventide.Runtime.{Result, ok, err}
use eventide.Store.State.{contains}
use eventide.Deliveries.{delivery_limit_reason}
use eventide.Deliveries.Repair.{
  Check, Verification, Observation, RoundResult, RepairState, passed, Turn, returns, raises,
  goes_on, judge, round_of, settle_round, check_patch, after_writing, run_round, execute_rounds,
  then_turn, is_completed, emit, round_started,
}

abbrev pub has_passed : RoundResult → Bool
has_passed r = r.status == "passed"

-- The last round has been accepted: its checks have passed, no tool of it has an unknown outcome,
-- and the delivery was within its limits afterwards. No round before it has passed.
pub record IsAccepted (number : ℕ) (o : Observation) (earlier rounds : List RoundResult)
    : Type 0 where
  pub verification : Verification
  pub verified : o.verification ≡ ok verification
  pub checks : (verification.status == "passed") ≡ true
  pub known : o.unknown_after ≡ false
  pub within : delivery_limit_reason o.after_check "agent" false ≡ none
  pub rounds_are : rounds ≡ earlier ++ round_of number o verification ∷ []

abbrev RoundOf : ℕ → Observation → RepairState → Turn → Type 0
RoundOf number o st (returns passed st') = IsAccepted number o st.rounds st'.rounds
RoundOf number o st (returns _ st') = length st'.rounds ≤ length st.rounds + 1
RoundOf number o st (raises e st') = length st'.rounds ≤ length st.rounds + 1
RoundOf number o st (goes_on st') =
    (r : RoundResult) × (st'.rounds ≡ st.rounds ++ r ∷ []) × (has_passed r ≡ false)

module _ (signature : List Check → String) where
  settle_round-RoundOf :
      (number : ℕ) (o : Observation) (st : RepairState) (result : Result Verification)
      → o.verification ≡ result
      → RoundOf number o st (settle_round signature number o st result)
  unfolding settle_round judge
  settle_round-RoundOf number o st (err e) h = omega arith
  settle_round-RoundOf number o st (ok v) h =
      let r = round_of number o v in
      let l = length-append st.rounds (r ∷ []) in
      elim (Bool-cases o.unknown_after) [
        | inl unclear ↦ simp unclear (omega arith)
        | inr known ↦ elim (Option-cases (delivery_limit_reason o.after_check "agent" false)) [
          | inr (reason, out) ↦ simp (known, out) (omega arith)
          | inl within ↦ elim (Bool-cases (v.status == "passed")) [
            | inl good ↦
                simp (known, within, good)
                  (record {
                    verification = v;
                    verified = h;
                    checks = good;
                    known = known;
                    within = within;
                    rounds_are = refl;
                  })
            | inr bad ↦ elim (Bool-cases (contains (signature v.checks) st.failures)) [
              | inl again ↦ simp (known, within, bad, again) (omega arith)
              | inr new ↦ simp (known, within, bad, new) (r, refl, bad)
            ]
          ]
        ]
      ]

  check_patch-RoundOf :
      (number : ℕ) (o : Observation) (st : RepairState) (patch : Result String)
      → RoundOf number o st (check_patch signature number o st patch)
  unfolding check_patch
  check_patch-RoundOf number o st (err e) = omega arith
  check_patch-RoundOf number o st (ok patch) = elim (Bool-cases (patch == st.previous_patch)) [
    | inl same ↦ simp same (omega arith)
    | inr other ↦
        simp other
          (settle_round-RoundOf number o (record st { previous_patch = patch }) o.verification refl)
  ]

  after_writing-RoundOf :
      (number : ℕ) (o : Observation) (st : RepairState)
      → RoundOf number o st (after_writing signature number o st)
  unfolding after_writing
  after_writing-RoundOf number o st = elim (Bool-cases (is_completed o.worker.status)) [
    | inr stopped ↦ elim (Bool-cases o.unknown_stopped) [
      | inl unclear ↦ simp (stopped, unclear) (omega arith)
      | inr known ↦ elim (Option-cases (delivery_limit_reason o.stopped "agent" true)) [
        | inl within ↦ simp (stopped, known, within) (omega arith)
        | inr (reason, out) ↦ simp (stopped, known, out) (omega arith)
      ]
    ]
    | inl written ↦ elim (Option-cases (delivery_limit_reason o.after_writer "agent" false)) [
      | inl within ↦ simp (written, within) (check_patch-RoundOf number o st o.patch)
      | inr (reason, out) ↦ simp (written, out) (omega arith)
    ]
  ]

  run_round-RoundOf :
      (number : ℕ) (o : Observation) (st : RepairState)
      → RoundOf number o st (run_round signature number o st)
  unfolding run_round
  run_round-RoundOf number o st =
      elim (Option-cases (delivery_limit_reason o.before "agent" true)) [
        | inr (reason, out) ↦ simp out (omega arith)
        | inl within ↦ elim (Bool-cases o.unknown_before) [
          | inl unclear ↦ simp (within, unclear) (omega arith)
          | inr known ↦
              simp (within, known) (after_writing-RoundOf number o (emit (round_started number) st))
        ]
      ]

-- A repair that has been accepted, in a round before a limit.
pub record IsRepaired (limit : ℕ) (observe : ℕ → Observation) (rounds : List RoundResult)
    : Type 0 where
  pub number : ℕ
  pub earlier : List RoundResult
  pub numbered : length earlier + 1 ≡ number
  pub in_time : number ≤ limit
  pub none_before : all (λ r. not (has_passed r)) earlier ≡ true
  pub accepted : IsAccepted number (observe number) earlier rounds

abbrev pub Repaired : ℕ → (ℕ → Observation) → Turn → Type 0
Repaired limit observe (returns passed st) = IsRepaired limit observe st.rounds
Repaired limit observe (returns _ st) = length st.rounds ≤ limit
Repaired limit observe (raises e st) = length st.rounds ≤ limit
Repaired limit observe (goes_on st) = ⊥

pub record IsUnderway (number : ℕ) (rounds : List RoundResult) : Type 0 where
  pub counted : length rounds + 1 ≡ number
  pub failed : all (λ r. not (has_passed r)) rounds ≡ true

then_turn-Repaired :
    (limit number : ℕ) (observe : ℕ → Observation) (st : RepairState) (t : Turn)
    (rest : RepairState → Turn)
    → number ≤ limit
    → IsUnderway number st.rounds
    → RoundOf number (observe number) st t
    → ((st' : RepairState) → IsUnderway (number + 1) st'.rounds → Repaired limit observe (rest st'))
    → Repaired limit observe (then_turn t rest)
then_turn-Repaired limit number observe st (returns passed st') rest h u r k = record {
  number = number;
  earlier = st.rounds;
  numbered = u.counted;
  in_time = h;
  none_before = u.failed;
  accepted = r;
}
then_turn-Repaired limit number observe st (goes_on st') rest h u (r, e, bad) k = k st' (record {
  counted = rw e (omega (arith, length-append st.rounds (r ∷ []), u.counted));
  failed = rw (e, all-append (λ q. not (has_passed q)) st.rounds (r ∷ []), u.failed, bad) refl;
})
then_turn-Repaired limit number observe st (raises e st') rest h u r k = omega (arith, u.counted)
then_turn-Repaired limit number observe st (returns _ st') rest h u r k = omega (arith, u.counted)

pub execute_rounds-Repaired :
    (signature : List Check → String) (limit left number : ℕ) (observe : ℕ → Observation)
    (st : RepairState)
    → number + left ≡ limit + 1
    → IsUnderway number st.rounds
    → Repaired limit observe (execute_rounds signature left number observe st)
unfolding execute_rounds
execute_rounds-Repaired signature limit zero number observe st h u = omega (arith, u.counted)
execute_rounds-Repaired signature limit (suc left) number observe st h u =
    then_turn-Repaired limit number observe st (run_round signature number (observe number) st)
      (execute_rounds signature left (number + 1) observe) (omega arith) u
      (run_round-RoundOf signature number (observe number) st)
      (λ st' u'.
        execute_rounds-Repaired signature limit left (number + 1) observe st' (omega arith) u')
