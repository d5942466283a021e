-- ===== src/Deliveries/Repair.antt =====
-- The rounds of a writer and its independent verification: `run_repair` of
-- eventide/delivery_repair.py. What the Host, the writer and the checks answer in a round is an
-- `Observation`; a value that is not reached is not read. Not here: the timeout and the
-- cancellation about the loop, and the texts of the prompts.
use eventide.Prelude.{
  ℕ, zero, suc, ◌+◌, ℤ, pos, negsuc, String, List, [], ◌∷◌, ◌++◌, Option, none, some, Bool, true,
  false, not, ◌&&◌, ◌||◌, ◌==◌, string_eq, leb, ltb, if◌then◌else◌, length, any, len, is_blank,
}
use eventide.Runtime.{Result, ok, err, Error, ◌>>=◌, ◌>>◌, raise_if}
use eventide.RunState.{RunStatus, completed}
use eventide.Store.State.{contains}
use eventide.Deliveries.{LimitView, LimitReason, delivery_limit_reason}

-- The text that the loop returns.
pub data StopReason : Type 0 where
  limited : LimitReason → StopReason
  unknown_tool_outcome writer_stopped no_source_progress : StopReason
  repeated_acceptance_failure round_limit passed : StopReason

pub record Check : Type 0 where
  pub call_id : String
  pub content : List ℕ
  pub is_error : Bool
  pub exit_code : Option ℤ

pub record Verification : Type 0 where
  pub patch_sha256 : String
  pub status : String
  pub checks : List Check

pub record Worker : Type 0 where
  pub worker_run_id : String
  pub status : RunStatus

pub record Observation : Type 0 where
  pub before : LimitView
  pub unknown_before : Bool
  pub worker : Worker
  -- where the writer has not completed
  pub unknown_stopped : Bool
  pub stopped : LimitView
  -- where it has
  pub after_writer : LimitView
  -- the digest of `build_patch`
  pub patch : Result String
  pub verification : Result Verification
  pub unknown_after : Bool
  pub after_check : LimitView

pub record RoundResult : Type 0 where
  pub round : ℕ
  pub worker_run_id : String
  pub patch_sha256 : String
  pub status : String
  pub checks : List Check

pub data RepairFact : Type 0 where
  repair_started : String → RepairFact
  round_started : ℕ → RepairFact
  round_finished : RoundResult → RepairFact
  -- the reason, none for "repair_failed", and `verified_candidates`
  repair_finished : Option StopReason → ℕ → RepairFact

pub record RepairState : Type 0 where
  pub previous_patch : String
  pub failures : List String
  pub rounds : List RoundResult
  pub facts : List RepairFact

-- How a turn of the loop ends: by `return`, by an exception, or with the next turn.
pub data Turn : Type 0 where
  returns : StopReason → RepairState → Turn
  raises : Error → RepairState → Turn
  goes_on : RepairState → Turn

abbrev pub emit : RepairFact → RepairState → RepairState
emit fact st = record st { facts = st.facts ++ fact ∷ [] }

abbrev pub is_completed : RunStatus → Bool
is_completed completed = true
is_completed _ = false

-- `reason or "writer_stopped"`
abbrev pub reason_or : StopReason → Option LimitReason → StopReason
reason_or default none = default
reason_or default (some reason) = limited reason

abbrev pub unless_limited : Option LimitReason → RepairState → Turn → Turn
unless_limited none st rest = rest
unless_limited (some reason) st rest = returns (limited reason) st

abbrev pub round_of : ℕ → Observation → Verification → RoundResult
round_of number o v = record {
  round = number;
  worker_run_id = o.worker.worker_run_id;
  patch_sha256 = v.patch_sha256;
  status = v.status;
  checks = v.checks;
}

abbrev pub add_round : RoundResult → RepairState → RepairState
add_round r st = record st {
  rounds = st.rounds ++ r ∷ [];
  facts = st.facts ++ round_finished r ∷ [];
}

abbrev pub stop_writer : Observation → RepairState → Turn
stop_writer o st =
    if o.unknown_stopped
    then returns unknown_tool_outcome st
    else returns (reason_or writer_stopped (delivery_limit_reason o.stopped "agent" true)) st

abbrev pub then_turn : Turn → (RepairState → Turn) → Turn
then_turn (returns reason st) rest = returns reason st
then_turn (raises e st) rest = raises e st
then_turn (goes_on st) rest = rest st

-- The `finally` block, and what is returned or raised: the state with its facts, and the reason.
abbrev pub close_repair : Turn → RepairState × Result StopReason
close_repair (returns reason st) =
    (emit (repair_finished (some reason) (length st.rounds)) st, ok reason)
close_repair (raises e st) = (emit (repair_finished none (length st.rounds)) st, err e)
close_repair (goes_on st) =
    (emit (repair_finished (some round_limit) (length st.rounds)) st, ok round_limit)

-- An argument that is no int is none.
abbrev pub in_range : ℕ → ℕ → Option ℤ → Bool
in_range low high none = false
in_range low high (some (pos n)) = leb low n && leb n high
in_range low high (some (negsuc n)) = false

abbrev pub count_from : Option ℤ → ℕ
count_from (some (pos n)) = n
count_from _ = 0

unfoldable pub check_request : String → List String → Option ℤ → Option ℤ → Result (Unit {0})
check_request goal checks max_rounds observed_token_limit =
    raise_if (is_blank goal || ltb 20_000 (len goal)) "Repair goal must contain 1-20000 characters"
    >> (raise_if (not (in_range 1 3 max_rounds)) "Repair permits 1-3 candidate verifications"
        >> (raise_if (not (in_range 1 1_000_000 observed_token_limit))
              "Observed Token limit must be an integer between 1 and 1000000"
            >> raise_if
                (not (leb 1 (length checks) && leb (length checks) 4)
                  || any (λ c. is_blank c || ltb 2_000 (len c)) checks)
                "Repair requires 1-4 bounded acceptance commands"))

abbrev pub first_repair : String → RepairState
first_repair initial_patch = record {
  previous_patch = initial_patch;
  failures = [];
  rounds = [];
  facts = repair_started initial_patch ∷ [];
}

module _ (signature : List Check → String) where
  -- From `if verification["status"] == "passed"` on.
  unfoldable pub judge : Verification → RepairState → Turn
  judge v st =
      if v.status == "passed"
      then returns passed st
      else (if contains (signature v.checks) st.failures
          then returns repeated_acceptance_failure st
          else goes_on (record st { failures = signature v.checks ∷ st.failures }))

  -- After the verification.
  unfoldable pub settle_round : ℕ → Observation → RepairState → Result Verification → Turn
  settle_round number o st (err e) = raises e st
  settle_round number o st (ok v) =
      let st' = add_round (round_of number o v) st in
      if o.unknown_after
      then returns unknown_tool_outcome st'
      else unless_limited (delivery_limit_reason o.after_check "agent" false) st' (judge v st')

  -- After the patch has been built.
  unfoldable pub check_patch : ℕ → Observation → RepairState → Result String → Turn
  check_patch number o st (err e) = raises e st
  check_patch number o st (ok patch) =
      if patch == st.previous_patch
      then returns no_source_progress st
      else settle_round number o (record st { previous_patch = patch }) o.verification

  -- After the writer.
  unfoldable pub after_writing : ℕ → Observation → RepairState → Turn
  after_writing number o st =
      if is_completed o.worker.status
      then unless_limited (delivery_limit_reason o.after_writer "agent" false) st
          (check_patch number o st o.patch)
      else stop_writer o st

  unfoldable pub run_round : ℕ → Observation → RepairState → Turn
  run_round number o st = unless_limited (delivery_limit_reason o.before "agent" true) st (
      if o.unknown_before
      then returns unknown_tool_outcome st
      else after_writing number o (emit (round_started number) st))

  -- `execute_rounds`, by the rounds left and the number of the next one.
  unfoldable pub execute_rounds : ℕ → ℕ → (ℕ → Observation) → RepairState → Turn
  execute_rounds zero number observe st = returns round_limit st
  execute_rounds (suc left) number observe st =
      then_turn (run_round number (observe number) st) (execute_rounds left (number + 1) observe)

  -- `initial_patch` is the digest of the patch at the start.
  unfoldable pub run_repair :
      String
      → List String
      → Option ℤ
      → Option ℤ
      → Result String
      → (ℕ → Observation)
      → Result (RepairState × Result StopReason)
  run_repair goal checks max_rounds observed_token_limit initial_patch observe = do
    check_request goal checks max_rounds observed_token_limit
    patch ← initial_patch
    ok (close_repair (execute_rounds (count_from max_rounds) 1 observe (first_repair patch)))
