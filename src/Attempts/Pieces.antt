-- ===== src/Attempts/Pieces.antt =====
-- What one attempt of `_complete_with_retry` in eventide/host.py adds.
use eventide.Prelude.{
  ℕ, zero, suc, ◌+◌, ◌-◌, ◌≤◌, ◌≡◌, refl, ap, List, [], ◌∷◌, ◌++◌, Option, none, some, String, Bool,
  true, false, not, ◌&&◌, ◌||◌, length, any, nat_eq, ◌==◌, ==-refl, if◌then◌else◌, arith,
}
use eventide.Runtime.{Error, budget_exceeded}
use eventide.Attempts.{
  Ending, timed_out, provider_error, Outcome, began, status_completed, status_failed,
  status_cancelled, AttemptFact, attempt_begun, attempt_finished, retry, budget_blocked,
  budget_warning, slept, Completion, replied, fails, is_cancelled, attempts_exhausted, Emission,
  emitted, cut_off, not_written, Stop, stop_cancelled, stop_raised, is_written, notice_stop,
  Request, is_retryable, message_of, failure_of, optional, ended, after_emission, retry_or_fail,
  reply_or_stop, refuse, after, power_of_two,
}

-- The attempts that have begun.
abbrev pub begun : List AttemptFact → List ℕ
begun [] = []
begun (attempt_begun n ∷ facts) = n ∷ begun facts
begun (_ ∷ facts) = begun facts

abbrev pub count_from : ℕ → ℕ → List ℕ
count_from n zero = []
count_from n (suc k) = n ∷ count_from (n + 1) k

-- The end of every attempt stands after its begin, with at most a warning between them, and nowhere else.
abbrev pub is_paired : List AttemptFact → Bool
is_paired [] = true
is_paired (attempt_begun n ∷ attempt_finished m status ∷ facts) = n == m && is_paired facts
is_paired (attempt_begun n ∷ budget_warning k ∷ attempt_finished m status ∷ facts) =
    n == m && is_paired facts
is_paired (attempt_begun n ∷ facts) = false
is_paired (attempt_finished n status ∷ facts) = false
is_paired (retry n retryable message ∷ facts) = is_paired facts
is_paired (budget_blocked violations ∷ facts) = is_paired facts
is_paired (budget_warning n ∷ facts) = is_paired facts
is_paired (slept n ∷ facts) = is_paired facts

-- `isinstance(exc, (asyncio.TimeoutError, ProviderError))`
abbrev pub may_retry : Ending → Bool
may_retry timed_out = true
may_retry (provider_error retryable message) = true
may_retry _ = false

abbrev pub goes_through : Option Stop → Bool
goes_through none = true
goes_through (some stop) = false

-- A request that was sent, and whose failure may be retried.
abbrev pub fails_again : Request → Bool → Outcome → Bool
fails_again r sent (began ending) = sent && may_retry ending && is_retryable r ending
fails_again r sent _ = false

abbrev pub may_follow : Request → ℕ → Bool
may_follow r n = fails_again r (goes_through (notice_stop (r.opening n))) (r.outcome n)

-- Only an attempt with a failure that may be retried has a next one.
abbrev pub retried_only : Request → List ℕ → Bool
retried_only r [] = true
retried_only r (n ∷ []) = true
retried_only r (n ∷ m ∷ ns) = may_follow r n && retried_only r (m ∷ ns)

-- An attempt is completed, and nothing stops the awaits after it.
abbrev pub is_completion : Request → AttemptFact → Bool
is_completion r (attempt_finished n status_completed) = goes_through (notice_stop (r.closing n))
is_completion r _ = false

abbrev pub is_reply : Completion → Bool
is_reply (replied response) = true
is_reply _ = false

abbrev pub is_exhausted : Completion → Bool
is_exhausted attempts_exhausted = true
is_exhausted _ = false

abbrev pub IsSettled : Request → ℕ → ℕ → List AttemptFact × Completion → Type 0
IsSettled r first most (facts, completion) =
    (begun facts ≡ count_from first (length (begun facts)))
    × (length (begun facts) ≤ most)
    × (is_paired facts ≡ true)
    × (retried_only r (begun facts) ≡ true)
    × (is_reply completion ≡ any (is_completion r) facts)

retried_only_cons :
    (r : Request) (n : ℕ) (ns : List ℕ)
    → may_follow r n ≡ true
    → retried_only r ns ≡ true
    → retried_only r (n ∷ ns) ≡ true
retried_only_cons r n [] h k = refl
retried_only_cons r n (m ∷ ns) h k = ground arith

pub nothing_begun :
    (r : Request) (first most : ℕ) (completion : Completion)
    → is_reply completion ≡ false
    → IsSettled r first most ([], completion)
nothing_begun r first most completion h = (refl, omega arith, refl, refl, h)

-- Facts that stand apart from attempts.
pub refuse-IsSettled :
    (r : Request) (attempt most : ℕ) (error : Error)
    → IsSettled r attempt most (refuse r attempt error)
refuse-IsSettled r attempt most (budget_exceeded violations) = emission (r.blocked_emission attempt)
  where
    emission :
        (e : Emission)
        → IsSettled r attempt most (
            after
              (optional (is_written e) (budget_blocked violations))
              (after_emission e ([], fails (budget_exceeded violations))))
    emission emitted = (refl, omega arith, refl, refl, refl)
    emission cut_off = (refl, omega arith, refl, refl, refl)
    emission (not_written error) = (refl, omega arith, refl, refl, refl)
refuse-IsSettled r attempt most _ = (refl, omega arith, refl, refl, refl)

-- An attempt that did not complete, and no other.
pub one-IsSettled :
    (r : Request) (attempt left : ℕ) (warned : Bool) (completion : Completion)
    → is_reply completion ≡ false
    → IsSettled r attempt (suc left) (ended attempt warned status_failed, completion)
      × IsSettled r attempt (suc left) (ended attempt warned status_cancelled, completion)
one-IsSettled r attempt left true completion h = (
  (refl, omega arith, rw (==-refl attempt) refl, refl, h),
  (refl, omega arith, rw (==-refl attempt) refl, refl, h),
)
one-IsSettled r attempt left false completion h = (
  (refl, omega arith, rw (==-refl attempt) refl, refl, h),
  (refl, omega arith, rw (==-refl attempt) refl, refl, h),
)

-- A failure; `kept` is whether its event is written, and `again` what it says.
abbrev failed : Request → ℕ → Bool → Bool → Bool → Ending → List AttemptFact
failed r attempt warned kept again ending =
    ended attempt warned status_failed ++ optional kept (retry attempt again (message_of r ending))

failed-IsSettled :
    (r : Request) (attempt left : ℕ) (warned kept again : Bool) (ending : Ending)
    (completion : Completion)
    → is_reply completion ≡ false
    → IsSettled r attempt
        (suc left)
        (after (failed r attempt warned kept again ending) ([], completion))
failed-IsSettled r attempt left true true again ending completion h =
    (refl, omega arith, rw (==-refl attempt) refl, refl, h)
failed-IsSettled r attempt left true false again ending completion h =
    (refl, omega arith, rw (==-refl attempt) refl, refl, h)
failed-IsSettled r attempt left false true again ending completion h =
    (refl, omega arith, rw (==-refl attempt) refl, refl, h)
failed-IsSettled r attempt left false false again ending completion h =
    (refl, omega arith, rw (==-refl attempt) refl, refl, h)

slept-IsSettled :
    (r : Request) (attempt left pause : ℕ) (warned again : Bool) (ending : Ending)
    (next : List AttemptFact × Completion)
    → may_follow r attempt ≡ true
    → IsSettled r (attempt + 1) left next
    → IsSettled r attempt
        (suc left)
        (after (failed r attempt warned true again ending) (after (slept pause ∷ []) next))
slept-IsSettled r attempt left pause true again ending (facts, completion) h
      (numbers, bound, paired, retried, reply) =
    (
      ap (λ ns. attempt ∷ ns) numbers,
      omega arith,
      rw (==-refl attempt) paired,
      retried_only_cons r attempt (begun facts) h retried,
      reply,
    )
slept-IsSettled r attempt left pause false again ending (facts, completion) h
      (numbers, bound, paired, retried, reply) =
    (
      ap (λ ns. attempt ∷ ns) numbers,
      omega arith,
      rw (==-refl attempt) paired,
      retried_only_cons r attempt (begun facts) h retried,
      reply,
    )

retry-IsSettled :
    (r : Request) (attempt left pause : ℕ) (ending : Ending) (failure : Completion)
    (next : List AttemptFact × Completion) (warned again last wakes : Bool)
    → is_reply failure ≡ false
    → (again ≡ true → may_follow r attempt ≡ true)
    → (last ≡ false → IsSettled r (attempt + 1) left next)
    → IsSettled r attempt (suc left) (
        after (failed r attempt warned true (again && not last) ending) (
          if not again || last
          then ([], failure)
          else after (slept pause ∷ []) (if wakes then next else ([], is_cancelled))))
retry-IsSettled r attempt left pause ending failure next warned false last wakes h f k =
    failed-IsSettled r attempt left warned true false ending failure h
retry-IsSettled r attempt left pause ending failure next warned true true wakes h f k =
    failed-IsSettled r attempt left warned true false ending failure h
retry-IsSettled r attempt left pause ending failure next warned true false true h f k =
    slept-IsSettled r attempt left pause warned true ending next (f refl) (k refl)
retry-IsSettled r attempt left pause ending failure next warned true false false h f k =
    slept-IsSettled r attempt left pause warned true ending ([], is_cancelled) (f refl)
      (nothing_begun r (attempt + 1) left is_cancelled refl)

pub failure-IsSettled :
    (r : Request) (attempt left : ℕ) (last warned : Bool) (ending : Ending)
    (next : List AttemptFact × Completion) (emission : Emission)
    → is_reply (failure_of r ending) ≡ false
    → (is_retryable r ending ≡ true → may_follow r attempt ≡ true)
    → (last ≡ false → IsSettled r (attempt + 1) left next)
    → IsSettled r attempt (suc left) (
        after
          (failed r attempt warned (is_written emission) (is_retryable r ending && not last) ending)
          (after_emission emission (retry_or_fail r attempt last ending next)))
failure-IsSettled r attempt left last warned ending next emitted h f k =
    retry-IsSettled r attempt left (power_of_two (attempt - 1)) ending (failure_of r ending) next
      warned (is_retryable r ending) last (r.wakes attempt) h f k
failure-IsSettled r attempt left last warned ending next cut_off h f k =
    failed-IsSettled r attempt left warned true (is_retryable r ending && not last) ending
      is_cancelled refl
failure-IsSettled r attempt left last warned ending next (not_written error) h f k =
    failed-IsSettled r attempt left warned false (is_retryable r ending && not last) ending
      (fails error) refl

reply-goes_through :
    (stop : Option Stop) (response : String)
    → is_reply (reply_or_stop stop response) ≡ (goes_through stop || false)
reply-goes_through none response = refl
reply-goes_through (some stop_cancelled) response = refl
reply-goes_through (some (stop_raised error)) response = refl

pub completion-IsSettled :
    (r : Request) (attempt left : ℕ) (warned warned' : Bool) (response : String)
    → IsSettled r attempt (suc left) (
      ended attempt warned status_completed ++ optional warned' (budget_warning attempt),
      reply_or_stop (notice_stop (r.closing attempt)) response,
    )
completion-IsSettled r attempt left true true response =
    (refl, omega arith, rw (==-refl attempt) refl, refl, reply-goes_through _ response)
completion-IsSettled r attempt left true false response =
    (refl, omega arith, rw (==-refl attempt) refl, refl, reply-goes_through _ response)
completion-IsSettled r attempt left false true response =
    (refl, omega arith, rw (==-refl attempt) refl, refl, reply-goes_through _ response)
completion-IsSettled r attempt left false false response =
    (refl, omega arith, rw (==-refl attempt) refl, refl, reply-goes_through _ response)
