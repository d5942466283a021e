-- ===== src/Deliveries/Feedback.antt =====
-- The feedback on failed checks that a writer is shown: `feedback_value` of
-- eventide/delivery_repair.py and the loop that fills in its excerpts. What the loop does not
-- change of the JSON is an argument, by its length.
pub mod Bounded
use eventide.Prelude.{
  ℕ, zero, suc, ◌+◌, ◌-◌, ℤ, pos, negsuc, List, [], ◌∷◌, ◌++◌, Option, none, some, Bool, true,
  false, not, ◌&&◌, ◌||◌, ◌==◌, nat_eq, ltb, if◌then◌else◌, length, sum_of, count_of, map, min,
}
use Prim.Native.Nat.{◌/◌}
use eventide.Json.{escaped_size}
use eventide.Deliveries.Repair.{Check}
use eventide.Deliveries.Excerpts.{Excerpt, excerpt_of, fit_excerpt}

-- The fields of a check's entry that the loop reads or changes.
pub record FeedbackCheck : Type 0 where
  pub content : List ℕ
  pub failed : Bool
  pub excerpt : Excerpt

abbrev pub is_zero_exit : Option ℤ → Bool
is_zero_exit (some (pos n)) = n == 0
is_zero_exit _ = false

abbrev pub first_entry : Check → FeedbackCheck
first_entry c = record {
  content = c.content;
  failed = c.is_error || not (is_zero_exit c.exit_code);
  excerpt = record { content_head = []; content_tail = []; omitted_chars = length c.content };
}

-- The digits of a number in base 10, on fuel.
digits_from : ℕ → ℕ → ℕ
digits_from zero n = 1
digits_from (suc fuel) n = let rest = digits_from fuel (n / 10) in if ltb n 10 then 1 else suc rest

unfoldable pub digits : ℕ → ℕ
unfolding digits_from
digits n = digits_from n n

-- What an entry adds to the length of the JSON, the quotes of its texts aside.
abbrev pub entry_size : FeedbackCheck → ℕ
entry_size c =
    escaped_size c.excerpt.content_head
    + escaped_size c.excerpt.content_tail
    + digits c.excerpt.omitted_chars

-- `len(json.dumps(feedback_value, ensure_ascii=False))`
unfoldable pub feedback_size : ℕ → List FeedbackCheck → ℕ
feedback_size other checks = other + sum_of entry_size checks

-- Below 0 a remainder leaves no room, as at 0.
abbrev pub remaining_chars : ℕ → List FeedbackCheck → ℕ
remaining_chars other checks = 12_000 - feedback_size other checks

abbrev pub failed_count : List FeedbackCheck → ℕ
failed_count = count_of (λ (c : FeedbackCheck). c.failed)

-- The search always ends, see Deliveries.Excerpts.
abbrev pub kept_chars : List ℕ → ℕ → ℕ
kept_chars content allowance =
    elim (fit_excerpt (suc (min (length content) allowance)) content allowance) [
      | none ↦ 0
      | some kept ↦ kept
    ]

abbrev pub with_excerpt : ℕ → FeedbackCheck → FeedbackCheck
with_excerpt allowance c = record c {
  excerpt = excerpt_of c.content (kept_chars c.content allowance);
}

-- An entry whose status is not "failed" stays.
abbrev pub fit_if : Bool → ℕ → FeedbackCheck → FeedbackCheck
fit_if true allowance c = with_excerpt allowance c
fit_if false allowance c = c

-- A turn of the loop, for an entry with others before and after it.
abbrev pub fit_entry : ℕ → List FeedbackCheck → FeedbackCheck → List FeedbackCheck → FeedbackCheck
fit_entry other done c todo =
    fit_if c.failed (remaining_chars other (done ++ c ∷ todo) / suc (failed_count todo)) c

unfoldable pub fit_entries : ℕ → List FeedbackCheck → List FeedbackCheck → List FeedbackCheck
fit_entries other done [] = done
fit_entries other done (c ∷ todo) =
    fit_entries other (done ++ fit_entry other done c todo ∷ []) todo

unfoldable pub feedback_of : ℕ → List Check → List FeedbackCheck
feedback_of other checks = fit_entries other [] (map first_entry checks)
