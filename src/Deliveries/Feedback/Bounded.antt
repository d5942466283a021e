-- ===== src/Deliveries/Feedback/Bounded.antt =====
-- How long the feedback of eventide/delivery_repair.py gets, and what its excerpts are.
use eventide.Prelude.{
  ℕ, zero, suc, ◌+◌, ◌-◌, ◌≤◌, ◌≡◌, ◌⊎◌, refl, sym, subst, ap, ◌∙◌, inl, inr, List, [], ◌∷◌, ◌++◌,
  Option, none, some, Bool, true, false, length, sum_of-append, count_of, map, min, max, arith,
}
use Prim.Native.Nat.{◌/◌}
use mathlib.Core.List.{append-nil, append_assoc}
use native.Mathlib.Nat.{div-le_self}
use eventide.Deliveries.Repair.{Check}
use eventide.Deliveries.Excerpts.{
  Excerpt, excerpt_of, excerpt_size, IsLargest, fit_excerpt-IsLargest,
}
use eventide.Deliveries.Feedback.{
  FeedbackCheck, first_entry, digits_from, digits, entry_size, feedback_size, remaining_chars,
  failed_count, kept_chars, with_excerpt, fit_if, fit_entry, fit_entries, feedback_of,
}

digits_from-pos : (fuel n : ℕ) → 1 ≤ digits_from fuel n
unfolding digits_from
digits_from-pos zero n = omega arith
digits_from-pos (suc fuel) n = ground (arith, digits_from-pos fuel (n / 10))

digits_from_mono : (f g m n : ℕ) → m ≤ n → m ≤ f → n ≤ g → digits_from f m ≤ digits_from g n
unfolding digits_from
digits_from_mono zero g m n h p q = digits_from-pos g n
digits_from_mono (suc f) zero m n h p q = ground arith
digits_from_mono (suc f) (suc g) m n h p q =
    let smaller : 10 ≤ m → digits_from f (m / 10) ≤ digits_from g (n / 10) =
      λ big. digits_from_mono f g (m / 10) (n / 10) (omega arith) (omega arith) (omega arith) in
    ground (arith, smaller)

digits_mono : (m n : ℕ) → m ≤ n → digits m ≤ digits n
unfolding digits
digits_mono m n h = digits_from_mono m n m n h (omega arith) (omega arith)

-- What is kept is the most that the allowance lets in.
kept_chars-IsLargest :
    (content : List ℕ) (allowance : ℕ)
    → IsLargest content allowance (min (length content) allowance) (kept_chars content allowance)
kept_chars-IsLargest content allowance =
    let cap = min (length content) allowance in
    let (kept, found, largest) = fit_excerpt-IsLargest content allowance (suc cap) (omega arith) in
    subst (IsLargest content allowance cap)
      (sym (ap (λ (o : Option ℕ). elim o [ none ↦ 0 | some k ↦ k ]) found)) largest

-- An entry that the loop has not reached.
abbrev pub IsFresh : FeedbackCheck → Type 0
IsFresh c =
    c.excerpt ≡ record { content_head = []; content_tail = []; omitted_chars = length c.content }

abbrev pub AllFresh : List FeedbackCheck → Type 0
AllFresh [] = Unit
AllFresh (c ∷ todo) = IsFresh c × AllFresh todo

with_excerpt-size :
    (allowance : ℕ) (c : FeedbackCheck)
    → IsFresh c
    → entry_size (with_excerpt allowance c) ≤ entry_size c + allowance
unfolding excerpt_size
with_excerpt-size allowance c fresh =
    let kept = kept_chars c.content allowance in
    let largest = kept_chars-IsLargest c.content allowance in
    let fewer : digits (length c.content - kept) ≤ digits (length c.content) =
      digits_mono (length c.content - kept) (length c.content) (omega arith) in
    let same : digits c.excerpt.omitted_chars ≡ digits (length c.content) =
      ap (λ (e : Excerpt). digits e.omitted_chars) fresh in
    omega (arith, largest.fits, fewer, same)

fit_if-size :
    (failed : Bool) (allowance : ℕ) (c : FeedbackCheck)
    → IsFresh c
    → entry_size (fit_if failed allowance c) ≤ entry_size c + allowance
fit_if-size true allowance c fresh = with_excerpt-size allowance c fresh
fit_if-size false allowance c fresh = omega arith

fit_entry-size :
    (other bound : ℕ) (done : List FeedbackCheck) (c : FeedbackCheck) (todo : List FeedbackCheck)
    → IsFresh c
    → 12_000 ≤ bound
    → feedback_size other (done ++ c ∷ todo) ≤ bound
    → feedback_size other (done ++ fit_entry other done c todo ∷ todo) ≤ bound
unfolding feedback_size
fit_entry-size other bound done c todo fresh low h =
    let room = remaining_chars other (done ++ c ∷ todo) in
    let allowance = room / suc (failed_count todo) in
    omega (
      arith,
      div-le_self room (suc (failed_count todo)),
      fit_if-size c.failed allowance c fresh,
      sum_of-append entry_size done (c ∷ todo),
      sum_of-append entry_size done (fit_if c.failed allowance c ∷ todo),
    )

-- What an entry of the feedback is, for the check that it is of: with nothing of the content where the
-- check passed, and with the most that the allowance lets in where it failed.
abbrev pub IsEntryOf : ℕ → Check → FeedbackCheck → Type 0
IsEntryOf allowance check c =
    (c.content ≡ check.content)
    × (c.failed ≡ (first_entry check).failed)
    × (((c.failed ≡ false) × IsFresh c)
        ⊎ ((c.failed ≡ true)
            × ((kept : ℕ) × (c.excerpt ≡ excerpt_of c.content kept)
                × IsLargest c.content allowance (min (length c.content) allowance) kept)))

-- An equal share, among a check and the failed checks after it, of what 12,000 characters leave beside
-- the entries before it as they are shown and those from it on without their excerpts.
abbrev pub share_of : ℕ → List FeedbackCheck → Check → List Check → ℕ
share_of other done check checks =
    (12_000 - feedback_size other (done ++ map first_entry (check ∷ checks)))
    / suc (count_of (λ (c : Check). (first_entry c).failed) checks)

-- An entry for each check, in their order, each with its share; `done` are the entries before.
abbrev pub AreEntriesOf : ℕ → List FeedbackCheck → List Check → List FeedbackCheck → Type 0
AreEntriesOf other done [] [] = Unit
AreEntriesOf other done [] (c ∷ cs) = ⊥
AreEntriesOf other done (check ∷ checks) [] = ⊥
AreEntriesOf other done (check ∷ checks) (c ∷ cs) =
    IsEntryOf (share_of other done check checks) check c
    × AreEntriesOf other (done ++ c ∷ []) checks cs

fit_if-IsEntryOf :
    (failed : Bool) (check : Check) (allowance : ℕ)
    → (first_entry check).failed ≡ failed
    → IsEntryOf allowance check (fit_if failed allowance (first_entry check))
fit_if-IsEntryOf true check allowance h = (
  refl,
  refl,
  inr (h, (kept_chars check.content allowance, refl, kept_chars-IsLargest check.content allowance)),
)
fit_if-IsEntryOf false check allowance h = (refl, refl, inl (h, refl))

failed_count-map :
    (checks : List Check)
    → failed_count (map first_entry checks)
      ≡ count_of (λ (c : Check). (first_entry c).failed) checks
failed_count-map [] = refl
failed_count-map (check ∷ checks) = ground (arith, failed_count-map checks)

fit_entry-IsEntryOf :
    (other : ℕ) (done : List FeedbackCheck) (check : Check) (checks : List Check)
    → IsEntryOf
        (share_of other done check checks)
        check
        (fit_entry other done (first_entry check) (map first_entry checks))
fit_entry-IsEntryOf other done check checks =
    subst
      (λ n.
        IsEntryOf (remaining_chars other (done ++ map first_entry (check ∷ checks)) / suc n) check
          (fit_entry other done (first_entry check) (map first_entry checks)))
      (failed_count-map checks) (fit_if-IsEntryOf (first_entry check).failed check _ refl)

fit_entries-IsBounded :
    (other bound : ℕ) (checks : List Check) (done : List FeedbackCheck)
    → 12_000 ≤ bound
    → feedback_size other (done ++ map first_entry checks) ≤ bound
    → (entries : List FeedbackCheck) × (fit_entries other done (map first_entry checks)
        ≡ done ++ entries)
      × (feedback_size other (done ++ entries) ≤ bound)
      × AreEntriesOf other done checks entries
unfolding fit_entries
fit_entries-IsBounded other bound [] done low h = ([], sym (append-nil done), h, tt)
fit_entries-IsBounded other bound (check ∷ checks) done low h =
    let todo = map first_entry checks in
    let c = fit_entry other done (first_entry check) todo in
    let smaller = fit_entry-size other bound done (first_entry check) todo refl low h in
    let (entries, same, size, all) = fit_entries-IsBounded other bound checks (done ++ c ∷ []) low (
      subst (λ l. feedback_size other l ≤ bound) (sym (append_assoc done (c ∷ []) todo)) smaller) in
    let joined = append_assoc done (c ∷ []) entries in
    (
      c ∷ entries,
      same ∙ joined,
      subst (λ l. feedback_size other l ≤ bound) joined size,
      (fit_entry-IsEntryOf other done check checks, all),
    )

-- The feedback that a writer is shown fits: the JSON is at most 12,000 characters long, or no longer than
-- it is without any excerpt. It has an entry for each check, in their order. Of a check that passed it
-- holds no content, and of one that failed the head and the tail with the most characters that its
-- allowance lets in when they are escaped: an equal share, among it and the failed checks after it, of
-- the characters that the entries before it, and those from it on without excerpts, leave.
pub feedback_of-IsBounded :
    (other : ℕ) (checks : List Check)
    → (feedback_size other (feedback_of other checks)
        ≤ max 12_000 (feedback_size other (map first_entry checks)))
      × AreEntriesOf other [] checks (feedback_of other checks)
unfolding feedback_of
feedback_of-IsBounded other checks =
    let bound = max 12_000 (feedback_size other (map first_entry checks)) in
    let (entries, same, size, all) =
      fit_entries-IsBounded other bound checks [] (omega arith) (omega arith) in
    rw same (size, all)
