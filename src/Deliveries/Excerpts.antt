-- ===== src/Deliveries/Excerpts.antt =====
-- The excerpts of failed checks that a writer is shown: the search in eventide/delivery_repair.py
-- for the number of characters that fit when they are escaped.
use eventide.Prelude.{
  ℕ, zero, suc, ◌+◌, ◌-◌, ◌≤◌, ◌<◌, min, ◌≡◌, refl, List, Option, none, some, inl, inr, leb, ltb,
  if◌then◌else◌, take, drop, length, arith, Bool-cases,
}
use Prim.Native.Nat.{◌/◌}
use eventide.Json.{escaped_size, escaped_size-take, escaped_size-drop, escaped_size-drop_all}

-- `content[: (kept + 1) // 2]` and `content[len(content) - kept // 2 :]`
abbrev pub content_head : List ℕ → ℕ → List ℕ
content_head content kept = take ((kept + 1) / 2) content

abbrev pub content_tail : List ℕ → ℕ → List ℕ
content_tail content kept = drop (length content - kept / 2) content

unfoldable pub excerpt_size : List ℕ → ℕ → ℕ
excerpt_size content kept =
    escaped_size (content_head content kept) + escaped_size (content_tail content kept)

-- `while lower < upper`, on fuel
unfoldable pub fit_between : ℕ → List ℕ → ℕ → ℕ → ℕ → Option ℕ
fit_between zero content allowance lower upper = none
fit_between (suc fuel) content allowance lower upper =
    let kept = (lower + upper + 1) / 2 in
    let higher = fit_between fuel content allowance kept upper in
    let shorter = fit_between fuel content allowance lower (kept - 1) in
    if ltb lower upper
    then (if leb (excerpt_size content kept) allowance then higher else shorter)
    else some lower

-- An allowance below 0 counts as 0.
unfoldable pub fit_excerpt : ℕ → List ℕ → ℕ → Option ℕ
fit_excerpt fuel content allowance =
    fit_between fuel content allowance 0 (min (length content) allowance)

pub record Excerpt : Type 0 where
  pub content_head : List ℕ
  pub content_tail : List ℕ
  pub omitted_chars : ℕ

-- The fields of a check after the search.
abbrev pub excerpt_of : List ℕ → ℕ → Excerpt
excerpt_of content kept = record {
  content_head = content_head content kept;
  content_tail = content_tail content kept;
  omitted_chars = length content - kept;
}

excerpt_size_mono :
    (content : List ℕ) (j k : ℕ) → j ≤ k → excerpt_size content j ≤ excerpt_size content k
unfolding excerpt_size
excerpt_size_mono content j k h = omega (
  arith,
  escaped_size-take content ((j + 1) / 2) ((k + 1) / 2) (omega arith),
  escaped_size-drop content (length content - k / 2) (length content - j / 2) (omega arith),
)

-- The most characters, up to a cap, whose excerpt is within the allowance.
pub record IsLargest (content : List ℕ) (allowance cap kept : ℕ) : Type 0 where
  pub capped : kept ≤ cap
  pub fits : excerpt_size content kept ≤ allowance
  pub more : (j : ℕ) → kept < j → j ≤ cap → allowance < excerpt_size content j

fit_between-IsLargest :
    (fuel : ℕ) (content : List ℕ) (allowance cap lower upper : ℕ)
    → upper - lower < fuel
    → lower ≤ upper
    → upper ≤ cap
    → excerpt_size content lower ≤ allowance
    → ((j : ℕ) → upper < j → j ≤ cap → allowance < excerpt_size content j)
    → (kept : ℕ) × (fit_between fuel content allowance lower upper ≡ some kept)
      × IsLargest content allowance cap kept
unfolding fit_between
fit_between-IsLargest zero content allowance cap lower upper f h c s m = absurd (omega arith)
fit_between-IsLargest (suc fuel) content allowance cap lower upper f h c s m =
    elim (Bool-cases (ltb lower upper)) [
      | inr done ↦
          let e : lower ≡ upper = ground arith in
          (
            lower,
            rw done refl,
            record { capped = omega arith; fits = s; more = λ j p q. m j (omega arith) q },
          )
      | inl open_ ↦
          let kept = (lower + upper + 1) / 2 in
          let lt : lower < upper = ground arith in
          elim (Bool-cases (leb (excerpt_size content kept) allowance)) [
            | inl fits ↦
                let (k, e, l) =
                  fit_between-IsLargest fuel content allowance cap kept upper (omega arith)
                    (omega arith) c (ground arith) m in
                (k, rw (open_, fits) e, l)
            | inr over ↦
                let (k, e, l) =
                  fit_between-IsLargest fuel content allowance cap lower (kept - 1) (omega arith)
                    (omega arith) (omega arith) s
                    (λ j p q.
                      let t : allowance < excerpt_size content kept = ground arith in
                      omega (arith, excerpt_size_mono content kept j (omega arith))) in
                (k, rw (open_, over) e, l)
          ]
    ]

excerpt_size_zero : (content : List ℕ) → excerpt_size content 0 ≡ 0
unfolding excerpt_size escaped_size
excerpt_size_zero content =
    omega (arith, escaped_size-drop_all content (length content - 0 / 2) (omega arith))

-- The search ends, and the number that it finds is the largest up to the length of the content
-- and the allowance whose escaped head and tail are within the allowance: one character more
-- would not fit.
pub fit_excerpt-IsLargest :
    (content : List ℕ) (allowance fuel : ℕ)
    → min (length content) allowance < fuel
    → (kept : ℕ) × (fit_excerpt fuel content allowance ≡ some kept)
      × IsLargest content allowance (min (length content) allowance) kept
unfolding fit_excerpt
fit_excerpt-IsLargest content allowance fuel h =
    let cap = min (length content) allowance in
    fit_between-IsLargest fuel content allowance cap 0 cap (omega arith) (omega arith) (omega arith)
      (omega (arith, excerpt_size_zero content)) (λ j p q. absurd (omega arith))
