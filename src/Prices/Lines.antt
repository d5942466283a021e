-- ===== src/Prices/Lines.antt =====
-- What `_price_lines` of eventide/budget_prices.py prices.
use eventide.Prelude.{
  ℕ, ◌+◌, ◌-◌, ◌≤◌, ◌≡◌, refl, inl, inr, String, List, [], ◌∷◌, ◌++◌, Option, none, some, lookup,
  ltb, sum_of, sum_of-append, Bool-cases, Option-cases, arith,
}
use eventide.Facts.{Usage, UsageBasis, input_only, input_output}
use eventide.Usage.{total, value}
use eventide.Prices.{
  Category, input, output, cache_read, cache_creation, reasoning, category_eq, Category-discrete,
  Price, counter_of, Rates, Quantities, Parts, missing, parts, priced_part, next_part, parts_of,
  Split, close_total, split_total, no_split, split_input, split_usage, Line, Priced, add_line,
  add_lines, sorted_set, price_lines,
}

abbrev amount : Quantities → ℕ
amount = sum_of (λ q. q.1)

amount-append : (p q : Quantities) → amount (p ++ q) ≡ amount p + amount q
amount-append = sum_of-append (λ (q : Category × ℕ). q.1)

abbrev Balanced : Parts → Type 0
Balanced (missing c) = Unit
Balanced (parts taken used) = amount taken ≡ used

priced_part-Balanced :
    (price : Option Price) (quantity : Option ℕ) (detail : Category) (taken : Quantities) (used : ℕ)
    → amount taken ≡ used
    → Balanced (priced_part price quantity detail taken used)
priced_part-Balanced none quantity detail taken used h = h
priced_part-Balanced (some price) none detail taken used h = tt
priced_part-Balanced (some price) (some n) detail taken used h =
    omega (arith, amount-append taken ((detail, n) ∷ []), h)

next_part-Balanced :
    (u : Usage) (rates : Rates) (detail : Category) (p : Parts)
    → Balanced p
    → Balanced (next_part u rates detail p)
next_part-Balanced u rates detail (missing c) h = h
next_part-Balanced u rates detail (parts taken used) h =
    priced_part-Balanced (lookup detail rates) (counter_of u detail) detail taken used h

parts_of-Balanced :
    (u : Usage) (rates : Rates) (details : List Category) (p : Parts)
    → Balanced p
    → Balanced (parts_of u rates details p)
parts_of-Balanced u rates [] p h = h
parts_of-Balanced u rates (detail ∷ details) p h =
    parts_of-Balanced u rates details (next_part u rates detail p)
      (next_part-Balanced u rates detail p h)

-- A split that has no unknown category and holds a number of tokens.
abbrev Holds : ℕ → Split → Type 0
Holds n s = s.unknown ≡ [] → amount s.quantities ≡ n

append-ne-nil : (xs : List Category) (c : Category) (cs : List Category) → ¬ (xs ++ c ∷ cs ≡ [])
append-ne-nil [] c cs h = cc
append-ne-nil (x ∷ xs) c cs h = cc

close_total-Holds :
    (c : Category) (quantity n : ℕ) (p : Parts) (s : Split)
    → Balanced p
    → Holds n s
    → Holds (n + quantity) (close_total c quantity p s)
close_total-Holds c quantity n (missing detail) s b h e =
    absurd (append-ne-nil s.unknown detail (c ∷ []) e)
close_total-Holds c quantity n (parts taken used) s b h e = elim (Bool-cases (ltb quantity used)) [
  | inl over ↦ absurd (append-ne-nil s.unknown c [] ((rw over at e)))
  | inr within ↦
      let le : used ≤ quantity = ground arith in
      let known : s.unknown ≡ [] = (rw within at e) in
      rw within (
        omega (
          arith,
          h known,
          b,
          amount-append s.quantities (taken ++ (c, quantity - used) ∷ []),
          amount-append taken ((c, quantity - used) ∷ []),
        ))
]

split_total-Holds :
    (u : Usage) (rates : Rates) (c : Category) (details : List Category) (n : ℕ) (s : Split)
    → Holds n s
    → Holds (n + value (counter_of u c)) (split_total u rates c details s)
unfolding split_total
split_total-Holds u rates c details n s h = elim (Option-cases (counter_of u c)) [
  | inl unknown ↦ rw unknown (λ e. absurd (append-ne-nil s.unknown c [] e))
  | inr (quantity, known) ↦ rw known (
      close_total-Holds c quantity n (parts_of u rates details (parts [] 0)) s
        (parts_of-Balanced u rates details (parts [] 0) refl) h)
]

split_usage-Holds :
    (basis : UsageBasis) (u : Usage) (rates : Rates)
    → Holds (total basis u) (split_usage basis u rates)
unfolding split_usage total
split_usage-Holds input_only u rates e =
    let inputs = split_total-Holds u rates input (cache_read ∷ cache_creation ∷ []) 0 no_split in
    omega (arith, inputs (λ k. refl) e)
split_usage-Holds input_output u rates e =
    let inputs = split_total-Holds u rates input (cache_read ∷ cache_creation ∷ []) 0 no_split in
    split_total-Holds u rates output (reasoning ∷ []) (value u.input_tokens) (split_input u rates)
      (λ k. omega (arith, inputs (λ l. refl) k)) e

abbrev pub quantities_of : List Line → ℕ
quantities_of = sum_of (λ l. l.quantity)

module _ (amount_of : String → ℕ → String) where
  add_line-quantity :
      (price : Price) (c : Category) (n : ℕ) (p : Priced)
      → quantities_of (add_line amount_of (some price) c n p).lines ≡ quantities_of p.lines + n
  add_line-quantity price c n p = omega (arith, sum_of-append (λ (l : Line). l.quantity) p.lines _)

  -- If no category is unknown in the end, none was before, and every quantity has its line.
  add_lines-quantity :
      (rates : Rates) (qs : Quantities) (p : Priced)
      → (add_lines amount_of rates qs p).unknown ≡ []
      → (p.unknown ≡ [])
        × (quantities_of (add_lines amount_of rates qs p).lines ≡ quantities_of p.lines + amount qs)
  unfolding add_lines
  add_lines-quantity rates [] p e = (e, omega arith)
  add_lines-quantity rates ((c, n) ∷ qs) p e = elim (Option-cases (lookup c rates)) [
    | inl unpriced ↦
        let p' = add_line amount_of none c n p in
        let later = add_lines-quantity rates qs p' ((rw (add_lines, unpriced) at e)) in
        absurd (append-ne-nil p.unknown c [] later.0)
    | inr (price, priced) ↦
        let p' = add_line amount_of (some price) c n p in
        let later = add_lines-quantity rates qs p' ((rw (add_lines, priced) at e)) in
        rw (add_lines, priced) (later.0, omega (arith, later.1, add_line-quantity price c n p))
  ]

sorted_set-nil : (cs : List Category) → sorted_set cs ≡ [] → cs ≡ []
unfolding Category-discrete
sorted_set-nil [] h = refl
sorted_set-nil (cache_creation ∷ cs) h = absurd (ground arith)
sorted_set-nil (cache_read ∷ cs) h = absurd (ground arith)
sorted_set-nil (input ∷ cs) h = absurd (ground arith)
sorted_set-nil (output ∷ cs) h = absurd (ground arith)
sorted_set-nil (reasoning ∷ cs) h = absurd (ground arith)

-- Where no category is unknown, the lines price every token that the totals count, and no token
-- twice: their quantities add up to the input and the output (for an input-only request, to the
-- input), cache reads, cache writes and reasoning being parts of these.
pub price_lines-total :
    (amount_of : String → ℕ → String) (basis : UsageBasis) (u : Usage) (rates : Rates)
    → (price_lines amount_of basis u rates).unknown ≡ []
    → quantities_of (price_lines amount_of basis u rates).lines ≡ total basis u
unfolding price_lines
price_lines-total amount_of basis u rates h =
    let s = split_usage basis u rates in
    let p : Priced = record { lines = []; unknown = s.unknown } in
    let (known, sums) =
      add_lines-quantity amount_of rates s.quantities p
        (sorted_set-nil (add_lines amount_of rates s.quantities p).unknown h) in
    omega (arith, sums, split_usage-Holds basis u rates known)
