-- ===== src/Policies/Plan.antt =====
-- What the plan mode of eventide/run_policy.py leaves to the policy of eventide/policy.py.
use eventide.Prelude.{
  ◌≡◌, refl, sym, subst, inl, inr, String, List, [], ◌∷◌, none, some, Bool, true, false, not, ◌&&◌,
  ◌==◌, ==_iff, Bool-cases, string_eq, select, arith, String_discrete,
}
use eventide.Store.State.{contains}
use native.Mathlib.Decide.{ℕ_discrete}
use eventide.Policies.{
  PolicyDecision, allow, ask, CallView, evaluate, evaluate_path, filter_tool_catalog,
  plan_readonly_tools, write_file_tools,
}

contains-filter :
    (name : String) (p : String → Bool) (tools : List String)
    → contains name (select p tools) ≡ (p name && contains name tools)
contains-filter name p [] = ground arith
contains-filter name p (t ∷ tools) = ground (arith, contains-filter name p tools)

filter-kept :
    (name : String) (p : String → Bool) (tools : List String)
    → contains name (select p tools) ≡ true
    → (p name ≡ true) × (contains name tools ≡ true)
filter-kept name p tools h = ground (arith, contains-filter name p tools)

abbrev pub is_ask : PolicyDecision → Bool
is_ask ask = true
is_ask _ = false

abbrev pub is_allow : PolicyDecision → Bool
is_allow allow = true
is_allow _ = false

abbrev pub is_scoped : CallView → Bool
is_scoped c = elim c.path_error [ none ↦ true | some message ↦ false ]

-- The tool neither runs commands nor writes, no call of it is asked for, and a call whose path is in the
-- workspace is allowed.
abbrev pub IsReading : CallView → String → Type 0
IsReading c name =
    ((name == "bash") ≡ false)
    × (contains name write_file_tools ≡ false)
    × (is_ask (evaluate name c).decision ≡ false)
    × ((not (is_allow (evaluate name c).decision) && is_scoped c) ≡ false)

AllReading : CallView → List String → Type 0
AllReading c [] = Unit
AllReading c (name ∷ names) = IsReading c name × AllReading c names

one-IsReading :
    (c : CallView) (name : String) (names : List String)
    → contains name names ≡ true
    → AllReading c names
    → IsReading c name
unfolding AllReading
one-IsReading c name [] h all = absurd (ground arith)
one-IsReading c name (n ∷ names) h (first, rest) = elim (Bool-cases (name == n)) [
  | inl same ↦ subst (IsReading c) (sym ((==_iff name n).0 same)) first
  | inr other ↦ one-IsReading c name names (ground arith) rest
]

evaluate_path-reads :
    (c : CallView)
    → (is_ask (evaluate_path c.path_error).decision ≡ false)
      × ((not (is_allow (evaluate_path c.path_error).decision) && is_scoped c) ≡ false)
evaluate_path-reads c = ground arith

plan_tools-AllReading : (c : CallView) → AllReading c plan_readonly_tools
unfolding AllReading String_discrete ℕ_discrete evaluate
plan_tools-AllReading c =
    let (asked, allowed) = evaluate_path-reads c in
    (
      (refl, refl, asked, allowed),
      (
        (refl, refl, refl, refl),
        (
          (refl, refl, asked, allowed),
          (
            (refl, refl, refl, refl),
            (
              (refl, refl, refl, refl),
              (
                (refl, refl, refl, refl),
                (
                  (refl, refl, refl, refl),
                  (
                    (refl, refl, refl, refl),
                    ((refl, refl, refl, refl), ((refl, refl, refl, refl), tt)),
                  ),
                ),
              ),
            ),
          ),
        ),
      ),
    )

-- The catalog of plan mode has only tools of the run's catalog, which neither run commands nor write
-- files; and whatever a call of one is, the policy never asks for approval of it, and allows it
-- unless its path leaves the workspace.
pub filter_tool_catalog-IsReading :
    (tools : List String) (name : String) (c : CallView)
    → contains name (filter_tool_catalog tools "plan") ≡ true
    → (contains name tools ≡ true) × IsReading c name
unfolding filter_tool_catalog String_discrete
filter_tool_catalog-IsReading tools name c h =
    let (shown, known) = filter-kept name (λ t. contains t plan_readonly_tools) tools h in
    (known, one-IsReading c name plan_readonly_tools shown (plan_tools-AllReading c))
