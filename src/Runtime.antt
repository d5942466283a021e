-- ===== src/Runtime.antt =====
-- What the modules of the runtime share: the records that exceptions carry, exceptions as values,
-- and the bind of code that may raise. `value_error` is Python's ValueError with its message;
-- `integrity_error` is sqlite3's, for a UNIQUE, PRIMARY KEY or FOREIGN KEY constraint.
use eventide.Prelude.{
  ℕ, ◌≡◌, refl, String, List, Option, none, some, Bool, true, false, Eq, String_discrete,
}

-- `ScopeKind` and `BudgetScope` of eventide/budgets.py
pub data ScopeKind : Type 0 where
  run delivery project day : ScopeKind

pub record BudgetScope : Type 0 where
  pub kind : ScopeKind
  pub identity : String

unfoldable pub BudgetScope-discrete : Discrete BudgetScope
BudgetScope-discrete = hlevel String_discrete

instance abbrev pub scope_eq : Eq BudgetScope
scope_eq = record { dec = BudgetScope-discrete }

-- The dict that `_bucket` of eventide/budgets.py returns.
pub record Bucket : Type 0 where
  pub scope : BudgetScope
  pub token_limit : Option ℕ
  pub actual_tokens : ℕ
  pub reserved_tokens : ℕ
  pub committed_tokens : ℕ
  pub unsettled_attempts : ℕ
  pub remaining_tokens : Option ℕ
  pub warning : Bool
  pub blocked : Bool

-- A bucket with the tokens that were asked of it.
pub record Violation : Type 0 where
  pub bucket : Bucket
  pub requested_tokens : ℕ

pub data Error : Type 0 where
  value_error : String → Error
  integrity_error : Error
  queue_full : Error
  budget_exceeded : List Violation → Error

-- What a call gives back: an exception, or its value.
pub data Result {κ} (R : Type κ) : Type κ where
  err : Error → Result R
  ok : R → Result R

-- `if c: raise ValueError(message)`
abbrev pub raise_if : Bool → String → Result (Unit {0})
raise_if true message = err (value_error message)
raise_if false message = ok tt

module _ {κ ι} {R : Type κ} {S : Type ι} where
  infixl 5 ◌>>=◌
  -- The rest of the code runs on the value; an exception passes it by.
  abbrev pub ◌>>=◌ : Result R → (R → Result S) → Result S
  err raised >>= rest = err raised
  ok value >>= rest = rest value

  -- The call has returned, and so has the rest.
  pub >>=-eq-ok :
      (call : Result R) (rest : R → Result S) {s : S}
      → (call >>= rest) ≡ ok s
      → (value : R) × (call ≡ ok value) × (rest value ≡ ok s)
  >>=-eq-ok (err raised) rest h = cc
  >>=-eq-ok (ok value) rest h = (value, refl, h)

module _ {κ} {R : Type κ} where
  infixl 5 ◌>>◌
  -- A check, and then the rest.
  abbrev pub ◌>>◌ : Result (Unit {0}) → Result R → Result R
  check >> rest = check >>= λ _. rest

  -- The value of a dict or a row that must be there.
  abbrev pub or_raise : Option R → String → Result R
  or_raise (some value) message = ok value
  or_raise none message = err (value_error message)

  pub ok-injective : {r s : R} → ok r ≡ ok s → r ≡ s
  ok-injective h = cc

  -- Inversion of a guard that let pass.
  pub raise_if-bind :
      (c : Bool) (message : String) (rest : Result R) {r : R}
      → (raise_if c message >> rest) ≡ ok r
      → (c ≡ false) × (rest ≡ ok r)
  raise_if-bind true message rest h = cc
  raise_if-bind false message rest h = (refl, h)
