-- ===== src/Budgets/Context.antt =====
-- Who a reservation is charged to: `BudgetContext.scopes`, `is_service_probe_run` and
-- `_validate_context` of eventide/budgets.py.
use eventide.Prelude.{
  ℕ, zero, suc, String, List, [], ◌∷◌, ◌++◌, Option, none, some, Bool, true, false, not, ◌&&◌, ◌||◌,
  Dict, lookup, insert, any, select, length, ◌==◌, string_eq, if◌then◌else◌,
}
use eventide.Runtime.{
  BudgetScope, ScopeKind, run, delivery, project, day, Result, ok, err, value_error, ◌>>=◌, ◌>>◌,
  raise_if,
}
use eventide.Facts.{
  Fact, run_admitted, run_started, control_session, RunIntent, BudgetContext, context_eq, truthy,
}
use eventide.Store.State.{Event, Store, contains, is_id, get_run_identity, RunIdentity}
use eventide.Budgets.Ledger.{Item}

own_run : String → String → List BudgetScope
own_run run_id root = if run_id == root then [] else record { kind = run; identity = run_id } ∷ []

scope_if : ScopeKind → Option String → List BudgetScope
scope_if kind none = []
scope_if kind (some identity) = record { kind = kind; identity = identity } ∷ []

-- `BudgetContext.scopes`, on the UTC day of the time.
unfoldable pub scopes : BudgetContext → String → String → List BudgetScope
unfolding own_run scope_if
scopes c run_id utc_day =
    record { kind = run; identity = c.root_run_id }
    ∷ (own_run run_id c.root_run_id
        ++ (scope_if delivery c.delivery_id
            ++ (scope_if project c.project_id ++ record { kind = day; identity = utc_day } ∷ [])))

-- `payload == text` of an optional key
abbrev pub opt_is : Option String → String → Bool
opt_is none t = false
opt_is (some s) t = s == t

-- The payloads of the facts of one type.
controls_of : String → List Event → List (Option String)
controls_of sid [] = []
controls_of sid (e ∷ events) =
    let rest = controls_of sid events in
    elim e.fact [
      | control_session kind ↦ if e.session_id == sid then kind ∷ rest else rest
      | _ ↦ rest
    ]

starts_of : List Event → List RunIntent
starts_of [] = []
starts_of (e ∷ events) =
    let rest = starts_of events in elim e.fact [ run_started intent ↦ intent ∷ rest | _ ↦ rest ]

is_admission : Fact → Bool
is_admission (run_admitted _) = true
is_admission _ = false

-- A parent, a delivery, or a delivery's writer.
has_owner : Fact → Bool
has_owner (run_admitted i) =
    truthy i.parent_run_id || truthy i.delivery_id || truthy i.writer_delivery_id
has_owner (run_started i) =
    truthy i.parent_run_id || truthy i.delivery_id || truthy i.writer_delivery_id
has_owner _ = false

abbrev is_none : Option String → Bool
is_none none = true
is_none (some _) = false

one_probe_control : List (Option String) → Bool
one_probe_control (kind ∷ []) = opt_is kind "connection_probe"
one_probe_control _ = false

one_probe_start : List RunIntent → Bool
one_probe_start (i ∷ []) =
    opt_is i.source "connection_probe" && opt_is i.billing_scope "service" && is_none i.project_id
one_probe_start _ = false

unfoldable pub is_service_probe_run : Store → String → List Event → Bool
unfolding controls_of starts_of is_admission has_owner one_probe_control one_probe_start
is_service_probe_run s run_id events = elim (get_run_identity s run_id) [
  | none ↦ false
  | some identity ↦
      let runs = select (λ e. is_id e.run_id run_id) events in
      not (truthy identity.continuation_of)
      && one_probe_control (controls_of identity.session_id events)
      && one_probe_start (starts_of runs)
      && not (any (λ e. is_admission e.fact) runs)
      && not (any (λ e. has_owner e.fact) runs)
]

intent_parent : Fact → Option String
intent_parent (run_admitted i) = i.parent_run_id
intent_parent (run_started i) = i.parent_run_id
intent_parent _ = none

-- One step of the loop that collects the parents.
add_parent : Dict String String → Option String → Option String → Result (Dict String String)
add_parent parents (some run_id) (some parent) =
    if truthy (some run_id) && truthy (some parent)
    then elim (lookup run_id parents) [
      | some known ↦
          if known == parent
          then ok parents
          else err (value_error "Conflicting parent Run identity")
      | none ↦ ok (insert run_id parent parents)
    ]
    else ok parents
add_parent parents _ _ = ok parents

unfoldable pub parents_of : Dict String String → List Event → Result (Dict String String)
unfolding intent_parent add_parent
parents_of parents [] = ok parents
parents_of parents (e ∷ events) =
    add_parent parents e.run_id (intent_parent e.fact) >>= λ p. parents_of p events

-- The climb `while ancestor in parents`, on fuel; `none` means that the fuel ran out.
unfoldable pub climb :
    ℕ → Store → Dict String String → List String → String → Option (Result String)
climb zero s parents visited ancestor = none
climb (suc fuel) s parents visited ancestor = elim (lookup ancestor parents) [
  | none ↦ some (ok ancestor)
  | some parent ↦
      if contains ancestor visited
      then some (err (value_error "Cyclic parent Run identity"))
      else elim (get_run_identity s parent) [
        | none ↦ some (err (value_error "Missing parent Run"))
        | some _ ↦ climb fuel s parents (ancestor ∷ visited) parent
      ]
]

-- One more than the number of parents is fuel enough: see Budgets.Climb.
unfoldable pub root_of : Store → Dict String String → String → Result String
root_of s parents run_id = elim (climb (suc (length parents)) s parents [] run_id) [
  | none ↦ err (value_error "Cyclic parent Run identity")
  | some r ↦ r
]

unfoldable pub changes_owner : BudgetContext → Item → Bool
changes_owner c item =
    item.reservation.context.root_run_id == c.root_run_id && not (item.reservation.context == c)

abbrev wrong_session : Option RunIdentity → String → Bool
wrong_session none session_id = true
wrong_session (some i) session_id = not (i.session_id == session_id)

abbrev is_some : Option String → Bool
is_some none = false
is_some (some _) = true

-- `_validate_context`
unfoldable pub validate_context :
    Store → String → String → BudgetContext → List Event → List Item → Result (Unit {0})
validate_context s session_id run_id c events items = do
  raise_if (wrong_session (get_run_identity s run_id) session_id) "Run/session identity mismatch"
  raise_if
      (is_none c.project_id
        && (not (c.root_run_id == run_id)
            || is_some c.delivery_id
            || not (is_service_probe_run s run_id events)))
      "Only a standalone connection probe can omit project ownership"
  parents ← parents_of [] events
  ancestor ← root_of s parents run_id
  raise_if (not (ancestor == c.root_run_id)) "Budget root must be the actual root Run"
  raise_if (any (changes_owner c) items) "A Run family cannot change budget ownership"
