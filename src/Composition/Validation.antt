-- ===== src/Composition/Validation.antt =====
-- `validate_input_composition` of eventide/input_composition.py.
use eventide.Prelude.{
  ℕ, ◌+◌, ℤ, pos, negsuc, String, List, [], ◌∷◌, Option, none, some, Bool, false, ◌&&◌, Dict,
  lookup, has, keys, all, ◌==◌, string_eq, nat_eq, if◌then◌else◌,
}
use eventide.Store.State.{contains}
use eventide.Composition.{Measured}

-- A value of the mapping that `validate_input_composition` is given, and of its components.
pub data Count : Type 0 where
  an_int : ℤ → Count
  no_int : Count

pub data Entry : Type 0 where
  a_text : String → Entry
  a_count : Count → Entry
  counts : Dict String Count → Entry
  other_entry : Entry

pub record Composition : Type 0 where
  pub total_characters : ℕ
  pub instructions : ℕ
  pub history : ℕ
  pub tool_catalog : ℕ
  pub skills : ℕ
  pub retrieval : ℕ
  pub tool_results : ℕ
  pub envelope : ℕ

abbrev pub method : String
method = "serialized_unicode_characters_v1"

abbrev pub component_names : List String
component_names =
    "instructions" ∷ "history" ∷ "tool_catalog" ∷ "skills" ∷ "retrieval" ∷ "tool_results"
    ∷ "envelope" ∷ []

-- `set(value) == {...}`
unfoldable pub has_exactly {ℓ} : {V : Type ℓ} → List String → Dict String V → Bool
has_exactly names d = all (λ k. contains k names) (keys d) && all (λ n. has n d) names

abbrev pub natural_of : Count → Option ℕ
natural_of (an_int (pos n)) = some n
natural_of (an_int (negsuc n)) = none
natural_of no_int = none

abbrev pub natural_at : String → Dict String Count → Option ℕ
natural_at name d = elim (lookup name d) [ none ↦ none | some c ↦ natural_of c ]

abbrev pub is_entry_text : Option Entry → String → Bool
is_entry_text (some (a_text s)) t = s == t
is_entry_text _ t = false

abbrev pub entry_count : Option Entry → Option ℕ
entry_count (some (a_count c)) = natural_of c
entry_count _ = none

abbrev pub entry_counts : Option Entry → Option (Dict String Count)
entry_counts (some (counts d)) = some d
entry_counts _ = none

infixl 5 ◌>>=◌
abbrev ◌>>=◌ {ℓ κ} : {A : Type ℓ} {B : Type κ} → Option A → (A → Option B) → Option B
none >>= f = none
some a >>= f = f a

abbrev pub sum_of_counts : Composition → ℕ
sum_of_counts c =
    c.instructions + c.history + c.tool_catalog + c.skills + c.retrieval + c.tool_results
    + c.envelope

abbrev pub if_adds_up : Composition → Option Composition
if_adds_up c = if sum_of_counts c == c.total_characters then some c else none

-- The counts, where each of them and the total is an int that is not negative.
unfoldable pub read_counts : ℕ → Dict String Count → Option Composition
read_counts total d = do
  instructions ← natural_at "instructions" d
  history ← natural_at "history" d
  tool_catalog ← natural_at "tool_catalog" d
  skills ← natural_at "skills" d
  retrieval ← natural_at "retrieval" d
  tool_results ← natural_at "tool_results" d
  envelope ← natural_at "envelope" d
  if_adds_up (record {
    total_characters = total;
    instructions = instructions;
    history = history;
    tool_catalog = tool_catalog;
    skills = skills;
    retrieval = retrieval;
    tool_results = tool_results;
    envelope = envelope;
  })

-- `validate_input_composition`; a value that is no mapping is none.
unfoldable pub validate_input_composition : Option (Dict String Entry) → Option Composition
validate_input_composition none = none
validate_input_composition (some value) =
    if has_exactly ("method" ∷ "unit" ∷ "total_characters" ∷ "components" ∷ []) value
      && is_entry_text (lookup "method" value) method
      && is_entry_text (lookup "unit" value) "characters"
    then (do
      d ← entry_counts (lookup "components" value)
      if has_exactly component_names d
          then (do total ← entry_count (lookup "total_characters" value); read_counts total d)
          else none)
    else none

-- The dict that `measure_input_composition` returns.
abbrev pub measured_value : Measured → Dict String Entry
measured_value m =
    ("method", a_text method)
    ∷ ("unit", a_text "characters")
    ∷ ("total_characters", a_count (an_int (pos m.total_characters)))
    ∷ (
      "components",
      counts (
          ("instructions", an_int (pos m.instructions))
          ∷ ("history", an_int (pos m.parts.history))
          ∷ ("tool_catalog", an_int (pos m.tool_catalog))
          ∷ ("skills", an_int (pos m.parts.skills))
          ∷ ("retrieval", an_int (pos m.parts.retrieval))
          ∷ ("tool_results", an_int (pos m.parts.tool_results))
          ∷ ("envelope", an_int m.envelope)
          ∷ []),
    )
    ∷ []
