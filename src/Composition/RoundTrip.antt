-- ===== src/Composition/RoundTrip.antt =====
-- A measured composition is a valid one: eventide/input_composition.py.
use eventide.Prelude.{ℕ, ◌+◌, ◌-◌, ◌≤◌, pos, ◌≡◌, refl, ◌∙◌, some, String_discrete, arith}
use eventide.Composition.{
  ModelRequest, Measured, sum_of_parts, difference, measure_input_composition,
}
use eventide.Composition.Validation.{
  Composition, read_counts, has_exactly, validate_input_composition, measured_value,
}
use eventide.Composition.Sizes.{measure_input_composition-le}

-- The measured components, with what they leave of the total.
abbrev pub composition_of : Measured → Composition
composition_of m = record {
  total_characters = m.total_characters;
  instructions = m.instructions;
  history = m.parts.history;
  tool_catalog = m.tool_catalog;
  skills = m.parts.skills;
  retrieval = m.parts.retrieval;
  tool_results = m.parts.tool_results;
  envelope = m.total_characters - (m.instructions + m.tool_catalog + sum_of_parts m.parts);
}

validate-measured_value :
    (m : Measured)
    → m.instructions + m.tool_catalog + sum_of_parts m.parts ≤ m.total_characters
    → m.envelope
      ≡ pos (m.total_characters - (m.instructions + m.tool_catalog + sum_of_parts m.parts))
    → validate_input_composition (some (measured_value m)) ≡ some (composition_of m)
unfolding validate_input_composition read_counts has_exactly String_discrete
validate-measured_value m h e = rw e (ground arith)

measured-envelope :
    (r : ModelRequest)
    → let m = measure_input_composition r in
      m.envelope
      ≡ difference m.total_characters (m.instructions + m.tool_catalog + sum_of_parts m.parts)
unfolding measure_input_composition
measured-envelope r = refl

difference-pos : (a b : ℕ) → b ≤ a → difference a b ≡ pos (a - b)
difference-pos a b h = ground arith

-- What is measured of a request is accepted as valid, whatever the request holds: the components
-- are disjoint parts of the request as it is serialised, so the envelope is never negative, and
-- they add up to the total.
pub validate_input_composition-measure_input_composition :
    (r : ModelRequest)
    → validate_input_composition (some (measured_value (measure_input_composition r)))
      ≡ some (composition_of (measure_input_composition r))
validate_input_composition-measure_input_composition r =
    let m = measure_input_composition r in
    let le = measure_input_composition-le r in
    validate-measured_value m le (
      measured-envelope r
      ∙ difference-pos m.total_characters (m.instructions + m.tool_catalog + sum_of_parts m.parts)
          le)
