-- ===== src/Tests/Requests.antt =====
-- A request with a skill that has been loaded.
use native.Mathlib.Decide.{ℕ_discrete}
use eventide.Prelude.{◌≡◌, refl, [], ◌∷◌, some, String_discrete}
use eventide.Json.{Json, text, array, object, nil, cons, Fields, end, field, size, escaped_size}
use eventide.Composition.{
  ModelRequest, measure_input_composition, add_blocks, other_values, add_content, add_message,
  add_messages,
}
use eventide.Composition.Validation.{validate_input_composition, measured_value}
use eventide.Composition.RoundTrip.{
  composition_of, validate_input_composition-measure_input_composition,
}

abbrev message_of : Json → Json → Fields
message_of role content = field "role" role (field "content" content end)

abbrev request : ModelRequest
request = record {
  system = "Be brief";
  messages =
      message_of (text "assistant") (
        array (
          cons
            (object (
              field "type" (text "tool_use")
                (field "id" (text "c") (field "name" (text "load_skill") end))))
            nil))
      ∷ message_of (text "user") (
          array (
            cons
              (object (
                field "type" (text "tool_result")
                  (field "tool_use_id" (text "c") (field "content" (text "a\nb") end))))
              nil))
      ∷ [];
  tools = [];
}

validate_input_composition-measure_input_composition_example :
    validate_input_composition (some (measured_value (measure_input_composition request)))
    ≡ some (composition_of (measure_input_composition request))
validate_input_composition-measure_input_composition_example =
    validate_input_composition-measure_input_composition request

-- `{"type": "tool_result", "tool_use_id": "c", "content": "a\nb"}`, with its newline escaped
skill_characters : (measure_input_composition request).parts.skills ≡ 62
unfolding String_discrete ℕ_discrete measure_input_composition add_messages add_message add_content
    add_blocks other_values size escaped_size
skill_characters = refl
