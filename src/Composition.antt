-- ===== src/Composition.antt =====
-- What a request's characters are spent on: eventide/input_composition.py.
pub mod Sizes
pub mod Validation
pub mod RoundTrip
use eventide.Prelude.{
  ℕ, suc, ◌+◌, ◌-◌, ℤ, pos, negsuc, String, List, [], ◌∷◌, Option, none, some, Bool, true, false,
  not, ◌&&◌, ◌||◌, Dict, lookup, insert, has, keys, all, ◌==◌, string_eq, leb, ltb, if◌then◌else◌,
}
use eventide.Store.State.{contains}
use eventide.Json.{
  Json, null, boolean, number, text, array, object, Items, nil, cons, Fields, end, field, size,
}

-- The fields of ModelRequest that are measured; a message and a tool are dicts.
pub record ModelRequest : Type 0 where
  pub system : String
  pub messages : List Fields
  pub tools : List Fields

-- `value.get(key)`
abbrev pub get : String → Fields → Option Json
get key end = none
get key (field k v fs) = if key == k then some v else get key fs

abbrev pub text_of : Option Json → Option String
text_of (some (text s)) = some s
text_of _ = none

abbrev pub is_text : Option String → String → Bool
is_text none s = false
is_text (some r) s = r == s

-- A string that is not empty.
abbrev pub filled : Option String → Option String
filled none = none
filled (some s) = if s == "" then none else some s

abbrev pub Calls : Type 0
Calls = Dict String (Option (ℕ × String))

abbrev pub call_of : ℕ → String → Option String → Calls → Option (ℕ × String)
call_of index call_id none calls = none
call_of index call_id (some name) calls = if has call_id calls then none else some (index, name)

abbrev pub add_named : ℕ → Option String → Option String → Calls → Calls
add_named index none name calls = calls
add_named index (some call_id) name calls = insert call_id (call_of index call_id name calls) calls

-- A block of an assistant's message: an id that is reused is ambiguous.
abbrev pub add_call : ℕ → Json → Calls → Calls
add_call index (object fs) calls =
    if is_text (text_of (get "type" fs)) "tool_use"
    then add_named index (filled (text_of (get "id" fs))) (filled (text_of (get "name" fs))) calls
    else calls
add_call index _ calls = calls

abbrev pub add_calls : ℕ → Items → Calls → Calls
add_calls index nil calls = calls
add_calls index (cons block blocks) calls = add_calls index blocks (add_call index block calls)

abbrev pub content_calls : ℕ → Option Json → Calls → Calls
content_calls index (some (array blocks)) calls = add_calls index blocks calls
content_calls index _ calls = calls

-- The first loop over the messages.
abbrev pub calls_from : ℕ → List Fields → Calls → Calls
calls_from index [] calls = calls
calls_from index (message ∷ messages) calls = calls_from (suc index) messages (
    if is_text (text_of (get "role" message)) "assistant"
    then content_calls index (get "content" message) calls
    else calls)

pub data Component : Type 0 where
  history tool_results skills retrieval : Component

abbrev pub by_tool : String → Component
by_tool name =
    if name == "load_skill" || name == "read_skill_resource"
    then skills
    else (if name == "search_knowledge" then retrieval else tool_results)

-- `call is not None and call[0] < index`, in a message of the user
abbrev pub by_call : Option (Option (ℕ × String)) → ℕ → Bool → Component
by_call (some (some (made, name))) index from_user =
    if from_user && ltb made index then by_tool name else tool_results
by_call _ index from_user = tool_results

abbrev pub known_call : Option String → Calls → Option (Option (ℕ × String))
known_call none calls = none
known_call (some call_id) calls = lookup call_id calls

abbrev pub component_of : Calls → ℕ → Bool → Json → Component
component_of calls index from_user (object fs) =
    if is_text (text_of (get "type" fs)) "tool_result"
    then by_call (known_call (text_of (get "tool_use_id" fs)) calls) index from_user
    else history
component_of calls index from_user _ = history

pub record Parts : Type 0 where
  pub history : ℕ
  pub tool_results : ℕ
  pub skills : ℕ
  pub retrieval : ℕ

abbrev pub add_to : Component → ℕ → Parts → Parts
add_to history n p = record p { history = p.history + n }
add_to tool_results n p = record p { tool_results = p.tool_results + n }
add_to skills n p = record p { skills = p.skills + n }
add_to retrieval n p = record p { retrieval = p.retrieval + n }

unfoldable pub add_blocks : Calls → ℕ → Bool → Items → Parts → Parts
add_blocks calls index from_user nil p = p
add_blocks calls index from_user (cons block blocks) p =
    add_blocks calls index from_user blocks
      (add_to (component_of calls index from_user block) (size block) p)

-- The values outside role and content.
unfoldable pub other_values : Fields → ℕ
other_values end = 0
other_values (field k v fs) =
    let rest = other_values fs in if k == "role" || k == "content" then rest else size v + rest

unfoldable pub add_content : Calls → ℕ → Bool → Option Json → Parts → Parts
add_content calls index from_user none p = p
add_content calls index from_user (some (array blocks)) p =
    add_blocks calls index from_user blocks p
add_content calls index from_user (some content) p = add_to history (size content) p

unfoldable pub add_message : Calls → ℕ → Fields → Parts → Parts
add_message calls index message p =
    add_content calls index (is_text (text_of (get "role" message)) "user") (get "content" message)
      (add_to history (other_values message) p)

-- The second loop.
unfoldable pub add_messages : Calls → ℕ → List Fields → Parts → Parts
add_messages calls index [] p = p
add_messages calls index (message ∷ messages) p =
    add_messages calls (suc index) messages (add_message calls index message p)

abbrev pub objects : List Fields → Items
objects [] = nil
objects (fs ∷ rest) = cons (object fs) (objects rest)

-- `{"system": ..., "messages": ..., "tools": ...}`
abbrev pub request_object : ModelRequest → Json
request_object r = object (
    field "system" (text r.system)
      (field "messages" (array (objects r.messages)) (field "tools" (array (objects r.tools)) end)))

pub record Measured : Type 0 where
  pub total_characters : ℕ
  pub instructions : ℕ
  pub tool_catalog : ℕ
  pub parts : Parts
  -- what the components leave of the total
  pub envelope : ℤ

abbrev pub difference : ℕ → ℕ → ℤ
difference a b = if leb b a then pos (a - b) else negsuc (b - a - 1)

abbrev pub sum_of_parts : Parts → ℕ
sum_of_parts p = p.history + p.tool_results + p.skills + p.retrieval

-- `measure_input_composition`
unfoldable pub measure_input_composition : ModelRequest → Measured
measure_input_composition r =
    let calls = calls_from 0 r.messages [] in
    let parts =
      add_messages calls 0 r.messages
        (record { history = 0; tool_results = 0; skills = 0; retrieval = 0 }) in
    let instructions = size (text r.system) in
    let tool_catalog = size (array (objects r.tools)) in
    let total = size (request_object r) in
    record {
      total_characters = total;
      instructions = instructions;
      tool_catalog = tool_catalog;
      parts = parts;
      envelope = difference total (instructions + tool_catalog + sum_of_parts parts);
    }
