-- ===== src/Composition/Sizes.antt =====
-- The components of a request's characters are disjoint parts of it:
-- eventide/input_composition.py.
use eventide.Prelude.{
  ℕ, suc, ◌+◌, ◌≤◌, ◌≡◌, ap, subst, inl, inr, String, List, [], ◌∷◌, Option, none, some, Bool, true,
  ◌==◌, ==-refl, ==_iff, string_eq, arith, Bool-cases, Option-cases,
}
use eventide.Json.{
  Json, null, boolean, number, text, array, object, Items, nil, cons, Fields, end, field, size,
  size_items, size_fields,
}
use eventide.Composition.{
  ModelRequest, get, text_of, is_text, Calls, calls_from, Component, history, tool_results, skills,
  retrieval, component_of, Parts, add_to, add_blocks, other_values, add_content, add_message,
  add_messages, objects, sum_of_parts, measure_input_composition,
}

add_to-sum_of_parts :
    (c : Component) (n : ℕ) (p : Parts) → sum_of_parts (add_to c n p) ≡ sum_of_parts p + n
add_to-sum_of_parts history n p = omega arith
add_to-sum_of_parts tool_results n p = omega arith
add_to-sum_of_parts skills n p = omega arith
add_to-sum_of_parts retrieval n p = omega arith

add_blocks-sum_of_parts :
    (calls : Calls) (index : ℕ) (from_user : Bool) (blocks : Items) (p : Parts)
    → sum_of_parts (add_blocks calls index from_user blocks p) ≤ sum_of_parts p + size_items blocks
unfolding add_blocks size
add_blocks-sum_of_parts calls index from_user nil p = omega arith
add_blocks-sum_of_parts calls index from_user (cons b blocks) p =
    let c = component_of calls index from_user b in
    omega (
      arith,
      add_blocks-sum_of_parts calls index from_user blocks (add_to c (size b) p),
      add_to-sum_of_parts c (size b) p,
    )

other_values-le : (fs : Fields) → other_values fs ≤ size_fields fs
unfolding other_values size
other_values-le end = omega arith
other_values-le (field k v fs) = ground (arith, other_values-le fs)

size_of : Option Json → ℕ
size_of none = 0
size_of (some v) = size v

other_values-get :
    (fs : Fields) (c : Json) → get "content" fs ≡ some c → other_values fs + size c ≤ size_fields fs
unfolding other_values size size_of
other_values-get end c h = cc
other_values-get (field k v fs) c h = elim (Bool-cases ("content" == k)) [
  | inl hit ↦
      let here =
        subst (λ (j : String). (j == "content") ≡ true) ((==_iff "content" k).0 hit)
          (==-refl {A = String} "content") in
      let e : size v ≡ size c = ap size_of ((rw (get, hit) at h)) in
      ground (arith, here, e, other_values-le fs)
  | inr miss ↦ ground (arith, other_values-get fs c ((rw (get, miss) at h)))
]

add_content-sum_of_parts :
    (calls : Calls) (index : ℕ) (from_user : Bool) (c : Json) (p : Parts)
    → sum_of_parts (add_content calls index from_user (some c) p) ≤ sum_of_parts p + size c
unfolding add_content size
add_content-sum_of_parts calls index from_user (array blocks) p =
    omega (arith, add_blocks-sum_of_parts calls index from_user blocks p)
add_content-sum_of_parts calls index from_user null p = omega arith
add_content-sum_of_parts calls index from_user (boolean b) p = omega arith
add_content-sum_of_parts calls index from_user (number d) p = omega arith
add_content-sum_of_parts calls index from_user (text s) p = omega arith
add_content-sum_of_parts calls index from_user (object fs) p = omega arith

add_message-sum_of_parts :
    (calls : Calls) (index : ℕ) (message : Fields) (p : Parts)
    → sum_of_parts (add_message calls index message p) ≤ sum_of_parts p + size_fields message
unfolding add_message
add_message-sum_of_parts calls index message p =
    let from_user = is_text (text_of (get "role" message)) "user" in
    let q = add_to history (other_values message) p in
    elim (Option-cases (get "content" message)) [
      | inl missing ↦ simp missing (unfold add_content in (omega (arith, other_values-le message)))
      | inr (c, there) ↦ simp there (
          omega (
            arith,
            add_content-sum_of_parts calls index from_user c q,
            other_values-get message c there,
          ))
    ]

add_messages-sum_of_parts :
    (calls : Calls) (index : ℕ) (messages : List Fields) (p : Parts)
    → sum_of_parts (add_messages calls index messages p)
      ≤ sum_of_parts p + size_items (objects messages)
unfolding add_messages size
add_messages-sum_of_parts calls index [] p = omega arith
add_messages-sum_of_parts calls index (message ∷ messages) p = omega (
  arith,
  add_message-sum_of_parts calls index message p,
  add_messages-sum_of_parts calls (suc index) messages (add_message calls index message p),
)

-- The components but the envelope are disjoint parts of the request.
pub measure_input_composition-le :
    (r : ModelRequest)
    → let m = measure_input_composition r in
      m.instructions + m.tool_catalog + sum_of_parts m.parts ≤ m.total_characters
unfolding measure_input_composition size
measure_input_composition-le r = omega (
  arith,
  add_messages-sum_of_parts (calls_from 0 r.messages []) 0 r.messages
      (record { history = 0; tool_results = 0; skills = 0; retrieval = 0 }),
)
