-- ===== src/TaskPlan/Updates.antt =====
-- `plan_update` of eventide/task_plan.py, with `_claimed_sequence`, `normalize_todos` and
-- `active_id`.
use Prim.Native.Nat.{◌/◌, ◌%◌}
use Prim.Native.String.{◌++◌ as join}
use eventide.Prelude.{
  ℕ, zero, suc, ◌+◌, max, String, List, [], ◌∷◌, ◌++◌, Option, none, some, not, ◌&&◌, Dict, lookup,
  insert, has, length, count_of, ltb, ◌==◌, string_eq, nat_eq, strip, if◌then◌else◌,
}
use eventide.Runtime.{Result, ok, err, value_error, ◌>>=◌, ◌>>◌, raise_if}
use eventide.Store.State.{contains}
use eventide.TaskPlan.Items.{
  Todo, Value, string_value, RawItem, is_task_id, number_of, get, fields_of, content_of, status_of,
  item, is_in_progress, max_todos,
}
use eventide.TaskPlan.Dependencies.{validate_dependencies}

digit : ℕ → String
digit n =
    if n == 0
    then "0"
    else if n == 1
    then "1"
    else if n == 2
    then "2"
    else if n == 3
    then "3"
    else if n == 4
    then "4"
    else if n == 5
    then "5"
    else if n == 6
    then "6"
    else if n == 7
    then "7"
    else if n == 8
    then "8"
    else "9"

-- The decimal text of a number; as many digits as the fuel, which the number itself is enough for.
decimal : ℕ → ℕ → String
decimal zero n = ""
decimal (suc fuel) n =
    let front = decimal fuel (n / 10) in if ltb n 10 then digit n else join front (digit (n % 10))

-- `f"t{sequence}"`
unfoldable pub task_label : ℕ → String
unfolding digit decimal
task_label n = join "t" (decimal (suc n) n)

-- `_claimed_sequence`
unfoldable pub claimed_sequence : List Todo → ℕ
claimed_sequence [] = 0
claimed_sequence (t ∷ previous) =
    let rest = claimed_sequence previous in
    if is_task_id t.id then max (number_of t.id) rest else rest

-- `{str(item.get("id")): item for item in previous or [] if item.get("id")}`
unfoldable pub available_of : Dict String Todo → List Todo → Dict String Todo
available_of available [] = available
available_of available (t ∷ previous) =
    available_of (if t.id == "" then available else insert t.id t available) previous

-- The variables of the loop; `seen_content` and `claimed` are sets.
pub record Progress : Type 0 where
  pub sequence : ℕ
  pub todos : List Todo
  pub seen_content : List String
  pub claimed : List String

-- The first unclaimed identity with the same content.
unfoldable pub reusable : List String → String → Dict String Todo → Option String
reusable claimed content [] = none
reusable claimed content ((known, t) ∷ available) =
    let rest = reusable claimed content available in
    if not (contains known claimed) && strip t.content == content then some known else rest

-- The identity of an item, and the sequence after it.
unfoldable pub identify : Dict String Todo → Progress → Option Value → String → Result (String × ℕ)
identify available p none content = elim (reusable p.claimed content available) [
  | none ↦ ok (task_label p.sequence, suc p.sequence)
  | some known ↦ ok (known, p.sequence)
]
identify available p (some (string_value task_id)) content = do
  raise_if (not (is_task_id task_id)) "todo has an invalid task id"
  raise_if (not (has task_id available)) "todo references unknown task id"
  raise_if (contains task_id p.claimed) "todo reuses task id"
  ok (task_id, p.sequence)
identify available p (some _) content = err (value_error "todo has an invalid task id")

-- The body of the loop.
unfoldable pub plan_item : Dict String Todo → Progress → RawItem → Result Progress
plan_item available p raw = do
  f ← fields_of raw
  content ← content_of f.content
  raise_if (contains content p.seen_content) "todo duplicates another item"
  status ← status_of f.status
  (task_id, sequence) ← identify available p (get f.id) content
  todo ← item task_id content status f (lookup task_id available)
  ok (record {
    sequence = sequence;
    todos = p.todos ++ todo ∷ [];
    seen_content = content ∷ p.seen_content;
    claimed = task_id ∷ p.claimed;
  })

unfoldable pub plan_items : Dict String Todo → Progress → List RawItem → Result Progress
plan_items available p [] = ok p
plan_items available p (raw ∷ value) =
    plan_item available p raw >>= λ q. plan_items available q value

abbrev pub or_zero : Option ℕ → ℕ
or_zero none = 0
or_zero (some n) = n

abbrev pub first_sequence : List Todo → Option ℕ → ℕ
first_sequence previous next_task_seq = max (or_zero next_task_seq) (claimed_sequence previous + 1)

abbrev pub no_progress : List Todo → Option ℕ → Progress
no_progress previous next_task_seq = record {
  sequence = first_sequence previous next_task_seq;
  todos = [];
  seen_content = [];
  claimed = [];
}

-- `value` is a list; `none` stands for any other value.
unfoldable pub plan_update : Option (List RawItem) → List Todo → Option ℕ → Result (List Todo × ℕ)
plan_update none previous next_task_seq = err (value_error "todos must be an array")
plan_update (some value) previous next_task_seq = do
  raise_if (ltb max_todos (length value)) "todos cannot contain more than 20 items"
  p ← plan_items (available_of [] previous) (no_progress previous next_task_seq) value
  raise_if (ltb 1 (count_of (λ (t : Todo). is_in_progress t.status) p.todos))
      "only one todo may be in_progress"
  validate_dependencies p.todos
  ok (p.todos, p.sequence)

-- `normalize_todos`
unfoldable pub normalize_todos : Option (List RawItem) → Result (List Todo)
normalize_todos value = plan_update value [] none >>= λ r. ok r.0

-- `active_id`
unfoldable pub active_id : List Todo → Option String
active_id [] = none
active_id (t ∷ todos) =
    let rest = active_id todos in
    if is_in_progress t.status then (if t.id == "" then none else some t.id) else rest
