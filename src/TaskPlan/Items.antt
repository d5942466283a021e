-- ===== src/TaskPlan/Items.antt =====
-- The items of a plan: `ID_PATTERN`, the checks on an item's fields and `_item` of
-- eventide/task_plan.py. Messages stand without the index that the code puts into them.
use eventide.Prelude.{
  ℕ, ◌+◌, ◌*◌, ◌-◌, String, List, [], ◌∷◌, Option, none, some, Bool, true, false, not, ◌&&◌, ◌||◌,
  length, all, ltb, leb, ◌==◌, string_eq, nat_eq, codes, is_blank, len, strip, if◌then◌else◌,
}
use eventide.Runtime.{Result, ok, err, value_error, ◌>>=◌, ◌>>◌, raise_if}
use eventide.Store.State.{contains}

-- A member of STATUSES
pub data TodoStatus : Type 0 where
  pending in_progress completed blocked : TodoStatus

-- An item of a validated plan; the items of plans from before identities have an empty id.
pub record Todo : Type 0 where
  pub id : String
  pub content : String
  pub status : TodoStatus
  pub summary : Option String
  pub depends_on : Option (List String)

-- A JSON value as the code tells values apart; an element of a list that is not a text is `none`.
pub data Value : Type 0 where
  null : Value
  string_value : String → Value
  list_value : List (Option String) → Value
  anything_else : Value

-- A JSON object by its keys; `extra` is whether it has a key outside ITEM_KEYS.
pub record Fields : Type 0 where
  pub extra : Bool
  pub id : Option Value
  pub content : Option Value
  pub status : Option Value
  pub summary : Option Value
  pub depends_on : Option Value

pub data RawItem : Type 0 where
  not_dict : RawItem
  dict : Fields → RawItem

is_digit : ℕ → Bool
is_digit c = leb 48 c && leb c 57

matches : List ℕ → Bool
matches (t ∷ d ∷ rest) =
    t == 116 && leb 49 d && leb d 57 && leb (length rest) 3 && all is_digit rest
matches _ = false

-- `ID_PATTERN.fullmatch(task_id)`
unfoldable pub is_task_id : String → Bool
unfolding is_digit matches
is_task_id s = matches (codes s)

read_digits : ℕ → List ℕ → ℕ
read_digits n [] = n
read_digits n (d ∷ ds) = read_digits (n * 10 + (d - 48)) ds

rest_of : List ℕ → List ℕ
rest_of [] = []
rest_of (c ∷ cs) = cs

-- `int(task_id[1:])`
unfoldable pub number_of : String → ℕ
unfolding read_digits rest_of
number_of s = read_digits 0 (rest_of (codes s))

-- The value of a key that is there and not None.
abbrev pub get : Option Value → Option Value
get none = none
get (some null) = none
get (some v) = some v

unfoldable pub fields_of : RawItem → Result Fields
fields_of not_dict =
    err (
      value_error
        "todo must contain only id, content, status and summary, plus optional depends_on")
fields_of (dict f) = do
  raise_if f.extra
      "todo must contain only id, content, status and summary, plus optional depends_on"
  raise_if (missing f.content || missing f.status) "todo must contain content and status"
  ok f
  where
    missing : Option Value → Bool
    missing none = true
    missing (some _) = false

-- `MAX_CONTENT_CHARS`, `MAX_SUMMARY_CHARS` and `MAX_TODOS`
abbrev pub max_content_chars : ℕ
max_content_chars = 200

abbrev pub max_summary_chars : ℕ
max_summary_chars = 300

abbrev pub max_todos : ℕ
max_todos = 20

unfoldable pub content_of : Option Value → Result String
content_of (some (string_value s)) = do
  raise_if (is_blank s) "todo content must be non-empty text"
  raise_if (ltb max_content_chars (len (strip s))) "todo content cannot exceed 200 characters"
  ok (strip s)
content_of _ = err (value_error "todo content must be non-empty text")

unfoldable pub status_of : Option Value → Result TodoStatus
status_of (some (string_value s)) =
    if s == "pending"
    then ok pending
    else if s == "in_progress"
    then ok in_progress
    else if s == "completed"
    then ok completed
    else if s == "blocked"
    then ok blocked
    else err (value_error "todo has unsupported status")
status_of _ = err (value_error "todo has unsupported status")

abbrev pub is_completed : TodoStatus → Bool
is_completed completed = true
is_completed _ = false

abbrev pub is_in_progress : TodoStatus → Bool
is_in_progress in_progress = true
is_in_progress _ = false

-- `prior.get("summary")` of a prior item that was completed
kept_summary : Option Todo → Option String
kept_summary none = none
kept_summary (some prior) = if is_completed prior.status then prior.summary else none

needs_summary : Option String → Result (Option String)
needs_summary none = err (value_error "todo must summarize what it completed")
needs_summary (some s) = do
  raise_if (is_blank s) "todo must summarize what it completed"
  ok (some s)

-- The summary by the status, before it is stripped.
unfoldable pub claimed_summary : TodoStatus → Option Value → Option Todo → Result (Option String)
unfolding kept_summary needs_summary
claimed_summary completed none prior = needs_summary (kept_summary prior)
claimed_summary completed (some (string_value s)) prior = needs_summary (some s)
claimed_summary completed (some _) prior = err (value_error "todo must summarize what it completed")
claimed_summary blocked none prior = ok none
claimed_summary blocked (some (string_value s)) prior = ok (some s)
claimed_summary blocked (some _) prior = err (value_error "todo summary must be text")
claimed_summary _ none prior = ok none
claimed_summary _ (some _) prior =
    err (value_error "todo may only summarize a completed or blocked item")

unfoldable pub stripped_summary : Option String → Result (Option String)
stripped_summary none = ok none
stripped_summary (some s) = do
  raise_if (ltb max_summary_chars (len (strip s))) "todo summary cannot exceed 300 characters"
  ok (if strip s == "" then none else some (strip s))

-- The loop over the dependencies; `seen` are those before.
unfoldable pub check_dependencies :
    String → List String → List (Option String) → Result (List String)
check_dependencies task_id seen [] = ok []
check_dependencies task_id seen (none ∷ rest) =
    err (value_error "todo has an invalid dependency id")
check_dependencies task_id seen (some d ∷ rest) = do
  raise_if (not (is_task_id d)) "todo has an invalid dependency id"
  raise_if (d == task_id) "todo cannot depend on itself"
  raise_if (contains d seen) "todo has duplicate dependency"
  more ← check_dependencies task_id (d ∷ seen) rest
  ok (d ∷ more)

given_dependencies : String → List (Option String) → Result (Option (List String))
given_dependencies task_id ds = do
  raise_if (ltb max_todos (length ds)) "todo cannot have more than 20 dependencies"
  checked ← check_dependencies task_id [] ds
  ok (some checked)

somes : List String → List (Option String)
somes [] = []
somes (d ∷ ds) = some d ∷ somes ds

kept_dependencies : String → Option Todo → Result (Option (List String))
kept_dependencies task_id none = ok none
kept_dependencies task_id (some prior) = elim prior.depends_on [
  | none ↦ ok none
  | some ds ↦ given_dependencies task_id (somes ds)
]

unfoldable pub dependencies_of : String → Option Value → Option Todo → Result (Option (List String))
unfolding given_dependencies kept_dependencies somes
dependencies_of task_id none prior = kept_dependencies task_id prior
dependencies_of task_id (some (list_value ds)) prior = given_dependencies task_id ds
dependencies_of task_id (some _) prior = err (value_error "todo depends_on must be an array")

-- `_item`
unfoldable pub item : String → String → TodoStatus → Fields → Option Todo → Result Todo
item task_id content status f prior = do
  claimed ← claimed_summary status (get f.summary) prior
  summary ← stripped_summary claimed
  depends_on ← dependencies_of task_id f.depends_on prior
  ok (record {
    id = task_id;
    content = content;
    status = status;
    summary = summary;
    depends_on = depends_on;
  })
