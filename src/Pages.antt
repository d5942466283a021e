-- ===== src/Pages.antt =====
-- Stored tool results and their pages: eventide/tool_results.py, and `get_tool_result` of
-- eventide/store.py. A text is the list of its characters. The lines that frame a text stand as
-- the values that the code prints into them.
pub mod Walk
pub mod Bounds
use eventide.Prelude.{
  ℕ, ◌+◌, ◌-◌, min, ℤ, pos, negsuc, String, List, [], ◌∷◌, Option, none, some, Bool, true, false,
  ◌&&◌, ◌||◌, ◌==◌, string_eq, leb, ltb, if◌then◌else◌, length, take, drop,
}
use eventide.Store.State.{contains}

abbrev pub inline_result_chars : ℕ
inline_result_chars = 12_000

abbrev pub page_default_chars : ℕ
page_default_chars = 4_000

abbrev pub page_max_chars : ℕ
page_max_chars = 12_000

abbrev pub preview_head_chars : ℕ
preview_head_chars = 8_000

abbrev pub preview_tail_chars : ℕ
preview_tail_chars = 2_000

-- The `content` of a payload: a text, or what `str` makes of another value. Without the key it
-- is the empty text.
pub data Stored : Type 0 where
  stored_text : List ℕ → Stored
  printed : List ℕ → Stored

abbrev pub characters : Stored → List ℕ
characters (stored_text s) = s
characters (printed s) = s

-- A row of runtime_events with the columns and the payload fields that are read here.
pub record ToolRow : Type 0 where
  pub session_id : String
  pub run_id : Option String
  pub completed : Bool
  pub call_id : Option String
  pub content : Stored

abbrev pub is_text : Option String → String → Bool
is_text none s = false
is_text (some r) s = r == s

-- `get_tool_result`: the WHERE clause, and the test in the loop over the rows.
unfoldable pub get_tool_result : List ToolRow → String → String → String → Option (List ℕ)
get_tool_result [] session_id run_id call_id = none
get_tool_result (row ∷ rows) session_id run_id call_id =
    if row.session_id == session_id
      && is_text row.run_id run_id
      && row.completed
      && is_text row.call_id call_id
    then some (characters row.content)
    else get_tool_result rows session_id run_id call_id

-- What `preview` returns: the text as it is, or its two ends about the marker line.
pub data Preview : Type 0 where
  whole : List ℕ → Preview
  shortened : List ℕ → ℕ → String → String → List ℕ → Preview

abbrev pub or_empty : Option String → String
or_empty none = ""
or_empty (some s) = s

-- `content[-n:]`
abbrev pub last_chars : ℕ → List ℕ → List ℕ
last_chars n s = drop (length s - n) s

abbrev pub shorten : ToolRow → List ℕ → Preview × ℕ
shorten row s =
    let omitted = length s - preview_head_chars - preview_tail_chars in
    (
      shortened (take preview_head_chars s) (length s) (or_empty row.run_id) (or_empty row.call_id)
          (last_chars preview_tail_chars s),
      omitted,
    )

unfoldable pub preview_of : ToolRow → Stored → Preview × ℕ
preview_of row (printed s) = (whole s, 0)
preview_of row (stored_text s) =
    if leb (length s) inline_result_chars then (whole s, 0) else shorten row s

unfoldable pub preview : ToolRow → Preview × ℕ
unfolding preview_of
preview row = preview_of row row.content

-- The calls of an earlier acceptance that one run may read.
pub record Acceptance : Type 0 where
  pub reader_run_id : String
  pub session_id : String
  pub run_id : String
  pub call_ids : List String
  pub delivery_id : String
  pub round : ℕ
  pub patch_sha256 : String

-- An argument of the tool; Python's bool is no integer here.
pub data Argument : Type 0 where
  integer : ℤ → Argument
  other_argument : Argument

pub record Page : Type 0 where
  -- the acceptance whose line stands above the page
  pub origin : Option Acceptance
  pub start : ℕ
  pub stop : ℕ
  pub total : ℕ
  pub next_offset : Option ℕ
  pub text : List ℕ

pub data Reply : Type 0 where
  refused : String → Reply
  page : Page → Reply

-- What one reader is bound to.
pub record Reader : Type 0 where
  pub rows : List ToolRow
  pub session_id : String
  pub acceptance : Option Acceptance
  pub current_run_id : Option String

abbrev pub offset_of : Argument → Option ℕ
offset_of (integer (pos n)) = some n
offset_of (integer (negsuc n)) = none
offset_of other_argument = none

abbrev pub limit_of_page : Argument → Option ℕ
limit_of_page (integer (pos n)) = if ltb n 1 || ltb page_max_chars n then none else some n
limit_of_page (integer (negsuc n)) = none
limit_of_page other_argument = none

unfoldable pub page_at : Option Acceptance → List ℕ → ℕ → ℕ → Page
page_at origin content offset limit =
    let total = length content in
    let start = min offset total in
    let stop = min (start + limit) total in
    record {
      origin = origin;
      start = start;
      stop = stop;
      total = total;
      next_offset = if ltb stop total then some stop else none;
      text = take (stop - start) (drop start content);
    }

abbrev pub may_read : Reader → Acceptance → String → String → Bool
may_read r a run_id call_id =
    is_text r.current_run_id a.reader_run_id && run_id == a.run_id && contains call_id a.call_ids

-- The second lookup, in the session of the acceptance.
unfoldable pub find_accepted :
    Reader → Option Acceptance → String → String → Option (Option Acceptance × List ℕ)
find_accepted r none run_id call_id = none
find_accepted r (some a) run_id call_id =
    if may_read r a run_id call_id
    then (elim (get_tool_result r.rows a.session_id run_id call_id) [
      | none ↦ none
      | some content ↦ some (some a, content)
    ])
    else none

unfoldable pub find_result : Reader → String → String → Option (Option Acceptance × List ℕ)
find_result r run_id call_id = elim (get_tool_result r.rows r.session_id run_id call_id) [
  | some content ↦ some (none, content)
  | none ↦ find_accepted r r.acceptance run_id call_id
]

abbrev pub reply_with : Option (Option Acceptance × List ℕ) → ℕ → ℕ → Reply
reply_with none offset limit = refused "Error: tool result not found in this session"
reply_with (some (origin, content)) offset limit = page (page_at origin content offset limit)

abbrev pub reply_within : Reader → String → String → ℕ → Option ℕ → Reply
reply_within r run_id call_id offset none = refused "Error: limit must be between 1 and 12000"
reply_within r run_id call_id offset (some limit) =
    reply_with (find_result r run_id call_id) offset limit

abbrev pub reply_from : Reader → String → String → Option ℕ → Argument → Reply
reply_from r run_id call_id none limit = refused "Error: offset must be a non-negative integer"
reply_from r run_id call_id (some offset) limit =
    reply_within r run_id call_id offset (limit_of_page limit)

unfoldable pub read_tool_result : Reader → String → String → Argument → Argument → Reply
read_tool_result r run_id call_id offset limit =
    reply_from r run_id call_id (offset_of offset) limit
