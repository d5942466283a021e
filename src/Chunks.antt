-- ===== src/Chunks.antt =====
-- The windows that a text is cut into for the knowledge index: eventide/rag/chunker.py. A text is
-- the list of its characters.
pub mod Lines
pub mod Windows
use eventide.Prelude.{
  ℕ, zero, suc, ◌+◌, ◌-◌, min, max, List, [], ◌∷◌, Option, none, some, Bool, true, false, not, ◌&&◌,
  ◌||◌, ◌==◌, nat_eq, leb, ltb, if◌then◌else◌, length, take, drop, all, is_space,
}

abbrev pub min_chunk_chars : ℕ
min_chunk_chars = 600

abbrev pub max_chunk_chars : ℕ
max_chunk_chars = 800

abbrev pub overlap_chars : ℕ
overlap_chars = 100

pub record Chunk : Type 0 where
  pub file : List ℕ
  pub start_line : ℕ
  pub end_line : ℕ
  pub heading : List ℕ
  pub text : List ℕ

abbrev pub is_newline : ℕ → Bool
is_newline c = c == 10

-- `index + 1` at each newline, from an index on
abbrev pub newline_starts : ℕ → List ℕ → List ℕ
newline_starts index [] = []
newline_starts index (c ∷ text) =
    let rest = newline_starts (index + 1) text in if is_newline c then (index + 1) ∷ rest else rest

-- `_line_starts`
abbrev pub line_starts : List ℕ → List ℕ
line_starts text = 0 ∷ newline_starts 0 text

-- `bisect.bisect_right` of a sorted list
abbrev pub bisect_right : List ℕ → ℕ → ℕ
bisect_right [] x = 0
bisect_right (a ∷ as_) x = let rest = bisect_right as_ x in if leb a x then suc rest else 0

-- `_line_number`
abbrev pub line_number : List ℕ → ℕ → ℕ
line_number starts offset = bisect_right starts offset

-- `text[i] == "\n"`
abbrev pub newline_at : List ℕ → ℕ → Bool
newline_at [] i = false
newline_at (c ∷ text) zero = is_newline c
newline_at (c ∷ text) (suc i) = newline_at text i

-- The last index below `n`, and from `low` on, at which the test holds.
unfoldable pub last_below : (ℕ → Bool) → ℕ → ℕ → Option ℕ
last_below test low zero = none
last_below test low (suc n) =
    let rest = last_below test low n in
    if ltb n low then none else (if test n then some n else rest)

-- `text.rfind("\n", low, high)` and `text.rfind("\n\n", low, high)`
abbrev pub rfind_newline : List ℕ → ℕ → ℕ → Option ℕ
rfind_newline text low high = last_below (newline_at text) low high

abbrev pub rfind_blank_line : List ℕ → ℕ → ℕ → Option ℕ
rfind_blank_line text low high =
    last_below (λ i. newline_at text i && newline_at text (i + 1)) low (high - 1)

abbrev pub after_newline : Option ℕ → ℕ → ℕ
after_newline none limit = limit
after_newline (some newline) limit = newline + 1

abbrev pub after_blank_line : Option ℕ → Option ℕ → ℕ → ℕ
after_blank_line none newline limit = after_newline newline limit
after_blank_line (some blank) newline limit = blank + 2

-- `_preferred_end`
unfoldable pub preferred_end : List ℕ → ℕ → ℕ
preferred_end text start =
    let limit = min (start + max_chunk_chars) (length text) in
    if limit == length text
    then limit
    else (let minimum = min (start + min_chunk_chars) limit in
        after_blank_line (rfind_blank_line text minimum limit) (rfind_newline text minimum limit)
          limit)

-- `_overlap_start`
unfoldable pub overlap_start : List ℕ → ℕ → ℕ → ℕ
overlap_start text start stop =
    let desired = max (start + 1) (stop - overlap_chars) in
    let candidate = after_newline (rfind_newline text start desired) desired in
    min (if leb candidate start then desired else candidate) stop

-- `text[a:b]`
abbrev pub slice : List ℕ → ℕ → ℕ → List ℕ
slice text a b = take (b - a) (drop a text)

-- `not text.strip()`
unfoldable pub is_blank_text : List ℕ → Bool
is_blank_text = all is_space

abbrev pub chunk_at : List ℕ → List ℕ → List ℕ → ℕ → ℕ → Chunk
chunk_at file heading text cursor stop = record {
  file = file;
  start_line = line_number (line_starts text) cursor;
  end_line = line_number (line_starts text) (max cursor (stop - 1));
  heading = heading;
  text = slice text cursor stop;
}

-- The end of the window at a cursor, and the cursor after it.
abbrev pub window_end : List ℕ → ℕ → ℕ → ℕ
window_end text cursor section_end = cursor + preferred_end (slice text cursor section_end) 0

abbrev pub next_cursor : List ℕ → ℕ → ℕ → ℕ → ℕ
next_cursor text cursor section_end stop =
    let next = cursor + overlap_start (slice text cursor section_end) 0 (stop - cursor) in
    if leb next cursor then stop else next

-- `_window_chunks`, on fuel: a turn of the loop, and the chunks after it.
unfoldable pub window_chunks : ℕ → List ℕ → List ℕ → List ℕ → ℕ → ℕ → Option (List Chunk)
window_chunks zero file heading text cursor section_end = none
window_chunks (suc fuel) file heading text cursor section_end =
    let stop = window_end text cursor section_end in
    let chunk = chunk_at file heading text cursor stop in
    let rest =
      window_chunks fuel file heading text (next_cursor text cursor section_end stop) section_end in
    if not (ltb cursor section_end) || is_blank_text (slice text cursor stop)
    then some []
    else (if leb section_end stop
        then some (chunk ∷ [])
        else (elim rest [ none ↦ none | some chunks ↦ some (chunk ∷ chunks) ]))
