-- ===== src/Pages/Bounds.antt =====
-- How much of a stored result is shown: eventide/tool_results.py.
use eventide.Prelude.{
  ℕ, ◌+◌, ◌-◌, ◌≤◌, ◌≡◌, inl, inr, List, leb, length, length-take, length-drop, arith, Bool-cases,
}
use eventide.Pages.{
  stored_text, ToolRow, Preview, whole, shortened, preview_of, inline_result_chars,
  preview_head_chars, preview_tail_chars, preview,
}

-- The characters of the stored text that a preview shows.
abbrev pub shown : Preview → ℕ
shown (whole s) = length s
shown (shortened head total run_id call_id tail) = length head + length tail

preview_of-shown :
    (row : ToolRow) (s : List ℕ)
    → (shown (preview_of row (stored_text s)).0 + (preview_of row (stored_text s)).1 ≡ length s)
      × (shown (preview_of row (stored_text s)).0 ≤ inline_result_chars)
unfolding preview_of
preview_of-shown row s = elim (Bool-cases (leb (length s) inline_result_chars)) [
  | inl short ↦ rw short (omega arith, ground arith)
  | inr long ↦
      let more : inline_result_chars ≤ length s = ground arith in
      let head = length-take preview_head_chars s in
      let tail = length-drop (length s - preview_tail_chars) s in
      rw long (omega (arith), omega (arith))
]

-- Of a stored text, a preview shows at most 12,000 characters, and what it shows and what it says
-- it omits make up the whole length.
pub preview-shown :
    (row : ToolRow) (s : List ℕ)
    → row.content ≡ stored_text s
    → (shown (preview row).0 + (preview row).1 ≡ length s)
      × (shown (preview row).0 ≤ inline_result_chars)
unfolding preview
preview-shown row s h = rw h (preview_of-shown row s)
