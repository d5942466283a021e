-- ===== src/Tests/Passages.antt =====
-- Pages of a stored result, and the windows of a text.
use native.Mathlib.Decide.{ℕ_discrete}
use eventide.Prelude.{
  ℕ, zero, suc, ◌≡◌, refl, List, [], ◌∷◌, ◌++◌, some, true, String_discrete, is_space, pos, arith,
  codes,
}
use eventide.Pages.{
  stored_text, ToolRow, Reader, integer, page, page_at, get_tool_result, find_result, find_accepted,
  read_tool_result,
}
use eventide.Pages.Walk.{read_on, read_tool_result-pages}
use eventide.Chunks.{Chunk, window_chunks, preferred_end, last_below, is_blank_text}
use eventide.Chunks.Windows.{Covers, window_chunks-Covers}

abbrev a_row : ToolRow
a_row = record {
  session_id = "s";
  run_id = some "r";
  completed = true;
  call_id = some "c";
  content = stored_text (codes "abcde");
}

-- The reader of another session, to which an acceptance opens the call.
abbrev a_reader : Reader
a_reader = record {
  rows = a_row ∷ [];
  session_id = "other";
  acceptance = some (record {
    reader_run_id = "w";
    session_id = "s";
    run_id = "r";
    call_ids = "c" ∷ [];
    delivery_id = "d";
    round = 1;
    patch_sha256 = "p";
  });
  current_run_id = some "w";
}

found_row : find_result a_reader "r" "c" ≡ some (a_reader.acceptance, codes "abcde")
unfolding String_discrete find_result find_accepted get_tool_result
found_row = refl

read_tool_result-pages_example :
    read_on 6 (λ o. read_tool_result a_reader "r" "c" (integer (pos o)) (integer (pos 2))) 0
    ≡ some (codes "abcde")
read_tool_result-pages_example =
    read_tool_result-pages a_reader "r" "c" (a_reader.acceptance, codes "abcde") 2 found_row
      (omega arith) (omega arith)

a_page :
    read_tool_result a_reader "r" "c" (integer (pos 2)) (integer (pos 2))
    ≡ page (record {
      origin = a_reader.acceptance;
      start = 2;
      stop = 4;
      total = 5;
      next_offset = some 4;
      text = codes "cd";
    })
unfolding String_discrete read_tool_result find_result find_accepted get_tool_result page_at
a_page = refl

abbrev repeated : ℕ → ℕ → List ℕ
repeated zero c = []
repeated (suc n) c = c ∷ repeated n c

abbrev long_text : List ℕ
long_text = repeated 12_003 b'x'

abbrev long_row : ToolRow
long_row = record a_row { content = stored_text long_text }

abbrev a_text : List ℕ
a_text = codes "one\ntwo\n"

window_chunks-Covers_example :
    (chunks : List Chunk) × (window_chunks 9 [] [] a_text 0 8 ≡ some chunks)
    × Covers a_text 8 0 chunks
window_chunks-Covers_example = window_chunks-Covers [] [] a_text 8 (omega arith) 9 0 (omega arith)

a_chunk :
    window_chunks 9 [] [] a_text 4 8
    ≡ some (
        record { file = []; start_line = 2; end_line = 2; heading = []; text = codes "two\n" } ∷ [])
unfolding window_chunks ℕ_discrete preferred_end is_blank_text is_space
a_chunk = refl

-- After 800 blank characters the rest of a section is left out.
left_out : window_chunks 9 [] [] (repeated 800 b' ' ++ codes "text") 0 804 ≡ some []
unfolding window_chunks ℕ_discrete preferred_end last_below is_blank_text is_space
left_out = refl
