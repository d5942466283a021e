-- ===== src/Tests/Modes.antt =====
-- The read-only mode of a run, and the policy on single calls.
use native.Mathlib.Decide.{ℕ_discrete}
use eventide.Prelude.{◌≡◌, refl, String, List, [], ◌∷◌, some, true, false, String_discrete}
use eventide.Store.State.{contains}
use eventide.Policies.{ask, deny, CallView, evaluate, filter_tool_catalog, normalize_mode}
use eventide.Policies.Plan.{IsReading, filter_tool_catalog-IsReading}

abbrev a_call : CallView
a_call = record {
  denied_command = false;
  review_command = true;
  path_error = some "Path escapes workspace: ../x";
  trusted_readonly = false;
}

reviewed : (evaluate "bash" a_call).decision ≡ ask
unfolding String_discrete evaluate
reviewed = refl

escaped : (evaluate "edit_file" a_call).decision ≡ deny
unfolding String_discrete evaluate
escaped = refl

external : (evaluate "mcp__x" a_call).decision ≡ ask
unfolding String_discrete ℕ_discrete evaluate
external = refl

unknown_mode : normalize_mode (some "root") ≡ "auto"
unfolding String_discrete normalize_mode
unknown_mode = refl

abbrev catalog : List String
catalog = "bash" ∷ "glob" ∷ "mcp__x" ∷ []

shown_tool : contains "glob" (filter_tool_catalog catalog "plan") ≡ true
unfolding String_discrete filter_tool_catalog
shown_tool = refl

filter_tool_catalog-IsReading_example : (contains "glob" catalog ≡ true) × IsReading a_call "glob"
filter_tool_catalog-IsReading_example =
    filter_tool_catalog-IsReading catalog "glob" a_call shown_tool
