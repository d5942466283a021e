-- ===== src/Policies.antt =====
-- What a tool may do: `PolicyEngine.evaluate` of eventide/policy.py, and the modes of a run of
-- eventide/run_policy.py. The searches for the patterns of commands and the resolving of a path are
-- arguments.
pub mod Plan
use eventide.Prelude.{
  ℕ, codes, nat_eq, String, List, [], ◌∷◌, Option, none, some, Bool, true, false, not, ◌&&◌, ◌||◌,
  ◌==◌, string_eq, if◌then◌else◌, select,
}
use eventide.Store.State.{contains}

pub data PolicyDecision : Type 0 where
  allow ask deny : PolicyDecision

pub record PolicyResult : Type 0 where
  pub decision : PolicyDecision
  pub reason : String

-- `text.startswith(prefix)`
abbrev pub starts_with : List ℕ → List ℕ → Bool
starts_with [] text = true
starts_with (c ∷ prefix) [] = false
starts_with (c ∷ prefix) (d ∷ text) = c == d && starts_with prefix text

-- What the policy finds in a call: the patterns that its command matches, the error of resolving its
-- path within the workspace, and whether a server's tool is trusted to only read.
pub record CallView : Type 0 where
  pub denied_command : Bool
  pub review_command : Bool
  pub path_error : Option String
  pub trusted_readonly : Bool

abbrev pub safe_file_tools : List String
safe_file_tools = "read_file" ∷ "glob" ∷ "search_text" ∷ []

abbrev pub safe_read_tools : List String
safe_read_tools = "search_knowledge" ∷ []

abbrev pub write_file_tools : List String
write_file_tools = "write_file" ∷ "edit_file" ∷ []

abbrev pub result_of : PolicyDecision → String → PolicyResult
result_of decision reason = record { decision = decision; reason = reason }

abbrev pub evaluate_command : CallView → PolicyResult
evaluate_command c =
    if c.denied_command
    then result_of deny "Command matches the non-overridable deny policy"
    else if c.review_command
    then result_of ask "Command may delete or irreversibly alter data"
    else result_of allow "Command passed local policy"

abbrev pub scoped : PolicyResult
scoped = result_of allow "Path is scoped to the workspace"

abbrev pub evaluate_path : Option String → PolicyResult
evaluate_path none = scoped
evaluate_path (some message) = result_of deny message

abbrev pub evaluate_mcp : CallView → PolicyResult
evaluate_mcp c =
    if c.trusted_readonly
    then result_of allow "MCP server declares this tool read-only"
    else result_of ask "External MCP tools require explicit approval unless read-only"

unfoldable pub evaluate : String → CallView → PolicyResult
evaluate tool_name c =
    if tool_name == "bash"
    then evaluate_command c
    else if tool_name == "run_skill_script"
    then result_of ask "Skill scripts execute code with the selected backend"
    else if contains tool_name safe_read_tools
    then result_of allow "Read-only Runtime tool"
    else if contains tool_name safe_file_tools || contains tool_name write_file_tools
    then if tool_name == "glob" then scoped else evaluate_path c.path_error
    else if starts_with (codes "mcp__") (codes tool_name)
    then evaluate_mcp c
    else result_of allow "No elevated risk detected"

abbrev pub plan_readonly_tools : List String
plan_readonly_tools =
    "read_file" ∷ "glob" ∷ "search_text" ∷ "compact" ∷ "read_tool_result" ∷ "todo_write"
    ∷ "load_skill" ∷ "read_skill_resource" ∷ "search_knowledge" ∷ "delegate_readonly" ∷ []

-- `normalize_mode`; a value that is no text is `none`.
unfoldable pub normalize_mode : Option String → String
normalize_mode none = "auto"
normalize_mode (some value) =
    if contains value ("auto" ∷ "plan" ∷ "agent" ∷ []) then value else "auto"

-- `filter_tool_catalog` on the names of the tools.
unfoldable pub filter_tool_catalog : List String → String → List String
filter_tool_catalog tools mode =
    if not (mode == "plan") then tools else select (λ name. contains name plan_readonly_tools) tools

unfoldable pub should_auto_approve : String → Bool
should_auto_approve mode = mode == "agent"
