-- ===== src/Store/Sessions.antt =====
-- Session rows of eventide/store.py: `create_session`, `update_session`, `delete_session` and
-- `commit_session_metadata`. The digest of a row (eventide/workspace.py) is an argument.
use eventide.Prelude.{
  String, ◌∷◌, Option, none, some, Bool, true, false, not, ◌&&◌, ◌||◌, insert, remove, any, values,
  ◌==◌, string_eq, if◌then◌else◌, length, strip, spaced, first_chars,
}
use eventide.Runtime.{Result, ok, err, value_error, ◌>>=◌, ◌>>◌, raise_if, or_raise}
use eventide.Facts.{
  Fact, truthy, session_created, session_deleted, session_metadata_changed, http_mutation_completed,
}
use eventide.Store.State.{Store, Session, contains, get_session}
use eventide.Store.Log.{append_fact, user}

-- `working_directory or "."`
or_dot : Option String → String
or_dot none = "."
or_dot (some d) = if truthy (some d) then d else "."

-- `register_workspace` of the directory that holds the database
unfoldable pub register_default : Store → Store
register_default s =
    if contains s.default_workspace s.workspaces
    then s
    else record s { workspaces = s.default_workspace ∷ s.workspaces }

-- `if value is not None and current != value`
differs : Option String → String → Bool
differs none current = false
differs (some v) current = not (current == v)

-- The session exists already.
unfoldable pub reuse : Store → Session → Option String → Option String → Bool → Result Store
unfolding differs
reuse s existing workspace_id working_directory mutated = do
  raise_if mutated "Session creation identity already exists"
  raise_if (truthy workspace_id && differs workspace_id existing.workspace_id)
      "Session is bound to a different workspace"
  raise_if (differs working_directory existing.working_directory)
      "Session is bound to a different working directory"
  ok s

-- The workspace that a new session is bound to.
unfoldable pub choose_workspace : Store → Option String → Bool → Result (Store × String)
unfolding register_default
choose_workspace s (some w) mutated =
    if contains w s.workspaces then ok (s, w) else err (value_error "Workspace not found")
choose_workspace s none mutated = do
  raise_if mutated "Atomic Session creation requires a Workspace"
  ok (register_default s, s.default_workspace)

abbrev row_time : Store → Session → Session
row_time s row = record row { created_at = (s.row_stamp (length s.sessions)).time }

unfoldable pub insert_session : Store → String → String → Option String → Store
unfolding or_dot
insert_session s session_id workspace_id working_directory = record s {
  sessions =
      insert session_id
        (record {
          workspace_id = workspace_id;
          created_at = (s.row_stamp (length s.sessions)).time;
          working_directory = or_dot working_directory;
          title = none;
          archived = false;
        })
        s.sessions;
}

-- The receipt of an HTTP mutation: its owner session and its identity.
unfoldable pub receipt : Store → String → Option (String × String) → Result Store
receipt s session_id none = ok s
receipt s session_id (some (owner, identity)) = do
  a ← append_fact s owner (session_created session_id) (user none)
  b ← append_fact a.1 owner (http_mutation_completed identity) (user none)
  ok b.1

abbrev pub is_some {ℓ} : {A : Type ℓ} → Option A → Bool
is_some none = false
is_some (some _) = true

unfoldable pub create_session :
    Store → String → Option String → Option String → Option (String × String) → Result Store
unfolding reuse choose_workspace insert_session receipt
create_session s session_id workspace_id working_directory mutation =
    elim (get_session s session_id) [
      | some existing ↦ reuse s existing workspace_id working_directory (is_some mutation)
      | none ↦ do
        (s₁, w) ← choose_workspace s workspace_id (is_some mutation)
        receipt (insert_session s₁ session_id w working_directory) session_id mutation
    ]

-- Whether a session has events or runs.
unfoldable pub has_history : Store → String → Bool
has_history s session_id =
    any (λ e. e.session_id == session_id) s.events
    || any (λ r. r.session_id == session_id) (values s.runs)

unfoldable pub delete_session : Store → String → Result Store
unfolding has_history
delete_session s session_id = do
  _ ← or_raise (get_session s session_id) "Session not found"
  raise_if (has_history s session_id) "Session has history; archive it instead of deleting"
  ok (record s { sessions = remove session_id s.sessions })

-- The title that is stored, of a title that is given.
unfoldable pub clean_title : Option String → Option String → Result (Option String)
clean_title none current = ok current
clean_title (some title) current = do
  let cleaned = strip (spaced title)
  raise_if (cleaned == "") "Session title cannot be empty"
  ok (some cleaned)

abbrev or_current : Option Bool → Bool → Bool
or_current none current = current
or_current (some a) current = a

short : Option String → Option String → Option String
short none cleaned = cleaned
short (some _) none = none
short (some _) (some title) = some (first_chars 96 title)

unfoldable pub update_session : Store → String → Option String → Option Bool → Result Store
unfolding clean_title short
update_session s session_id title archived = do
  row ← or_raise (get_session s session_id) "Session not found"
  cleaned ← clean_title title row.title
  raise_if (not (is_some title) && not (is_some archived)) "No session changes supplied"
  ok (record s {
    sessions =
        insert session_id
          (record row { title = short title cleaned; archived = or_current archived row.archived })
          s.sessions;
  })

-- The row part of `commit_session_metadata`, with the fact that records it.
unfoldable pub change_metadata :
    Store → String → Session → Bool → Option String → Option Bool → Result (Store × Fact)
unfolding has_history clean_title
change_metadata s session_id row deleted title archived =
    if deleted
    then (do
      raise_if (has_history s session_id) "Session has history; archive it instead of deleting"
      ok (record s { sessions = remove session_id s.sessions }, session_deleted session_id))
    else (do
      raise_if (not (is_some title) && not (is_some archived)) "No session changes supplied"
      cleaned ← clean_title title row.title
      let kept = or_current archived row.archived
      ok (
        record s {
          sessions = insert session_id (record row { title = cleaned; archived = kept }) s.sessions;
        },
        session_metadata_changed session_id cleaned kept,
      ))

unfoldable pub commit_session_metadata :
    (String → Session → String)
    → Store
    → String
    → String
    → String
    → String
    → Bool
    → Option String
    → Option Bool
    → Result Store
unfolding change_metadata
commit_session_metadata digest s owner session_id expected_hash mutation_id deleted title archived =
    do
      row ← or_raise (get_session s session_id) "Session not found"
      raise_if (not (digest session_id row == expected_hash))
          "Session metadata changed; refresh before editing"
      (s₁, fact) ← change_metadata s session_id row deleted title archived
      a ← append_fact s₁ owner fact (user none)
      b ← append_fact a.1 owner (http_mutation_completed mutation_id) (user none)
      ok b.1
