-- ===== src/Recovery.antt =====
-- Continuing and closing interrupted runs: `_validate_continue` and `_recovery_facts` of
-- eventide/host.py, on the events that they read. A checkpoint, which is only compared, stands as its
-- text. The copy that a run is bound to and the workspace's own state are arguments.
pub mod Words
pub mod Closing
pub mod Continue
use eventide.Prelude.{
  ℕ, max, String, List, [], ◌∷◌, ◌++◌, Option, none, some, Bool, true, false, not, ◌&&◌, ltb, leb,
  codes, any, nat_eq, select, map, Dict, insert, remove, values, string_eq, if◌then◌else◌, ◌==◌,
}
use eventide.Runtime.{Result, ok, err, value_error, raise_if, ◌>>=◌, ◌>>◌}
use eventide.Store.State.{contains, is_id}
use eventide.Store.Sets.{add_id, sorted}
use eventide.Messages.{remove_id}
use eventide.RunState.{RunStatus, interrupted, ToolStatus, prepared}

-- A block of a model's message; of one that is no tool call only the type is kept.
pub data ReplyBlock : Type 0 where
  tool_use : String → String → ReplyBlock
  other_block : String → ReplyBlock

-- The payloads that close an unanswered call and an open approval.
pub record Abandonment : Type 0 where
  pub call_id : String
  pub name : String
  pub is_error : Bool
  pub content : String

pub record Resolved : Type 0 where
  pub approval_id : String
  pub approved : Bool
  pub reason : String

pub data HistoryFact : Type 0 where
  responded : List ReplyBlock → HistoryFact
  -- tool.prepared, with `readonly`
  tool_prepared : String → Bool → HistoryFact
  tool_completed : String → HistoryFact
  tool_abandoned : Abandonment → HistoryFact
  outcome_unknown : HistoryFact
  approval_required : String → HistoryFact
  approval_resolved : Resolved → HistoryFact
  checkpointed : HistoryFact
  unread : HistoryFact

pub record HistoryEvent : Type 0 where
  pub partial : Bool
  pub session_seq : ℕ
  pub fact : HistoryFact

-- `pending`, from a call's id to its name, and `approvals`
pub record OpenWork : Type 0 where
  pub pending : Dict String String
  pub approvals : List String

abbrev pub add_calls : List ReplyBlock → Dict String String → Dict String String
add_calls [] pending = pending
add_calls (tool_use identity name ∷ bs) pending = add_calls bs (insert identity name pending)
add_calls (other_block kind ∷ bs) pending = add_calls bs pending

unfoldable pub note_fact : HistoryFact → OpenWork → OpenWork
note_fact (responded bs) w = record w { pending = add_calls bs w.pending }
note_fact (tool_completed call_id) w = record w { pending = remove call_id w.pending }
note_fact (tool_abandoned a) w = record w { pending = remove a.call_id w.pending }
note_fact (approval_required approval_id) w = record w {
  approvals = add_id approval_id w.approvals;
}
note_fact (approval_resolved r) w = record w { approvals = remove_id r.approval_id w.approvals }
note_fact _ w = w

abbrev pub note_event : HistoryEvent → OpenWork → OpenWork
note_event e w = if e.partial then w else note_fact e.fact w

abbrev pub note_events : OpenWork → List HistoryEvent → OpenWork
note_events w [] = w
note_events w (e ∷ events) = note_events (note_event e w) events

-- A fact that the runtime is to write, with its role and its author.
pub record Written : Type 0 where
  pub fact : HistoryFact
  pub role : String
  pub author : String

abbrev pub written : HistoryFact → Written
written fact = record { fact = fact; role = "system"; author = "runtime" }

abbrev pub abandon : String → Dict String String → List Written
abandon content [] = []
abandon content ((identity, name) ∷ pending) =
    written (
      tool_abandoned
        (record { call_id = identity; name = name; is_error = true; content = content }))
    ∷ abandon content pending

abbrev pub resolve : List String → List Written
resolve [] = []
resolve (identity ∷ ids) =
    written (
      approval_resolved
        (record { approval_id = identity; approved = false; reason = "Source run interrupted" }))
    ∷ resolve ids

abbrev pub nothing_open : OpenWork
nothing_open = record { pending = []; approvals = [] }

unfoldable pub recovery_facts : List HistoryEvent → String → List Written
recovery_facts events content =
    let w = note_events nothing_open events in
    abandon content w.pending ++ resolve (sorted w.approvals)

-- The keys of a state of a run that Continue reads.
pub record Operation : Type 0 where
  pub status : ToolStatus
  pub readonly : Bool

pub record Previous : Type 0 where
  pub id : String
  pub status : RunStatus
  pub checkpoint : Option String
  pub tools : Dict String Operation

-- What the Host finds: the checkpoint of the copy that the run is bound to, where it is, or whether
-- the workspace has a Git root, and the checkpoint of it.
pub record Surroundings : Type 0 where
  pub binding : Option (Result String)
  pub git_root : Bool
  pub checkpoint : Option String

abbrev pub is_interrupted : RunStatus → Bool
is_interrupted interrupted = true
is_interrupted _ = false

abbrev pub checkpoint_of_binding : Result String → Result (Option String)
checkpoint_of_binding (err raised) = err raised
checkpoint_of_binding (ok checkpoint) = ok (some checkpoint)

unfoldable pub evidence_of : Surroundings → Result (Option String)
evidence_of around = elim around.binding [
  | some found ↦ checkpoint_of_binding found
  | none ↦
      raise_if (not around.git_root) "Continue requires a Git workspace" >> ok around.checkpoint
]

-- `evidence is None or evidence != previous["checkpoint"]`
abbrev pub has_changed : Option String → Option String → Bool
has_changed none checkpoint = true
has_changed (some evidence) checkpoint = not (is_id checkpoint evidence)

abbrev pub is_unknown_outcome : HistoryFact → Bool
is_unknown_outcome outcome_unknown = true
is_unknown_outcome _ = false

abbrev pub is_checkpoint : HistoryFact → Bool
is_checkpoint checkpointed = true
is_checkpoint _ = false

abbrev pub completed_call : HistoryFact → Option String
completed_call (tool_completed call_id) = some call_id
completed_call _ = none

abbrev pub last_checkpoint : List HistoryEvent → ℕ
last_checkpoint [] = 0
last_checkpoint (e ∷ events) =
    let last = last_checkpoint events in
    if is_checkpoint e.fact then max e.session_seq last else last

abbrev pub readonly_call : HistoryFact → List String → List String
readonly_call (tool_prepared call_id true) ids = call_id ∷ ids
readonly_call _ ids = ids

abbrev pub readonly_calls : List HistoryEvent → List String
readonly_calls [] = []
readonly_calls (e ∷ events) = readonly_call e.fact (readonly_calls events)

-- A tool that has ended, and may have changed something, after the last checkpoint.
abbrev pub lacks_checkpoint : ℕ → List String → HistoryEvent → Bool
lacks_checkpoint last readonly e = elim (completed_call e.fact) [
  | none ↦ false
  | some call_id ↦ ltb last e.session_seq && not (contains call_id readonly)
]

abbrev pub is_unsettled : Operation → Bool
is_unsettled o = elim o.status [ prepared ↦ not o.readonly | _ ↦ false ]

abbrev pub check_history : List HistoryEvent → Result (Unit {0})
check_history events =
    raise_if (any (λ (e : HistoryEvent). is_unknown_outcome e.fact) events)
      "Unknown tool outcome; session remains parked"
    >> raise_if (any (lacks_checkpoint (last_checkpoint events) (readonly_calls events)) events)
        "Missing post-tool checkpoint; session remains parked"

unfoldable pub validate_continue :
    Surroundings → Option Previous → (String → List HistoryEvent) → Result (Unit {0})
validate_continue around none run_events =
    err (value_error "Only an interrupted, parked session can Continue")
validate_continue around (some previous) run_events =
    raise_if (not (is_interrupted previous.status))
      "Only an interrupted, parked session can Continue"
    >> (evidence_of around >>= λ evidence.
        raise_if (has_changed evidence previous.checkpoint)
          "Workspace changed or checkpoint unavailable; session remains parked"
        >> (check_history (run_events previous.id)
            >> raise_if (any is_unsettled (values previous.tools))
                "Unknown tool outcome; session remains parked"))
