-- ===== src/ToolLoops.antt =====
-- The failure window of eventide/tool_loops.py: the last outcomes of tools, read off the Event Log
-- of a run and of those that it continues. The digest of a checkpoint is an argument.
pub mod Chain
pub mod Outcomes
pub mod Failures
use eventide.Prelude.{
  ℕ, zero, suc, ◌+◌, ℤ, pos, negsuc, String, List, [], ◌∷◌, ◌++◌, Option, none, some, Bool, true,
  false, not, ◌&&◌, ◌||◌, any, count_of, leb, take, length, map, ◌==◌, string_eq, nat_eq,
  if◌then◌else◌,
}
use eventide.Facts.{
  Fact, Metadata, ToolOutcome, Checkpoint, workspace_checkpoint, tool_prepared, tool_completed,
  tool_outcome_unknown, truthy, type_of,
}
use eventide.Store.State.{Event, Store, contains, run_events, get_run_identity, RunIdentity}

-- `FAILURE_WINDOW`
abbrev pub failure_window : ℕ
failure_window = 3

abbrev pub opt_same : Option String → Option String → Bool
opt_same none none = true
opt_same (some a) (some b) = a == b
opt_same _ _ = false

-- `type(exit_code) is int and exit_code != 0`
abbrev pub nonzero : Option ℤ → Bool
nonzero none = false
nonzero (some (pos n)) = not (n == 0)
nonzero (some (negsuc n)) = true

-- `_failure_evidence`
unfoldable pub failure_evidence : Metadata → Bool
failure_evidence m =
    not m.outcome_unknown
    && (opt_same m.code (some "timeout")
        || opt_same m.code (some "execution_failed")
          && (nonzero m.exit_code || truthy m.exception_type))

-- A result that is not partial.
unfoldable pub is_result : Event → Bool
is_result e =
    not e.partial
    && elim e.fact [ tool_completed _ ↦ true | tool_outcome_unknown _ ↦ true | _ ↦ false ]

abbrev pub continued : RunIdentity → String
continued identity = elim identity.continuation_of [ none ↦ "" | some r ↦ r ]

-- The loop of `_history`, on fuel; `none` means that the fuel ran out. `later` holds the events of
-- the runs that were visited, oldest run first.
unfoldable pub history_from :
    ℕ → Store → List String → ℕ → List Event → String → Option (List Event)
history_from zero s seen count later run_id = none
history_from (suc fuel) s seen count later run_id =
    if run_id == "" || contains run_id seen then some later else elim (get_run_identity s run_id) [
      | none ↦ some []
      | some identity ↦
          let events = run_events s.events run_id in
          let results = count + count_of is_result events in
          if leb failure_window results
          then some (events ++ later)
          else history_from fuel s (run_id ∷ seen) results (events ++ later) (continued identity)
    ]

-- `_history`; one more turn than there are runs is fuel enough.
unfoldable pub history : Store → String → Option (List Event)
history s run_id = history_from (suc (suc (length s.runs))) s [] 0 [] run_id

-- One dict of `window`.
pub record Outcome : Type 0 where
  pub run_id : Option String
  pub call_id : Option String
  pub name : Option String
  pub signature : Option String
  pub checkpoint : Option String

-- The variables of the loop: the window, newest first; `pending` is its newest dict.
pub record Window : Type 0 where
  pub checkpoint : Option String
  pub window : List Outcome
  pub pending : Bool

-- `value if isinstance(value, dict) and value and value.get("available") is not False else None`
abbrev pub usable : Option Checkpoint → Option String
usable none = none
usable (some c) = if c.is_empty || c.unavailable then none else some c.content

-- `pending["checkpoint"] = checkpoint`
unfoldable pub update_pending : Bool → Option String → List Outcome → List Outcome
update_pending true checkpoint (o ∷ window) = record o { checkpoint = checkpoint } ∷ window
update_pending pending checkpoint window = window

-- The signature of a result.
unfoldable pub signature_of : Fact → Option String
signature_of (tool_completed o) =
    if o.is_error && failure_evidence o.metadata then o.failure_fingerprint else none
signature_of f = none

-- The dict that a result starts.
abbrev pub new_outcome : Window → Event → ToolOutcome → Outcome
new_outcome w e o = record {
  run_id = e.run_id;
  call_id = o.call_id;
  name = o.name;
  signature = signature_of e.fact;
  checkpoint = w.checkpoint;
}

unfoldable pub push_outcome : Window → Event → ToolOutcome → Window
push_outcome w e o = record {
  checkpoint = w.checkpoint;
  window = take failure_window (new_outcome w e o ∷ w.window);
  pending = true;
}

-- The body of the loop of `failure_loop_candidate`.
unfoldable pub window_step : Window → Event → Window
window_step w e = if e.partial then w else elim e.fact [
  | workspace_checkpoint value ↦ record w {
    checkpoint = usable value;
    window = update_pending w.pending (usable value) w.window;
  }
  | tool_prepared ↦ record w { pending = false }
  | tool_completed o ↦ push_outcome w e o
  | tool_outcome_unknown o ↦ push_outcome w e o
  | _ ↦ w
]

unfoldable pub window_of : Window → List Event → Window
window_of w [] = w
window_of w (e ∷ events) = window_of (window_step w e) events

abbrev pub no_window : Window
no_window = record { checkpoint = none; window = []; pending = false }

-- The dict that is returned.
pub record Candidate : Type 0 where
  pub threshold : ℕ
  pub matching_failure_window : ℕ
  pub tool : Option String
  pub failure_fingerprint : Option String
  pub checkpoint_hash : String
  pub continued_failure_chain : Bool
  pub calls : List (Option String × Option String)

unfoldable pub differs_from : Outcome → Outcome → Bool
differs_from last o =
    not (opt_same o.signature last.signature) || not (opt_same o.checkpoint last.checkpoint)

-- The tests after the loop.
unfoldable pub judge : (String → String) → String → List Outcome → Option Candidate
judge digest run_id [] = none
judge digest run_id (last ∷ window) =
    if not (length (last ∷ window) == failure_window)
      || not (truthy last.signature)
      || any (differs_from last) (last ∷ window)
    then none
    else elim last.checkpoint [
      | none ↦ none
      | some checkpoint ↦ some (record {
        threshold = failure_window;
        matching_failure_window = length (last ∷ window);
        tool = last.name;
        failure_fingerprint = last.signature;
        checkpoint_hash = digest checkpoint;
        continued_failure_chain = any (λ o. not (opt_same o.run_id (some run_id))) (last ∷ window);
        calls = oldest_first (last ∷ window) [];
      })
    ]
  where
    oldest_first :
        List Outcome → List (Option String × Option String) → List (Option String × Option String)
    oldest_first [] calls = calls
    oldest_first (o ∷ os) calls = oldest_first os ((o.run_id, o.call_id) ∷ calls)

unfoldable pub failure_loop_candidate :
    (String → String) → Store → String → Option (Option Candidate)
failure_loop_candidate digest s run_id = elim (history s run_id) [
  | none ↦ none
  | some events ↦ some (judge digest run_id (window_of no_window events).window)
]
