-- ===== src/Facts.antt =====
-- The facts of the Event Log: an event's type with its payload, as the callers of
-- eventide/store.py write them (eventide/budgets.py, eventide/scheduler.py,
-- eventide/tool_loops.py, eventide/store.py itself). A payload that is read by a key stands with
-- that key as a field; `None` and a missing key are `none`.
use eventide.Prelude.{
  ℕ, ℤ, String, List, [], ◌∷◌, Option, none, some, Bool, false, not, Eq, String_discrete, ◌==◌,
  string_eq, any,
}
use native.Mathlib.Decide.{ℕ_discrete}
use eventide.Runtime.{BudgetScope, BudgetScope-discrete}

-- `bool(value)` of an optional text
abbrev pub truthy : Option String → Bool
truthy none = false
truthy (some s) = not (s == "")

-- The keys of `TOKEN_FIELDS` of eventide/usage.py; a key that is absent is `none`.
pub record Usage : Type 0 where
  pub input_tokens : Option ℕ
  pub output_tokens : Option ℕ
  pub cache_read_input_tokens : Option ℕ
  pub cache_creation_input_tokens : Option ℕ
  pub cache_miss_input_tokens : Option ℕ
  pub uncached_input_tokens : Option ℕ
  pub reasoning_tokens : Option ℕ

pub data UsageBasis : Type 0 where
  input_output input_only : UsageBasis

pub data UsageSource : Type 0 where
  reported estimated unknown : UsageSource

-- `BudgetContext` of eventide/budgets.py
pub record BudgetContext : Type 0 where
  pub project_id : Option String
  pub root_run_id : String
  pub delivery_id : Option String

-- The payloads of budget.configured, budget.reserved, budget.settled and budget.resolved.
pub record Configuration : Type 0 where
  pub request_id : String
  pub scope : BudgetScope
  pub token_limit : Option ℕ

pub record Reservation : Type 0 where
  pub attempt_id : String
  pub run_id : String
  pub session_id : String
  pub context : BudgetContext
  pub input_estimate : ℕ
  pub output_estimate : ℕ
  pub estimate_method : String
  pub reserved_tokens : ℕ
  pub reserved_at : String
  pub scopes : List BudgetScope
  pub usage_basis : UsageBasis

pub record Settlement : Type 0 where
  pub attempt_id : String
  pub usage : Usage
  pub usage_source : UsageSource
  pub actual_tokens : Option ℕ

pub record Resolution : Type 0 where
  pub attempt_id : String
  pub actual_tokens : ℕ
  pub reason : String
  pub request_id : String

-- The payload of run.admitted and run.started.
pub record RunIntent : Type 0 where
  pub parent_run_id : Option String
  pub delivery_id : Option String
  pub writer_delivery_id : Option String
  pub project_id : Option String
  pub source : Option String
  pub billing_scope : Option String

-- The public counters as a provider reports them.
pub record RawUsage : Type 0 where
  pub input_tokens : Option ℤ
  pub output_tokens : Option ℤ
  pub cache_read_input_tokens : Option ℤ
  pub cache_creation_input_tokens : Option ℤ
  pub cache_miss_input_tokens : Option ℤ
  pub uncached_input_tokens : Option ℤ
  pub reasoning_tokens : Option ℤ

-- The payload of model.attempt_started and model.attempt_finished. A source that is not one of the
-- three is `none`.
pub record Attempt : Type 0 where
  pub attempt_id : Option String
  pub request_id : Option String
  pub attempt : Option ℤ
  pub kind : Option String
  pub model : Option String
  pub status : Option String
  pub usage : Option RawUsage
  pub usage_source : Option UsageSource
  pub usage_basis : UsageBasis

-- `usage_authority` of a response that an evaluation pays for; the `kind` is "evaluation".
pub record Reference : Type 0 where
  pub run_id : String
  pub case_id : String
  pub case_index : ℕ

-- Whether the key is there, and whether its value has the four keys of a reference.
pub data Authority : Type 0 where
  no_authority : Authority
  malformed : Authority
  refers : Reference → Authority

-- The payload of model.response and context.summary_generated that usage is read off.
pub record Response : Type 0 where
  pub model : Option String
  pub usage : Option RawUsage
  pub authority : Authority

-- The `metadata` of a tool's outcome that eventide/tool_loops.py reads, and its payload.
pub record Metadata : Type 0 where
  pub outcome_unknown : Bool
  pub code : Option String
  pub exit_code : Option ℤ
  pub exception_type : Option String

pub record ToolOutcome : Type 0 where
  pub call_id : Option String
  pub name : Option String
  pub is_error : Bool
  pub failure_fingerprint : Option String
  pub metadata : Metadata

-- The `checkpoint` of a workspace.checkpoint that is a dict: its canonical text, whether it is empty,
-- and whether its `available` is False.
pub record Checkpoint : Type 0 where
  pub content : String
  pub is_empty : Bool
  pub unavailable : Bool

pub data Fact : Type 0 where
  budget_configured : Configuration → Fact
  budget_reserved : Reservation → Fact
  budget_settled : Settlement → Fact
  budget_resolved : Resolution → Fact
  run_admitted run_started : RunIntent → Fact
  run_completed run_failed run_interrupted : Fact
  control_session : Option String → Fact
  model_attempt_started model_attempt_finished : Attempt → Fact
  model_response context_summary_generated : Response → Fact
  workspace_checkpoint : Option Checkpoint → Fact
  tool_prepared : Fact
  tool_completed tool_outcome_unknown : ToolOutcome → Fact
  session_created : String → Fact
  session_deleted : String → Fact
  session_metadata_changed : String → Option String → Bool → Fact
  http_mutation_completed : String → Fact
  other : String → Fact

-- `event["type"]`
abbrev pub type_of : Fact → String
type_of (budget_configured _) = "budget.configured"
type_of (budget_reserved _) = "budget.reserved"
type_of (budget_settled _) = "budget.settled"
type_of (budget_resolved _) = "budget.resolved"
type_of (run_admitted _) = "run.admitted"
type_of (run_started _) = "run.started"
type_of run_completed = "run.completed"
type_of run_failed = "run.failed"
type_of run_interrupted = "run.interrupted"
type_of (control_session _) = "control.session"
type_of (model_attempt_started _) = "model.attempt_started"
type_of (model_attempt_finished _) = "model.attempt_finished"
type_of (model_response _) = "model.response"
type_of (context_summary_generated _) = "context.summary_generated"
type_of (workspace_checkpoint _) = "workspace.checkpoint"
type_of tool_prepared = "tool.prepared"
type_of (tool_completed _) = "tool.completed"
type_of (tool_outcome_unknown _) = "tool.outcome_unknown"
type_of (session_created _) = "session.created"
type_of (session_deleted _) = "session.deleted"
type_of (session_metadata_changed _ _ _) = "session.metadata_changed"
type_of (http_mutation_completed _) = "http.mutation_completed"
type_of (other kind) = kind

-- `TERMINALS` of eventide/projections.py
abbrev pub terminals : List String
terminals = "run.completed" ∷ "run.failed" ∷ "run.interrupted" ∷ []

unfoldable pub is_terminal : Fact → Bool
is_terminal f = any (λ t. type_of f == t) terminals

unfoldable pub Usage-discrete : Discrete Usage
Usage-discrete = hlevel ℕ_discrete

unfoldable pub BudgetContext-discrete : Discrete BudgetContext
BudgetContext-discrete = hlevel String_discrete

unfoldable pub UsageBasis-discrete : Discrete UsageBasis
UsageBasis-discrete = hlevel

unfoldable pub RunIntent-discrete : Discrete RunIntent
RunIntent-discrete = hlevel String_discrete

unfoldable pub Reference-discrete : Discrete Reference
Reference-discrete = hlevel (String_discrete, ℕ_discrete)

pub UsageSource-discrete : Discrete UsageSource
UsageSource-discrete = hlevel

unfoldable pub ℤ-discrete : Discrete ℤ
ℤ-discrete = hlevel ℕ_discrete

pub RawUsage-discrete : Discrete RawUsage
RawUsage-discrete = hlevel ℤ-discrete

unfoldable pub Attempt-discrete : Discrete Attempt
Attempt-discrete =
    hlevel
      (String_discrete, ℤ-discrete, RawUsage-discrete, UsageSource-discrete, UsageBasis-discrete)

unfoldable pub Configuration-discrete : Discrete Configuration
Configuration-discrete = hlevel (String_discrete, ℕ_discrete, BudgetScope-discrete)

unfoldable pub Reservation-discrete : Discrete Reservation
Reservation-discrete =
    hlevel (
      String_discrete, ℕ_discrete, BudgetScope-discrete, BudgetContext-discrete,
      UsageBasis-discrete,
    )

unfoldable pub Settlement-discrete : Discrete Settlement
Settlement-discrete = hlevel (String_discrete, ℕ_discrete, Usage-discrete)

unfoldable pub Resolution-discrete : Discrete Resolution
Resolution-discrete = hlevel (String_discrete, ℕ_discrete)

instance abbrev pub context_eq : Eq BudgetContext
context_eq = record { dec = BudgetContext-discrete }

instance abbrev pub basis_eq : Eq UsageBasis
basis_eq = record { dec = UsageBasis-discrete }

instance abbrev pub intent_eq : Eq RunIntent
intent_eq = record { dec = RunIntent-discrete }

instance abbrev pub int_eq : Eq ℤ
int_eq = record { dec = ℤ-discrete }

instance abbrev pub reference_eq : Eq Reference
reference_eq = record { dec = Reference-discrete }

instance abbrev pub attempt_eq : Eq Attempt
attempt_eq = record { dec = Attempt-discrete }

instance abbrev pub configuration_eq : Eq Configuration
configuration_eq = record { dec = Configuration-discrete }

instance abbrev pub reservation_eq : Eq Reservation
reservation_eq = record { dec = Reservation-discrete }

instance abbrev pub settlement_eq : Eq Settlement
settlement_eq = record { dec = Settlement-discrete }

instance abbrev pub resolution_eq : Eq Resolution
resolution_eq = record { dec = Resolution-discrete }
