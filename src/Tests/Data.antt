-- ===== src/Tests/Data.antt =====
-- The inputs of the tests: a store, a reservation and its ledger, and a scheduler.
use eventide.Prelude.{ℕ, zero, suc, [], ◌∷◌, none, some}
use eventide.Runtime.{BudgetScope, run, project}
use eventide.Facts.{Reservation, input_output, Usage, RunIntent, Settlement, Resolution, reported}
use eventide.Store.State.{Store, Stamp}
use eventide.Budgets.Ledger.{State, Item}
use eventide.Scheduler.Admission.{SchedulingLimits}

abbrev pub stamps : ℕ → Stamp
stamps zero = record { identity = "e0"; time = 100 }
stamps (suc zero) = record { identity = "e1"; time = 101 }
stamps (suc (suc n)) = record { identity = "e2"; time = 102 }

abbrev pub blank : Store
blank = record {
  stamp = stamps;
  row_stamp = stamps;
  default_workspace = "w";
  workspaces = [];
  sessions = [];
  turns = [];
  runs = [];
  events = [];
}

abbrev pub run_scope : BudgetScope
run_scope = record { kind = run; identity = "r" }

abbrev pub project_scope : BudgetScope
project_scope = record { kind = project; identity = "p" }

abbrev pub reservation : Reservation
reservation = record {
  attempt_id = "a";
  run_id = "r";
  session_id = "s";
  context = record { project_id = some "p"; root_run_id = "r"; delivery_id = none };
  input_estimate = 30;
  output_estimate = 20;
  estimate_method = "chars";
  reserved_tokens = 50;
  reserved_at = "2026-01-01T00:00:00+00:00";
  scopes = run_scope ∷ project_scope ∷ [];
  usage_basis = input_output;
}

-- A ledger with a limit on the project.
abbrev pub limited : State
limited = record {
  limits = (project_scope, some 80) ∷ [];
  requests = [];
  reservations = [];
  seen_changes = [];
}

abbrev pub item : Item
item = record { reservation = reservation; settlement = none; resolution = none }

abbrev pub spent : State
spent = record limited { reservations = ("a", item) ∷ [] }

abbrev pub usage : Usage
usage = record {
  input_tokens = some 25;
  output_tokens = some 10;
  cache_read_input_tokens = none;
  cache_creation_input_tokens = none;
  cache_miss_input_tokens = none;
  uncached_input_tokens = none;
  reasoning_tokens = none;
}

abbrev pub settlement : Settlement
settlement = record {
  attempt_id = "a";
  usage = usage;
  usage_source = reported;
  actual_tokens = some 35;
}

abbrev pub resolution : Resolution
resolution = record {
  attempt_id = "a";
  actual_tokens = 40;
  reason = "provider invoice";
  request_id = "q";
}

abbrev pub limits : SchedulingLimits
limits = record { active_roots = 1; model_requests = 2; waiting_roots = 1 }

abbrev pub intent : RunIntent
intent = record {
  parent_run_id = none;
  delivery_id = none;
  writer_delivery_id = none;
  project_id = some "p";
  source = none;
  billing_scope = none;
}
