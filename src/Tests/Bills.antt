-- ===== src/Tests/Bills.antt =====
-- One attempt of a model, reported by its provider, and the delivery whose repair made it.
use eventide.Prelude.{
  ◌↔◌, ◌≡◌, refl, List, [], ◌∷◌, none, some, Bool, true, false, String_discrete, pos,
}
use eventide.Runtime.{ok}
use eventide.Facts.{
  UsageBasis-discrete, Attempt, Fact, reported, input_output, model_attempt_started,
  model_attempt_finished,
}
use eventide.Store.State.{Event}
use eventide.Usage.Providers.{Report, anthropic, normalize_provider_usage, with_caches, uncached}
use eventide.Usage.{normalize_usage, usage_snapshot, any_counter, has_totals, counter}
use eventide.Usage.Ledger.{
  AttemptKey-discrete, Collected, collect, collect_all, add_start, add_finish, new_runs, key_of,
  slot_of,
}
use eventide.Usage.Rows.{
  Row, same_text, payload_of, usage_of, attempt_rows, legacy_rows, attempt_row, merge_payloads,
}
use eventide.Usage.Totals.{build_usage_ledger, ledger_of, sort_rows, insert_row}
use eventide.Usage.Replays.{collect-collect}
use eventide.Usage.Complete.{IsReported, build_usage_ledger-IsReported}
use eventide.Store.State.{Store, facts_by_type}
use eventide.Facts.{budget_reserved}
use eventide.RunState.{running}
use eventide.Deliveries.{RepairLimits, LimitView, delivery_usage, delivery_limit_reason}
use eventide.Deliveries.Limits.{IsOpen, MayGoOn, delivery_limit_reason-IsOpen}
use eventide.Tests.Data.{usage, blank, reservation}

abbrev started : Attempt
started = record {
  attempt_id = some "a";
  request_id = none;
  attempt = none;
  kind = none;
  model = some "m";
  status = none;
  usage = none;
  usage_source = none;
  usage_basis = input_output;
}

abbrev finished : Attempt
finished = record started {
  status = some "completed";
  usage = some (record {
    input_tokens = some (pos 25);
    output_tokens = some (pos 10);
    cache_read_input_tokens = none;
    cache_creation_input_tokens = none;
    cache_miss_input_tokens = none;
    uncached_input_tokens = none;
    reasoning_tokens = none;
  });
}

abbrev event_of : Fact → Event
event_of fact = record {
  event_id = "e";
  session_id = "s";
  session_seq = 1;
  turn_id = some "t";
  run_id = some "r";
  ts = 100;
  fact = fact;
  role = "system";
  author = "runtime";
  partial = false;
}

abbrev events : List Event
events = event_of (model_attempt_started started) ∷ event_of (model_attempt_finished finished) ∷ []

abbrev row : Row
row = record {
  session_id = "s";
  run_id = some "r";
  request_id = none;
  attempt_id = "a";
  attempt = none;
  kind = "agent";
  model = some "m";
  status = "completed";
  request_observed = true;
  started_at = 100;
  finished_at = some 100;
  usage = usage;
  usage_source = reported;
  usage_complete = true;
  usage_basis = input_output;
}

abbrev everything : Row → Bool
everything r = true

billed : build_usage_ledger everything events ≡ ok (ledger_of (row ∷ []) [])
unfolding String_discrete build_usage_ledger collect_all collect add_start add_finish new_runs
    attempt_rows legacy_rows attempt_row same_text payload_of usage_of merge_payloads sort_rows
    insert_row usage_snapshot normalize_usage any_counter has_totals counter AttemptKey-discrete
    UsageBasis-discrete
billed = refl

billed_complete : (ledger_of (row ∷ []) []).complete ≡ true
unfolding ledger_of
billed_complete = refl

build_usage_ledger-IsReported_example : IsReported (ledger_of (row ∷ []) [])
build_usage_ledger-IsReported_example =
    build_usage_ledger-IsReported everything events (ledger_of (row ∷ []) []) billed billed_complete

abbrev nothing : Collected
nothing = record { attempts = []; legacy = []; authorities = [] }

abbrev start_event : Event
start_event = event_of (model_attempt_started started)

abbrev one_attempt : Collected
one_attempt = record nothing {
  attempts =
      (
        key_of (slot_of start_event started),
        record { start = some (slot_of start_event started); finish = none },
      )
      ∷ [];
}

collected : collect (some "r" ∷ []) nothing start_event ≡ ok one_attempt
unfolding String_discrete collect add_start
collected = refl

abbrev copy : Event
copy = record start_event { event_id = "copy"; session_seq = 9; ts = 900 }

abbrev finish_event : Event
finish_event = event_of (model_attempt_finished finished)

abbrev whole_attempt : Collected
whole_attempt = record nothing {
  attempts =
      (
        key_of (slot_of start_event started),
        record {
          start = some (slot_of start_event started);
          finish = some (slot_of finish_event finished);
        },
      )
      ∷ [];
}

collected_after : collect_all (some "r" ∷ []) one_attempt (finish_event ∷ []) ≡ ok whole_attempt
unfolding String_discrete collect_all collect add_finish AttemptKey-discrete
collected_after = refl

-- A copy of the start, with another envelope, after the end.
collect-collect_example : collect (some "r" ∷ []) whole_attempt copy ≡ ok whole_attempt
collect-collect_example =
    collect-collect (some "r" ∷ []) nothing one_attempt whole_attempt start_event copy
      (finish_event ∷ []) refl refl refl collected collected_after

abbrev report : Report
report = record {
  public = record {
    input_tokens = some (pos 25);
    output_tokens = some (pos 10);
    cache_read_input_tokens = some (pos 5);
    cache_creation_input_tokens = none;
    cache_miss_input_tokens = none;
    uncached_input_tokens = none;
    reasoning_tokens = none;
  };
  prompt_tokens = none;
  completion_tokens = none;
  prompt_cached = none;
  input_cached = none;
  prompt_cache_hit_tokens = none;
  prompt_cache_miss_tokens = none;
  completion_reasoning = none;
  output_reasoning = none;
}

total_read : (normalize_provider_usage anthropic report).input_tokens ≡ some 30
unfolding normalize_provider_usage with_caches counter
total_read = refl

uncached_read : (normalize_provider_usage anthropic report).uncached_input_tokens ≡ some 25
unfolding normalize_provider_usage uncached counter
uncached_read = refl

-- The log of a delivery with one attempt, which its repair has started.
abbrev delivered : Store
delivered = record blank {
  events =
      event_of (
        budget_reserved (record reservation {
          context = record { project_id = some "p"; root_run_id = "r"; delivery_id = some "d" };
        }))
      ∷ events;
}

delivered_usage : delivery_usage delivered "d" ≡ ok (ledger_of (row ∷ []) [])
unfolding String_discrete delivery_usage facts_by_type build_usage_ledger collect_all collect
    add_start add_finish new_runs attempt_rows legacy_rows attempt_row same_text payload_of usage_of
    merge_payloads sort_rows insert_row usage_snapshot normalize_usage any_counter has_totals
    counter AttemptKey-discrete UsageBasis-discrete
delivered_usage = refl

abbrev started_limits : RepairLimits
started_limits = record { model_attempts = 36; observed_tokens = 60_000; deadline = 1_000 }

abbrev view : LimitView
view = record {
  started = some started_limits;
  finished = false;
  owner = some running;
  now = 100;
  ledger = ledger_of (row ∷ []) [];
}

delivery_limit_reason-IsOpen_example :
    ((delivery_limit_reason view "agent" true ≡ none) ↔ IsOpen started_limits view "agent")
    × ((delivery_limit_reason view "agent" false ≡ none) ↔ MayGoOn started_limits view)
delivery_limit_reason-IsOpen_example =
    delivery_limit_reason-IsOpen delivered "d" started_limits view "agent" refl delivered_usage
