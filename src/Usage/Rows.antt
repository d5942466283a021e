-- ===== src/Usage/Rows.antt =====
-- The rows of `build_usage_ledger` of eventide/usage.py: `_attempt_row` and `_legacy_row`. A row
-- stands without its workspace, its phase, the metadata of the request (`_request_metadata`) and
-- its input composition: no row is refused for them, and neither the totals nor the filter of
-- eventide/budget_views.py read them.
use Prim.Native.String.{◌++◌ as join}
use eventide.Prelude.{
  ℕ, String, List, [], ◌∷◌, Option, none, some, Bool, true, false, not, ◌&&◌, ◌||◌, Dict, ◌==◌,
  string_eq, if◌then◌else◌, ℤ,
}
use eventide.Runtime.{Result, ok, err, value_error, ◌>>=◌, ◌>>◌, raise_if}
use eventide.Facts.{
  Attempt, RawUsage, Usage, UsageBasis, input_only, input_output, UsageSource, basis_eq, int_eq,
}
use eventide.Usage.{normalize_usage, usage_snapshot, no_usage, counter}
use eventide.Usage.Ledger.{AttemptKey, AttemptRecord, Slot, LegacyEvent}

-- One of `calls`.
pub record Row : Type 0 where
  pub session_id : String
  pub run_id : Option String
  pub request_id : Option String
  pub attempt_id : String
  pub attempt : Option ℕ
  pub kind : String
  pub model : Option String
  pub status : String
  pub request_observed : Bool
  pub started_at : ℕ
  pub finished_at : Option ℕ
  pub usage : Usage
  pub usage_source : UsageSource
  pub usage_complete : Bool
  pub usage_basis : UsageBasis

abbrev pub or_else {ℓ} : {A : Type ℓ} → Option A → A → A
or_else none a = a
or_else (some b) a = b

abbrev pub first_of {ℓ} : {A : Type ℓ} → Option A → Option A → Option A
first_of (some b) a = some b
first_of none a = a

-- `{**start, **finish}`
unfoldable pub merge_payloads : Attempt → Attempt → Attempt
merge_payloads a b = record {
  attempt_id = first_of b.attempt_id a.attempt_id;
  request_id = first_of b.request_id a.request_id;
  attempt = first_of b.attempt a.attempt;
  kind = first_of b.kind a.kind;
  model = first_of b.model a.model;
  status = first_of b.status a.status;
  usage = first_of b.usage a.usage;
  usage_source = first_of b.usage_source a.usage_source;
  usage_basis = b.usage_basis;
}

unfoldable pub same_text : Option String → Option String → Bool
same_text none none = true
same_text (some a) (some b) = a == b
same_text _ _ = false

abbrev pub same_number : Option ℤ → Option ℤ → Bool
same_number none none = true
same_number (some a) (some b) = a == b
same_number _ _ = false

abbrev pub embeds : UsageBasis → Bool
embeds input_only = true
embeds input_output = false

-- The payload of an attempt, whether it has finished, and its event.
unfoldable pub payload_of : AttemptRecord → Result (Attempt × Bool × Slot)
payload_of r = elim r.start [
  | none ↦ elim r.finish [
    | none ↦ err (value_error "Model attempt without facts")
    | some f ↦ ok (f.payload, true, f)
  ]
  | some s ↦ elim r.finish [
    | none ↦ ok (s.payload, false, s)
    | some f ↦
        raise_if
          (not (same_text s.payload.request_id f.payload.request_id)
            || not (same_number s.payload.attempt f.payload.attempt))
          "Conflicting model attempt identity"
        >> (raise_if (not (s.payload.usage_basis == f.payload.usage_basis))
              "Conflicting model attempt usage basis"
            >> ok (merge_payloads s.payload f.payload, true, s))
  ]
]

-- `payload.get("usage") if finish else None`, normalised
unfoldable pub usage_of : Bool → Option RawUsage → Usage
usage_of false usage = no_usage
usage_of true none = no_usage
usage_of true (some u) = normalize_usage u

abbrev pub is_there {ℓ} : {A : Type ℓ} → Option A → Bool
is_there none = false
is_there (some _) = true

abbrev pub time_of : Option Slot → Option ℕ
time_of none = none
time_of (some s) = some s.ts

-- `_attempt_row`
unfoldable pub attempt_row : AttemptKey → AttemptRecord → Result Row
attempt_row key r = do
  (payload, finished, event) ← payload_of r
  raise_if (embeds payload.usage_basis && not (same_text payload.kind (some "embedding")))
      "Input-only usage requires an embedding attempt"
  snapshot ←
      usage_snapshot (usage_of finished payload.usage) payload.usage_source payload.usage_basis
  ok (record {
    session_id = event.session_id;
    run_id = event.run_id;
    request_id = payload.request_id;
    attempt_id = key.attempt_id;
    attempt = counter payload.attempt;
    kind = or_else payload.kind "agent";
    model = payload.model;
    status = if finished then or_else payload.status "unknown" else "unknown";
    request_observed = is_there r.start;
    started_at = event.ts;
    finished_at = time_of r.finish;
    usage = snapshot.usage;
    usage_source = snapshot.source;
    usage_complete = snapshot.complete;
    usage_basis = payload.usage_basis;
  })

-- `_legacy_row`
unfoldable pub legacy_row : LegacyEvent → Result Row
legacy_row e = do
  snapshot ← usage_snapshot (usage_of true e.payload.usage) none input_output
  ok (record {
    session_id = e.session_id;
    run_id = e.run_id;
    request_id = none;
    attempt_id = join "legacy:" e.event_id;
    attempt = none;
    kind = if e.is_summary then "context_summary" else "agent";
    model = e.payload.model;
    status = "completed";
    request_observed = false;
    started_at = e.ts;
    finished_at = some e.ts;
    usage = snapshot.usage;
    usage_source = snapshot.source;
    usage_complete = false;
    usage_basis = input_output;
  })

unfoldable pub attempt_rows : Dict AttemptKey AttemptRecord → Result (List Row)
attempt_rows [] = ok []
attempt_rows ((key, r) ∷ attempts) = do
  row ← attempt_row key r
  rows ← attempt_rows attempts
  ok (row ∷ rows)

unfoldable pub legacy_rows : List LegacyEvent → Result (List Row)
legacy_rows [] = ok []
legacy_rows (e ∷ legacy) = do row ← legacy_row e; rows ← legacy_rows legacy; ok (row ∷ rows)
