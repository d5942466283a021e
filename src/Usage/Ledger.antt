-- ===== src/Usage/Ledger.antt =====
-- The loop of `build_usage_ledger` of eventide/usage.py, which gathers the attempts and the legacy
-- responses that its rows are made of.
use eventide.Prelude.{
  ℕ, String, List, [], ◌∷◌, ◌++◌, Option, none, some, Bool, true, false, not, ◌&&◌, ◌||◌, Dict,
  lookup, insert, ltb, Eq, String_discrete, ◌==◌, string_eq, if◌then◌else◌,
}
use eventide.Runtime.{Result, ok, err, value_error, ◌>>=◌, ◌>>◌, raise_if}
use eventide.Facts.{
  Fact, model_attempt_started, model_attempt_finished, model_response, context_summary_generated,
  Attempt, Response, Authority, no_authority, malformed, refers, Reference, attempt_eq, basis_eq,
  reference_eq, truthy,
}
use eventide.Store.State.{Event}

-- `str(event.get("run_id", ""))` of a column that may be NULL
abbrev pub text_of : Option String → String
text_of none = "None"
text_of (some s) = s

-- The key of `attempts`.
pub record AttemptKey : Type 0 where
  pub run : String
  pub attempt_id : String

unfoldable pub AttemptKey-discrete : Discrete AttemptKey
AttemptKey-discrete = hlevel String_discrete

instance abbrev pub key_eq : Eq AttemptKey
key_eq = record { dec = AttemptKey-discrete }

-- The event of a slot: its payload, session, run and time.
pub record Slot : Type 0 where
  pub payload : Attempt
  pub session_id : String
  pub run_id : Option String
  pub ts : ℕ

pub record AttemptRecord : Type 0 where
  pub start : Option Slot
  pub finish : Option Slot

pub record LegacyEvent : Type 0 where
  pub event_id : String
  pub session_id : String
  pub run_id : Option String
  pub ts : ℕ
  pub is_summary : Bool
  pub payload : Response

-- The variables of the loop.
pub record Collected : Type 0 where
  pub attempts : Dict AttemptKey AttemptRecord
  pub legacy : Dict AttemptKey LegacyEvent
  pub authorities : List Reference

abbrev pub is_attempt : Fact → Bool
is_attempt (model_attempt_started _) = true
is_attempt (model_attempt_finished _) = true
is_attempt _ = false

-- `new_runs`: the runs that have attempt facts.
unfoldable pub new_runs : List Event → List (Option String)
new_runs [] = []
new_runs (e ∷ events) =
    let rest = new_runs events in
    if not e.partial && is_attempt e.fact then e.run_id ∷ rest else rest

abbrev pub same_run : Option String → Option String → Bool
same_run none none = true
same_run (some a) (some b) = a == b
same_run _ _ = false

-- `event.get("run_id") in new_runs`
abbrev pub is_new : List (Option String) → Option String → Bool
is_new [] run_id = false
is_new (r ∷ runs) run_id = same_run run_id r || is_new runs run_id

abbrev pub no_slots : AttemptRecord
no_slots = record { start = none; finish = none }

abbrev pub record_of : Option AttemptRecord → AttemptRecord
record_of none = no_slots
record_of (some r) = r

abbrev pub conflicts : Option Slot → Slot → Bool
conflicts none slot = false
conflicts (some previous) slot = not (previous.payload == slot.payload)

-- `record.setdefault(slot, event)`
abbrev pub keep_first : Option Slot → Slot → Option Slot
keep_first none slot = some slot
keep_first (some previous) slot = some previous

abbrev pub put_start : Slot → AttemptRecord → AttemptRecord
put_start slot r = record r { start = keep_first r.start slot }

abbrev pub put_finish : Slot → AttemptRecord → AttemptRecord
put_finish slot r = record r { finish = keep_first r.finish slot }

abbrev pub key_of : Slot → AttemptKey
key_of slot = record { run = text_of slot.run_id; attempt_id = text_of slot.payload.attempt_id }

unfoldable pub add_start :
    Dict AttemptKey AttemptRecord → Slot → Result (Dict AttemptKey AttemptRecord)
add_start attempts slot = do
  raise_if (not (truthy slot.payload.attempt_id)) "Model attempt requires a non-empty attempt_id"
  raise_if (conflicts (record_of (lookup (key_of slot) attempts)).start slot)
      "Conflicting model attempt facts"
  ok (insert (key_of slot) (put_start slot (record_of (lookup (key_of slot) attempts))) attempts)

unfoldable pub add_finish :
    Dict AttemptKey AttemptRecord → Slot → Result (Dict AttemptKey AttemptRecord)
add_finish attempts slot = do
  raise_if (not (truthy slot.payload.attempt_id)) "Model attempt requires a non-empty attempt_id"
  raise_if (conflicts (record_of (lookup (key_of slot) attempts)).finish slot)
      "Conflicting model attempt facts"
  ok (insert (key_of slot) (put_finish slot (record_of (lookup (key_of slot) attempts))) attempts)

refers_to : Reference → List Reference → Bool
refers_to r [] = false
refers_to r (q ∷ authorities) = r == q || refers_to r authorities

-- `legacy.setdefault((run, event_id), event)`
keep_legacy : Dict AttemptKey LegacyEvent → LegacyEvent → Dict AttemptKey LegacyEvent
keep_legacy legacy e = elim (lookup (legacy_key e) legacy) [
  | none ↦ insert (legacy_key e) e legacy
  | some _ ↦ legacy
]
  where
    legacy_key : LegacyEvent → AttemptKey
    legacy_key e = record { run = text_of e.run_id; attempt_id = e.event_id }

unfoldable pub add_response : Collected → LegacyEvent → Authority → Result Collected
unfolding refers_to keep_legacy
add_response c e malformed = err (value_error "Invalid external usage authority")
add_response c e (refers r) = do
  raise_if (r.run_id == "" || r.case_id == "" || ltb r.case_index 1)
      "Invalid external usage authority"
  ok (if refers_to r c.authorities then c else record c { authorities = c.authorities ++ r ∷ [] })
add_response c e no_authority = do
  raise_if (e.event_id == "") "Legacy usage requires an event_id"
  ok (record c { legacy = keep_legacy c.legacy e })

abbrev pub slot_of : Event → Attempt → Slot
slot_of e a = record { payload = a; session_id = e.session_id; run_id = e.run_id; ts = e.ts }

legacy_of : Event → Bool → Response → LegacyEvent
legacy_of e is_summary r = record {
  event_id = e.event_id;
  session_id = e.session_id;
  run_id = e.run_id;
  ts = e.ts;
  is_summary = is_summary;
  payload = r;
}

-- The body of the loop, for an event that is not partial.
unfoldable pub collect : List (Option String) → Collected → Event → Result Collected
unfolding legacy_of
collect runs c e = elim e.fact [
  | model_attempt_started a ↦
      add_start c.attempts (slot_of e a) >>= λ d. ok (record c { attempts = d })
  | model_attempt_finished a ↦
      add_finish c.attempts (slot_of e a) >>= λ d. ok (record c { attempts = d })
  | model_response r ↦
      if is_new runs e.run_id then ok c else add_response c (legacy_of e false r) r.authority
  | context_summary_generated r ↦
      if is_new runs e.run_id then ok c else add_response c (legacy_of e true r) r.authority
  | _ ↦ ok c
]

unfoldable pub collect_all : List (Option String) → Collected → List Event → Result Collected
collect_all runs c [] = ok c
collect_all runs c (e ∷ events) =
    if e.partial
    then collect_all runs c events
    else (collect runs c e >>= λ d. collect_all runs d events)
