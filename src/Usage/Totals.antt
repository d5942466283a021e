-- ===== src/Usage/Totals.antt =====
-- The order, the totals and the result of `build_usage_ledger` of eventide/usage.py.
use Prim.Native.Nat.{Ordering, compare}
use Prim.Native.String.{compare as compare_text}
use eventide.Prelude.{
  ℕ, ◌+◌, List, [], ◌∷◌, ◌++◌, Option, none, some, Bool, true, false, not, ◌&&◌, values, length,
  all, select, count_of, string_eq, if◌then◌else◌,
}
use eventide.Runtime.{Result, ok, ◌>>=◌}
use eventide.Facts.{Reference, Usage, UsageSource, reported, estimated, unknown}
use eventide.Store.State.{Event}
use eventide.Usage.{no_usage, value}
use eventide.Usage.Ledger.{collect_all, new_runs, text_of}
use eventide.Usage.Rows.{Row, attempt_rows, legacy_rows}

then_by : Ordering → Bool → Bool
then_by Ordering.lt rest = true
then_by Ordering.gt rest = false
then_by _ rest = rest

not_after : Ordering → Bool
not_after Ordering.gt = false
not_after _ = true

-- Whether a row comes no later than another by (started_at, run_id, attempt_id).
unfoldable pub precedes : Row → Row → Bool
unfolding then_by not_after
precedes a b = then_by (compare a.started_at b.started_at) (
    then_by (compare_text (text_of a.run_id) (text_of b.run_id))
      (not_after (compare_text a.attempt_id b.attempt_id)))

-- `calls.sort`, which is stable
unfoldable pub insert_row : Row → List Row → List Row
insert_row r [] = r ∷ []
insert_row r (q ∷ rows) =
    let rest = insert_row r rows in if precedes r q then r ∷ q ∷ rows else q ∷ rest

unfoldable pub sort_rows : List Row → List Row
sort_rows [] = []
sort_rows (r ∷ rows) = insert_row r (sort_rows rows)

-- `target[key] = target.get(key, 0) + count`, for a key that the call has
abbrev pub add_count : Option ℕ → Option ℕ → Option ℕ
add_count t none = t
add_count t (some n) = some (value t + n)

unfoldable pub add_usage : Usage → Usage → Usage
add_usage t u = record {
  input_tokens = add_count t.input_tokens u.input_tokens;
  output_tokens = add_count t.output_tokens u.output_tokens;
  cache_read_input_tokens = add_count t.cache_read_input_tokens u.cache_read_input_tokens;
  cache_creation_input_tokens =
      add_count t.cache_creation_input_tokens u.cache_creation_input_tokens;
  cache_miss_input_tokens = add_count t.cache_miss_input_tokens u.cache_miss_input_tokens;
  uncached_input_tokens = add_count t.uncached_input_tokens u.uncached_input_tokens;
  reasoning_tokens = add_count t.reasoning_tokens u.reasoning_tokens;
}

abbrev pub is_source : UsageSource → UsageSource → Bool
is_source reported reported = true
is_source estimated estimated = true
is_source unknown unknown = true
is_source _ _ = false

-- The totals of the calls of one source.
unfoldable pub totals_of : UsageSource → Usage → List Row → Usage
totals_of source t [] = t
totals_of source t (r ∷ rows) =
    totals_of source (if is_source source r.usage_source then add_usage t r.usage else t) rows

pub record UsageLedger : Type 0 where
  pub calls : List Row
  pub reported_totals : Usage
  pub estimated_totals : Usage
  pub attempt_count : ℕ
  pub unknown_attempts : ℕ
  pub incomplete_attempts : ℕ
  pub complete : Bool
  pub authority_references : List Reference

none_of : List Reference → Bool
none_of [] = true
none_of (r ∷ rs) = false

unfoldable pub ledger_of : List Row → List Reference → UsageLedger
unfolding none_of
ledger_of calls authorities = record {
  calls = calls;
  reported_totals = totals_of reported no_usage calls;
  estimated_totals = totals_of estimated no_usage calls;
  attempt_count = length calls;
  unknown_attempts = count_of (λ (r : Row). is_source unknown r.usage_source) calls;
  incomplete_attempts = count_of (λ (r : Row). not r.usage_complete) calls;
  complete = none_of authorities && all (λ (r : Row). r.usage_complete) calls;
  authority_references = authorities;
}

-- `call_filter` is the test of all rows where the code is given none.
unfoldable pub build_usage_ledger : (Row → Bool) → List Event → Result UsageLedger
build_usage_ledger call_filter events = do
  c ← collect_all (new_runs events) (record { attempts = []; legacy = []; authorities = [] }) events
  attempts ← attempt_rows c.attempts
  legacy ← legacy_rows (values c.legacy)
  ok (ledger_of (sort_rows (select call_filter (attempts ++ legacy))) c.authorities)
