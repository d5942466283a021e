-- ===== src/Usage.antt =====
-- Token counters of eventide/usage.py: `normalize_usage`, `usage_total_fields` and
-- `usage_snapshot`; the ledger is in the children. The raw counters of a provider are integers that may be missing or negative.
pub mod Ledger
pub mod Rows
pub mod Totals
pub mod Kept
pub mod Replays
pub mod Complete
pub mod Providers
use eventide.Prelude.{ℕ, ℤ, pos, negsuc, ◌+◌, Option, none, some, Bool, true, false, ◌&&◌, ◌||◌}
use eventide.Runtime.{Result, ok, ◌>>◌, raise_if}
use eventide.Facts.{
  RawUsage, Usage, UsageBasis, input_output, input_only, UsageSource, reported, unknown,
}

-- `_count`
unfoldable pub counter : Option ℤ → Option ℕ
counter none = none
counter (some (pos n)) = some n
counter (some (negsuc _)) = none

unfoldable pub normalize_usage : RawUsage → Usage
unfolding counter
normalize_usage u = record {
  input_tokens = counter u.input_tokens;
  output_tokens = counter u.output_tokens;
  cache_read_input_tokens = counter u.cache_read_input_tokens;
  cache_creation_input_tokens = counter u.cache_creation_input_tokens;
  cache_miss_input_tokens = counter u.cache_miss_input_tokens;
  uncached_input_tokens = counter u.uncached_input_tokens;
  reasoning_tokens = counter u.reasoning_tokens;
}

abbrev pub present : Option ℕ → Bool
present none = false
present (some _) = true

-- `bool(counters)`
unfoldable pub any_counter : Usage → Bool
any_counter u =
    present u.input_tokens
    || present u.output_tokens
    || present u.cache_read_input_tokens
    || present u.cache_creation_input_tokens
    || present u.cache_miss_input_tokens
    || present u.uncached_input_tokens
    || present u.reasoning_tokens

abbrev pub no_usage : Usage
no_usage = record {
  input_tokens = none;
  output_tokens = none;
  cache_read_input_tokens = none;
  cache_creation_input_tokens = none;
  cache_miss_input_tokens = none;
  uncached_input_tokens = none;
  reasoning_tokens = none;
}

-- `all(key in counters for key in usage_total_fields(basis))`
unfoldable pub has_totals : UsageBasis → Usage → Bool
has_totals input_only u = present u.input_tokens
has_totals input_output u = present u.input_tokens && present u.output_tokens

abbrev pub value : Option ℕ → ℕ
value none = 0
value (some n) = n

-- `sum(observed[key] for key in usage_total_fields(basis))`, where they are present
unfoldable pub total : UsageBasis → Usage → ℕ
total input_only u = value u.input_tokens
total input_output u = value u.input_tokens + value u.output_tokens

pub record Snapshot : Type 0 where
  pub usage : Usage
  pub source : UsageSource
  pub complete : Bool

abbrev pub is_reported : UsageSource → Bool
is_reported reported = true
is_reported _ = false

-- A source that is not one of the three counts as `none`.
provenance : Bool → Option UsageSource → UsageSource
provenance false source = unknown
provenance true none = reported
provenance true (some source) = source

unfoldable pub usage_snapshot : Usage → Option UsageSource → UsageBasis → Result Snapshot
unfolding provenance
usage_snapshot u source basis = do
  raise_if (is_input_only basis && (present u.output_tokens || present u.reasoning_tokens))
      "Input-only usage cannot contain output counters"
  let p = provenance (any_counter u) source
  ok (record { usage = u; source = p; complete = is_reported p && has_totals basis u })
  where
    is_input_only : UsageBasis → Bool
    is_input_only input_only = true
    is_input_only input_output = false
