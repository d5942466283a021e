-- ===== src/Usage/Providers.antt =====
-- `normalize_provider_usage` of eventide/usage.py: the counters of each provider's reports as
-- totals and details.
use eventide.Prelude.{ℕ, ◌+◌, ℤ, Option, none, some, ◌||◌, ◌≡◌, arith, if◌then◌else◌}
use eventide.Facts.{RawUsage, Usage}
use eventide.Usage.{counter, normalize_usage, no_usage, present, value}

pub data Provider : Type 0 where
  openai_compatible openai_responses anthropic any_other : Provider

-- The fields of a report that are read. `prompt_cached` and `input_cached` are `cached_tokens` of
-- the details of the prompt and of the input; `completion_reasoning` and `output_reasoning` are
-- `reasoning_tokens` of the details of the completion and of the output.
pub record Report : Type 0 where
  pub public : RawUsage
  pub prompt_tokens : Option ℤ
  pub completion_tokens : Option ℤ
  pub prompt_cached : Option ℤ
  pub input_cached : Option ℤ
  pub prompt_cache_hit_tokens : Option ℤ
  pub prompt_cache_miss_tokens : Option ℤ
  pub completion_reasoning : Option ℤ
  pub output_reasoning : Option ℤ

-- `cached`, by the details or by the hits at the top
unfoldable pub first_count : Option ℤ → Option ℤ → Option ℕ
first_count a b = elim (counter a) [ none ↦ counter b | some n ↦ some n ]

-- The base counter of Anthropic excludes both caches.
unfoldable pub with_caches : Option ℕ → Option ℕ → Option ℕ → Option ℕ
with_caches none read creation = none
with_caches (some n) read creation = some (n + (value read + value creation))

unfoldable pub uncached : Option ℕ → Option ℕ → Option ℕ → Option ℕ
uncached base read creation = if present read || present creation then base else none

unfoldable pub normalize_provider_usage : Provider → Report → Usage
normalize_provider_usage any_other r = normalize_usage r.public
normalize_provider_usage anthropic r =
    let base = counter r.public.input_tokens in
    let read = counter r.public.cache_read_input_tokens in
    let creation = counter r.public.cache_creation_input_tokens in
    record no_usage {
      input_tokens = with_caches base read creation;
      output_tokens = counter r.public.output_tokens;
      cache_read_input_tokens = read;
      cache_creation_input_tokens = creation;
      uncached_input_tokens = uncached base read creation;
    }
normalize_provider_usage openai_compatible r = record no_usage {
  input_tokens = counter r.prompt_tokens;
  output_tokens = counter r.completion_tokens;
  cache_read_input_tokens = first_count r.prompt_cached r.prompt_cache_hit_tokens;
  cache_miss_input_tokens = counter r.prompt_cache_miss_tokens;
  reasoning_tokens = counter r.completion_reasoning;
}
normalize_provider_usage openai_responses r = record no_usage {
  input_tokens = counter r.public.input_tokens;
  output_tokens = counter r.public.output_tokens;
  cache_read_input_tokens = first_count r.input_cached r.prompt_cache_hit_tokens;
  cache_miss_input_tokens = counter r.prompt_cache_miss_tokens;
  reasoning_tokens = counter r.output_reasoning;
}

-- In the normalised report of Anthropic, where it states the uncached tokens, the total input is
-- the uncached tokens together with those of both caches, one that is absent counting as zero.
pub anthropic-input :
    (r : Report) (total : ℕ)
    → (normalize_provider_usage anthropic r).input_tokens ≡ some total
    → (u : ℕ) → (normalize_provider_usage anthropic r).uncached_input_tokens ≡ some u
    → total
      ≡ u
        + (value (normalize_provider_usage anthropic r).cache_read_input_tokens
            + value (normalize_provider_usage anthropic r).cache_creation_input_tokens)
unfolding normalize_provider_usage with_caches uncached
anthropic-input r total h u k = ground arith
