-- ===== src/Usage.antt =====
-- usage.go: token usage, the ledger, the collector a context carries. Go's `int` is ℤ.
use gepago.Base.{if◌then◌else◌}
use gepago.Base.Int.{ℤ, pos, ◌+ℤ◌, eqb_ℤ}

pub record Usage : Type 0 where
  pub prompt_tokens : ℤ
  pub completion_tokens : ℤ
  pub total_tokens : ℤ
  pub reasoning_tokens : ℤ
  pub cached_input_tokens : ℤ
  pub cache_creation_tokens : ℤ

abbrev pub no_usage : Usage
no_usage = record {
  prompt_tokens = pos 0;
  completion_tokens = pos 0;
  total_tokens = pos 0;
  reasoning_tokens = pos 0;
  cached_input_tokens = pos 0;
  cache_creation_tokens = pos 0;
}

-- `Usage.Add`
unfoldable pub add_usage : Usage → Usage → Usage
add_usage u v = record {
  prompt_tokens = u.prompt_tokens +ℤ v.prompt_tokens;
  completion_tokens = u.completion_tokens +ℤ v.completion_tokens;
  total_tokens = u.total_tokens +ℤ v.total_tokens;
  reasoning_tokens = u.reasoning_tokens +ℤ v.reasoning_tokens;
  cached_input_tokens = u.cached_input_tokens +ℤ v.cached_input_tokens;
  cache_creation_tokens = u.cache_creation_tokens +ℤ v.cache_creation_tokens;
}

-- `usageTokens` of pipeline_budget.go: the total, or the sum of its parts where that is zero.
unfoldable pub usage_tokens : Usage → ℤ
usage_tokens u =
    if eqb_ℤ u.total_tokens (pos 0) then u.prompt_tokens +ℤ u.completion_tokens else u.total_tokens

-- The counts of `UsageLedger`; its cost and its duration are not read by the code modelled here.
pub record UsageLedger : Type 0 where
  pub runs : ℤ
  pub turns : ℤ
  pub model_calls : ℤ
  pub tool_calls : ℤ
  pub metric_calls : ℤ
  pub input_tokens : ℤ
  pub output_tokens : ℤ
  pub reasoning_tokens : ℤ
  pub cached_input_tokens : ℤ
  pub cache_creation_tokens : ℤ
  pub total_tokens : ℤ
  pub total_duration : ℤ

abbrev pub no_ledger : UsageLedger
no_ledger = record {
  runs = pos 0;
  turns = pos 0;
  model_calls = pos 0;
  tool_calls = pos 0;
  metric_calls = pos 0;
  input_tokens = pos 0;
  output_tokens = pos 0;
  reasoning_tokens = pos 0;
  cached_input_tokens = pos 0;
  cache_creation_tokens = pos 0;
  total_tokens = pos 0;
  total_duration = pos 0;
}

-- `UsageLedger.AddUsage`
unfoldable pub add_to_ledger : UsageLedger → Usage → UsageLedger
add_to_ledger l u = record l {
  input_tokens = l.input_tokens +ℤ u.prompt_tokens;
  output_tokens = l.output_tokens +ℤ u.completion_tokens;
  reasoning_tokens = l.reasoning_tokens +ℤ u.reasoning_tokens;
  cached_input_tokens = l.cached_input_tokens +ℤ u.cached_input_tokens;
  cache_creation_tokens = l.cache_creation_tokens +ℤ u.cache_creation_tokens;
  total_tokens = l.total_tokens +ℤ u.total_tokens;
}
