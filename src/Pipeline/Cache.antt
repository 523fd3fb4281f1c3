-- ===== src/Pipeline/Cache.antt =====
-- pipeline_exec.go: `pipelineRun`, with its step cache and the journal of it that a rewind keeps. A lock
-- is taken for the whole body of each operation. A result is copied when it is read, and nothing
-- changes a result that is in the cache, so a copy is the result. A nil run is left out.
use gepago.Base.{
  ℕ, ◌+◌, String, Bool, true, false, ◌&&◌, Option, none, some, List, [], ◌∷◌, ◌++◌, str_eq, put,
  if◌then◌else◌,
}

-- A map from a step and a key of its cache, `stepCacheKey`.
abbrev pub CacheMap : Type 0 → Type 0
CacheMap V = String → String → V

-- `m[entry] = v`
abbrev pub put_entry : {V : Type 0} → CacheMap V → String → String → V → CacheMap V
put_entry m step key v s k = if str_eq s step && str_eq k key then v else m s k

module _ (R O : Type 0) where
  -- `pipelineRun`, with results and outcomes of steps; its tool session and its optional outputs are
  -- left out. A journal is a
  -- map from the entries that it has recorded to what they held.
  pub record PipelineRun : Type 0 where
    pub cache : CacheMap (Option R)
    pub replaced : Option (CacheMap (Option (Option R)))
    pub attempts : String → ℕ
    pub outcomes : List O

  -- `newPipelineRun`
  abbrev pub new_pipeline_run : PipelineRun
  new_pipeline_run = record {
    cache = λ s k. none;
    replaced = none;
    attempts = λ s. 0;
    outcomes = [];
  }

  -- `nextAttempt`
  unfoldable pub next_attempt : String → PipelineRun → ℕ × PipelineRun
  next_attempt step r =
      let n = r.attempts step + 1 in (n, record r { attempts = put r.attempts step n })

  -- `record`
  unfoldable pub record_outcome : O → PipelineRun → PipelineRun
  record_outcome o r = record r { outcomes = r.outcomes ++ o ∷ [] }

  -- `cached`
  unfoldable pub cached : String → String → PipelineRun → Option R
  cached step key r = r.cache step key

  -- The journal after an entry is about to be stored.
  unfoldable pub journal_entry :
      String
      → String
      → CacheMap (Option R)
      → Option (CacheMap (Option (Option R)))
      → Option (CacheMap (Option (Option R)))
  journal_entry step key cache none = none
  journal_entry step key cache (some journal) = elim (journal step key) [
    | some prev ↦ some journal
    | none ↦ some (put_entry journal step key (some (cache step key)))
  ]

  -- `storeCached`
  unfoldable pub store_cached : String → String → R → PipelineRun → PipelineRun
  unfolding journal_entry
  store_cached step key result r = record r {
    replaced = journal_entry step key r.cache r.replaced;
    cache = put_entry r.cache step key (some result);
  }

  -- `startCacheJournal`
  unfoldable pub start_cache_journal : PipelineRun → PipelineRun
  start_cache_journal r = record r { replaced = some (λ s k. none) }

  -- The loop of `endCacheJournal`: each entry that was recorded holds again what it held.
  unfoldable pub take_back :
      Option (CacheMap (Option (Option R))) → CacheMap (Option R) → CacheMap (Option R)
  take_back none cache s k = cache s k
  take_back (some journal) cache s k = elim (journal s k) [ none ↦ cache s k | some prev ↦ prev ]

  -- `endCacheJournal`
  unfoldable pub end_cache_journal : Bool → PipelineRun → PipelineRun
  unfolding take_back
  end_cache_journal true r = record r { replaced = none }
  end_cache_journal false r = record r { replaced = none; cache = take_back r.replaced r.cache }
