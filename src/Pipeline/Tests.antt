-- ===== src/Pipeline/Tests.antt =====
-- pipeline_exec.go: a rewind that stores one entry over another, and a new one.
use gepago.Base.{ℕ, ◌≡◌, refl, String, some, false, true, List, [], ◌∷◌}
use gepago.Pipeline.Cache.{
  PipelineRun, new_pipeline_run, cached, journal_entry, store_cached, start_cache_journal,
  end_cache_journal,
}
use gepago.Pipeline.Journal.{store_all, end_cache_journal-start_cache_journal}

abbrev before : PipelineRun ℕ ℕ
before = store_cached ℕ ℕ "draft" "a" 1 (new_pipeline_run ℕ ℕ)

abbrev stores : List (String × String × ℕ)
stores = ("draft", "a", 2) ∷ ("judge", "b", 3) ∷ ("draft", "a", 4) ∷ []

kept :
    cached ℕ ℕ "draft" "a"
      (end_cache_journal ℕ ℕ true (store_all ℕ ℕ stores (start_cache_journal ℕ ℕ before)))
    ≡ some 4
unfolding cached end_cache_journal start_cache_journal store_cached journal_entry
kept = refl

end_cache_journal-start_cache_journal_example :
    cached ℕ ℕ "draft" "a"
      (end_cache_journal ℕ ℕ false (store_all ℕ ℕ stores (start_cache_journal ℕ ℕ before)))
    ≡ cached ℕ ℕ "draft" "a" before
end_cache_journal-start_cache_journal_example =
    end_cache_journal-start_cache_journal ℕ ℕ stores before "draft" "a"
