-- ===== src/Pipeline/Journal.antt =====
-- pipeline_exec.go: what the journal of the step cache takes back.
use gepago.Base.{
  ◌≡◌, refl, sym, ap, ◌∙◌, subst, String, Bool, true, false, ◌&&◌, Option, none, some, List, [],
  ◌∷◌, str_eq, str_eq_iff, if◌then◌else◌, arith,
}
use gepago.Pipeline.Cache.{
  CacheMap, put_entry, PipelineRun, cached, journal_entry, store_cached, start_cache_journal,
  take_back, end_cache_journal,
}

module _ (R O : Type 0) where
  -- What happens while a journal is kept: entries are stored, in this order.
  abbrev pub store_all : List (String × String × R) → PipelineRun R O → PipelineRun R O
  store_all [] r = r
  store_all ((step, key, result) ∷ stores) r = store_all stores (store_cached R O step key result r)

  abbrev HasJournal : Option (CacheMap (Option (Option R))) → Type 0
  HasJournal none = ⊥
  HasJournal (some journal) = Unit

  -- A journal is kept, and takes an entry back to this.
  abbrev TakesBack : String → String → Option R → PipelineRun R O → Type 0
  TakesBack s k v r = HasJournal r.replaced × (take_back R O r.replaced r.cache s k ≡ v)

  -- An entry that is the stored one holds what the stored one does.
  same_entry :
      {V : Type 0} (m : CacheMap V) (s k step key : String)
      → (str_eq s step && str_eq k key) ≡ true
      → m step key ≡ m s k
  same_entry m s k step key h =
      let steps : s ≡ step = ground (arith, h, str_eq_iff s step) in
      let keys : k ≡ key = ground (arith, h, str_eq_iff k key) in
      sym (ap (λ t. m t k) steps ∙ ap (m step) keys)

  -- The stored entry was not recorded before.
  first_store :
      (b : Bool) (held x : Option (Option R)) (before here stored v : Option R)
      → held ≡ none
      → (b ≡ true → (held ≡ x) × (before ≡ here))
      → (elim x [ none ↦ here | some prev ↦ prev ]) ≡ v
      → (elim (if b then some before else x) [
        | none ↦ if b then stored else here
        | some prev ↦ prev
      ])
        ≡ v
  first_store true held x before here stored v absent link back =
      let (same, same') = link refl in
      same'
      ∙ subst (λ (o : Option (Option R)). (elim o [ none ↦ here | some prev ↦ prev ]) ≡ v)
          (sym same ∙ absent) back
  first_store false held x before here stored v absent link back = back

  -- The stored entry was recorded before.
  later_store :
      (b : Bool) (held x : Option (Option R)) (prev here stored v : Option R)
      → held ≡ some prev
      → (b ≡ true → held ≡ x)
      → (elim x [ none ↦ here | some old ↦ old ]) ≡ v
      → (elim x [ none ↦ if b then stored else here | some old ↦ old ]) ≡ v
  later_store true held none prev here stored v present link back =
      absurd (let e = sym (link refl) ∙ present in cc)
  later_store true held (some old) prev here stored v present link back = back
  later_store false held none prev here stored v present link back = back
  later_store false held (some old) prev here stored v present link back = back

  store_cached-TakesBack :
      (s k : String) (v : Option R) (step key : String) (result : R) (r : PipelineRun R O)
      → TakesBack s k v r
      → TakesBack s k v (store_cached R O step key result r)
  unfolding store_cached journal_entry take_back
  store_cached-TakesBack s k v step key result r (kept, back) = go r.replaced kept back
    where
      go :
          (o : Option (CacheMap (Option (Option R))))
          → HasJournal o
          → take_back R O o r.cache s k ≡ v
          → HasJournal (journal_entry R O step key r.cache o)
            × (take_back R O
                  (journal_entry R O step key r.cache o)
                  (put_entry r.cache step key (some result))
                  s
                  k
                ≡ v)
      go none kept back = absurd kept
      go (some journal) kept back = by_record (journal step key) refl
        where
          by_record :
              (held : Option (Option R))
              → journal step key ≡ held
              → HasJournal (elim held [
                | some prev ↦ some journal
                | none ↦ some (put_entry journal step key (some (r.cache step key)))
              ])
                × (take_back R O
                      (elim held [
                        | some prev ↦ some journal
                        | none ↦ some (put_entry journal step key (some (r.cache step key)))
                      ])
                      (put_entry r.cache step key (some result))
                      s
                      k
                    ≡ v)
          by_record none e = (
            tt,
            first_store (str_eq s step && str_eq k key) (journal step key) (journal s k)
                (r.cache step key) (r.cache s k) (some result) v e
                (λ h. (same_entry journal s k step key h, same_entry r.cache s k step key h)) back,
          )
          by_record (some prev) e = (
            tt,
            later_store (str_eq s step && str_eq k key) (journal step key) (journal s k) prev
                (r.cache s k) (some result) v e (same_entry journal s k step key) back,
          )

  store_all-TakesBack :
      (s k : String) (v : Option R) (stores : List (String × String × R)) (r : PipelineRun R O)
      → TakesBack s k v r
      → TakesBack s k v (store_all stores r)
  store_all-TakesBack s k v [] r h = h
  store_all-TakesBack s k v ((step, key, result) ∷ stores) r h =
      store_all-TakesBack s k v stores (store_cached R O step key result r)
        (store_cached-TakesBack s k v step key result r h)

  -- Whatever is stored in the step cache while a journal is kept, also over an entry more than once, the
  -- end of the journal that keeps nothing leaves each entry as it was at the start.
  pub end_cache_journal-start_cache_journal :
      (stores : List (String × String × R)) (r : PipelineRun R O) (s k : String)
      → cached R O s k (end_cache_journal R O false (store_all stores (start_cache_journal R O r)))
        ≡ cached R O s k r
  unfolding cached end_cache_journal start_cache_journal
  end_cache_journal-start_cache_journal stores r s k =
      (store_all-TakesBack s k (r.cache s k) stores (start_cache_journal R O r) (start r)).1
    where
      start : (r : PipelineRun R O) → TakesBack s k (r.cache s k) (start_cache_journal R O r)
      start r = (tt, refl)
