-- ===== src/Flow/Restore.antt =====
-- pipeline_transition_run.go: a rewind that is rejected.
use gepago.Base.{
  ℕ, ◌≡◌, refl, sym, ap, subst, ◌∙◌, String, Bool, true, false, Option, none, some, ◌&&◌, ◌||◌,
  if◌then◌else◌,
}
use gepago.Base.Action.{
  Ends, Keeps, then-Ends, get-Ends, modify-Ends, assign-Ends, pure-Ends, if-Ends, option-Ends,
}
use gepago.Flow.Data.{
  FlowTypes, Values, Snapshot, FlowRule, Plan, FlowEnv, FlowRun, PendingRewind, StepVisit,
}
use gepago.Flow.Values.{key_values, restore_values, restore_defaulted, snapshot_keys}
use gepago.Flow.Hooks.{outside}
use gepago.Flow.Rewind.{end_pending, end_rewind, begin_rewind, restore_state, reject_rewind}

module _ (T : FlowTypes) (p : Plan T) (E : FlowEnv T) where
  -- A key has this value and this mark.
  abbrev HoldsAt : String → Option T.Value → Bool → FlowRun T → Type 0
  HoldsAt k v d f = (f.values k ≡ v) × (f.defaulted k ≡ d)

  module _ (k : String) (v : Option T.Value) (d : Bool) where
    outside-HoldsAt : {A : Type 0} (g : T.World → A × T.World) → Keeps (HoldsAt k v d) (outside T g)
    unfolding outside
    outside-HoldsAt g f h = record { ended = h }

    end_rewind-HoldsAt : (keep : Bool) → Keeps (HoldsAt k v d) (end_rewind T p E keep)
    unfolding end_rewind end_pending
    end_rewind-HoldsAt keep f h = get-Ends _ (
        option-Ends f.rewind (λ _. pure-Ends tt h)
          (λ r _. modify-Ends _ _ (
            then-Ends (outside-HoldsAt _ _ h)
              (λ _ g h'. if-Ends keep (λ _. outside-HoldsAt _ g h') (λ _. pure-Ends tt h')))))

    -- A rejection that restores a value leaves it so.
    reject_rewind-HoldsAt :
        (i : ℕ) (visit : StepVisit T) (restored : Option T.Error) (r : PendingRewind T)
        (g : FlowRun T)
        → HoldsAt k v d (restore_state T p E r g)
        → Ends (HoldsAt k v d) (λ _. HoldsAt k v d) (reject_rewind T p E i visit restored r) g
    unfolding reject_rewind
    reject_rewind-HoldsAt i visit restored r g h = modify-Ends _ _ (
        then-Ends (end_rewind-HoldsAt false _ h) (λ _ f h'.
          then-Ends
            (if-Ends (visit.rejected || (elim restored [ none ↦ false | some _ ↦ true ]))
              (λ _. assign-Ends _ h') (λ _. pure-Ends tt h'))
            (λ _ f' h''. pure-Ends _ h'')))

  -- What a rewind snapshots is what its rejection restores, where the steps of its range have changed
  -- no other keys.
  restore_state-begin_rewind :
      (r : PendingRewind T) (f g : FlowRun T) (k : String)
      → r.prev ≡ snapshot_keys T f r.rule.keys
      → (r.rule.keys k ≡ false → HoldsAt k (f.values k) (f.defaulted k) g)
      → HoldsAt k (f.values k) (f.defaulted k) (restore_state T p E r g)
  unfolding restore_state restore_values restore_defaulted snapshot_keys key_values
  restore_state-begin_rewind r f g k taken same =
      let held : (r.prev.values k ≡ (snapshot_keys T f r.rule.keys).values k)
          × (r.prev.defaulted k ≡ (snapshot_keys T f r.rule.keys).defaulted k) =
        (ap (λ (s : Snapshot T). s.values k) taken, ap (λ (s : Snapshot T). s.defaulted k) taken) in
      go (r.rule.keys k) held.0 held.1 same
    where
      go :
          (b : Bool)
          → r.prev.values k ≡ (if b then f.values k else none)
          → r.prev.defaulted k ≡ (b && f.defaulted k)
          → (b ≡ false → HoldsAt k (f.values k) (f.defaulted k) g)
          → ((if b then r.prev.values k else g.values k) ≡ f.values k)
            × ((if b then r.prev.defaulted k else g.defaulted k) ≡ f.defaulted k)
      go true values defaulted h = (values, defaulted)
      go false values defaulted h = h refl

  -- A rewind that is taken and then rejected leaves every key as it was before the rewind, its value
  -- and whether it holds only its default, where the steps that ran again changed keys of the range
  -- only, and of the rewind that is pending what `Amend` set and the stage.
  pub reject_rewind-begin_rewind :
      (i : ℕ) (visit : StepVisit T) (restored : Option T.Error) (rule : FlowRule T)
      (amended : Option (Values T)) (f g : FlowRun T) (k : String) (begun r : PendingRewind T)
      → (begin_rewind T p E rule amended f).rewind ≡ some begun
      → r.rule ≡ begun.rule
      → r.prev ≡ begun.prev
      → (rule.keys k ≡ false → (g.values k ≡ f.values k) × (g.defaulted k ≡ f.defaulted k))
      → Ends
          (λ h. (h.values k ≡ f.values k) × (h.defaulted k ≡ f.defaulted k))
          (λ _ h. (h.values k ≡ f.values k) × (h.defaulted k ≡ f.defaulted k))
          (reject_rewind T p E i visit restored r)
          g
  unfolding begin_rewind
  reject_rewind-begin_rewind i visit restored rule amended f g k begun r start same_rule same_prev
        same =
      let rule_is : r.rule ≡ rule = same_rule ∙ sym (ap rule_of start) in
      let prev_is : r.prev ≡ snapshot_keys T f rule.keys = same_prev ∙ sym (ap prev_of start) in
      reject_rewind-HoldsAt k (f.values k) (f.defaulted k) i visit restored r g (
        restore_state-begin_rewind r f g k
          (subst (λ (q : FlowRule T). r.prev ≡ snapshot_keys T f q.keys) (sym rule_is) prev_is)
          (λ out. same (ap (λ (q : FlowRule T). q.keys k) (sym rule_is) ∙ out)))
    where
      rule_of : Option (PendingRewind T) → FlowRule T
      rule_of none = rule
      rule_of (some q) = q.rule

      prev_of : Option (PendingRewind T) → Snapshot T
      prev_of none = snapshot_keys T f rule.keys
      prev_of (some q) = q.prev
