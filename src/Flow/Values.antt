-- ===== src/Flow/Values.antt =====
-- pipeline_transition_run.go: maps of state values, snapshots and their restoration, and `mergeWrites`
-- of pipeline.go.
use gepago.Base.{String, ◌&&◌, none, some, List, [], ◌∷◌, put, if◌then◌else◌}
use gepago.Base.Action.{Out, ok, err}
use gepago.Flow.Data.{FlowTypes, Keys, Values, Snapshot, Plan, FlowEnv, FlowRun}

module _ (T : FlowTypes) where
  abbrev pub no_values : Values T
  no_values k = none

  -- `overlay`
  unfoldable pub overlay : Values T → Values T → Values T
  overlay values writes k = elim (writes k) [ some v ↦ some v | none ↦ values k ]

  -- `keyValues`, and what `readOnlyView` shows.
  unfoldable pub key_values : Values T → Keys → Values T
  key_values values keys k = if keys k then values k else none

  -- `restoreValues`, on the values and on the marks of those that hold only their default.
  unfoldable pub restore_values : Values T → Snapshot T → Keys → Values T
  restore_values values snapshot keys k = if keys k then snapshot.values k else values k

  unfoldable pub restore_defaulted : Keys → Snapshot T → Keys → Keys
  restore_defaulted defaulted snapshot keys k = if keys k then snapshot.defaulted k else defaulted k

  -- `snapshot` of these keys.
  unfoldable pub snapshot_keys : FlowRun T → Keys → Snapshot T
  unfolding key_values
  snapshot_keys f keys = record {
    values = key_values f.values keys;
    defaulted = λ k. keys k && f.defaulted k;
  }

  -- `snapshot` of the whole state.
  unfoldable pub snapshot_all : FlowRun T → Snapshot T
  snapshot_all f = record { values = f.values; defaulted = f.defaulted }

  module _ (p : Plan T) (E : FlowEnv T) where
    -- One key of `mergeWrites`: what it commits for a value that the step wrote.
    unfoldable pub merge_key : String → T.Value → Values T → Keys → Out T.Error T.Value
    merge_key key next values defaulted = elim (values key) [
      | none ↦ ok next
      | some prev ↦ if defaulted key then ok next else (elim (p.merges key) [
        | none ↦ err (E.no_merge_rule key)
        | some merge ↦ elim (merge prev next) [
          | err e ↦ err (E.merge_failed key e)
          | ok merged ↦ p.convert key merged
        ]
      ])
    ]

    -- `mergeWrites`, on the keys that are left.
    unfoldable pub merge_writes :
        List String → Values T → Values T → Keys → Values T → Out T.Error (Values T)
    unfolding merge_key
    merge_writes [] writes values defaulted committed = ok committed
    merge_writes (key ∷ keys) writes values defaulted committed = elim (writes key) [
      | none ↦ merge_writes keys writes values defaulted committed
      | some next ↦ elim (merge_key key next values defaulted) [
        | err e ↦ err e
        | ok v ↦ merge_writes keys writes values defaulted (put committed key (some v))
      ]
    ]
