-- ===== src/Optimizer/Split.antt =====
-- split.go: `SplitExamples`. The size that a ratio gives, `int(math.Ceil(float64(n) * ratio))` where the
-- ratio is positive, and `rand.Shuffle` are parameters.
use gepago.Base.{ℕ, Bool, ◌||◌, Option, none, some, List, ◌==◌, if◌then◌else◌, length, take, drop}
use gepago.Base.Int.{ℤ, pos, pos_part, leb_ℤ, eqb_ℤ}

-- `SplitConfig`; `ratio_size` is none where the ratio is not positive.
pub record SplitConfig : Type 0 where
  pub validation_size : ℤ
  pub ratio_size : Option (ℕ → ℤ)
  pub seed : ℤ
  pub shuffle : Bool

-- The errors of `SplitExamples`, without their texts.
pub data SplitError : Type 0 where
  no_examples size_out_of_range : SplitError

-- `ExampleSplit`, or an error.
pub data Split (A : Type 0) : Type 0 where
  split : List A → List A → Split A
  refused : SplitError → Split A

module _ {A : Type 0} where
  -- The size of the validation set, before it is checked.
  unfoldable pub split_size : SplitConfig → List A → ℤ
  split_size c examples =
      if eqb_ℤ c.validation_size (pos 0)
      then (elim c.ratio_size [ none ↦ c.validation_size | some size ↦ size (length examples) ])
      else c.validation_size

  -- The examples in the order that they are split in.
  unfoldable pub split_items : (ℤ → List A → List A) → SplitConfig → List A → List A
  split_items shuffled c examples =
      if c.shuffle
      then shuffled (if eqb_ℤ c.seed (pos 0) then pos 1 else c.seed) examples
      else examples

  -- `SplitExamples`
  unfoldable pub split_examples : (ℤ → List A → List A) → SplitConfig → List A → Split A
  unfolding split_size split_items
  split_examples shuffled c examples =
      let size = split_size c examples in
      let items = split_items shuffled c examples in
      if length examples == 0
      then refused no_examples
      else if leb_ℤ size (pos 0) || leb_ℤ (pos (length examples)) size
      then refused size_out_of_range
      else split (drop (pos_part size) items) (take (pos_part size) items)
