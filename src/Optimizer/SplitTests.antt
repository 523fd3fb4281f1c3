-- ===== src/Optimizer/SplitTests.antt =====
-- split.go: three examples, one of them for validation.
use mathlib.Core.List.Permᴰ
use gepago.Base.{ℕ, none, false, List, [], ◌∷◌}
use gepago.Base.Int.{pos}
use gepago.Optimizer.Split.{SplitConfig, split_examples}
use gepago.Optimizer.Partition.{Partitions, split_examples-Partitions}

abbrev one_of_three : SplitConfig
one_of_three = record { validation_size = pos 1; ratio_size = none; seed = pos 0; shuffle = false }

abbrev numbered : List ℕ
numbered = 1 ∷ 2 ∷ 3 ∷ []

split_examples-Partitions_example :
    Partitions one_of_three numbered (split_examples (λ seed xs. xs) one_of_three numbered)
split_examples-Partitions_example =
    split_examples-Partitions (λ seed xs. xs) one_of_three numbered (λ seed xs. Permᴰ.refl xs)
