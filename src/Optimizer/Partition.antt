-- ===== src/Optimizer/Partition.antt =====
-- split.go: what `SplitExamples` returns.
use mathlib.Core.List.Permᴰ
use mathlib.Core.List.{Permᴰ}
use gepago.Base.{
  ℕ, zero, suc, ◌<◌, ◌≤◌, ◌≡◌, refl, ap, sym, subst, ◌∙◌, ◌⊎◌, inl, inr, true, false, ◌||◌, List,
  [], ◌∷◌, ◌++◌, ◌==◌, if-rel, length, length-drop, take, drop, arith,
}
use gepago.Base.Int.{ℤ, pos, negsuc, pos_part, leb_ℤ, ◌≤ℤ◌}
use gepago.Optimizer.Split.{
  SplitConfig, Split, split, refused, split_size, split_items, split_examples,
}

module _ {A : Type 0} where
  take-append-drop : (n : ℕ) (xs : List A) → take n xs ++ drop n xs ≡ xs
  take-append-drop zero xs = refl
  take-append-drop (suc n) [] = refl
  take-append-drop (suc n) (x ∷ xs) = ap (λ ys. x ∷ ys) (take-append-drop n xs)

  length-Permᴰ : {xs ys : List A} → Permᴰ xs ys → length xs ≡ length ys
  length-Permᴰ Permᴰ.nil = refl
  length-Permᴰ (Permᴰ.cons e p) = omega (arith, length-Permᴰ p)
  length-Permᴰ (Permᴰ.swap e e') = refl
  length-Permᴰ (Permᴰ.trans p q) = omega (arith, length-Permᴰ p, length-Permᴰ q)

  length-take : (n : ℕ) (xs : List A) → n ≤ length xs → length (take n xs) ≡ n
  length-take zero xs le = refl
  length-take (suc n) [] le = absurd (omega (arith, le))
  length-take (suc n) (x ∷ xs) le = omega (arith, length-take n xs (omega (arith, le)))

  split_items-Permᴰ :
      (shuffled : ℤ → List A → List A) (c : SplitConfig) (examples : List A)
      → ((seed : ℤ) (xs : List A) → Permᴰ (shuffled seed xs) xs)
      → Permᴰ (split_items shuffled c examples) examples
  unfolding split_items
  split_items-Permᴰ shuffled c examples permutes =
      if-rel (λ xs. Permᴰ xs examples) c.shuffle _ examples (λ _. permutes _ examples)
        (λ _. Permᴰ.refl examples)

  -- A split is refused where its size does not leave examples on both sides. Otherwise it has examples on both sides, as many for validation as it was asked
  -- for, and together they are the examples, in some order.
  abbrev pub Partitions : SplitConfig → List A → Split A → Type 0
  Partitions c examples (refused e) =
      (split_size c examples ≤ℤ pos 0) ⊎ (pos (length examples) ≤ℤ split_size c examples)
  Partitions c examples (split train validation) =
      (0 < length train)
      × (0 < length validation)
      × (pos (length validation) ≡ split_size c examples)
      × Permᴰ (validation ++ train) examples

  -- `SplitExamples` refuses a size only where it leaves no examples on a side, and otherwise returns a
  -- partition of the examples, with as many for validation as it was asked for, where a shuffle is a
  -- permutation.
  pub split_examples-Partitions :
      (shuffled : ℤ → List A → List A) (c : SplitConfig) (examples : List A)
      → ((seed : ℤ) (xs : List A) → Permᴰ (shuffled seed xs) xs)
      → Partitions c examples (split_examples shuffled c examples)
  unfolding split_examples
  split_examples-Partitions shuffled c examples permutes =
      let size = split_size c examples in
      if-rel (Partitions c examples) (length examples == 0) _ _
        (λ none_given. empty size (length examples) none_given)
        (λ _.
          if-rel (Partitions c examples) (leb_ℤ size (pos 0) || leb_ℤ (pos (length examples)) size)
            _ _ (λ out. outside size (length examples) out) (λ fits. within size refl fits))
    where
      empty : (size : ℤ) (n : ℕ) → (n == 0) ≡ true → (size ≤ℤ pos 0) ⊎ (pos n ≤ℤ size)
      empty (pos k) n h = inr (ground (arith, h))
      empty (negsuc k) n h = inl (omega arith)

      outside :
          (size : ℤ) (n : ℕ)
          → (leb_ℤ size (pos 0) || leb_ℤ (pos n) size) ≡ true
          → (size ≤ℤ pos 0) ⊎ (pos n ≤ℤ size)
      outside size n h = ground (arith, h)

      within :
          (size : ℤ)
          → size ≡ split_size c examples
          → (leb_ℤ size (pos 0) || leb_ℤ (pos (length examples)) size) ≡ false
          → Partitions c examples (
              split
                (drop (pos_part size) (split_items shuffled c examples))
                (take (pos_part size) (split_items shuffled c examples)))
      within (negsuc k) same h = absurd (ground (arith, h))
      within (pos k) same h =
          let items = split_items shuffled c examples in
          let permuted = split_items-Permᴰ shuffled c examples permutes in
          let as_many : length items ≡ length examples = length-Permᴰ permuted in
          let some_left : k < length examples = ground (arith, h) in
          let some_taken : 0 < k = ground (arith, h) in
          let taken : length (take k items) ≡ k =
            length-take k items (omega (arith, as_many, some_left)) in
          (
            omega (arith, length-drop k items, as_many, some_left),
            omega (arith, taken, some_taken),
            ap pos taken ∙ same,
            subst (λ xs. Permᴰ xs examples) (sym (take-append-drop k items)) permuted,
          )
