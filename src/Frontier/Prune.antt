-- ===== src/Frontier/Prune.antt =====
-- The pruning loop of `frontierWeights`, which deletes from the map that it ranges over.
use gepago.Base.{
  ℕ, ◌≡◌, ◌≢◌, ◌↔◌, sym, ap, subst, String, true, false, not, ◌&&◌, List, [], ◌∷◌, arith, ◌⊎◌, inl,
  inr, Bool-cases, str_eq, str_eq_iff,
}
use gepago.Floats.{Floats, IsOrdered}
use gepago.Frontier.Defs.{CandidateRecord, erase, keys, dominates, dominated_by_candidate, prune}
use gepago.Frontier.Keys.{
  has, Distinct, has-erase_sub, has-erase_ne, has-erase_self, erase-Distinct,
}
use gepago.Frontier.Dominance.{dominates_trans, dominates_irrefl}

module _ (F : Floats) (rs : List (CandidateRecord F)) where
  -- One of the keys dominates this one, and is another.
  abbrev pub Beaten : String → List String → Type 0
  Beaten k ks =
      (other : String) × (has other ks ≡ true) × (other ≢ k) × (dominates F other k rs ≡ true)

  pub dominated_by_candidate-Beaten :
      (k : String) (ks : List String) → dominated_by_candidate F k ks rs ≡ true → Beaten k ks
  unfolding dominated_by_candidate
  dominated_by_candidate-Beaten k [] h = cc
  dominated_by_candidate-Beaten k (j ∷ ks) h =
      elim (Bool-cases (not (str_eq j k) && dominates F j k rs)) [
        | inl this ↦
            (j, ground (arith, str_eq_iff j j), ground (arith, str_eq_iff j k), ground arith)
        | inr that ↦
            let (other, in_ks, ne, dom) = dominated_by_candidate-Beaten k ks (ground arith) in
            (other, ground arith, ne, dom)
      ]

  pub Beaten-dominated :
      (k other : String) (ks : List String)
      → has other ks ≡ true
      → other ≢ k
      → dominates F other k rs ≡ true
      → dominated_by_candidate F k ks rs ≡ true
  unfolding dominated_by_candidate
  Beaten-dominated k other [] h ne dom = cc
  Beaten-dominated k other (j ∷ ks) h ne dom =
      ground (arith, str_eq_iff j other, str_eq_iff j k, Beaten-dominated k other ks)

  -- Nothing is put back.
  prune_sub :
      (order : List String) (m : List (String × ℕ)) (k : String)
      → has k (keys (prune F order m rs)) ≡ true
      → has k (keys m) ≡ true
  unfolding prune
  prune_sub [] m k h = h
  prune_sub (j ∷ order) m k h = elim (Bool-cases (dominated_by_candidate F j (keys m) rs)) [
    | inl out ↦ has-erase_sub k j m (prune_sub order (erase j m) k (rw out at h))
    | inr stays ↦ prune_sub order m k (rw stays at h)
  ]

  module _ (o : IsOrdered F) (winners : List String) where
    -- What is left is part of the winners, and what is gone is dominated by what is left.
    record IsPruned (m : List (String × ℕ)) : Type 0 where
      distinct : Distinct (keys m)
      sub : (k : String) → has k (keys m) ≡ true → has k winners ≡ true
      gone : (k : String) → has k winners ≡ true → has k (keys m) ≡ false → Beaten k (keys m)

    -- A key that is gone after `k` went was there before, and is `k`, or was gone already.
    erase-gone :
        (k : String) (m : List (String × ℕ))
        → IsPruned m
        → Beaten k (keys m)
        → (j : String) → has j winners ≡ true
        → has j (keys (erase k m)) ≡ false
        → Beaten j (keys (erase k m))
    erase-gone k m p (y, y_in, y_ne, y_dom) j j_in out = elim (Bool-cases (has j (keys m))) [
      | inl there ↦ elim (Bool-cases (str_eq j k)) [
        | inl same ↦
            let e : k ≡ j = sym ((str_eq_iff j k).0 same) in
            (
              y,
              has-erase_ne y k m y_ne y_in,
              subst (λ x. y ≢ x) e y_ne,
              subst (λ x. dominates F y x rs ≡ true) e y_dom,
            )
        | inr other ↦
            let ne : j ≢ k = λ e. cc ((str_eq_iff j k).1 e) in
            absurd (cc (has-erase_ne j k m ne there))
      ]
      | inr away ↦
          let (x, x_in, x_ne, x_dom) = p.gone j j_in away in
          elim (Bool-cases (str_eq x k)) [
            | inl same ↦
                let e : x ≡ k = (str_eq_iff x k).0 same in
                (
                  y,
                  has-erase_ne y k m y_ne y_in,
                  λ q. cc (ap (λ t. has t (keys m)) q),
                  dominates_trans F o y k j rs y_dom
                      (subst (λ t. dominates F t j rs ≡ true) e x_dom),
                )
            | inr other ↦ (x, has-erase_ne x k m (λ e. cc ((str_eq_iff x k).1 e)) x_in, x_ne, x_dom)
          ]
    ]

    erase-IsPruned :
        (k : String) (m : List (String × ℕ)) → IsPruned m → Beaten k (keys m) → IsPruned (erase k m)
    erase-IsPruned k m p b = record {
      distinct = erase-Distinct k m p.distinct;
      sub = λ j h. p.sub j (has-erase_sub j k m h);
      gone = erase-gone k m p b;
    }

    -- A key that stays when it is visited is dominated by no winner.
    stays-undominated :
        (k : String) (m : List (String × ℕ))
        → IsPruned m
        → dominated_by_candidate F k (keys m) rs ≡ false
        → dominated_by_candidate F k winners rs ≡ false
    stays-undominated k m p h = elim (Bool-cases (dominated_by_candidate F k winners rs)) [
      | inr free ↦ free
      | inl beaten ↦
          let (x, x_in, x_ne, x_dom) = dominated_by_candidate-Beaten k winners beaten in
          elim (Bool-cases (has x (keys m))) [
            | inl there ↦ absurd (cc (Beaten-dominated k x (keys m) there x_ne x_dom))
            | inr away ↦
                let (y, y_in, y_ne, y_dom) = p.gone x x_in away in
                let dom = dominates_trans F o y x k rs y_dom x_dom in
                let ne : y ≢ k = λ e.
                  cc (subst (λ t. dominates F t k rs ≡ true) e dom, dominates_irrefl F o k rs) in
                absurd (cc (Beaten-dominated k y (keys m) y_in ne dom))
          ]
    ]

    narrow :
        {P : Type 0} (j k : String) (order : List String)
        → str_eq j k ≡ false
        → (has k (j ∷ order) ≡ true) ⊎ P
        → (has k order ≡ true) ⊎ P
    narrow j k order ne (inl h) = inl (ground arith)
    narrow j k order ne (inr h) = inr h

    -- A key that is visited, or known to be undominated, is undominated if it is left.
    prune_visited :
        (order : List String) (m : List (String × ℕ))
        → IsPruned m
        → (k : String) → (has k order ≡ true) ⊎ (dominated_by_candidate F k winners rs ≡ false)
        → has k (keys (prune F order m rs)) ≡ true
        → dominated_by_candidate F k winners rs ≡ false
    unfolding prune
    prune_visited [] m p k (inl h) left = cc
    prune_visited [] m p k (inr h) left = h
    prune_visited (j ∷ order) m p k h left =
        elim (Bool-cases (dominated_by_candidate F j (keys m) rs)) [
          | inl out ↦
              let left' = rw out at left in
              let p' = erase-IsPruned j m p (dominated_by_candidate-Beaten j (keys m) out) in
              elim (Bool-cases (str_eq j k)) [
                | inl same ↦
                    let e : j ≡ k = (str_eq_iff j k).0 same in
                    absurd (
                      cc (
                        prune_sub order (erase j m) k left',
                        ap (λ t. has t (keys (erase j m))) e,
                        has-erase_self j m p.distinct,
                      ))
                | inr other ↦ prune_visited order (erase j m) p' k (narrow j k order other h) left'
              ]
          | inr stays ↦
              let left' = rw stays at left in
              elim (Bool-cases (str_eq j k)) [
                | inl same ↦
                    let e : j ≡ k = (str_eq_iff j k).0 same in
                    subst (λ t. dominated_by_candidate F t winners rs ≡ false) e
                      (stays-undominated j m p stays)
                | inr other ↦ prune_visited order m p k (narrow j k order other h) left'
              ]
        ]

    prune-IsPruned :
        (order : List String) (m : List (String × ℕ)) → IsPruned m → IsPruned (prune F order m rs)
    unfolding prune
    prune-IsPruned [] m p = p
    prune-IsPruned (j ∷ order) m p = elim (Bool-cases (dominated_by_candidate F j (keys m) rs)) [
      | inl out ↦ rw out (
          prune-IsPruned order (erase j m)
            (erase-IsPruned j m p (dominated_by_candidate-Beaten j (keys m) out)))
      | inr stays ↦ rw stays (prune-IsPruned order m p)
    ]

  -- Whatever order Go ranges over the map of winners in, pruning it leaves exactly the winners that
  -- no other winner dominates.
  pub has-prune_iff :
      (o : IsOrdered F) (order : List String) (winners : List (String × ℕ)) (k : String)
      → Distinct (keys winners)
      → ((j : String) → has j (keys winners) ≡ true → has j order ≡ true)
      → (has k (keys (prune F order winners rs)) ≡ true)
        ↔ ((has k (keys winners) ≡ true) × (dominated_by_candidate F k (keys winners) rs ≡ false))
  has-prune_iff o order winners k distinct complete = (
    λ left.
        let there = prune_sub order winners k left in
        (there, prune_visited o (keys winners) order winners start k (inl (complete k there)) left),
    λ (there, free). elim (Bool-cases (has k (keys (prune F order winners rs)))) [
      | inl left ↦ left
      | inr out ↦
          let (x, x_in, ne, dom) =
            (prune-IsPruned o (keys winners) order winners start).gone k there out in
          absurd
            (cc (free, Beaten-dominated k x (keys winners) (prune_sub order winners x x_in) ne dom))
    ],
  )
    where
      start : IsPruned o (keys winners) winners
      start = record { distinct = distinct; sub = λ j h. h; gone = λ j h away. absurd (cc) }
