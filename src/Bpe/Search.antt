-- ===== src/Bpe/Search.antt =====
-- The pair that the search finds.
use nano_vllm_cpp.Base.{
  ℕ, zero, suc, ◌+◌, ◌-◌, ◌^◌, ◌≤◌, ◌<◌, ◌≡◌, refl, ap, sym, subst, ◌∙◌, List, [], ◌∷◌, Option,
  none, some, ◌⊎◌, inl, inr, Option-cases, Bool-cases, ltb, arith,
}
use nano_vllm_cpp.Base.Maps.{bytes_key, find}
use nano_vllm_cpp.Text.{Bytes}
use nano_vllm_cpp.Bpe.{Best, pair_key, better, best_from, no_best}

-- The rank of the pair of symbols at an index.
unfoldable pub rank_at : List (Bytes × ℕ) → List Bytes → ℕ → Option ℕ
rank_at ranks [] i = none
rank_at ranks (x ∷ []) i = none
rank_at ranks (x ∷ y ∷ symbols) zero = find ranks (pair_key x y)
rank_at ranks (x ∷ y ∷ symbols) (suc i) = rank_at ranks (y ∷ symbols) i

-- The pair at `i` has the rank `r`, the least of all, and it is the first of that rank.
pub record Leftmost (ranks : List (Bytes × ℕ)) (symbols : List Bytes) (i r : ℕ) : Type 0 where
  pub ranked : rank_at ranks symbols i ≡ some r
  pub least : (k s : ℕ) → rank_at ranks symbols k ≡ some s → r ≤ s
  pub leftmost : (k s : ℕ) → rank_at ranks symbols k ≡ some s → k < i → r < s

-- What the search from `i` on finds: nothing better, or a first least pair.
abbrev Unbeaten : List (Bytes × ℕ) → List Bytes → Best → Best → Type 0
Unbeaten ranks symbols best found =
    (found ≡ best) × ((k s : ℕ) → rank_at ranks symbols k ≡ some s → best.rank ≤ s)

abbrev Improved : List (Bytes × ℕ) → List Bytes → ℕ → Best → Best → Type 0
Improved ranks symbols i best found =
    (j : ℕ) × (found.idx ≡ some (i + j))
    × (found.rank < best.rank)
    × Leftmost ranks symbols j found.rank

better-cases :
    (ranks : List (Bytes × ℕ)) (i : ℕ) (best : Best) (x y : Bytes)
    → ((better ranks i best x y ≡ best)
        × ((s : ℕ) → find ranks (pair_key x y) ≡ some s → best.rank ≤ s))
      ⊎ ((r : ℕ) × (find ranks (pair_key x y) ≡ some r)
          × (r < best.rank)
          × (better ranks i best x y ≡ record { rank = r; idx = some i }))
unfolding better
better-cases ranks i best x y = elim (Option-cases (find ranks (pair_key x y))) [
  | inl absent ↦ inl (ground arith, λ s h. ground arith)
  | inr (r, there) ↦ elim (Bool-cases (ltb r best.rank)) [
    | inl less ↦ inr (r, there, ground arith, ground arith)
    | inr more ↦ inl (ground arith, λ s h. ground arith)
  ]
]

abbrev Outcome : List (Bytes × ℕ) → List Bytes → ℕ → Best → Best → Type 0
Outcome ranks symbols i best found =
    Unbeaten ranks symbols best found ⊎ Improved ranks symbols i best found

module _ (ranks : List (Bytes × ℕ)) (x y : Bytes) (symbols : List Bytes) (i : ℕ)
    (best found : Best) where
  -- The first pair is not better than the best so far.
  Outcome-kept :
      ((s : ℕ) → find ranks (pair_key x y) ≡ some s → best.rank ≤ s)
      → Outcome ranks (y ∷ symbols) (i + 1) best found
      → Outcome ranks (x ∷ y ∷ symbols) i best found
  unfolding rank_at
  Outcome-kept most (inl (same, all)) = inl (same, every)
    where
      every : (k s : ℕ) → rank_at ranks (x ∷ y ∷ symbols) k ≡ some s → best.rank ≤ s
      every zero s h = most s h
      every (suc k) s h = all k s h
  Outcome-kept most (inr (j, at, less, l)) = inr (
    suc j,
    at ∙ ap (λ n. some n) (omega arith),
    less,
    record { ranked = unfold rank_at in l.ranked; least = every; leftmost = before },
  )
    where
      every : (k s : ℕ) → rank_at ranks (x ∷ y ∷ symbols) k ≡ some s → found.rank ≤ s
      every zero s h = omega (arith, most s h)
      every (suc k) s h = l.least k s h

      before : (k s : ℕ) → rank_at ranks (x ∷ y ∷ symbols) k ≡ some s → k < suc j → found.rank < s
      before zero s h b = omega (arith, most s h)
      before (suc k) s h b = l.leftmost k s h (omega arith)

  -- The first pair is the best so far.
  Outcome-new :
      (r : ℕ)
      → find ranks (pair_key x y) ≡ some r
      → r < best.rank
      → Outcome ranks (y ∷ symbols) (i + 1) (record { rank = r; idx = some i }) found
      → Outcome ranks (x ∷ y ∷ symbols) i best found
  unfolding rank_at
  Outcome-new r there less (inl (same, all)) = inr (
    0,
    ap (λ b. b.idx) same ∙ ap (λ n. some n) (omega arith),
    omega (arith, ap (λ b. b.rank) same),
    record {
      ranked = unfold rank_at in (there ∙ ap (λ b. some b.rank) (sym same));
      least = every;
      leftmost = λ k s h b. absurd (omega arith);
    },
  )
    where
      every : (k s : ℕ) → rank_at ranks (x ∷ y ∷ symbols) k ≡ some s → found.rank ≤ s
      every zero s h = ground (arith, ap (λ b. b.rank) same)
      every (suc k) s h = omega (arith, all k s h, ap (λ b. b.rank) same)
  Outcome-new r there less (inr (j, at, lower, l)) = inr (
    suc j,
    at ∙ ap (λ n. some n) (omega arith),
    omega arith,
    record { ranked = unfold rank_at in l.ranked; least = every; leftmost = before },
  )
    where
      every : (k s : ℕ) → rank_at ranks (x ∷ y ∷ symbols) k ≡ some s → found.rank ≤ s
      every zero s h = ground arith
      every (suc k) s h = l.least k s h

      before : (k s : ℕ) → rank_at ranks (x ∷ y ∷ symbols) k ≡ some s → k < suc j → found.rank < s
      before zero s h b = ground arith
      before (suc k) s h b = l.leftmost k s h (omega arith)

best_from_lem :
    (ranks : List (Bytes × ℕ)) (i : ℕ) (best : Best) (symbols : List Bytes)
    → Outcome ranks symbols i best (best_from ranks i best symbols)
unfolding best_from
best_from_lem ranks i best [] = unfold rank_at in inl (refl, λ k s h. cc)
best_from_lem ranks i best (x ∷ []) = unfold rank_at in inl (refl, λ k s h. cc)
best_from_lem ranks i best (x ∷ y ∷ symbols) = elim (better-cases ranks i best x y) [
  | inl (same, most) ↦ Outcome-kept ranks x y symbols i best _ most (
      subst
        (λ b. Outcome ranks (y ∷ symbols) (i + 1) best (best_from ranks (i + 1) b (y ∷ symbols)))
        (sym same) (best_from_lem ranks (i + 1) best (y ∷ symbols)))
  | inr (r, there, less, now) ↦
      let first : Best = record { rank = r; idx = some i } in
      Outcome-new ranks x y symbols i best _ r there less (
        subst
          (λ b. Outcome ranks (y ∷ symbols) (i + 1) first (best_from ranks (i + 1) b (y ∷ symbols)))
          (sym now) (best_from_lem ranks (i + 1) first (y ∷ symbols)))
]

-- The search finds the first pair of least rank, or there is no pair of a rank below the largest
-- `int`.
pub best_pair :
    (ranks : List (Bytes × ℕ)) (symbols : List Bytes)
    → (((best_from ranks 0 no_best symbols).idx ≡ none)
        × ((k s : ℕ) → rank_at ranks symbols k ≡ some s → 2 ^ 31 - 1 ≤ s))
      ⊎ ((i r : ℕ) × ((best_from ranks 0 no_best symbols).idx ≡ some i)
          × Leftmost ranks symbols i r)
best_pair ranks symbols = elim (best_from_lem ranks 0 no_best symbols) [
  | inl (same, all) ↦ inl (ap (λ b. b.idx) same, all)
  | inr (j, at, less, l) ↦
      inr (j, (best_from ranks 0 no_best symbols).rank, at ∙ ap (λ n. some n) (omega arith), l)
]
