-- ===== src/Runner/Captured.antt =====
-- src/engine/model_runner.cpp: the batch sizes for which `CudaGraphRunner::capture` captures a
-- graph, and the choice of one in `select_bs`. `max_num_seqs` is not negative.
use nano_vllm_cpp.Base.{
  ℕ, zero, suc, ◌+◌, ◌*◌, ◌≤◌, ◌<◌, ◌≡◌, refl, sym, ◌∙◌, ap, subst, List, [], ◌∷◌, ◌++◌, Bool, true,
  false, none, some, arith, last?, ltb, leb, ◌==◌, if◌then◌else◌, min, Bool-cases, inl, inr,
  Option-cases,
}

unfoldable pub small_sizes : ℕ → List ℕ → List ℕ
small_sizes max_bs [] = []
small_sizes max_bs (bs ∷ sizes) =
    let rest = small_sizes max_bs sizes in if leb bs max_bs then bs ∷ rest else rest

-- `for (int bs = 12; bs <= max_bs; bs += 4)`.
unfoldable pub every_four : ℕ → ℕ → ℕ → List ℕ
every_four zero bs max_bs = []
every_four (suc fuel) bs max_bs =
    let rest = every_four fuel (bs + 4) max_bs in if leb bs max_bs then bs ∷ rest else []

-- `max_bs` comes last, if it is not there.
unfoldable pub with_last : List ℕ → ℕ → List ℕ
with_last sizes max_bs = elim (last? sizes) [
  | none ↦ sizes ++ max_bs ∷ []
  | some back ↦ if ltb back max_bs then sizes ++ max_bs ∷ [] else sizes
]

-- `std::sort`.
unfoldable pub sort_insert : ℕ → List ℕ → List ℕ
sort_insert x [] = x ∷ []
sort_insert x (y ∷ ys) = let rest = sort_insert x ys in if ltb y x then y ∷ rest else x ∷ y ∷ ys

unfoldable pub sort_sizes : List ℕ → List ℕ
sort_sizes [] = []
sort_sizes (x ∷ xs) = sort_insert x (sort_sizes xs)

-- `erase(std::unique(begin, end), end)`.
unfoldable pub unique_sizes : List ℕ → List ℕ
unique_sizes [] = []
unique_sizes (x ∷ []) = x ∷ []
unique_sizes (x ∷ y ∷ ys) = let rest = unique_sizes (y ∷ ys) in if x == y then rest else x ∷ rest

abbrev pub most_seqs : ℕ → ℕ
most_seqs max_num_seqs = min max_num_seqs 512

-- The fuel: each round adds 4, from 12 on.
unfoldable pub captured_sizes : ℕ → List ℕ
captured_sizes max_num_seqs =
    let max_bs = most_seqs max_num_seqs in
    unique_sizes (
      sort_sizes
        (with_last (small_sizes max_bs (1 ∷ 2 ∷ 4 ∷ 8 ∷ []) ++ every_four max_bs 12 max_bs) max_bs))

-- `std::lower_bound` of a sorted vector.
unfoldable pub select_bs : List ℕ → ℕ → ℕ
select_bs [] bs = 0
select_bs (x ∷ sizes) bs = let rest = select_bs sizes bs in if ltb x bs then rest else x

unfoldable pub available : List ℕ → ℕ → Bool
available sizes bs = ltb 0 (select_bs sizes bs)

-- Sizes that increase in steps of at most 4, up to a last one.
abbrev pub Chain : ℕ → List ℕ → ℕ → Type 0
Chain low [] high = low ≡ high
Chain low (x ∷ xs) high = (low < x) × (x ≤ low + 4) × Chain x xs high

Chain-le : (low : ℕ) (xs : List ℕ) (high : ℕ) → Chain low xs high → low ≤ high
Chain-le low [] high c = omega arith
Chain-le low (x ∷ xs) high c = omega (arith, c.0, Chain-le x xs high c.2)

sort-Chain : (low : ℕ) (xs : List ℕ) (high : ℕ) → Chain low xs high → sort_sizes xs ≡ xs
unfolding sort_sizes sort_insert
sort-Chain low [] high c = refl
sort-Chain low (x ∷ []) high c = refl
sort-Chain low (x ∷ y ∷ ys) high c =
    ap (sort_insert x) (sort-Chain x (y ∷ ys) high c.2) ∙ ground (arith, c)

unique-Chain : (low : ℕ) (xs : List ℕ) (high : ℕ) → Chain low xs high → unique_sizes xs ≡ xs
unfolding unique_sizes
unique-Chain low [] high c = refl
unique-Chain low (x ∷ []) high c = refl
unique-Chain low (x ∷ y ∷ ys) high c = ground (arith, c, unique-Chain x (y ∷ ys) high c.2)

every_four-more :
    (fuel bs high : ℕ)
    → leb bs high ≡ true
    → every_four (suc fuel) bs high ≡ bs ∷ every_four fuel (bs + 4) high
unfolding every_four
every_four-more fuel bs high h = ground arith

every_four-over : (fuel bs high : ℕ) → leb bs high ≡ false → every_four (suc fuel) bs high ≡ []
unfolding every_four
every_four-over fuel bs high h = ground arith

with_last-cons :
    (x y : ℕ) (ys : List ℕ) (high : ℕ) → with_last (x ∷ y ∷ ys) high ≡ x ∷ with_last (y ∷ ys) high
unfolding with_last
with_last-cons x y ys high = elim (Option-cases (last? (y ∷ ys))) [
  | inl e ↦ ground arith
  | inr (back, e) ↦ ground arith
]

with_last-one :
    (low high : ℕ)
    → low ≤ high
    → high < low + 4
    → (t : List ℕ) × (with_last (low ∷ []) high ≡ low ∷ t) × Chain low t high
unfolding with_last
with_last-one low high h near = elim (Bool-cases (ltb low high)) [
  | inl less ↦ (high ∷ [], rw less refl, (ground arith, omega arith, refl))
  | inr same ↦ ([], rw same refl, ground arith)
]

-- A list that ends as such a chain, from `low` on.
abbrev Ends : List ℕ → ℕ → ℕ → Type 0
Ends xs low high = (t : List ℕ) × (with_last xs high ≡ low ∷ t) × Chain low t high

-- The sizes from a multiple of four on, with the largest.
tail_lem :
    (fuel low high : ℕ)
    → low ≤ high
    → high < low + 4 + 4 * fuel
    → Ends (low ∷ every_four fuel (low + 4) high) low high
tail_lem zero low high h enough = unfold every_four in with_last-one low high h (omega arith)
tail_lem (suc fuel) low high h enough = elim (Bool-cases (leb (low + 4) high)) [
  | inl more ↦
      let (t, e, c) = tail_lem fuel (low + 4) high (ground arith) (omega arith) in
      subst (λ xs. Ends (low ∷ xs) low high) (sym (every_four-more fuel (low + 4) high more))
        (
          (low + 4) ∷ t,
          with_last-cons low (low + 4) (every_four fuel (low + 4 + 4) high) high
              ∙ ap (λ xs. low ∷ xs) e,
          (omega arith, omega arith, c),
        )
  | inr last ↦
      subst (λ xs. Ends (low ∷ xs) low high) (sym (every_four-over fuel (low + 4) high last))
        (with_last-one low high h (ground arith))
]

-- The list before it is sorted.
abbrev listed : ℕ → List ℕ
listed high = with_last (small_sizes high (1 ∷ 2 ∷ 4 ∷ 8 ∷ []) ++ every_four high 12 high) high

large_list : (high : ℕ) → 8 ≤ high → (t : List ℕ) × (listed high ≡ t) × Chain 0 t high
unfolding small_sizes
large_list high h =
    let (t, e, c) = tail_lem high 8 high h (omega arith) in
    let all : small_sizes high (1 ∷ 2 ∷ 4 ∷ 8 ∷ []) ≡ 1 ∷ 2 ∷ 4 ∷ 8 ∷ [] = ground arith in
    let rest = every_four high 12 high in
    (
      1 ∷ 2 ∷ 4 ∷ 8 ∷ t,
      ap (λ xs. with_last (xs ++ rest) high) all
          ∙ with_last-cons 1 2 (4 ∷ 8 ∷ rest) high
          ∙ ap (λ xs. 1 ∷ xs) (with_last-cons 2 4 (8 ∷ rest) high)
          ∙ ap (λ xs. 1 ∷ 2 ∷ xs) (with_last-cons 4 8 rest high)
          ∙ ap (λ xs. 1 ∷ 2 ∷ 4 ∷ xs) e,
      (
        omega arith,
        omega arith,
        (omega arith, omega arith, (omega arith, omega arith, (omega arith, omega arith, c))),
      ),
    )

small_list : (high : ℕ) → 1 ≤ high → high < 8 → (t : List ℕ) × (listed high ≡ t) × Chain 0 t high
unfolding small_sizes every_four with_last
small_list zero low h = absurd (omega arith)
small_list (suc zero) low h = (listed 1, refl, ground arith)
small_list (suc (suc zero)) low h = (listed 2, refl, ground arith)
small_list (suc (suc (suc zero))) low h = (listed 3, refl, ground arith)
small_list (suc (suc (suc (suc zero)))) low h = (listed 4, refl, ground arith)
small_list (suc (suc (suc (suc (suc zero))))) low h = (listed 5, refl, ground arith)
small_list (suc (suc (suc (suc (suc (suc zero)))))) low h = (listed 6, refl, ground arith)
small_list (suc (suc (suc (suc (suc (suc (suc zero))))))) low h = (listed 7, refl, ground arith)
small_list (suc (suc (suc (suc (suc (suc (suc (suc high)))))))) low h = absurd (omega arith)

captured_sizes-Chain : (n : ℕ) → 1 ≤ n → Chain 0 (captured_sizes n) (most_seqs n)
unfolding captured_sizes
captured_sizes-Chain n h =
    let high = most_seqs n in
    let (t, e, c) : (t : List ℕ) × (listed high ≡ t) × Chain 0 t high =
      elim (Bool-cases (ltb high 8)) [
        | inl small ↦ small_list high (ground arith) (ground arith)
        | inr large ↦ large_list high (ground arith)
      ] in
    subst (λ xs. Chain 0 xs high)
      (sym (
        ap (λ xs. unique_sizes (sort_sizes xs)) e
        ∙ ap unique_sizes (sort-Chain 0 t high c)
        ∙ unique-Chain 0 t high c))
      c

select-Chain :
    (low : ℕ) (xs : List ℕ) (high bs : ℕ)
    → Chain low xs high
    → low < bs
    → bs ≤ high
    → (bs ≤ select_bs xs bs) × (select_bs xs bs ≤ high) × (select_bs xs bs < bs + 4)
unfolding select_bs
select-Chain low [] high bs c a b = absurd (omega (arith, c))
select-Chain low (x ∷ xs) high bs c a b = elim (Bool-cases (ltb x bs)) [
  | inl less ↦ rw less (select-Chain x xs high bs c.2 (ground arith) b)
  | inr enough ↦ rw enough (ground arith, Chain-le x xs high c.2, omega (arith, c.1))
]

select-beyond :
    (low : ℕ) (xs : List ℕ) (high bs : ℕ) → Chain low xs high → high < bs → select_bs xs bs ≡ 0
unfolding select_bs
select-beyond low [] high bs c h = refl
select-beyond low (x ∷ xs) high bs c h =
    let less : ltb x bs ≡ true = ground (arith, Chain-le x xs high c.2) in
    rw less (select-beyond x xs high bs c.2 h)

-- For a configuration that allows n sequences, at least one: the captured batch sizes increase in
-- steps of at most 4 up to min(n, 512). So a batch of up to that many sequences gets a graph that
-- holds it and pads it with at most 3 sequences, and for a larger batch no graph is available.
pub select_captured :
    (n bs : ℕ)
    → 1 ≤ n
    → 1 ≤ bs
    → Chain 0 (captured_sizes n) (most_seqs n)
      × (bs ≤ most_seqs n
          → (available (captured_sizes n) bs ≡ true)
            × (bs ≤ select_bs (captured_sizes n) bs)
            × (select_bs (captured_sizes n) bs ≤ most_seqs n)
            × (select_bs (captured_sizes n) bs < bs + 4))
      × (most_seqs n < bs → available (captured_sizes n) bs ≡ false)
unfolding available
select_captured n bs h some_seqs =
    let c = captured_sizes-Chain n h in
    (
      c,
      (λ fits.
          let (a, b, d) = select-Chain 0 (captured_sizes n) (most_seqs n) bs c some_seqs fits in
          (ground (arith, a), a, b, d)),
      (λ more. ground (arith, select-beyond 0 (captured_sizes n) (most_seqs n) bs c more)),
    )
