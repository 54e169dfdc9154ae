-- ===== src/Copy/Layout.antt =====
-- Where the elements of a strided tensor lie, by their row-major index.
use native.Mathlib.Nat.{mul-pos}
use nano_vllm_cpp.Base.{
  ℕ, ◌+◌, ◌*◌, ◌/◌, ◌%◌, ◌^◌, ◌≤◌, ◌<◌, ◌≡◌, refl, ap, ap₂, ◌∙◌, List, [], ◌∷◌, arith, length,
}
use nano_vllm_cpp.Tensor.Views.{position, Within}
use nano_vllm_cpp.Copy.{storage_from}

-- The number of elements of a shape without a 0, below 2^64.
abbrev pub product : List ℕ → ℕ
product [] = 1
product (s ∷ ss) = s * product ss

abbrev pub AllPositive : List ℕ → Type 0
AllPositive [] = Unit
AllPositive (s ∷ ss) = (1 ≤ s) × AllPositive ss

pub product-positive : (ss : List ℕ) → AllPositive ss → 1 ≤ product ss
product-positive [] v = omega arith
product-positive (s ∷ ss) (p, v) = mul-pos p (product-positive ss v)

-- The number of an index in row-major order.
abbrev pub row_major_index : List ℕ → List ℕ → ℕ
row_major_index [] is = 0
row_major_index (s ∷ ss) [] = 0
row_major_index (s ∷ ss) (i ∷ is) = i * product ss + row_major_index ss is

pub row_major_index-lt : (ss is : List ℕ) → Within ss is → row_major_index ss is < product ss
row_major_index-lt [] [] w = omega arith
row_major_index-lt [] (i ∷ is) w = absurd w
row_major_index-lt (s ∷ ss) [] w = absurd w
row_major_index-lt (s ∷ ss) (i ∷ is) w =
    let inner = row_major_index-lt ss is w.1 in grind (arith, inner, w.0)

-- One dimension: what is left of the number, and the coordinate.
coordinate : (q i n : ℕ) → i < n → ((q * n + i) / n ≡ q) × ((q * n + i) % n ≡ i)
coordinate q i n h = (grind (arith, h), grind (arith, h))

sums : (x i k : ℕ) → (x % 2 ^ 64 + i * k) % 2 ^ 64 ≡ (i * k + x) % 2 ^ 64
sums x i k = omega arith

-- The loop of `linear_index_to_storage_offset` finds the coordinates of the index again.
pub storage_from-position :
    (ss ks is : List ℕ) (q : ℕ)
    → Within ss is
    → length ks ≡ length ss
    → storage_from ss ks (q * product ss + row_major_index ss is) ≡ (q, position ks is % 2 ^ 64)
unfolding storage_from
storage_from-position [] [] [] q w e = ap₂ (λ x y. (x, y)) (omega arith) refl
storage_from-position [] (k ∷ ks) is q w e = absurd (omega arith)
storage_from-position [] [] (i ∷ is) q w e = absurd w
storage_from-position (s ∷ ss) [] is q w e = absurd (omega arith)
storage_from-position (s ∷ ss) (k ∷ ks) [] q w e = absurd w
storage_from-position (s ∷ ss) (k ∷ ks) (i ∷ is) q w e =
    let inner = storage_from-position ss ks is (q * s + i) w.1 (omega arith) in
    let here = coordinate q i s w.0 in
    ap (λ r. storage_from (s ∷ ss) (k ∷ ks) r) (split q s i (product ss) (row_major_index ss is))
    ∙ ap (λ x. (x.0 / s, (x.1 + x.0 % s * k) % 2 ^ 64)) inner
    ∙ ap₂ (λ x y. (x, (position ks is % 2 ^ 64 + y * k) % 2 ^ 64)) here.0 here.1
    ∙ ap (λ y. (q, y)) (sums (position ks is) i k)
  where
    split : (q s i p f : ℕ) → q * (s * p) + (i * p + f) ≡ (q * s + i) * p + f
    split q s i p f = grind arith
