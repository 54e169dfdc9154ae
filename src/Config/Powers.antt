-- ===== src/Config/Powers.antt =====
-- The numbers that share no binary digit with the one before them are the powers of two.
use Prim.Native.Nat.{bit_and, digits, bit_and-bitwise}
use native.Mathlib.Nat.{pow-suc, one-le-pow}
use nano_vllm_cpp.Base.{
  ℕ, zero, suc, ◌+◌, ◌-◌, ◌*◌, ◌/◌, ◌%◌, ◌^◌, ◌≤◌, min, ◌≡◌, refl, ap, inl, inr, ◌⊎◌, arith, ap₂,
  Bool-cases, ◌==◌,
}

-- The definition that `bit_and` stands for, on more fuel than the number.
abbrev and_on : ℕ → ℕ → ℕ → ℕ
and_on fuel a b = digits (λ b. zero) min fuel a b

and_on-fuel : (m n a b : ℕ) → a ≤ m → a ≤ n → and_on m a b ≡ and_on n a b
and_on-fuel zero zero a b h k = refl
and_on-fuel zero (suc n) zero b h k = refl
and_on-fuel (suc m) zero zero b h k = refl
and_on-fuel zero (suc n) (suc a) b h k = absurd (omega arith)
and_on-fuel (suc m) zero (suc a) b h k = absurd (omega arith)
and_on-fuel (suc m) (suc n) zero b h k = refl
and_on-fuel (suc m) (suc n) (suc a) b h k =
    omega (arith, and_on-fuel m n (suc a / 2) (b / 2) (omega arith) (omega arith))

bit_and-none : (b : ℕ) → bit_and 0 b ≡ 0
bit_and-none b = bit_and-bitwise 0 b

-- The lowest digit, and the others.
bit_and-half : (a b : ℕ) → bit_and a b ≡ bit_and (a / 2) (b / 2) * 2 + min (a % 2) (b % 2)
bit_and-half zero b = omega (arith, bit_and-none b, bit_and-none (b / 2))
bit_and-half (suc a) b =
    let half = suc a / 2 in
    omega (
      arith,
      bit_and-bitwise (suc a) b,
      bit_and-bitwise half (b / 2),
      and_on-fuel a half half (b / 2) (omega arith) (omega arith),
    )

bit_and-same : (fuel a : ℕ) → a ≤ fuel → bit_and a a ≡ a
bit_and-same zero zero h = bit_and-none 0
bit_and-same zero (suc a) h = absurd (omega arith)
bit_and-same (suc fuel) zero h = bit_and-none 0
bit_and-same (suc fuel) (suc a) h =
    omega (arith, bit_and-half (suc a) (suc a), bit_and-same fuel (suc a / 2) (omega arith))

-- An even number and the one before it share the digits of their halves; an odd one and the one
-- before it share all but the lowest digit.
shared-even : (m : ℕ) → 1 ≤ m → bit_and (m * 2) (m * 2 - 1) ≡ bit_and m (m - 1) * 2
shared-even m h =
    let halved : bit_and (m * 2 / 2) ((m * 2 - 1) / 2) ≡ bit_and m (m - 1) =
      ap₂ (λ x y. bit_and x y) (omega arith) (omega arith) in
    omega (arith, bit_and-half (m * 2) (m * 2 - 1), halved)

shared-odd : (m : ℕ) → bit_and (m * 2 + 1) (m * 2) ≡ m * 2
shared-odd m =
    let halved : bit_and ((m * 2 + 1) / 2) (m * 2 / 2) ≡ bit_and m m =
      ap₂ (λ x y. bit_and x y) (omega arith) (omega arith) in
    omega (arith, bit_and-half (m * 2 + 1) (m * 2), halved, bit_and-same m m (omega arith))

halves : (n : ℕ) → (m : ℕ) × ((n ≡ m * 2) ⊎ (n ≡ m * 2 + 1))
halves n = (
  n / 2,
  elim (Bool-cases (n % 2 == 0)) [ inl even ↦ inl (ground arith) | inr odd ↦ inr (ground arith) ],
)

pub power_of_two : (fuel n : ℕ) → n ≤ fuel → 1 ≤ n → bit_and n (n - 1) ≡ 0 → (k : ℕ) × (n ≡ 2 ^ k)
power_of_two zero n h p e = absurd (omega arith)
power_of_two (suc fuel) n h p e =
    let (m, cases) = halves n in
    elim cases [
      | inl even ↦
          let same : bit_and n (n - 1) ≡ bit_and (m * 2) (m * 2 - 1) =
            ap (λ x. bit_and x (x - 1)) even in
          let (k, power) =
            power_of_two fuel m (omega arith) (omega arith)
              (omega (arith, same, shared-even m (omega arith))) in
          (suc k, omega (arith, pow-suc 2 k))
      | inr odd ↦
          let same : bit_and n (n - 1) ≡ bit_and (m * 2 + 1) (m * 2) =
            ap₂ (λ x y. bit_and x y) odd (omega arith) in
          (0, omega (arith, same, shared-odd m))
    ]

pub two_to_the : (k : ℕ) → bit_and (2 ^ k) (2 ^ k - 1) ≡ 0
two_to_the zero = omega (arith, shared-odd 0)
two_to_the (suc k) =
    let twice : bit_and (2 ^ suc k) (2 ^ suc k - 1) ≡ bit_and (2 ^ k * 2) (2 ^ k * 2 - 1) =
      ap (λ x. bit_and x (x - 1)) (omega (arith, pow-suc 2 k)) in
    omega (arith, twice, two_to_the k, shared-even (2 ^ k) (one-le-pow k 2 (omega arith)))
