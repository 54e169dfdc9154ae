-- ===== src/Base/Counting.antt =====
-- How often a number stands in a list, and the list operations of deques and sets of numbers.
use nano_vllm_cpp.Base.Tests.{◌==◌, if◌then◌else◌}
use nano_vllm_cpp.Base.Lists.{length}
use Prim.Native.Nat.{ℕ, ◌+◌, ◌-◌, ◌≤◌}
use mathlib.Core.Path.{◌≡◌, refl}
use mathlib.Core.Bool.{Bool, true, false}
use mathlib.Core.List.{List, [], ◌∷◌, ◌++◌}
use native.Mathlib.Omega.{arith}

abbrev pub one_if : Bool → ℕ
one_if true = 1
one_if false = 0

unfoldable pub count : ℕ → List ℕ → ℕ
count b [] = 0
count b (x ∷ xs) = one_if (x == b) + count b xs

pub count-append : (b : ℕ) (xs ys : List ℕ) → count b (xs ++ ys) ≡ count b xs + count b ys
unfolding count
count-append b [] ys = omega arith
count-append b (x ∷ xs) ys = omega (arith, count-append b xs ys)

-- `erase(find(begin, end, x))`, and `erase(x)` of a set: the first occurrence goes.
unfoldable pub erase : ℕ → List ℕ → List ℕ
erase x [] = []
erase x (y ∷ ys) = if y == x then ys else y ∷ erase x ys

unfoldable pub contains : ℕ → List ℕ → Bool
contains x [] = false
contains x (y ∷ ys) = if y == x then true else contains x ys

-- `insert(x)` of a set.
unfoldable pub set_insert : ℕ → List ℕ → List ℕ
set_insert x xs = if contains x xs then xs else x ∷ xs

pub contains-count : (x : ℕ) (xs : List ℕ) → contains x xs ≡ true → 1 ≤ count x xs
unfolding contains count
contains-count x [] h = ground arith
contains-count x (y ∷ ys) h = ground (arith, contains-count x ys)

pub not-contains-count : (x : ℕ) (xs : List ℕ) → contains x xs ≡ false → count x xs ≡ 0
unfolding contains count
not-contains-count x [] h = refl
not-contains-count x (y ∷ ys) h = ground (arith, not-contains-count x ys)

pub count-contains : (x : ℕ) (xs : List ℕ) → 1 ≤ count x xs → contains x xs ≡ true
unfolding contains count
count-contains x [] h = absurd (omega arith)
count-contains x (y ∷ ys) h = ground (arith, count-contains x ys)

pub count-erase : (b x : ℕ) (xs : List ℕ) → count b (erase x xs) ≡ count b xs - one_if (x == b)
unfolding erase count
count-erase b x [] = ground arith
count-erase b x (y ∷ ys) = ground (arith, count-erase b x ys)

pub count-set_insert :
    (b x : ℕ) (xs : List ℕ)
    → count x xs ≡ 0
    → count b (set_insert x xs) ≡ count b xs + one_if (x == b)
unfolding set_insert count
count-set_insert b x xs h = ground (arith, contains-count x xs)

pub length-erase : (x : ℕ) (xs : List ℕ) → 1 ≤ count x xs → length (erase x xs) + 1 ≡ length xs
unfolding erase count
length-erase x [] h = absurd (omega arith)
length-erase x (y ∷ ys) h = ground (arith, length-erase x ys)

pub length-set_insert :
    (x : ℕ) (xs : List ℕ) → count x xs ≡ 0 → length (set_insert x xs) ≡ length xs + 1
unfolding set_insert
length-set_insert x xs h = ground (arith, contains-count x xs)
