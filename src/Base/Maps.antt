-- ===== src/Base/Maps.antt =====
-- Maps with keys that can be compared, as association lists.
use mathlib.Core.Path.{◌≡◌, refl, ap, ◌∙◌}
use mathlib.Core.Bool.{Bool, true, false}
use mathlib.Core.Logic.{inl, inr}
use mathlib.Core.List.{List, [], ◌∷◌}
use mathlib.Core.Option.{Option, none, some}
use Prim.Native.Nat.{ℕ}
use nano_vllm_cpp.Base.Tests.{
  ◌==◌, ==→eq, eq→==, if◌then◌else◌, Bool-cases, vec_eq, vec_eq→eq, vec_eq_refl,
}

-- A test for equality that is right.
pub record Key (K : Type 0) : Type 0 where
  pub same : K → K → Bool
  pub same→eq : (a b : K) → same a b ≡ true → a ≡ b
  pub same_refl : (a : K) → same a a ≡ true

instance abbrev pub ℕ_key : Key ℕ
ℕ_key = record { same = ◌==◌; same→eq = ==→eq; same_refl = λ a. eq→== a a refl }

instance abbrev pub bytes_key : Key (List ℕ)
bytes_key = record { same = vec_eq; same→eq = vec_eq→eq; same_refl = vec_eq_refl }

module _ {ℓ} {K : Type 0} {V : Type ℓ} ⦃key : Key K⦄ where
  -- `m.find(k)`, where `none` is `m.end()`.
  unfoldable pub find : List (K × V) → K → Option V
  find [] k = none
  find ((j, v) ∷ m) k = if key.same j k then some v else find m k

  -- `m[k] = v`.
  unfoldable pub assign : List (K × V) → K → V → List (K × V)
  assign [] k v = (k, v) ∷ []
  assign ((j, w) ∷ m) k v = if key.same j k then (k, v) ∷ m else (j, w) ∷ assign m k v

  pub find-assign_self : (m : List (K × V)) (k : K) (v : V) → find (assign m k v) k ≡ some v
  unfolding find assign
  find-assign_self [] k v = rw (key.same_refl k) refl
  find-assign_self ((j, w) ∷ m) k v = elim (Bool-cases (key.same j k)) [
    | inl old ↦ rw (old, key.same_refl k) refl
    | inr other ↦ rw (other, other) (find-assign_self m k v)
  ]

  pub find-assign_other :
      (m : List (K × V)) (k j : K) (v : V) → key.same k j ≡ false → find (assign m k v) j ≡ find m j
  unfolding find assign
  find-assign_other [] k j v h = rw h refl
  find-assign_other ((i, w) ∷ m) k j v h = elim (Bool-cases (key.same i k)) [
    | inl old ↦
        let apart : key.same i j ≡ false = ap (λ x. key.same x j) (key.same→eq i k old) ∙ h in
        rw (old, h, apart) refl
    | inr other ↦ rw other (rw (find-assign_other m k j v h) refl)
  ]
