-- ===== src/Parallel/Reduce.antt =====
-- Whatever order the ranks of a group call `all_reduce_sum` in, all tensors end with the sum.
use nano_vllm_cpp.Base.{
  ℕ, ◌≤◌, ◌≡◌, ◌≢◌, refl, sym, ◌∙◌, ap, List, [], ◌∷◌, true, Option, some, arith, ok, leb, ◌==◌,
  if◌then◌else◌, vec_eq, vec_eq_refl, Bool-cases, inl, inr, eq→==, ne→==,
}
use nano_vllm_cpp.Base.Counting.{count}
use nano_vllm_cpp.Tensor.{Tensor, data_address}
use nano_vllm_cpp.Copy.{is_cuda}
use nano_vllm_cpp.Parallel.{
  Device, device, same_device, ensure_same_metadata, dtype_code, Values, write, add_shards,
  copy_back, reduce,
}

abbrev pub addresses : List Tensor → List ℕ
addresses [] = []
addresses (t ∷ ts) = data_address t ∷ addresses ts

abbrev pub all_defined : List Tensor → List (Option Tensor)
all_defined [] = []
all_defined (t ∷ ts) = some t ∷ all_defined ts

-- Tensors of the same shape and type, and on the same device, as a first one.
abbrev pub AllAlike : (ℕ → Device) → Tensor → List Tensor → Type 0
AllAlike devices t [] = Unit
AllAlike devices t (u ∷ us) =
    (t.sizes ≡ u.sizes)
    × (t.dtype ≡ u.dtype)
    × (device devices t ≡ device devices u)
    × AllAlike devices t us

same_device_self : (d : Device) → same_device d d ≡ true
unfolding same_device
same_device_self d = elim (Bool-cases (is_cuda d.type)) [
  | inl yes_cuda ↦ rw yes_cuda (eq→== d.index d.index refl)
  | inr no_cuda ↦ rw no_cuda (eq→== d.index d.index refl)
]

same_metadata :
    (devices : ℕ → Device) (t u : Tensor)
    → t.sizes ≡ u.sizes
    → t.dtype ≡ u.dtype
    → device devices t ≡ device devices u
    → ensure_same_metadata devices t u ≡ ok tt
unfolding ensure_same_metadata
same_metadata devices t u a b c =
    let e : vec_eq t.sizes u.sizes ≡ true =
      ap (λ s. vec_eq t.sizes s) (sym a) ∙ vec_eq_refl t.sizes in
    let f : (dtype_code t.dtype == dtype_code u.dtype) ≡ true =
      eq→== (dtype_code t.dtype) (dtype_code u.dtype) (ap dtype_code b) in
    let g : same_device (device devices t) (device devices u) ≡ true =
      ap (λ d. same_device (device devices t) d) (sym c) ∙ same_device_self (device devices t) in
    rw (e, f, g) refl

module _ {Value : Type 0} (plus : Value → Value → Value) (devices : ℕ → Device) where
  -- The values of the tensors, added to one from the left.
  abbrev pub sum_from : Values plus → Value → List Tensor → Value
  sum_from memory v [] = v
  sum_from memory v (t ∷ ts) = sum_from memory (plus v (memory (data_address t))) ts

  sum_from-same :
      (m m' : Values plus) (v : Value) (ts : List Tensor)
      → ((a : ℕ) → 1 ≤ count a (addresses ts) → m' a ≡ m a)
      → sum_from m' v ts ≡ sum_from m v ts
  unfolding count
  sum_from-same m m' v [] h = refl
  sum_from-same m m' v (t ∷ ts) h =
      let here : m' (data_address t) ≡ m (data_address t) = h (data_address t) (ground arith) in
      ap (λ x. sum_from m' (plus v x) ts) here
      ∙ sum_from-same m m' (plus v (m (data_address t))) ts (λ a n. h a (ground arith))

  write_self : (m : Values plus) (at : ℕ) (v : Value) → write plus m at v at ≡ v
  write_self m at v = ap (λ b. if b then v else m at) (eq→== at at refl)

  write_other : (m : Values plus) (at a : ℕ) (v : Value) → at ≢ a → write plus m at v a ≡ m a
  write_other m at a v ne = ap (λ b. if b then v else m a) (ne→== at a ne)

  add_shards_lem :
      (us : List Tensor) (m : Values plus) (t : Tensor)
      → AllAlike devices t us
      → count (data_address t) (addresses us) ≡ 0
      → (m' : Values plus) × (add_shards plus devices m t (all_defined us) ≡ ok m')
        × (m' (data_address t) ≡ sum_from m (m (data_address t)) us)
        × ((a : ℕ) → data_address t ≢ a → m' a ≡ m a)
  unfolding add_shards count
  add_shards_lem [] m t alike apart = (m, refl, refl, λ a ne. refl)
  add_shards_lem (u ∷ us) m t alike apart =
      let at = data_address t in
      let m₁ : Values plus = write plus m at (plus (m at) (m (data_address u))) in
      let (m', run, sum, off) = add_shards_lem us m₁ t alike.3 (ground arith) in
      let here : m₁ at ≡ plus (m at) (m (data_address u)) =
        write_self m at (plus (m at) (m (data_address u))) in
      let apart_from : (a : ℕ) → 1 ≤ count a (addresses us) → at ≢ a =
        (λ a n e. omega (arith, n, apart, ap (λ k. count k (addresses us)) e)) in
      (
        m',
        rw (same_metadata devices t u alike.0 alike.1 alike.2) run,
        sum
            ∙ ap (λ v. sum_from m₁ v us) here
            ∙ sum_from-same m m₁ (plus (m at) (m (data_address u))) us
                (λ a n. write_other m at a (plus (m at) (m (data_address u))) (apart_from a n)),
        λ a ne. off a ne ∙ write_other m at a (plus (m at) (m (data_address u))) ne,
      )

  copy_back_lem :
      (us : List Tensor) (m : Values plus) (t : Tensor)
      → AllAlike devices t us
      → count (data_address t) (addresses us) ≡ 0
      → (m' : Values plus) × (copy_back plus devices m t (all_defined us) ≡ ok m')
        × ((a : ℕ)
            → (1 ≤ count a (addresses us) → m' a ≡ m (data_address t))
              × (count a (addresses us) ≡ 0 → m' a ≡ m a))
  unfolding copy_back count
  copy_back_lem [] m t alike apart = (m, refl, λ a. ((λ n. absurd (omega (arith, n))), λ z. refl))
  copy_back_lem (u ∷ us) m t alike apart =
      let m₁ : Values plus = write plus m (data_address u) (m (data_address t)) in
      let (m', run, is) = copy_back_lem us m₁ t alike.3 (ground arith) in
      let kept : m₁ (data_address t) ≡ m (data_address t) =
        write_other m (data_address u) (data_address t) (m (data_address t))
          (λ e. absurd (ground arith)) in
      (
        m',
        rw (same_metadata devices t u alike.0 alike.1 alike.2) run,
        λ a. (
          (λ n. elim (Bool-cases (leb 1 (count a (addresses us)))) [
            | inl later ↦ (is a).0 (ground arith) ∙ kept
            | inr here ↦
                let at : data_address u ≡ a = ground arith in
                (is a).1 (ground arith)
                ∙ ap m₁ (sym at)
                ∙ write_self m (data_address u) (m (data_address t))
          ]),
          (λ z.
              (is a).1 (ground arith)
              ∙ write_other m (data_address u) a (m (data_address t)) (λ e. absurd (ground arith))),
        ),
      )

  -- What the last call does to the memory.
  pub record Summed (m : Values plus) (t : Tensor) (us : List Tensor) (m' : Values plus)
      : Type 0 where
    pub sums :
        (a : ℕ) → 1 ≤ count a (addresses (t ∷ us)) → m' a ≡ sum_from m (m (data_address t)) us
    pub others : (a : ℕ) → count a (addresses (t ∷ us)) ≡ 0 → m' a ≡ m a

  pub reduce_lem :
      (m : Values plus) (t : Tensor) (us : List Tensor)
      → AllAlike devices t us
      → count (data_address t) (addresses us) ≡ 0
      → (m' : Values plus) × (reduce plus devices m (all_defined (t ∷ us)) ≡ ok m')
        × Summed m t us m'
  unfolding reduce count
  reduce_lem m t us alike apart =
      let (m₁, run₁, sum, off) = add_shards_lem us m t alike apart in
      let (m₂, run₂, is) = copy_back_lem us m₁ t alike apart in
      (
        m₂,
        rw run₁ run₂,
        record {
          sums = λ a n. elim (Bool-cases (leb 1 (count a (addresses us)))) [
            | inl later ↦ (is a).0 (ground arith) ∙ sum
            | inr here ↦
                let at : data_address t ≡ a = ground arith in
                (is a).1 (ground arith) ∙ ap m₁ (sym at) ∙ sum
          ];
          others = λ a z. (is a).1 (ground arith) ∙ off a (λ e. absurd (ground arith));
        },
      )
