-- ===== src/Tensor/Reshape.antt =====
-- `reshape` of a contiguous tensor.
use nano_vllm_cpp.Base.{
  ℕ, suc, ◌≡◌, refl, sym, ◌∙◌, ap, List, [], ◌∷◌, true, arith, length, ok, vec_eq, vec_eq→eq,
  vec_eq_refl, Bool-cases, inl, inr, eq→==,
}
use nano_vllm_cpp.Tensor.{
  Tensor, reshape, all_non_negative, validate_sizes, is_contiguous, make_contiguous_strides,
  row_major, compute_numel, numel,
}
use nano_vllm_cpp.Tensor.Views.{new_tensor_lem}

pub length-row_major : (sizes : List ℕ) → length (row_major sizes) ≡ length sizes
unfolding row_major
length-row_major [] = refl
length-row_major (s ∷ []) = refl
length-row_major (s ∷ t ∷ ss) = ap suc (length-row_major (t ∷ ss))

pub strides_of :
    (sizes : List ℕ)
    → all_non_negative sizes ≡ true
    → make_contiguous_strides sizes ≡ ok (row_major sizes)
unfolding make_contiguous_strides validate_sizes
strides_of sizes v = rw v refl

numel_of : (sizes : List ℕ) (n : ℕ) → compute_numel sizes ≡ ok n → all_non_negative sizes ≡ true
unfolding compute_numel validate_sizes
numel_of sizes n h = elim (Bool-cases (all_non_negative sizes)) [
  | inl v ↦ v
  | inr negative ↦ ground arith
]

contiguous_of :
    (t : Tensor)
    → all_non_negative t.sizes ≡ true
    → is_contiguous t ≡ ok (vec_eq t.strides (row_major t.sizes))
unfolding is_contiguous
contiguous_of t v = rw (strides_of t.sizes v) refl

contiguous_strides :
    (t : Tensor)
    → all_non_negative t.sizes ≡ true
    → is_contiguous t ≡ ok true
    → t.strides ≡ row_major t.sizes
contiguous_strides t v c =
    vec_eq→eq t.strides (row_major t.sizes) (ground (arith, contiguous_of t v))

reshape_runs :
    (t : Tensor) (sizes : List ℕ) (n : ℕ)
    → is_contiguous t ≡ ok true
    → numel t ≡ ok n
    → compute_numel sizes ≡ ok n
    → reshape t sizes ≡ ok (record t { sizes = sizes; strides = row_major sizes })
unfolding reshape
reshape_runs t sizes n c e f =
    let v = numel_of sizes n f in
    rw (c, f, e, eq→== n n refl, strides_of sizes v)
      (new_tensor_lem t.memory sizes (row_major sizes) t.dtype t.memory_offset v
        (sym (length-row_major sizes)))

-- `reshape` of a contiguous tensor to sizes with as many elements returns a contiguous tensor of
-- those sizes and of as many elements, and `reshape` of that to the old sizes is the old tensor.
pub reshape-reshape :
    (t : Tensor) (sizes : List ℕ) (n : ℕ)
    → is_contiguous t ≡ ok true
    → numel t ≡ ok n
    → compute_numel sizes ≡ ok n
    → (t' : Tensor) × (reshape t sizes ≡ ok t')
      × (t'.sizes ≡ sizes)
      × (is_contiguous t' ≡ ok true)
      × (numel t' ≡ ok n)
      × (reshape t' t.sizes ≡ ok t)
unfolding numel
reshape-reshape t sizes n c e f =
    let v = numel_of sizes n f in
    let w = numel_of t.sizes n e in
    let t' : Tensor = record t { sizes = sizes; strides = row_major sizes } in
    let c' : is_contiguous t' ≡ ok true =
      contiguous_of t' v ∙ ap (λ b. ok b) (vec_eq_refl (row_major sizes)) in
    (
      t',
      reshape_runs t sizes n c e f,
      refl,
      c',
      f,
      reshape_runs t' t.sizes n c' f e
          ∙ ap (λ ss. ok (record t { strides = ss })) (sym (contiguous_strides t w c)),
    )
