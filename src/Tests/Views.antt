-- ===== src/Tests/Views.antt =====
-- A tensor of two rows of three elements, cut and reshaped.
use nano_vllm_cpp.Base.{◌+◌, ◌≡◌, refl, [], ◌∷◌, true, some, arith, ok, vec_eq_refl, ap}
use nano_vllm_cpp.Tensor.{
  ScalarType, Tensor, slice, reshape, is_contiguous, numel, all_non_negative,
  make_contiguous_strides, validate_sizes, row_major, compute_numel, product_from,
}
use nano_vllm_cpp.Tensor.Views.{position, Within, slice_lem}
use nano_vllm_cpp.Tensor.Reshape.{reshape-reshape}

abbrev two_rows : Tensor
two_rows = record {
  memory = some 4096;
  sizes = 2 ∷ 3 ∷ [];
  strides = 3 ∷ 1 ∷ [];
  dtype = ScalarType.int32;
  memory_offset = 5;
}

slice_lem_example :
    (t' : Tensor) × (slice two_rows 1 1 3 ≡ ok t')
    × (t'.memory ≡ some 4096)
    × (t'.sizes ≡ 2 ∷ 2 ∷ [])
    × Within (2 ∷ 3 ∷ []) (1 ∷ 2 ∷ [])
    × (t'.memory_offset + position t'.strides (1 ∷ 1 ∷ []) ≡ 5 + position (3 ∷ 1 ∷ []) (1 ∷ 2 ∷ []))
unfolding all_non_negative
slice_lem_example =
    slice_lem two_rows 1 1 3 3 1 (1 ∷ 1 ∷ []) refl refl (omega arith) refl refl (omega arith)
      (omega arith) (omega arith) (omega arith, (omega arith, tt))

reshape-reshape_example :
    (t' : Tensor) × (reshape two_rows (3 ∷ 2 ∷ []) ≡ ok t')
    × (t'.sizes ≡ 3 ∷ 2 ∷ [])
    × (is_contiguous t' ≡ ok true)
    × (numel t' ≡ ok 6)
    × (reshape t' (2 ∷ 3 ∷ []) ≡ ok two_rows)
unfolding is_contiguous make_contiguous_strides validate_sizes all_non_negative row_major numel
    compute_numel product_from
reshape-reshape_example =
    reshape-reshape two_rows (3 ∷ 2 ∷ []) 6 (ap (λ b. ok b) (vec_eq_refl (3 ∷ 1 ∷ []))) refl refl
