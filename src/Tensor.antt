-- ===== src/Tensor.antt =====
-- src/utils/tensor.cpp and include/utils/tensor.h: shapes, strides and views of a tensor.
-- An `int64_t` and a `size_t` are 64-bit patterns; products wrap around, where the code's signed
-- ones must not. Of the memory the address is kept, `none` for no memory and 0 for `nullptr`;
-- allocation and filling (`empty`, `zeros`) are the allocator's part.
pub mod Views
pub mod Reshape
use nano_vllm_cpp.Base.{
  ℕ, zero, suc, ◌+◌, ◌-◌, ◌*◌, ◌%◌, ◌^◌, List, [], ◌∷◌, Bool, true, false, not, ◌&&◌, Option, none,
  some, length, get_elem?, set, Result, ok, err, invalid, out_of_range, ◌>>=◌, ◌>>◌, guard, or_fail,
  ltb, leb, ◌==◌, if◌then◌else◌, vec_eq,
}

pub data ScalarType : Type 0 where
  float16 bfloat16 float32 int32 int64 int8 : ScalarType

unfoldable pub scalar_type_size : ScalarType → ℕ
scalar_type_size ScalarType.float16 = 2
scalar_type_size ScalarType.bfloat16 = 2
scalar_type_size ScalarType.float32 = 4
scalar_type_size ScalarType.int32 = 4
scalar_type_size ScalarType.int64 = 8
scalar_type_size ScalarType.int8 = 1

-- A non-negative `int64_t` pattern.
abbrev pub non_negative : ℕ → Bool
non_negative x = ltb x (2 ^ 63)

unfoldable pub all_non_negative : List ℕ → Bool
all_non_negative [] = true
all_non_negative (s ∷ ss) = non_negative s && all_non_negative ss

unfoldable pub validate_sizes : List ℕ → Result (Unit {0})
validate_sizes sizes = guard (all_non_negative sizes) invalid

unfoldable pub validate_strides : List ℕ → List ℕ → Result (Unit {0})
validate_strides sizes strides = guard (length sizes == length strides) invalid

-- The loop of `make_contiguous_strides`, from the last dimension on: the first stride of the rest
-- times the first size of the rest.
abbrev pub head_or : ℕ → List ℕ → ℕ
head_or d [] = d
head_or d (x ∷ xs) = x

unfoldable pub row_major : List ℕ → List ℕ
row_major [] = []
row_major (s ∷ []) = 1 ∷ []
row_major (s ∷ t ∷ ss) = let rest = row_major (t ∷ ss) in head_or 1 rest * t % 2 ^ 64 ∷ rest

unfoldable pub make_contiguous_strides : List ℕ → Result (List ℕ)
make_contiguous_strides sizes = validate_sizes sizes >> ok (row_major sizes)

unfoldable pub product_from : ℕ → List ℕ → ℕ
product_from p [] = p
product_from p (s ∷ ss) = product_from (p * s % 2 ^ 64) ss

unfoldable pub compute_numel : List ℕ → Result ℕ
compute_numel sizes = validate_sizes sizes >> ok (product_from 1 sizes)

pub record Tensor : Type 0 where
  pub memory : Option ℕ
  pub sizes : List ℕ
  pub strides : List ℕ
  pub dtype : ScalarType
  pub memory_offset : ℕ

-- The constructor.
unfoldable pub new_tensor : Option ℕ → List ℕ → List ℕ → ScalarType → ℕ → Result Tensor
new_tensor memory sizes strides dtype memory_offset = do
  validate_sizes sizes
  validate_strides sizes strides
  ok (record {
    memory = memory;
    sizes = sizes;
    strides = strides;
    dtype = dtype;
    memory_offset = memory_offset;
  })

unfoldable pub from_memory : Option ℕ → List ℕ → ScalarType → ℕ → Result Tensor
from_memory memory sizes dtype memory_offset = do
  strides ← make_contiguous_strides sizes
  new_tensor memory sizes strides dtype memory_offset

unfoldable pub numel : Tensor → Result ℕ
numel t = compute_numel t.sizes

unfoldable pub nbytes : Tensor → Result ℕ
nbytes t = do n ← numel t; ok (n * scalar_type_size t.dtype % 2 ^ 64)

unfoldable pub is_contiguous : Tensor → Result Bool
is_contiguous t = do strides ← make_contiguous_strides t.sizes; ok (vec_eq t.strides strides)

-- The address of the first element.
unfoldable pub data_address : Tensor → ℕ
data_address t = elim (t.memory) [
  | none ↦ 0
  | some base ↦ if base == 0 then 0 else base + t.memory_offset * scalar_type_size t.dtype
]

unfoldable pub reshape : Tensor → List ℕ → Result Tensor
reshape t sizes = do
  contiguous ← is_contiguous t
  guard contiguous invalid
  n ← compute_numel sizes
  m ← numel t
  guard (n == m) invalid
  strides ← make_contiguous_strides sizes
  new_tensor t.memory sizes strides t.dtype t.memory_offset

unfoldable pub slice : Tensor → ℕ → ℕ → ℕ → Result Tensor
slice t dim start end = do
  guard (non_negative dim && ltb dim (length t.sizes)) out_of_range
  dim_size ← or_fail (get_elem? t.sizes dim) out_of_range
  guard (non_negative start && (non_negative end && (leb start end && leb end dim_size)))
      out_of_range
  stride ← or_fail (get_elem? t.strides dim) out_of_range
  new_tensor t.memory (set t.sizes dim (end - start)) t.strides t.dtype
      ((t.memory_offset + start * stride) % 2 ^ 64)
