-- ===== src/Copy.antt =====
-- src/utils/loader.cpp: copying a tensor of a checkpoint into a parameter.
-- The memory is a function from addresses to bytes. What a copy writes is the list of bytes that
-- arrive at the destination's `data()`; `device_copies` says whether the device's copies succeed.
pub mod Layout
pub mod Gather
use nano_vllm_cpp.Base.{
  ℕ, zero, suc, ◌+◌, ◌-◌, ◌*◌, ◌/◌, ◌%◌, ◌^◌, List, [], ◌∷◌, ◌++◌, Bool, true, false, not, ◌&&◌,
  ◌||◌, Option, none, some, length, get_elem?, Result, ok, err, invalid, out_of_range, guard,
  or_fail, ◌>>=◌, ◌>>◌, ltb, leb, ◌==◌, if◌then◌else◌, vec_eq,
}
use nano_vllm_cpp.Tensor.{
  ScalarType, scalar_type_size, Tensor, numel, nbytes, is_contiguous, data_address, slice,
  non_negative,
}

pub data DeviceType : Type 0 where
  cpu cuda : DeviceType

abbrev pub is_cuda : DeviceType → Bool
is_cuda DeviceType.cpu = false
is_cuda DeviceType.cuda = true

unfoldable pub defined : Tensor → Bool
defined t = elim (t.memory) [ none ↦ false | some base ↦ true ]

-- The loop of `linear_index_to_storage_offset`, from the last dimension on: what is left of the
-- index, and the offset so far.
unfoldable pub storage_from : List ℕ → List ℕ → ℕ → ℕ × ℕ
storage_from [] strides index = (index, 0)
storage_from (n ∷ ns) [] index = (index, 0)
storage_from (n ∷ ns) (k ∷ ks) index =
    let (remaining, offset) = storage_from ns ks index in
    (remaining / n, (offset + remaining % n * k) % 2 ^ 64)

unfoldable pub linear_index_to_storage_offset : Tensor → ℕ → ℕ
linear_index_to_storage_offset t index = (storage_from t.sizes t.strides index).1

-- `n` bytes from an address on.
unfoldable pub bytes_at : (ℕ → ℕ) → ℕ → ℕ → List ℕ
bytes_at mem a zero = []
bytes_at mem a (suc n) = mem a ∷ bytes_at mem (a + 1) n

-- The elements from a linear index on, one behind the other.
unfoldable pub gather : (ℕ → ℕ) → Tensor → ℕ → ℕ → List ℕ
gather mem t zero index = []
gather mem t (suc n) index =
    let size = scalar_type_size t.dtype in
    bytes_at mem (data_address t + linear_index_to_storage_offset t index * size) size
    ++ gather mem t n (index + 1)

unfoldable pub make_contiguous_cpu_tensor_bytes : (ℕ → ℕ) → Tensor → DeviceType → Result (List ℕ)
make_contiguous_cpu_tensor_bytes mem t DeviceType.cuda = err invalid
make_contiguous_cpu_tensor_bytes mem t DeviceType.cpu = do n ← numel t; ok (gather mem t n 0)

-- The bytes of the 32-bit pattern with a bfloat16 as its upper half, the lowest byte first.
unfoldable pub convert_bfloat16_to_float32 : List ℕ → List ℕ
convert_bfloat16_to_float32 (lo ∷ hi ∷ s) = 0 ∷ 0 ∷ lo ∷ hi ∷ convert_bfloat16_to_float32 s
convert_bfloat16_to_float32 _ = []

unfoldable pub scalar_type_eq : ScalarType → ScalarType → Bool
scalar_type_eq ScalarType.float16 ScalarType.float16 = true
scalar_type_eq ScalarType.bfloat16 ScalarType.bfloat16 = true
scalar_type_eq ScalarType.float32 ScalarType.float32 = true
scalar_type_eq ScalarType.int32 ScalarType.int32 = true
scalar_type_eq ScalarType.int64 ScalarType.int64 = true
scalar_type_eq ScalarType.int8 ScalarType.int8 = true
scalar_type_eq _ _ = false

unfoldable pub is_conversion : ScalarType → ScalarType → Bool
is_conversion ScalarType.bfloat16 ScalarType.float32 = true
is_conversion _ _ = false

-- The first `n` bytes at the source's pointer: of the tensor itself, or of its gathered copy.
unfoldable pub source_bytes : (ℕ → ℕ) → Tensor → DeviceType → ℕ → Result (List ℕ)
source_bytes mem source device n = do
  contiguous ← is_contiguous source
  elim contiguous [
    | true ↦ ok (bytes_at mem (data_address source) n)
    | false ↦ make_contiguous_cpu_tensor_bytes mem source device
  ]

module _ (mem : ℕ → ℕ) (device_copies : Bool) where
  unfoldable pub copy_same_dtype_tensor :
      Tensor → DeviceType → Tensor → DeviceType → Result (List ℕ)
  copy_same_dtype_tensor source DeviceType.cpu destination DeviceType.cuda = do
    n ← nbytes destination
    bytes ← source_bytes mem source DeviceType.cpu n
    guard device_copies invalid
    ok bytes
  copy_same_dtype_tensor source DeviceType.cpu destination DeviceType.cpu = do
    n ← nbytes destination
    source_bytes mem source DeviceType.cpu n
  copy_same_dtype_tensor source DeviceType.cuda destination DeviceType.cuda = do
    n ← nbytes destination
    bytes ← source_bytes mem source DeviceType.cuda n
    guard device_copies invalid
    ok bytes
  copy_same_dtype_tensor source DeviceType.cuda destination DeviceType.cpu = do
    n ← nbytes destination
    bytes ← source_bytes mem source DeviceType.cuda n
    err invalid

  -- The conversion from BF16 to F32.
  unfoldable pub convert : Tensor → DeviceType → DeviceType → Result (List ℕ)
  convert source DeviceType.cuda to = err invalid
  convert source DeviceType.cpu to = do
    n ← nbytes source
    bytes ← source_bytes mem source DeviceType.cpu n
    guard (not (is_cuda to) || device_copies) invalid
    ok (convert_bfloat16_to_float32 bytes)

  unfoldable pub copy_tensor_to_parameter :
      Tensor → DeviceType → Tensor → DeviceType → Result (List ℕ)
  copy_tensor_to_parameter source from destination to = do
    guard (defined source && defined destination) invalid
    contiguous ← is_contiguous destination
    guard contiguous invalid
    guard (vec_eq source.sizes destination.sizes) invalid
    elim (scalar_type_eq source.dtype destination.dtype) [
      | true ↦ copy_same_dtype_tensor source from destination to
      | false ↦ elim (is_conversion source.dtype destination.dtype) [
        | true ↦ convert source from to
        | false ↦ err invalid
      ]
    ]

-- The signed sum must not pass 2^63, so that it is the plain one.
unfoldable pub select_tensor_shard : Tensor → ℕ → ℕ → ℕ → Result Tensor
select_tensor_shard source dim offset size = do
  guard (non_negative dim && ltb dim (length source.sizes)) out_of_range
  dim_size ← or_fail (get_elem? source.sizes dim) out_of_range
  guard (non_negative offset && (non_negative size && leb (offset + size) dim_size)) out_of_range
  elim (offset == 0 && size == dim_size) [
    | true ↦ ok source
    | false ↦ slice source dim offset (offset + size)
  ]
