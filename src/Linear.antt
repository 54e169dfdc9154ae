-- ===== src/Linear.antt =====
-- src/layers/linear.cpp and include/layers/linear.h: the shapes, shards and loaders of the parallel
-- linear layers.
-- `zeros` is `Tensor::zeros` on the layer's device. Sizes, ranks and shard ids are plain numbers.
-- The devices of source and parameter are arguments. The forward passes multiply on the device and
-- are not modelled.
pub mod Shards
pub mod Partition
pub mod Loaders
use nano_vllm_cpp.Base.{
  ℕ, zero, suc, ◌+◌, ◌-◌, ◌*◌, ◌/◌, ◌%◌, List, [], ◌∷◌, Bool, true, false, not, ◌&&◌, ◌||◌, Option,
  none, some, length, get_elem?, Result, ok, err, invalid, out_of_range, division, guard, or_fail,
  ◌>>=◌, ◌>>◌, ltb, ◌==◌, vec_eq,
}
use nano_vllm_cpp.Tensor.{ScalarType, Tensor}
use nano_vllm_cpp.Copy.{DeviceType, copy_tensor_to_parameter, select_tensor_shard}

unfoldable pub validate_tp_rank : ℕ → ℕ → Result (Unit {0})
validate_tp_rank tp_size rank = do guard (ltb 0 tp_size) invalid; guard (ltb rank tp_size) invalid

unfoldable pub select_output_partition : Tensor → ℕ → ℕ → ℕ → Result Tensor
select_output_partition source full_size local_size rank = do
  guard (not (length source.sizes == 0)) invalid
  rows ← or_fail (get_elem? source.sizes 0) out_of_range
  elim (rows == local_size) [
    | true ↦ ok source
    | false ↦ elim (rows == full_size) [
      | true ↦ select_tensor_shard source 0 (rank * local_size) local_size
      | false ↦ err invalid
    ]
  ]

unfoldable pub select_input_partition : Tensor → ℕ → ℕ → ℕ → Result Tensor
select_input_partition source full_size local_size rank = do
  guard (length source.sizes == 2) invalid
  columns ← or_fail (get_elem? source.sizes 1) out_of_range
  elim (columns == local_size) [
    | true ↦ ok source
    | false ↦ elim (columns == full_size) [
      | true ↦ select_tensor_shard source 1 (rank * local_size) local_size
      | false ↦ err invalid
    ]
  ]

-- The place of q, k and v in the packed weight: its begin and its size.
unfoldable pub qkv_range : ℕ → ℕ → ℕ → Result (ℕ × ℕ)
qkv_range zero local_q_size local_kv_size = ok (0, local_q_size)
qkv_range (suc zero) local_q_size local_kv_size = ok (local_q_size, local_kv_size)
qkv_range (suc (suc zero)) local_q_size local_kv_size =
    ok (local_q_size + local_kv_size, local_kv_size)
qkv_range (suc (suc (suc n))) local_q_size local_kv_size = err invalid

unfoldable pub select_qkv_destination_shard : Tensor → ℕ → ℕ → ℕ → Result Tensor
select_qkv_destination_shard destination shard_id local_q_size local_kv_size = do
  (start, size) ← qkv_range shard_id local_q_size local_kv_size
  select_tensor_shard destination 0 start size

unfoldable pub select_merged_destination_shard : Tensor → List ℕ → List ℕ → ℕ → Result Tensor
select_merged_destination_shard destination shard_offsets shard_sizes shard_id = do
  guard (ltb shard_id (length shard_sizes)) invalid
  start ← or_fail (get_elem? shard_offsets shard_id) out_of_range
  size ← or_fail (get_elem? shard_sizes shard_id) out_of_range
  select_tensor_shard destination 0 start size

pub record ColumnParallelLinear : Type 0 where
  pub input_size : ℕ
  pub output_size : ℕ
  pub local_output_size : ℕ
  pub tp_size : ℕ
  pub rank : ℕ
  pub use_bias : Bool
  pub weight : Tensor
  pub bias : Tensor

pub record RowParallelLinear : Type 0 where
  pub local_input_size : ℕ
  pub output_size : ℕ
  pub tp_size : ℕ
  pub rank : ℕ
  pub use_bias : Bool
  pub weight : Tensor
  pub bias : Tensor

pub record QkvParallelLinear : Type 0 where
  pub full_q_size : ℕ
  pub full_kv_size : ℕ
  pub local_q_size : ℕ
  pub local_kv_size : ℕ
  pub tp_size : ℕ
  pub rank : ℕ
  pub linear : ColumnParallelLinear

pub record MergedColumnParallelLinear : Type 0 where
  pub output_sizes : List ℕ
  pub local_output_sizes : List ℕ
  pub shard_offsets : List ℕ
  pub tp_size : ℕ
  pub rank : ℕ
  pub linear : ColumnParallelLinear

-- The default-constructed tensor.
abbrev pub no_tensor : Tensor
no_tensor = record {
  memory = none;
  sizes = [];
  strides = [];
  dtype = ScalarType.float32;
  memory_offset = 0;
}

-- The loop of the merged layer's constructor: local sizes and offsets, from an offset on.
unfoldable pub merged_shards : ℕ → ℕ → List ℕ → Result (List ℕ × List ℕ)
merged_shards tp_size offset [] = ok ([], [])
merged_shards tp_size offset (output_size ∷ sizes) = do
  guard (output_size % tp_size == 0) invalid
  (locals, offsets) ← merged_shards tp_size (offset + output_size / tp_size) sizes
  ok (output_size / tp_size ∷ locals, offset ∷ offsets)

unfoldable pub sum : List ℕ → ℕ
sum [] = 0
sum (n ∷ ns) = n + sum ns

-- The constructors divide by `tp_size` before they check it.
module _ (zeros : List ℕ → ScalarType → Result Tensor) where
  unfoldable pub zeros_if : Bool → List ℕ → ScalarType → Result Tensor
  zeros_if true sizes dtype = zeros sizes dtype
  zeros_if false sizes dtype = ok no_tensor

  unfoldable pub new_column_parallel :
      ℕ → ℕ → Bool → ScalarType → ℕ → ℕ → Result ColumnParallelLinear
  new_column_parallel input_size output_size use_bias dtype tp_size rank = do
    guard (not (tp_size == 0)) division
    let local = output_size / tp_size
    weight ← zeros (local ∷ input_size ∷ []) dtype
    bias ← zeros_if use_bias (local ∷ []) dtype
    validate_tp_rank tp_size rank
    guard (output_size % tp_size == 0) invalid
    ok (record {
      input_size = input_size;
      output_size = output_size;
      local_output_size = local;
      tp_size = tp_size;
      rank = rank;
      use_bias = use_bias;
      weight = weight;
      bias = bias;
    })

  unfoldable pub new_row_parallel : ℕ → ℕ → Bool → ScalarType → ℕ → ℕ → Result RowParallelLinear
  new_row_parallel input_size output_size use_bias dtype tp_size rank = do
    guard (not (tp_size == 0)) division
    let local = input_size / tp_size
    weight ← zeros (output_size ∷ local ∷ []) dtype
    bias ← zeros_if use_bias (output_size ∷ []) dtype
    validate_tp_rank tp_size rank
    guard (input_size % tp_size == 0) invalid
    ok (record {
      local_input_size = local;
      output_size = output_size;
      tp_size = tp_size;
      rank = rank;
      use_bias = use_bias;
      weight = weight;
      bias = bias;
    })

  unfoldable pub new_qkv_parallel :
      ℕ → ℕ → ℕ → ℕ → Bool → ScalarType → ℕ → ℕ → Result QkvParallelLinear
  new_qkv_parallel hidden_size head_size num_heads num_kv_heads use_bias dtype tp_size rank = do
    guard (not (tp_size == 0)) division
    let q = num_heads / tp_size * head_size
    let kv = num_kv_heads / tp_size * head_size
    linear ← new_column_parallel hidden_size (q + 2 * kv) use_bias dtype 1 0
    validate_tp_rank tp_size rank
    guard (num_heads % tp_size == 0 && num_kv_heads % tp_size == 0) invalid
    ok (record {
      full_q_size = num_heads * head_size;
      full_kv_size = num_kv_heads * head_size;
      local_q_size = q;
      local_kv_size = kv;
      tp_size = tp_size;
      rank = rank;
      linear = linear;
    })

  unfoldable pub new_merged_column_parallel :
      ℕ → List ℕ → Bool → ScalarType → ℕ → ℕ → Result MergedColumnParallelLinear
  new_merged_column_parallel input_size output_sizes use_bias dtype tp_size rank = do
    linear ← new_column_parallel input_size (sum output_sizes) use_bias dtype tp_size rank
    validate_tp_rank tp_size rank
    (locals, offsets) ← merged_shards tp_size 0 output_sizes
    ok (record {
      output_sizes = output_sizes;
      local_output_sizes = locals;
      shard_offsets = offsets;
      tp_size = tp_size;
      rank = rank;
      linear = linear;
    })
