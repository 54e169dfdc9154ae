-- ===== src/Linear/Loaders.antt =====
-- src/layers/linear.cpp: the loaders of the parallel linear layers, on the memory and the devices of
-- a copy. A loader returns the tensor it writes to and the bytes that arrive there.
use nano_vllm_cpp.Base.{
  ℕ, zero, suc, ◌*◌, List, Bool, true, false, Result, ok, err, invalid, out_of_range, guard,
  or_fail, ◌>>=◌, ◌>>◌, ltb, ◌==◌, vec_eq, length, get_elem?, if◌then◌else◌,
}
use nano_vllm_cpp.Tensor.{Tensor}
use nano_vllm_cpp.Copy.{DeviceType, copy_tensor_to_parameter}
use nano_vllm_cpp.Linear.{
  ColumnParallelLinear, RowParallelLinear, QkvParallelLinear, MergedColumnParallelLinear,
  select_output_partition, select_input_partition, select_qkv_destination_shard,
  select_merged_destination_shard,
}

-- `source.dim() == 2 && source.sizes()[1] == columns`, and the same of the rows.
unfoldable pub has_columns : Tensor → ℕ → Result Bool
has_columns source columns = elim (length source.sizes == 2) [
  | false ↦ ok false
  | true ↦ (do n ← or_fail (get_elem? source.sizes 1) out_of_range; ok (n == columns))
]

unfoldable pub has_rows : Tensor → ℕ → Result Bool
has_rows source rows = elim (length source.sizes == 2) [
  | false ↦ ok false
  | true ↦ (do n ← or_fail (get_elem? source.sizes 0) out_of_range; ok (n == rows))
]

-- The full size of q, k or v.
unfoldable pub qkv_full_size : QkvParallelLinear → ℕ → Result ℕ
qkv_full_size l zero = ok l.full_q_size
qkv_full_size l (suc zero) = ok l.full_kv_size
qkv_full_size l (suc (suc zero)) = ok l.full_kv_size
qkv_full_size l (suc (suc (suc n))) = err invalid

module _ (mem : ℕ → ℕ) (device_copies : Bool) (from to : DeviceType) where
  abbrev pub Written : Type 0
  Written = Tensor × List ℕ

  unfoldable pub copy_into : Tensor → Tensor → Result Written
  copy_into source destination = do
    bytes ← copy_tensor_to_parameter mem device_copies source from destination to
    ok (destination, bytes)

  unfoldable pub load_column_weight : ColumnParallelLinear → Tensor → Result Written
  load_column_weight l source = do
    fits ← has_columns source l.input_size
    guard fits invalid
    shard ← select_output_partition source l.output_size l.local_output_size l.rank
    copy_into shard l.weight

  unfoldable pub load_column_bias : ColumnParallelLinear → Tensor → Result Written
  load_column_bias l source = do
    guard l.use_bias invalid
    guard (length source.sizes == 1) invalid
    shard ← select_output_partition source l.output_size l.local_output_size l.rank
    copy_into shard l.bias

  unfoldable pub load_row_weight : RowParallelLinear → Tensor → Result Written
  load_row_weight l source = do
    fits ← has_rows source l.output_size
    guard fits invalid
    shard ← select_input_partition source (l.local_input_size * l.tp_size) l.local_input_size l.rank
    copy_into shard l.weight

  unfoldable pub load_row_bias : RowParallelLinear → Tensor → Result Written
  load_row_bias l source = do
    guard l.use_bias invalid
    guard (vec_eq source.sizes l.bias.sizes) invalid
    copy_into source l.bias

  -- The part of both shard loaders behind the check of the source's rank.
  unfoldable pub load_qkv_shard : QkvParallelLinear → Tensor → ℕ → Tensor → Result Written
  load_qkv_shard l source shard_id parameter = do
    full ← qkv_full_size l shard_id
    let local_size = if shard_id == 0 then l.local_q_size else l.local_kv_size
    shard ← select_output_partition source full local_size l.rank
    destination ← select_qkv_destination_shard parameter shard_id l.local_q_size l.local_kv_size
    copy_into shard destination

  unfoldable pub load_qkv_weight : QkvParallelLinear → Tensor → ℕ → Result Written
  load_qkv_weight l source shard_id = do
    guard (length source.sizes == 2) invalid
    columns ← or_fail (get_elem? l.linear.weight.sizes 1) out_of_range
    fits ← has_columns source columns
    guard fits invalid
    load_qkv_shard l source shard_id l.linear.weight

  unfoldable pub load_qkv_bias : QkvParallelLinear → Tensor → ℕ → Result Written
  load_qkv_bias l source shard_id = do
    guard (length source.sizes == 1) invalid
    load_qkv_shard l source shard_id l.linear.bias

  unfoldable pub load_merged_shard :
      MergedColumnParallelLinear → Tensor → ℕ → Tensor → Result Written
  load_merged_shard l source shard_id parameter = do
    guard (ltb shard_id (length l.output_sizes)) invalid
    full ← or_fail (get_elem? l.output_sizes shard_id) out_of_range
    local_size ← or_fail (get_elem? l.local_output_sizes shard_id) out_of_range
    shard ← select_output_partition source full local_size l.rank
    destination ←
        select_merged_destination_shard parameter l.shard_offsets l.local_output_sizes shard_id
    copy_into shard destination

  unfoldable pub load_merged_weight : MergedColumnParallelLinear → Tensor → ℕ → Result Written
  load_merged_weight l source shard_id = do
    guard (length source.sizes == 2) invalid
    columns ← or_fail (get_elem? l.linear.weight.sizes 1) out_of_range
    fits ← has_columns source columns
    guard fits invalid
    load_merged_shard l source shard_id l.linear.weight

  unfoldable pub load_merged_bias : MergedColumnParallelLinear → Tensor → ℕ → Result Written
  load_merged_bias l source shard_id = do
    guard (length source.sizes == 1) invalid
    load_merged_shard l source shard_id l.linear.bias

  -- The overloads without a shard id, for a source that is packed already.
  unfoldable pub load_qkv_packed_weight : QkvParallelLinear → Tensor → Result Written
  load_qkv_packed_weight l source = load_column_weight l.linear source

  unfoldable pub load_qkv_packed_bias : QkvParallelLinear → Tensor → Result Written
  load_qkv_packed_bias l source = load_column_bias l.linear source

  unfoldable pub load_merged_packed_weight : MergedColumnParallelLinear → Tensor → Result Written
  load_merged_packed_weight l source = load_column_weight l.linear source

  unfoldable pub load_merged_packed_bias : MergedColumnParallelLinear → Tensor → Result Written
  load_merged_packed_bias l source = load_column_bias l.linear source
