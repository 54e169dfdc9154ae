-- ===== src/Tests/Layers.antt =====
-- A weight of four rows for two ranks, and a merged layer of two outputs.
use nano_vllm_cpp.Base.{ℕ, ◌+◌, ◌*◌, ◌≡◌, refl, List, [], ◌∷◌, some, arith, ok}
use nano_vllm_cpp.Tensor.{ScalarType, Tensor, all_non_negative}
use nano_vllm_cpp.Linear.{merged_shards, sum}
use nano_vllm_cpp.Linear.Shards.{Tiles, merged_shards_lem}
use nano_vllm_cpp.Linear.Partition.{Owned, select_output_partition-Owned}

abbrev four_rows : Tensor
four_rows = record {
  memory = some 4096;
  sizes = 4 ∷ 3 ∷ [];
  strides = 3 ∷ 1 ∷ [];
  dtype = ScalarType.float16;
  memory_offset = 0;
}

select_output_partition-Owned_example : Owned four_rows 2 2 3 (1 ∷ []) (3 ∷ [])
unfolding all_non_negative
select_output_partition-Owned_example =
    select_output_partition-Owned four_rows 2 2 3 3 (1 ∷ []) (3 ∷ []) (1 ∷ []) refl refl refl refl
      (omega arith) (omega arith) (omega arith) (omega arith, (omega arith, tt))

merged_shards_lem_example :
    (locals offsets : List ℕ) × (end : ℕ) × (merged_shards 2 0 (4 ∷ 6 ∷ []) ≡ ok (locals, offsets))
    × Tiles 0 locals offsets end
    × (end * 2 ≡ 0 * 2 + sum (4 ∷ 6 ∷ []))
merged_shards_lem_example = merged_shards_lem 2 0 (4 ∷ 6 ∷ []) (refl, (refl, tt))
