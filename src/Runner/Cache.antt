-- ===== src/Runner/Cache.antt =====
-- src/engine/model_runner.cpp, `allocate_kv_cache`: the number of blocks of the key-value cache, and
-- the views of its layers.
-- An `int` is a 32-bit pattern where the code tests its sign; the lengths and limits of the
-- configuration are not negative. `memory_limited` is what the free memory allows (`cudaMemGetInfo`
-- and an extended float), from the utilization and the bytes of a block; `zeros` is `Tensor::zeros`
-- on the device. The calls of `set_layer_kv_cache` are the list of their arguments.
use nano_vllm_cpp.Base.{
  ℕ, zero, suc, ◌+◌, ◌-◌, ◌*◌, ◌/◌, ◌%◌, ◌^◌, List, [], ◌∷◌, Bool, not, ◌&&◌, Option, none, some,
  Result, ok, invalid, division, guard, ◌>>=◌, ◌>>◌, ltb, ◌==◌, if◌then◌else◌, min, max,
}
use nano_vllm_cpp.Config.{HfConfig, positive, magnitude, int_div}
use nano_vllm_cpp.Config.Launch.{Config}
use nano_vllm_cpp.Tensor.{ScalarType, scalar_type_size, Tensor, from_memory}

unfoldable pub resolve_head_dim : HfConfig → Result ℕ
resolve_head_dim h = if positive h.head_dim then ok h.head_dim else (do
  guard (positive h.num_attention_heads && magnitude h.hidden_size % h.num_attention_heads == 0)
      invalid
  int_div h.hidden_size h.num_attention_heads)

unfoldable pub ceil_div : ℕ → ℕ → Result ℕ
ceil_div numerator denominator = do
  guard (ltb 0 denominator) invalid
  ok ((numerator + denominator - 1) / denominator)

-- `static_cast<uint64_t>` of an `int`.
abbrev pub sign_extend : ℕ → ℕ
sign_extend x = if ltb x (2 ^ 31) then x else x + (2 ^ 64 - 2 ^ 32)

-- The sizes of the cache.
pub record CachePlan : Type 0 where
  pub layers : ℕ
  pub block_size : ℕ
  pub heads : ℕ
  pub head_dim : ℕ
  pub blocks : ℕ
  pub int8 : Bool
  pub dtype : ScalarType

-- The bytes of a block, before the number of blocks is chosen.
unfoldable pub bytes_per_block : CachePlan → ℕ
bytes_per_block p =
    let rows = 2 * p.layers * p.block_size * p.heads in
    let dim = sign_extend p.head_dim in
    if p.int8
    then (rows * dim + rows * 2) % 2 ^ 64
    else rows * dim * scalar_type_size p.dtype % 2 ^ 64

-- The checks, with the sizes that they let pass.
unfoldable pub plan_cache : Config → ScalarType → Result CachePlan
plan_cache c dtype = do
  let h = c.hf_config
  guard
      (positive h.num_hidden_layers
        && (positive c.kvcache_block_size && positive h.num_key_value_heads))
      invalid
  guard (not (c.tensor_parallel_size == 0)) division
  guard (h.num_key_value_heads % c.tensor_parallel_size == 0) invalid
  head_dim ← resolve_head_dim h
  let p : CachePlan = record {
    layers = h.num_hidden_layers;
    block_size = c.kvcache_block_size;
    heads = h.num_key_value_heads / c.tensor_parallel_size;
    head_dim = head_dim;
    blocks = 0;
    int8 = c.kv_cache_int8;
    dtype = dtype;
  }
  guard (not (bytes_per_block p == 0)) invalid
  ok p

unfoldable pub choose_blocks : (ℕ → ℕ → Result ℕ) → Config → ℕ → Result ℕ
choose_blocks memory_limited c bytes =
    if positive c.num_kvcache_blocks then ok c.num_kvcache_blocks else (do
      limit ← memory_limited c.gpu_memory_utilization bytes
      per_seq ← ceil_div c.max_model_len c.kvcache_block_size
      ok (max 1 (min (max 1 (per_seq * c.max_num_seqs)) limit) % 2 ^ 32))

abbrev pub cache_dtype : CachePlan → ScalarType
cache_dtype p = if p.int8 then ScalarType.int8 else p.dtype

abbrev pub cache_sizes : CachePlan → List ℕ
cache_sizes p = p.blocks ∷ p.block_size ∷ p.heads ∷ p.head_dim ∷ []

abbrev pub scale_sizes : CachePlan → List ℕ
scale_sizes p = p.blocks ∷ p.block_size ∷ p.heads ∷ []

unfoldable pub layer_elements : CachePlan → ℕ
layer_elements p = p.blocks * p.block_size * p.heads * p.head_dim % 2 ^ 64

unfoldable pub scale_layer_elements : CachePlan → ℕ
scale_layer_elements p = p.blocks * p.block_size * p.heads % 2 ^ 64

-- The views of one layer: keys and values, or their scales.
pub record Views : Type 0 where
  pub k : Tensor
  pub v : Tensor

-- Views of `elements` elements each in the memory, for layer `i` of `layers`.
unfoldable pub layer_view : Option ℕ → List ℕ → ScalarType → ℕ → ℕ → ℕ → Result Views
layer_view memory sizes dtype layers elements i = do
  let offset = i * elements % 2 ^ 64
  k ← from_memory memory sizes dtype offset
  v ← from_memory memory sizes dtype ((layers * elements % 2 ^ 64 + offset) % 2 ^ 64)
  ok (record { k = k; v = v })

unfoldable pub layer_scales : CachePlan → Option ℕ → ℕ → Result (Option Views)
layer_scales p scale_memory i =
    if p.int8
    then (do
      views ←
          layer_view scale_memory (scale_sizes p) ScalarType.float16 p.layers
            (scale_layer_elements p) i
      ok (some views))
    else ok none

-- The loop over the layers from `i` on, `n` of them.
unfoldable pub layer_views :
    CachePlan → Option ℕ → Option ℕ → ℕ → ℕ → Result (List (Views × Option Views))
layer_views p memory scale_memory zero i = ok []
layer_views p memory scale_memory (suc n) i = do
  views ← layer_view memory (cache_sizes p) (cache_dtype p) p.layers (layer_elements p) i
  scales ← layer_scales p scale_memory i
  rest ← layer_views p memory scale_memory n (i + 1)
  ok ((views, scales) ∷ rest)

module _ (zeros : List ℕ → ScalarType → Result Tensor) (memory_limited : ℕ → ℕ → Result ℕ) where
  -- The number of blocks, and what each layer gets.
  unfoldable pub allocate_kv_cache :
      Config → ScalarType → Result (CachePlan × List (Views × Option Views))
  allocate_kv_cache c dtype = do
    q ← plan_cache c dtype
    blocks ← choose_blocks memory_limited c (bytes_per_block q)
    let p = record q { blocks = blocks }
    kv_cache ← zeros (2 ∷ p.layers ∷ cache_sizes p) (cache_dtype p)
    scale ←
        if p.int8
        then (do t ← zeros (2 ∷ p.layers ∷ scale_sizes p) ScalarType.float16; ok (t.memory))
        else ok none
    views ← layer_views p kv_cache.memory scale p.layers 0
    ok (p, views)
