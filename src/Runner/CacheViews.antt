-- ===== src/Runner/CacheViews.antt =====
-- The views of the layers split the key-value cache.
use native.Mathlib.Nat.{suc-mul, mul-le-mul_right, mod-eq_of_lt}
use nano_vllm_cpp.Base.{
  ℕ, zero, suc, ◌+◌, ◌*◌, ◌%◌, ◌^◌, ◌≤◌, ◌<◌, ◌≡◌, refl, sym, ap, List, [], ◌∷◌, true, false,
  Option, none, some, arith, ok, Bool-cases, inl, inr,
}
use nano_vllm_cpp.Tensor.{ScalarType, Tensor, from_memory, all_non_negative, row_major}
use nano_vllm_cpp.Tensor.Views.{new_tensor_lem}
use nano_vllm_cpp.Tensor.Reshape.{strides_of, length-row_major}
use nano_vllm_cpp.Runner.Cache.{
  CachePlan, cache_sizes, scale_sizes, cache_dtype, layer_elements, scale_layer_elements, Views,
  layer_view, layer_scales, layer_views,
}

-- A row-major tensor from an element of the memory on.
abbrev pub tensor_at : Option ℕ → List ℕ → ScalarType → ℕ → Tensor
tensor_at memory sizes dtype offset = record {
  memory = memory;
  sizes = sizes;
  strides = row_major sizes;
  dtype = dtype;
  memory_offset = offset;
}

from_memory-tensor_at :
    (memory : Option ℕ) (sizes : List ℕ) (dtype : ScalarType) (offset : ℕ)
    → all_non_negative sizes ≡ true
    → from_memory memory sizes dtype offset ≡ ok (tensor_at memory sizes dtype offset)
unfolding from_memory
from_memory-tensor_at memory sizes dtype offset v =
    rw (strides_of sizes v)
      (new_tensor_lem memory sizes (row_major sizes) dtype offset v (sym (length-row_major sizes)))

-- The views of layer `i`, of `elements` elements each: the keys' end within the first half of the
-- cache, the values' within the second, at the same place.
pub record OfLayer (memory : Option ℕ) (sizes : List ℕ) (dtype : ScalarType) (layers elements i : ℕ)
    (views : Views) : Type 0 where
  pub keys : views.k ≡ tensor_at memory sizes dtype (i * elements)
  pub values : views.v ≡ tensor_at memory sizes dtype (layers * elements + i * elements)
  pub within : i * elements + elements ≤ layers * elements

layer_view-OfLayer :
    (memory : Option ℕ) (sizes : List ℕ) (dtype : ScalarType) (layers elements i : ℕ)
    → all_non_negative sizes ≡ true
    → i < layers
    → 2 * (layers * elements) < 2 ^ 64
    → (views : Views) × (layer_view memory sizes dtype layers elements i ≡ ok views)
      × OfLayer memory sizes dtype layers elements i views
unfolding layer_view
layer_view-OfLayer memory sizes dtype layers elements i v h small =
    let inside : i * elements + elements ≤ layers * elements = omega (
      arith,
      suc-mul i elements,
      mul-le-mul_right {m = suc i} {n = layers} elements (omega arith),
    ) in
    let one : i * elements % 2 ^ 64 ≡ i * elements = mod-eq_of_lt (omega (arith, inside, small)) in
    let two : (layers * elements % 2 ^ 64 + i * elements % 2 ^ 64) % 2 ^ 64
        ≡ layers * elements + i * elements =
      omega (arith, inside, small) in
    (
      record {
        k = tensor_at memory sizes dtype (i * elements % 2 ^ 64);
        v =
            tensor_at memory sizes dtype
              ((layers * elements % 2 ^ 64 + i * elements % 2 ^ 64) % 2 ^ 64);
      },
      rw
          (
            from_memory-tensor_at memory sizes dtype (i * elements % 2 ^ 64) v,
            from_memory-tensor_at memory sizes dtype
                ((layers * elements % 2 ^ 64 + i * elements % 2 ^ 64) % 2 ^ 64) v,
          )
          refl,
      record {
        keys = ap (tensor_at memory sizes dtype) one;
        values = ap (tensor_at memory sizes dtype) two;
        within = inside;
      },
    )

-- What the layers from `i` on get: each its part of the cache, and for 8-bit keys and values its
-- part of the scales.
abbrev pub Scales : CachePlan → Option ℕ → ℕ → Option Views → Type 0
Scales p scale_memory i none = p.int8 ≡ false
Scales p scale_memory i (some views) =
    (p.int8 ≡ true)
    × OfLayer scale_memory (scale_sizes p) ScalarType.float16 p.layers (scale_layer_elements p) i
        views

abbrev pub Layers : CachePlan → Option ℕ → Option ℕ → ℕ → List (Views × Option Views) → Type 0
Layers p memory scale_memory i [] = i ≡ p.layers
Layers p memory scale_memory i ((views, scales) ∷ rest) =
    OfLayer memory (cache_sizes p) (cache_dtype p) p.layers (layer_elements p) i views
    × Scales p scale_memory i scales
    × Layers p memory scale_memory (i + 1) rest

-- Sizes of a cache that a `size_t` can count.
pub record IsCountable (p : CachePlan) : Type 0 where
  pub sizes : all_non_negative (cache_sizes p) ≡ true
  pub elements : 2 * (p.layers * layer_elements p) < 2 ^ 64
  pub scales : 2 * (p.layers * scale_layer_elements p) < 2 ^ 64

layer_scales-int8 :
    (p : CachePlan) (scale_memory : Option ℕ) (i : ℕ) (views : Views)
    → p.int8 ≡ true
    → layer_view scale_memory (scale_sizes p) ScalarType.float16 p.layers (scale_layer_elements p) i
      ≡ ok views
    → layer_scales p scale_memory i ≡ ok (some views)
unfolding layer_scales
layer_scales-int8 p scale_memory i views h e = ground (arith, h, e)

layer_scales-none :
    (p : CachePlan) (scale_memory : Option ℕ) (i : ℕ)
    → p.int8 ≡ false
    → layer_scales p scale_memory i ≡ ok none
unfolding layer_scales
layer_scales-none p scale_memory i h = ground (arith, h)

module _ (p : CachePlan) (memory scale_memory : Option ℕ) (c : IsCountable p) where
  scale_sizes-lem : all_non_negative (scale_sizes p) ≡ true
  unfolding all_non_negative
  scale_sizes-lem = ground (arith, c.sizes)

  layer_scales-Scales :
      (i : ℕ)
      → i < p.layers
      → (scales : Option Views) × (layer_scales p scale_memory i ≡ ok scales)
        × Scales p scale_memory i scales
  layer_scales-Scales i h = elim (Bool-cases p.int8) [
    | inl small ↦
        let (views, e, o) =
          layer_view-OfLayer scale_memory (scale_sizes p) ScalarType.float16 p.layers
            (scale_layer_elements p) i scale_sizes-lem h c.scales in
        (some views, layer_scales-int8 p scale_memory i views small e, (small, o))
    | inr whole ↦ (none, layer_scales-none p scale_memory i whole, whole)
  ]

  views_from :
      (n i : ℕ)
      → i + n ≡ p.layers
      → (ls : List (Views × Option Views)) × (layer_views p memory scale_memory n i ≡ ok ls)
        × Layers p memory scale_memory i ls
  unfolding layer_views
  views_from zero i e = ([], refl, omega (arith, e))
  views_from (suc n) i e =
      let (views, run₁, o) =
        layer_view-OfLayer memory (cache_sizes p) (cache_dtype p) p.layers (layer_elements p) i
          c.sizes (omega (arith, e)) c.elements in
      let (scales, run₂, s) = layer_scales-Scales i (omega (arith, e)) in
      let (rest, run₃, l) = views_from n (i + 1) (omega (arith, e)) in
      ((views, scales) ∷ rest, rw (run₁, run₂, run₃) refl, (o, s, l))

  -- For a cache whose elements a `size_t` can count, the loop over the layers returns: layer i gets
  -- the i-th part of the first half of the cache for its keys and the i-th part of the second half
  -- for its values, each part as many elements as a layer has and within its half, and with 8-bit
  -- keys and values the scales are split alike; without them there are none.
  pub layer_views-Layers :
      (ls : List (Views × Option Views)) × (layer_views p memory scale_memory p.layers 0 ≡ ok ls)
      × Layers p memory scale_memory 0 ls
  layer_views-Layers = views_from p.layers 0 (omega arith)
