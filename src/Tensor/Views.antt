-- ===== src/Tensor/Views.antt =====
-- Which elements a view of a tensor names.
use nano_vllm_cpp.Base.{
  ℕ, zero, suc, ◌+◌, ◌-◌, ◌*◌, ◌%◌, ◌^◌, ◌≤◌, ◌<◌, ◌≡◌, refl, ◌∙◌, ap, List, [], ◌∷◌, true, Option,
  some, arith, length, get_elem?, set, ok, get_elem?-lt, length-set, ◌&&◌, ltb, leb, eq→==,
}
use nano_vllm_cpp.Tensor.{
  ScalarType, Tensor, slice, new_tensor, all_non_negative, non_negative, validate_sizes,
  validate_strides,
}

-- The elements from the first one to the one at an index.
abbrev pub position : List ℕ → List ℕ → ℕ
position [] is = 0
position (s ∷ ss) [] = 0
position (s ∷ ss) (i ∷ is) = i * s + position ss is

-- An index within the sizes.
abbrev pub Within : List ℕ → List ℕ → Type 0
Within [] [] = Unit
Within [] (i ∷ is) = ⊥
Within (s ∷ ss) [] = ⊥
Within (s ∷ ss) (i ∷ is) = (i < s) × Within ss is

-- An index with `start` added in one dimension.
abbrev pub moved : ℕ → ℕ → List ℕ → List ℕ
moved d start [] = []
moved zero start (i ∷ is) = (i + start) ∷ is
moved (suc d) start (i ∷ is) = i ∷ moved d start is

position-moved :
    (strides sizes is : List ℕ) (d start stride : ℕ)
    → get_elem? strides d ≡ some stride
    → length sizes ≡ length strides
    → Within sizes is
    → position strides (moved d start is) ≡ position strides is + start * stride
position-moved [] sizes is d start stride e l w = cc
position-moved (s ∷ ss) [] is d start stride e l w = absurd (omega arith)
position-moved (s ∷ ss) (n ∷ ns) [] d start stride e l w = absurd w
position-moved (s ∷ ss) (n ∷ ns) (i ∷ is) zero start stride e l w =
    let same : s ≡ stride = ground arith in omega (arith, ap (λ x. start * x) same)
position-moved (s ∷ ss) (n ∷ ns) (i ∷ is) (suc d) start stride e l w =
    omega (arith, position-moved ss ns is d start stride e (omega arith) w.1)

Within-moved :
    (sizes is : List ℕ) (d start size n : ℕ)
    → get_elem? sizes d ≡ some size
    → n + start ≤ size
    → Within (set sizes d n) is
    → Within sizes (moved d start is)
Within-moved [] is d start size n e l w = cc
Within-moved (s ∷ ss) [] zero start size n e l w = w
Within-moved (s ∷ ss) [] (suc d) start size n e l w = w
Within-moved (s ∷ ss) (i ∷ is) zero start size n e l w = (ground (arith, w.0), w.1)
Within-moved (s ∷ ss) (i ∷ is) (suc d) start size n e l w =
    (w.0, Within-moved ss is d start size n e l w.1)

all_non_negative-get :
    (sizes : List ℕ) (d size : ℕ)
    → all_non_negative sizes ≡ true
    → get_elem? sizes d ≡ some size
    → size < 2 ^ 63
unfolding all_non_negative
all_non_negative-get [] d size v e = cc
all_non_negative-get (s ∷ ss) zero size v e = ground arith
all_non_negative-get (s ∷ ss) (suc d) size v e = all_non_negative-get ss d size (ground arith) e

all_non_negative-set :
    (sizes : List ℕ) (d n : ℕ)
    → all_non_negative sizes ≡ true
    → n < 2 ^ 63
    → all_non_negative (set sizes d n) ≡ true
unfolding all_non_negative
all_non_negative-set [] d n v h = refl
all_non_negative-set (s ∷ ss) zero n v h = ground arith
all_non_negative-set (s ∷ ss) (suc d) n v h =
    ground (arith, all_non_negative-set ss d n (ground arith) h)

pub new_tensor_lem :
    (memory : Option ℕ) (sizes strides : List ℕ) (dtype : ScalarType) (memory_offset : ℕ)
    → all_non_negative sizes ≡ true
    → length sizes ≡ length strides
    → new_tensor memory sizes strides dtype memory_offset
      ≡ ok (record {
        memory = memory;
        sizes = sizes;
        strides = strides;
        dtype = dtype;
        memory_offset = memory_offset;
      })
unfolding new_tensor validate_sizes validate_strides
new_tensor_lem memory sizes strides dtype memory_offset v l =
    rw (v, eq→== (length sizes) (length strides) l) refl

slice_runs :
    (t : Tensor) (dim start end size stride : ℕ)
    → get_elem? t.sizes dim ≡ some size
    → get_elem? t.strides dim ≡ some stride
    → dim < 2 ^ 63
    → dim < length t.sizes
    → start ≤ end
    → end ≤ size
    → size < 2 ^ 63
    → t.memory_offset + start * stride < 2 ^ 64
    → all_non_negative (set t.sizes dim (end - start)) ≡ true
    → length (set t.sizes dim (end - start)) ≡ length t.strides
    → slice t dim start end
      ≡ ok (record t {
        sizes = set t.sizes dim (end - start);
        memory_offset = t.memory_offset + start * stride;
      })
unfolding slice
slice_runs t dim start end size stride at_size at_stride small in_rank se ee bound fits v l =
    let dim_ok : (non_negative dim && ltb dim (length t.sizes)) ≡ true = ground arith in
    let range_ok : (non_negative start && (non_negative end && (leb start end && leb end size)))
        ≡ true =
      ground arith in
    let no_wrap : (t.memory_offset + start * stride) % 2 ^ 64 ≡ t.memory_offset + start * stride =
      omega arith in
    rw (dim_ok, at_size, range_ok, at_stride, no_wrap)
      (new_tensor_lem t.memory (set t.sizes dim (end - start)) t.strides t.dtype
        (t.memory_offset + start * stride) v l)

-- `slice` of a dimension, for a tensor whose sizes are not negative and that has a stride for each
-- size, with `start` up to `end` up to the size of the dimension and an offset that fits 64 bits,
-- returns a tensor of the same memory. At any index within its sizes it names the element that the
-- tensor has `start` further in that dimension, which is within the tensor's sizes.
pub slice_lem :
    (t : Tensor) (dim start end size stride : ℕ) (is : List ℕ)
    → all_non_negative t.sizes ≡ true
    → length t.sizes ≡ length t.strides
    → dim < 2 ^ 63
    → get_elem? t.sizes dim ≡ some size
    → get_elem? t.strides dim ≡ some stride
    → start ≤ end
    → end ≤ size
    → t.memory_offset + start * stride < 2 ^ 64
    → Within (set t.sizes dim (end - start)) is
    → (t' : Tensor) × (slice t dim start end ≡ ok t')
      × (t'.memory ≡ t.memory)
      × (t'.sizes ≡ set t.sizes dim (end - start))
      × Within t.sizes (moved dim start is)
      × (t'.memory_offset + position t'.strides is
          ≡ t.memory_offset + position t.strides (moved dim start is))
slice_lem t dim start end size stride is v l small at_size at_stride se ee fits w =
    let bound = all_non_negative-get t.sizes dim size v at_size in
    let sliced : Tensor = record t {
      sizes = set t.sizes dim (end - start);
      memory_offset = t.memory_offset + start * stride;
    } in
    (
      sliced,
      slice_runs t dim start end size stride at_size at_stride small
          (get_elem?-lt t.sizes dim size at_size) se ee bound fits
          (all_non_negative-set t.sizes dim (end - start) v (omega (arith, bound)))
          (length-set t.sizes dim (end - start) ∙ l),
      refl,
      refl,
      Within-moved t.sizes is dim start size (end - start) at_size (omega arith) w,
      omega (
        arith,
        position-moved t.strides (set t.sizes dim (end - start)) is dim start stride at_stride
            (length-set t.sizes dim (end - start) ∙ l) w,
      ),
    )
