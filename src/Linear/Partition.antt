-- ===== src/Linear/Partition.antt =====
-- The ranks' partitions of a weight cover it.
use native.Mathlib.Nat.{div-add-mod', mod-lt, mod-eq_of_lt, mul-le-mul_right, div-lt_iff_lt-mul}
use nano_vllm_cpp.Base.{
  ℕ, ◌+◌, ◌-◌, ◌*◌, ◌/◌, ◌%◌, ◌^◌, ◌≤◌, ◌<◌, ◌≡◌, refl, ap, ◌∙◌, sym, subst, List, ◌∷◌, ok, arith,
  true, false, ◌==◌, length, get_elem?, set, some, Bool-cases, inl, inr,
}
use nano_vllm_cpp.Tensor.{Tensor, all_non_negative, slice}
use nano_vllm_cpp.Tensor.Views.{position, Within, slice_lem}
use nano_vllm_cpp.Copy.{select_tensor_shard}
use nano_vllm_cpp.Linear.{select_output_partition}

select_output_partition-whole :
    (t : Tensor) (full local rank : ℕ)
    → get_elem? t.sizes 0 ≡ some local
    → 1 ≤ length t.sizes
    → select_output_partition t full local rank ≡ ok t
unfolding select_output_partition
select_output_partition-whole t full local rank e l = ground arith

select_output_partition-shard :
    (t : Tensor) (full local rank : ℕ)
    → get_elem? t.sizes 0 ≡ some full
    → 1 ≤ length t.sizes
    → (full == local) ≡ false
    → select_output_partition t full local rank ≡ select_tensor_shard t 0 (rank * local) local
unfolding select_output_partition
select_output_partition-shard t full local rank e l h = ground arith

select_tensor_shard-slice :
    (t : Tensor) (full offset size : ℕ)
    → get_elem? t.sizes 0 ≡ some full
    → 1 ≤ length t.sizes
    → (full == size) ≡ false
    → offset + size ≤ full
    → full < 2 ^ 63
    → select_tensor_shard t 0 offset size ≡ slice t 0 offset (offset + size)
unfolding select_tensor_shard
select_tensor_shard-slice t full offset size e l h within small = ground arith

first_size : (t : Tensor) (n : ℕ) (ss : List ℕ) → t.sizes ≡ n ∷ ss → get_elem? t.sizes 0 ≡ some n
first_size t n ss e = ap (λ xs. get_elem? xs 0) e

has_first : (t : Tensor) (n : ℕ) (ss : List ℕ) → t.sizes ≡ n ∷ ss → 1 ≤ length t.sizes
has_first t n ss e = omega (arith, ap (λ xs. length xs) e)

-- Row `r` is row `r % local` of the rank `r / local`.
owner :
    (tp_size local r : ℕ)
    → 1 ≤ local
    → r < tp_size * local
    → (r / local < tp_size)
      × (r / local * local + local ≤ tp_size * local)
      × (r % local < local)
      × (r % local + r / local * local ≡ r)
owner tp_size local r p l =
    let rank = (div-lt_iff_lt-mul {k = local} {x = r} {y = tp_size} p).1 l in
    let room : (r / local + 1) * local ≤ tp_size * local =
      mul-le-mul_right local (omega (arith, rank)) in
    (rank, grind (arith, room), mod-lt r p, omega (arith, div-add-mod' r local))

-- The rank that owns row `r` exists, and its partition has the row with all its elements.
pub record Owned (t : Tensor) (tp_size local r : ℕ) (js ss : List ℕ) : Type 0 where
  pub rank_exists : r / local < tp_size
  pub shard : Tensor
  pub result : select_output_partition t (tp_size * local) local (r / local) ≡ ok shard
  pub memory_kept : shard.memory ≡ t.memory
  pub shape : shard.sizes ≡ local ∷ ss
  pub element :
      shard.memory_offset + position shard.strides (r % local ∷ js)
      ≡ t.memory_offset + position t.strides (r ∷ js)

-- For a tensor of `tp_size * local` rows, with a stride for each size, whose sizes are not negative
-- and whose offsets fit 64 bits, and any index within it: the index's row, divided by `local`, is a
-- rank below `tp_size`, the partition of that rank is returned, has `local` rows and the other
-- sizes of the tensor, and has the tensor's element at the row modulo `local`.
pub select_output_partition-Owned :
    (t : Tensor) (tp_size local r stride : ℕ) (js ss ks : List ℕ)
    → all_non_negative t.sizes ≡ true
    → t.sizes ≡ tp_size * local ∷ ss
    → t.strides ≡ stride ∷ ks
    → length ss ≡ length ks
    → 1 ≤ local
    → tp_size * local < 2 ^ 63
    → t.memory_offset + tp_size * local * stride < 2 ^ 64
    → Within t.sizes (r ∷ js)
    → Owned t tp_size local r js ss
select_output_partition-Owned t tp_size local r stride js ss ks v es et same p small fits within =
    let (row, inner) = subst (λ xs. Within xs (r ∷ js)) es within in
    let (rank, room, low, back) = owner tp_size local r p row in
    elim (Bool-cases (tp_size * local == local)) [
      | inl whole ↦
          let all_rows : tp_size * local ≡ local = ground arith in
          let zeroth : r % local ≡ r = mod-eq_of_lt (omega (arith, all_rows)) in
          record {
            rank_exists = rank;
            shard = t;
            result =
                select_output_partition-whole t (tp_size * local) local (r / local)
                  (first_size t local ss (es ∙ ap (λ n. n ∷ ss) all_rows))
                  (has_first t (tp_size * local) ss es);
            memory_kept = refl;
            shape = es ∙ ap (λ n. n ∷ ss) all_rows;
            element = ap (λ i. t.memory_offset + position t.strides (i ∷ js)) zeroth;
          }
      | inr apart ↦
          let first = first_size t (tp_size * local) ss es in
          let some_rows = has_first t (tp_size * local) ss es in
          let start = r / local * local in
          let shape : set t.sizes 0 (start + local - start) ≡ local ∷ ss =
            ap (λ xs. set xs 0 (start + local - start)) es ∙ ap (λ n. n ∷ ss) (omega arith) in
          let (t', run, memory, sizes, moved_within, at) =
            slice_lem t 0 start (start + local) (tp_size * local) stride (r % local ∷ js) v
              (omega (arith, ap (λ xs. length xs) es, ap (λ xs. length xs) et)) (omega arith) first
              (ap (λ xs. get_elem? xs 0) et) (omega arith) room
              (omega (arith, mul-le-mul_right stride room))
              (subst (λ xs. Within xs (r % local ∷ js)) (sym shape) (low, inner)) in
          record {
            rank_exists = rank;
            shard = t';
            result =
                select_output_partition-shard t (tp_size * local) local (r / local) first some_rows
                  apart
                ∙ select_tensor_shard-slice t (tp_size * local) start local first some_rows apart
                    room small
                ∙ run;
            memory_kept = memory;
            shape = sizes ∙ shape;
            element = at ∙ ap (λ i. t.memory_offset + position t.strides (i ∷ js)) back;
          }
    ]
