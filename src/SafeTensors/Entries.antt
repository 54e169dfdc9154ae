-- ===== src/SafeTensors/Entries.antt =====
-- Where the tensors of an opened SafeTensors file lie.
use native.Mathlib.Nat.{div-add-mod'}
use nano_vllm_cpp.Base.{
  ℕ, ◌+◌, ◌-◌, ◌*◌, ◌/◌, ◌%◌, ◌^◌, ◌≤◌, ◌≡◌, ap, ◌∙◌, sym, subst, List, [], ◌∷◌, true, ◌&&◌, Option,
  some, arith, length, take, drop, ok, invalid, guard, ◌>>=◌, IfOk, leb, ltb, ◌==◌, vec_eq,
  Bool-cases, inl, inr, bind-ok, guard-ok, IfOk-bind, IfOk-ok, ==→eq,
}
use nano_vllm_cpp.Config.{codes}
use nano_vllm_cpp.Tensor.{
  ScalarType, scalar_type_size, Tensor, compute_numel, numel, nbytes, from_memory, new_tensor,
  make_contiguous_strides, validate_sizes, validate_strides,
}
use nano_vllm_cpp.SafeTensors.{
  HeaderLibrary, Entry, SafeTensorsFile, check_entry, read_entry, read_entries, open_safetensors,
  read_le_u64, parse_offsets, parse_safetensors_dtype,
}

-- An entry's tensor has its shape and type and starts at its offset. Its `nbytes`, which wraps at
-- 2^64, is the size of the entry's range, and that range lies within the payload at `memory`.
pub record InPayload (memory payload : ℕ) (e : Entry) : Type 0 where
  pub place : e.tensor.memory ≡ some memory
  pub shape : e.tensor.sizes ≡ e.shape
  pub dtype : e.tensor.dtype ≡ e.dtype
  pub offset : e.tensor.memory_offset * scalar_type_size e.dtype ≡ e.data_offset
  pub bytes : nbytes e.tensor ≡ ok e.data_size
  pub within : e.data_offset + e.data_size ≤ payload

abbrev pub AllInPayload : ℕ → ℕ → List (List ℕ × Entry) → Type 0
AllInPayload memory payload [] = Unit
AllInPayload memory payload ((key, e) ∷ es) =
    InPayload memory payload e × AllInPayload memory payload es

from_memory-fields :
    (m : Option ℕ) (sizes : List ℕ) (d : ScalarType) (o : ℕ) (t : Tensor)
    → from_memory m sizes d o ≡ ok t
    → (t.memory ≡ m) × (t.sizes ≡ sizes) × (t.dtype ≡ d) × (t.memory_offset ≡ o)
unfolding from_memory new_tensor
from_memory-fields m sizes d o t h =
    let (strides, made, rest) = bind-ok (make_contiguous_strides sizes) _ t h in
    let (u, valid, rest) = bind-ok (validate_sizes sizes) _ t rest in
    let (v, fits, rest) = bind-ok (validate_strides sizes strides) _ t rest in
    (ground arith, ground arith, ground arith, ground arith)

parts : (a b : ℕ) → (a % b == 0) ≡ true → a / b * b ≡ a
parts a b e = omega (arith, div-add-mod' a b, rest)
  where
    rest : a % b ≡ 0
    rest = ground arith

nbytes-numel :
    (t : Tensor) (d : ScalarType) (shape : List ℕ) (n : ℕ)
    → t.sizes ≡ shape
    → t.dtype ≡ d
    → compute_numel shape ≡ ok n
    → nbytes t ≡ ok (n * scalar_type_size d % 2 ^ 64)
unfolding nbytes numel
nbytes-numel t d shape n same kind h =
    ap (λ sizes. compute_numel sizes >>= λ n. ok (n * scalar_type_size t.dtype % 2 ^ 64)) same
    ∙ ap (λ r. r >>= λ n. ok (n * scalar_type_size t.dtype % 2 ^ 64)) h
    ∙ ap (λ k. ok (n * scalar_type_size k % 2 ^ 64)) kind

check_entry-InPayload :
    (memory payload : ℕ) (d : ScalarType) (shape : List ℕ) (first end : ℕ)
    → first ≤ end
    → IfOk (check_entry memory payload d shape first end) (InPayload memory payload)
unfolding check_entry
check_entry-InPayload memory payload d shape first end order =
    IfOk-bind (compute_numel shape) _ good λ n counted.
      IfOk-bind (guard (end - first == n * scalar_type_size d % 2 ^ 64) invalid) _ good λ u sized.
        IfOk-bind (guard (leb end payload) invalid) _ good λ v inside.
          IfOk-bind (guard (first % scalar_type_size d == 0) invalid) _ good λ x aligned.
            IfOk-bind (from_memory (some memory) shape d (first / scalar_type_size d)) _ good
              λ t made.
                let (place, same, kind, at) =
                  from_memory-fields (some memory) shape d (first / scalar_type_size d) t made in
                let size = guard-ok _ _ u sized in
                let fits = guard-ok _ _ v inside in
                record {
                  place = place;
                  shape = same;
                  dtype = kind;
                  offset =
                      ap (λ o. o * scalar_type_size d) at
                      ∙ parts first (scalar_type_size d) (guard-ok _ _ x aligned);
                  bytes =
                      nbytes-numel t d shape n same kind counted
                      ∙ ap (λ b. ok b)
                          (sym (==→eq (end - first) (n * scalar_type_size d % 2 ^ 64) size));
                  within = ground arith;
                }
  where
    good : Entry → Type 0
    good = InPayload memory payload

parse_offsets-ordered : (offsets : List ℕ) → IfOk (parse_offsets offsets) (λ o. o.0 ≤ o.1)
unfolding parse_offsets
parse_offsets-ordered [] = tt
parse_offsets-ordered (a ∷ []) = tt
parse_offsets-ordered (a ∷ b ∷ []) = elim (Bool-cases (ltb b a)) [
  | inl less ↦ rw less tt
  | inr fine ↦ rw fine (ground arith)
]
parse_offsets-ordered (a ∷ b ∷ c ∷ s) = tt

module _ {Json : Type 0} (lib : HeaderLibrary Json) where
  read_entry-InPayload :
      (memory payload : ℕ) (spec : Json)
      → IfOk (read_entry lib memory payload spec) (InPayload memory payload)
  unfolding read_entry
  read_entry-InPayload memory payload spec =
      IfOk-bind (guard (lib.is_object spec) invalid) _ good λ u e₁.
        IfOk-bind
          (guard
            (lib.contains spec (codes "dtype")
              && (lib.contains spec (codes "shape") && lib.contains spec (codes "data_offsets")))
            invalid)
          _ good
          λ v e₂. IfOk-bind (lib.at spec (codes "data_offsets")) _ good λ offsets_value e₃.
            IfOk-bind (lib.get_sizes offsets_value) _ good λ offsets e₄.
              IfOk-bind (parse_offsets offsets) _ good λ o e₅.
                let order =
                  IfOk-ok (parse_offsets offsets) (λ o. o.0 ≤ o.1) o (parse_offsets-ordered offsets)
                    e₅ in
                IfOk-bind (lib.at spec (codes "dtype")) _ good λ dtype_value e₆.
                  IfOk-bind (lib.get_string dtype_value) _ good λ dtype_name e₇.
                    IfOk-bind (parse_safetensors_dtype dtype_name) _ good λ d e₈.
                      IfOk-bind (lib.at spec (codes "shape")) _ good λ shape_value e₉.
                        IfOk-bind (lib.get_sizes shape_value) _ good
                          λ shape e. check_entry-InPayload memory payload d shape o.0 o.1 order
    where
      good : Entry → Type 0
      good = InPayload memory payload

  read_entries-AllInPayload :
      (memory payload : ℕ) (members : List (List ℕ × Json))
      → IfOk (read_entries lib memory payload members) (AllInPayload memory payload)
  unfolding read_entries
  read_entries-AllInPayload memory payload [] = tt
  read_entries-AllInPayload memory payload ((key, spec) ∷ members) =
      elim (Bool-cases (vec_eq key (codes "__metadata__"))) [
        | inl metadata ↦ rw metadata (read_entries-AllInPayload memory payload members)
        | inr tensor ↦ rw tensor (
            IfOk-bind (read_entry lib memory payload spec) _ good λ e read.
              IfOk-bind (read_entries lib memory payload members) _ good λ es others. (
                IfOk-ok (read_entry lib memory payload spec) (InPayload memory payload) e
                    (read_entry-InPayload memory payload spec) read,
                IfOk-ok (read_entries lib memory payload members) (AllInPayload memory payload) es
                    (read_entries-AllInPayload memory payload members) others,
              ))
      ]
    where
      good : List (List ℕ × Entry) → Type 0
      good = AllInPayload memory payload

  -- For any path, bytes of the file and address of its mapping: where `open_safetensors` returns a
  -- file, each of its tensors has the shape and type of its entry and starts at the entry's offset,
  -- its `nbytes`, a number modulo 2^64, is the size of the entry's range, and this range ends within
  -- the mapping.
  pub open_safetensors-AllInPayload :
      (path bytes : List ℕ) (base : ℕ)
      → IfOk (open_safetensors lib path (some bytes) base) (λ file.
        AllInPayload file.data_memory (base + length bytes - file.data_memory) file.entries
        × (file.data_memory ≤ base + length bytes))
  unfolding open_safetensors
  open_safetensors-AllInPayload path bytes base =
      IfOk-bind (guard (leb 8 (length bytes)) invalid) _ good λ u large.
        IfOk-bind (guard (leb (read_le_u64 bytes) (length bytes - 8)) invalid) _ good λ v header.
          IfOk-bind (lib.parse (take (read_le_u64 bytes) (drop 8 bytes))) _ good λ parsed e₁.
            IfOk-bind (guard (lib.is_object parsed) invalid) _ good λ x e₂.
              IfOk-bind (read_entries lib memory payload (lib.items parsed)) _ good λ es e₃.
                let enough = guard-ok _ _ u large in
                let fits = guard-ok _ _ v header in
                let within : 8 + read_le_u64 bytes ≤ length bytes = ground arith in
                (
                  subst (λ p. AllInPayload memory p es) (omega arith)
                      (IfOk-ok (read_entries lib memory payload (lib.items parsed))
                        (AllInPayload memory payload) es
                        (read_entries-AllInPayload memory payload (lib.items parsed)) e₃),
                  omega arith,
                )
    where
      memory : ℕ
      memory = base + (8 + read_le_u64 bytes)

      payload : ℕ
      payload = length bytes - (8 + read_le_u64 bytes)

      good : SafeTensorsFile → Type 0
      good file =
          AllInPayload file.data_memory (base + length bytes - file.data_memory) file.entries
          × (file.data_memory ≤ base + length bytes)
