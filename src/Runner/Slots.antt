-- ===== src/Runner/Slots.antt =====
-- The cache slots that a step writes.
use nano_vllm_cpp.Base.{
  ℕ, suc, ◌-◌, ◌/◌, ◌%◌, ◌<◌, ◌≡◌, refl, ◌∙◌, ap, List, [], ◌∷◌, arith, length, get_elem?, last?,
}
use nano_vllm_cpp.Sequence
use nano_vllm_cpp.Sequence.{Sequence}
use nano_vllm_cpp.Runner.{slot_of, decode_slot}

pub last?-get : (xs : List ℕ) → last? xs ≡ get_elem? xs (length xs - 1)
last?-get [] = refl
last?-get (x ∷ []) = refl
last?-get (x ∷ y ∷ xs) =
    let same : suc (length (y ∷ xs) - 1) ≡ length (x ∷ y ∷ xs) - 1 = omega arith in
    last?-get (y ∷ xs) ∙ ap (λ n. get_elem? (x ∷ y ∷ xs) n) same

last_block_num_tokens_lem :
    (q : Sequence)
    → 0 < q.num_tokens
    → Sequence.last_block_num_tokens q - 1 ≡ (q.num_tokens - 1) % 256
unfolding Sequence.last_block_num_tokens Sequence.num_blocks
last_block_num_tokens_lem q some_tokens = ground arith

last_place :
    (q : Sequence)
    → 0 < q.num_tokens
    → length q.block_table ≡ Sequence.num_blocks q
    → (q.num_tokens - 1) / 256 ≡ length q.block_table - 1
unfolding Sequence.num_blocks
last_place q some_tokens full = omega arith

-- A decode step writes its token where a prefill of the same token would: for a sequence with a
-- token and a table with one block for each logical block, `decode_slot` is `slot_of` at the last
-- position.
pub decode_slot-slot_of :
    (q : Sequence)
    → 0 < q.num_tokens
    → length q.block_table ≡ Sequence.num_blocks q
    → decode_slot Sequence.block_size q ≡ slot_of q Sequence.block_size (q.num_tokens - 1)
unfolding decode_slot slot_of
decode_slot-slot_of q some_tokens full =
    rw
      (
        last_place q some_tokens full,
        last?-get q.block_table,
        last_block_num_tokens_lem q some_tokens,
      )
      refl
