-- ===== src/Tests/Parts.antt =====
-- The block manager, the sequence and the runner at the concrete states.
use nano_vllm_cpp.Base.{ℕ, ◌+◌, ◌≤◌, ◌≡◌, refl, List, [], ◌∷◌, arith, length, ok, Safe}
use nano_vllm_cpp.Base.Counting.{count}
use nano_vllm_cpp.Sequence
use nano_vllm_cpp.BlockManager
use nano_vllm_cpp.Sequence.{Sequence, SequenceStatus, SamplingParams, new_sequence, IsValid}
use nano_vllm_cpp.BlockManager.{Block, BlockManager, new_block, no_hash, new_block_manager}
use nano_vllm_cpp.BlockManager.Invariant.{Inv, Inv-cong}
use nano_vllm_cpp.Scheduler.Invariant.{total_holders}
use nano_vllm_cpp.Sequence.{last_block_num_tokens}
use nano_vllm_cpp.BlockManager.{num_free_blocks, deallocate, may_append, can_append}
use nano_vllm_cpp.BlockManager.Allocate.{Allocated, allocate_lem}
use nano_vllm_cpp.BlockManager.Release.{deallocate_lem}
use nano_vllm_cpp.BlockManager.Append.{Appended, may_append-Safe}
use nano_vllm_cpp.Runner.{decode_slot, slot_of}
use nano_vllm_cpp.BlockManager.{ids_from}
use nano_vllm_cpp.Runner.Slots.{decode_slot-slot_of}
use nano_vllm_cpp.Tests.{digest, waiting_one, running_on, two_used, busy, two_used-Inv}

allocate_lem_example :
    (m' : BlockManager) × (table : List ℕ) × (hits : ℕ) × Allocated digest two_used waiting_one
      (total_holders busy.sequences)
      m'
      table
      hits
unfolding BlockManager.can_allocate Sequence.num_blocks
allocate_lem_example =
    allocate_lem digest two_used waiting_one (total_holders busy.sequences) two_used-Inv refl refl

-- The two holders, one apart from the other.
split_two : Inv two_used (λ b. count b (0 ∷ []) + count b (1 ∷ []))
unfolding count total_holders
split_two = Inv-cong (λ b. omega arith) two_used-Inv

deallocate_lem_example :
    (m' : BlockManager) × (deallocate two_used (running_on 0)
      ≡ ok (m', record (running_on 0) { num_cached_tokens = 0; block_table = [] }))
    × Inv m' (λ b. count b (1 ∷ []))
    × (1 ≤ length m'.free_block_ids)
    × (m'.block_size ≡ 256)
deallocate_lem_example = deallocate_lem two_used (running_on 0) (λ b. count b (1 ∷ [])) split_two

may_append-Safe_example :
    Safe
      (may_append digest two_used (running_on 0))
      (λ r. Appended two_used (running_on 0) (λ b. count b (1 ∷ [])) r.0 r.1)
unfolding can_append
may_append-Safe_example =
    may_append-Safe digest two_used (running_on 0) (λ b. count b (1 ∷ [])) split_two (omega arith)
      (omega arith) refl

decode_slot-slot_of_example : decode_slot 256 (running_on 1) ≡ slot_of (running_on 1) 256 2
unfolding Sequence.num_blocks
decode_slot-slot_of_example = decode_slot-slot_of (running_on 1) (omega arith) refl
