-- ===== src/Tests/Steps.antt =====
-- The engine and the steps of the scheduler at the concrete states.
use nano_vllm_cpp.Base.{ℕ, ◌+◌, ◌≤◌, ◌≡◌, refl, List, [], ◌∷◌, Bool, arith, length, ok, Safe, ◌-◌}
use nano_vllm_cpp.Base.Counting.{count, contains, erase, set_insert}
use nano_vllm_cpp.Sequence
use nano_vllm_cpp.BlockManager
use nano_vllm_cpp.Scheduler
use nano_vllm_cpp.Sequence.{Sequence, SequenceStatus, SamplingParams, new_sequence, IsValid}
use nano_vllm_cpp.BlockManager.{Block, BlockManager, new_block, no_hash, new_block_manager}
use nano_vllm_cpp.Scheduler.{Scheduler, SchedulerConfig, schedule_default, schedule_chunked}
use nano_vllm_cpp.Scheduler.Default.{DefaultDone, schedule_default-Safe}
use nano_vllm_cpp.Scheduler.Steps.{ChunkedDone, schedule_chunked-Safe}
use nano_vllm_cpp.Scheduler.Moves.{SameLimits}
use nano_vllm_cpp.Engine.{
  new_engine, add_request, step, seqs_at, step_tokens, finished_outputs, sum_lengths,
}
use nano_vllm_cpp.Engine.Runs.{Reach, new_engine-Reach}
use nano_vllm_cpp.Scheduler.Invariant.{SchedInv}
use nano_vllm_cpp.Base.{◌⊎◌}
use nano_vllm_cpp.Scheduler.{
  Batch, new_batch, prefill_loop, admit_loop, chunk_loop, decode_loop, store,
}
use nano_vllm_cpp.Scheduler.Prefill.{Prefilling, Prefilled, prefill_loop_lem}
use nano_vllm_cpp.Scheduler.Admission.{admit_loop_lem}
use nano_vllm_cpp.Scheduler.Chunked.{Chunked, Chunking, chunk_loop_lem}
use nano_vllm_cpp.Scheduler.Room.{Roomy, make_room_lem}
use nano_vllm_cpp.Scheduler.Decode.{Decoding, Decoded, decode_loop-Safe}
use nano_vllm_cpp.Scheduler.Postprocess.{postprocess_lem}
use nano_vllm_cpp.Engine.EndToken.{new_engine_misses_eos}
use nano_vllm_cpp.Tests.{
  digest, params, three_tokens, running_on, busy, busy-SchedInv, held_aside, held_aside-SchedInv,
  run_fives, config, first_engine, first_step,
}

new_engine-Reach_example : SchedInv first_step.engine.scheduler []
unfolding new_engine Scheduler.new_scheduler add_request new_sequence Scheduler.add step
    Scheduler.schedule Scheduler.schedule_default Scheduler.prefill_loop Scheduler.admit
    Scheduler.blocked Scheduler.postprocess Scheduler.postprocess_all Scheduler.postprocess_one
    Scheduler.finish_token BlockManager.new_block_manager BlockManager.blocks_from
    BlockManager.ids_from BlockManager.can_allocate BlockManager.allocate BlockManager.allocate_from
    BlockManager.allocate_step BlockManager.chain_hash BlockManager.look_up BlockManager.claim
    BlockManager.allocate_block contains erase set_insert Sequence.num_blocks Sequence.block
    Sequence.append_token Sequence.num_completion_tokens seqs_at step_tokens finished_outputs
    Sequence.is_finished sum_lengths Scheduler.is_finished
new_engine-Reach_example =
    new_engine-Reach digest run_fives config 3 2 first_engine first_step.engine refl
      (Reach.stepped (Reach.request Reach.here three_tokens params (omega arith)) first_step refl)

schedule_default-Safe_example : Safe (schedule_default digest busy) (DefaultDone busy)
schedule_default-Safe_example = schedule_default-Safe digest busy busy-SchedInv

schedule_chunked-Safe_example : Safe (schedule_chunked digest busy) (ChunkedDone busy)
schedule_chunked-Safe_example = schedule_chunked-Safe digest busy busy-SchedInv

busy-Prefilling : Prefilling (new_batch busy)
busy-Prefilling = record {
  inv = busy-SchedInv;
  counted = refl;
  seqs_bound = omega arith;
  tokens_bound = omega arith;
  at_back = (0 ∷ 1 ∷ [], refl);
  planned = tt;
}

prefill_loop_lem_example :
    (c : Batch) × (prefill_loop digest (2 ∷ []) (new_batch busy) ≡ ok c)
    × Prefilled (new_batch busy) c
prefill_loop_lem_example = prefill_loop_lem digest (2 ∷ []) (new_batch busy) refl busy-Prefilling

admit_loop_lem_example :
    (s' : Scheduler) × (admit_loop digest (2 ∷ []) busy 0 ≡ ok s')
    × SchedInv s' []
    × SameLimits busy s'
    × (2 ≤ length s'.running)
    × ((length s'.running ≡ 2) ⊎ (0 + (length s'.running - 2) + length s'.running ≤ 5))
admit_loop_lem_example = admit_loop_lem digest (2 ∷ []) busy 0 refl busy-SchedInv

busy-Chunking : Chunking 4 (0 ∷ 1 ∷ []) 4 busy []
unfolding count
busy-Chunking = record {
  inv = busy-SchedInv;
  left = omega arith;
  bound = omega arith;
  fits = tt;
  mine = λ k. omega arith;
}

chunk_loop_lem_example :
    (s' : Scheduler) × (scheduled : List ℕ) × (chunk_loop (0 ∷ 1 ∷ []) 4 busy []
      ≡ ok (s', scheduled))
    × Chunked busy 4 s' scheduled
chunk_loop_lem_example = chunk_loop_lem 4 (0 ∷ 1 ∷ []) 4 busy [] busy-Chunking

make_room_lem_example :
    (s' : Scheduler) × (was_preempted : Bool) × Roomy 2 held_aside [] 0 s' was_preempted
make_room_lem_example = make_room_lem 2 held_aside [] 0 (omega arith) held_aside-SchedInv

busy-Decoding : Decoding (new_batch busy)
busy-Decoding = record { inv = busy-SchedInv; counted = refl; bound = omega arith }

decode_loop-Safe_example : Safe (decode_loop digest 2 (new_batch busy)) (Decoded (new_batch busy))
decode_loop-Safe_example = decode_loop-Safe digest 2 (new_batch busy) (omega arith) busy-Decoding

postprocess_lem_example :
    (s' : Scheduler) × (Scheduler.postprocess busy (1 ∷ 0 ∷ []) (5 ∷ 2 ∷ []) ≡ ok s')
    × SchedInv s' []
    × (s'.waiting ≡ busy.waiting)
    × SameLimits busy s'
unfolding count
postprocess_lem_example =
    postprocess_lem busy (1 ∷ 0 ∷ []) (5 ∷ 2 ∷ []) busy-SchedInv (λ k. ground arith) refl

new_engine_misses_eos_example :
    (first_engine.eos_token_id ≡ 2)
    × (Scheduler.finish_token first_engine.scheduler 0 (running_on 0) 2
        ≡ ok (store first_engine.scheduler 0 (Sequence.append_token (running_on 0) 2)))
unfolding new_engine Scheduler.new_scheduler Sequence.append_token Sequence.num_completion_tokens
new_engine_misses_eos_example =
    new_engine_misses_eos config 3 2 first_engine first_engine.scheduler 0 (running_on 0) refl refl
      refl refl (omega arith)
