-- ===== src/Tests/Ends.antt =====
-- Runs of `generate_stream` at the concrete states.
use nano_vllm_cpp.Base.{
  ℕ, zero, suc, ◌≡◌, refl, some, List, [], ◌∷◌, true, false, arith, ok, Safe, ◌<◌,
}
use nano_vllm_cpp.Base.Counting.{count, contains, erase, set_insert}
use nano_vllm_cpp.Sequence
use nano_vllm_cpp.BlockManager
use nano_vllm_cpp.Scheduler
use nano_vllm_cpp.Sequence.{Sequence, new_sequence}
use nano_vllm_cpp.Scheduler.{Scheduler, Scheduled}
use nano_vllm_cpp.Scheduler.Progress.{AllHaveRoom}
use nano_vllm_cpp.Engine.{
  new_engine, add_request, step, seqs_at, step_tokens, finished_outputs, sum_lengths,
}
use nano_vllm_cpp.Engine.Generate.{
  Generated, generate_step, generate_loop, generate_stream, add_requests, outputs, collect, put,
  calls_of, ids_of_outputs,
}
use nano_vllm_cpp.Scheduler.Moves.{SameLimits}
use nano_vllm_cpp.Engine.Ends.{Going, schedule-Accepts, step-Going, Ended, generate_loop-Ended}
use nano_vllm_cpp.Runner.Accepts.{Accepts}
use nano_vllm_cpp.Engine.Stream.{Returned, generate_stream-Returned}
use nano_vllm_cpp.Scheduler.Progress.{tokens_left}
use nano_vllm_cpp.Tests.{
  digest, params, three_tokens, busy, busy-SchedInv, run_fives, run_batch, run_batch_total, config,
  first_engine,
}

busy-AllHaveRoom : AllHaveRoom busy
unfolding count
busy-AllHaveRoom zero n = (omega arith, omega arith, omega arith)
busy-AllHaveRoom (suc zero) n = (omega arith, omega arith, omega arith)
busy-AllHaveRoom (suc (suc zero)) n = (omega arith, omega arith, omega arith)
busy-AllHaveRoom (suc (suc (suc k))) n = absurd (ground arith)

abbrev busy_run : Generated
busy_run = record {
  engine = record { scheduler = busy; eos_token_id = 2; next_seq_id = 3 };
  collected = [];
  calls = [];
}

abbrev echo : List ℕ → List ℕ
echo ids = ids

busy-Going : Going busy
busy-Going = record { inv = busy-SchedInv; rooms = busy-AllHaveRoom; whole = refl }

schedule-Accepts_example :
    Safe
      (Scheduler.schedule digest busy)
      (λ r. (qs : List Sequence) × (seqs_at r.sched r.seqs ≡ ok qs) × Accepts qs r.is_prefill)
schedule-Accepts_example = schedule-Accepts digest busy busy-Going

step-Going_example : Safe (step digest run_batch busy_run.engine) (λ r.
    Going r.engine.scheduler
    × (tokens_left r.engine.scheduler.sequences < tokens_left busy.sequences)
    × SameLimits busy r.engine.scheduler)
step-Going_example = step-Going digest run_batch run_batch_total busy_run.engine busy-Going

generate_loop-Ended_example : Safe (generate_loop digest run_batch echo 25 true busy_run) Ended
unfolding tokens_left
generate_loop-Ended_example =
    generate_loop-Ended digest run_batch echo run_batch_total 25 true busy_run busy-Going
      (omega arith)

generate_stream-Returned_example :
    Safe
      (generate_stream digest run_batch echo 17 true first_engine
        (three_tokens ∷ (7 ∷ []) ∷ [])
        params)
      Returned
unfolding new_engine Scheduler.new_scheduler BlockManager.new_block_manager BlockManager.blocks_from
    BlockManager.ids_from
generate_stream-Returned_example =
    generate_stream-Returned digest run_batch echo run_batch_total config 3 2 first_engine 17 true
      (three_tokens ∷ (7 ∷ []) ∷ []) params refl refl (omega arith) (omega arith, (omega arith, tt))
      (omega arith)

-- Two prompts with two tokens each take two steps, and come back in their order.
two_prompts :
    generate_stream digest run_fives echo 5 false first_engine
      (three_tokens ∷ (7 ∷ []) ∷ [])
      (record params { max_tokens = 2 })
    ≡ ok (
        some (
          record { token_ids = 5 ∷ 5 ∷ []; text = 5 ∷ 5 ∷ [] }
              ∷ record { token_ids = 5 ∷ 5 ∷ []; text = 5 ∷ 5 ∷ [] }
              ∷ [],
          [],
        ))
unfolding new_engine Scheduler.new_scheduler add_request new_sequence Scheduler.add step
    Scheduler.schedule Scheduler.schedule_default Scheduler.prefill_loop Scheduler.admit
    Scheduler.blocked Scheduler.postprocess Scheduler.postprocess_all Scheduler.postprocess_one
    Scheduler.finish_token BlockManager.new_block_manager BlockManager.blocks_from
    BlockManager.ids_from BlockManager.can_allocate BlockManager.allocate BlockManager.allocate_from
    BlockManager.allocate_step BlockManager.chain_hash BlockManager.look_up BlockManager.claim
    BlockManager.allocate_block contains erase set_insert Sequence.num_blocks Sequence.block
    Sequence.append_token Sequence.num_completion_tokens seqs_at step_tokens finished_outputs
    Sequence.is_finished sum_lengths Scheduler.is_finished generate_stream generate_loop
    generate_step add_requests outputs collect put calls_of ids_of_outputs Scheduler.decode_step
    Scheduler.decode_loop Scheduler.make_room Scheduler.decode_one BlockManager.can_append
    BlockManager.may_append BlockManager.deallocate BlockManager.release_all
    BlockManager.release_block BlockManager.deallocate_block BlockManager.append_block
two_prompts = refl
