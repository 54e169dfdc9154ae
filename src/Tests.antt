-- ===== src/Tests.antt =====
-- Concrete states for the examples: a digest, a runner, two sequences that run on one block each,
-- and one that waits.
pub mod Steps
pub mod Ends
pub mod Devices
pub mod Parts
pub mod Memory
pub mod Views
pub mod Words
pub mod Weights
pub mod Layers
use nano_vllm_cpp.Base.{
  ℕ, zero, suc, ◌+◌, ◌*◌, ◌%◌, ◌^◌, ◌≤◌, ◌<◌, ◌≡◌, ◌≢◌, refl, List, [], ◌∷◌, ◌++◌, Bool, true,
  false, Option, none, some, arith, length, get_elem?, Result, ok, err, Safe, ap, ◌-◌,
}
use nano_vllm_cpp.Base.Counting.{count, one_if, contains, erase, set_insert}
use nano_vllm_cpp.Sequence
use nano_vllm_cpp.BlockManager
use nano_vllm_cpp.Scheduler
use nano_vllm_cpp.Sequence.{Sequence, SequenceStatus, SamplingParams, new_sequence, IsValid}
use nano_vllm_cpp.BlockManager.{Block, BlockManager, new_block, no_hash, new_block_manager}
use nano_vllm_cpp.BlockManager.Invariant.{Inv, ref_of}
use nano_vllm_cpp.Scheduler.{Scheduler, SchedulerConfig, schedule_default, schedule_chunked}
use nano_vllm_cpp.Scheduler.Default.{DefaultDone, schedule_default-Safe}
use nano_vllm_cpp.Scheduler.Steps.{ChunkedDone, schedule_chunked-Safe}
use nano_vllm_cpp.Scheduler.Moves.{SameLimits}
use nano_vllm_cpp.Scheduler.Room.{SchedInv-move}
use nano_vllm_cpp.Engine.{
  Engine, StepResult, Throughput, new_engine, add_request, step, seqs_at, step_tokens,
  finished_outputs, sum_lengths,
}
use nano_vllm_cpp.Runner.Accepts.{Accepts}
use nano_vllm_cpp.Runner.Samples.{SampleInputs}
use nano_vllm_cpp.Runner.Run.{ModelInputs, run, run_lem}
use nano_vllm_cpp.Engine.Runs.{Reach, new_engine-Reach}
use nano_vllm_cpp.Scheduler.Invariant.{SchedInv, total_holders, Placed, Fits}

abbrev pub digest : List ℕ → ℕ
digest [] = 7
digest (x ∷ xs) = (31 * digest xs + x) % 2 ^ 64

abbrev pub params : SamplingParams
params = record {
  temperature = 0;
  top_k = 0;
  top_p = 0;
  repetition_penalty = 0;
  max_tokens = 8;
  ignore_eos = false;
}

abbrev pub three_tokens : List ℕ
three_tokens = 11 ∷ 12 ∷ 13 ∷ []

abbrev pub waiting_one : Sequence
waiting_one = record {
  seq_id = 2;
  status = SequenceStatus.waiting;
  token_ids = three_tokens;
  last_token = 13;
  num_tokens = 3;
  num_prompt_tokens = 3;
  num_cached_tokens = 0;
  num_computed_tokens = 0;
  num_tokens_to_process = 0;
  block_table = [];
  temperature = 0;
  top_k = 0;
  top_p = 0;
  repetition_penalty = 0;
  max_tokens = 8;
  ignore_eos = false;
}

abbrev pub running_on : ℕ → Sequence
running_on b = record waiting_one {
  seq_id = b;
  status = SequenceStatus.running;
  block_table = b ∷ [];
}

abbrev pub two_used : BlockManager
two_used = record {
  block_size = 256;
  blocks =
      record { block_id = 0; ref_count = 1; hash = no_hash; token_ids = [] }
      ∷ record { block_id = 1; ref_count = 1; hash = no_hash; token_ids = [] }
      ∷ new_block 2
      ∷ [];
  hash_to_block_id = λ h. none;
  free_block_ids = 2 ∷ [];
  used_block_ids = 1 ∷ 0 ∷ [];
}

abbrev pub busy : Scheduler
busy = record {
  max_num_seqs = 4;
  max_num_batched_tokens = 1024;
  max_num_prefill_tokens = 512;
  eos = 2;
  enable_chunked_prefill = false;
  block_manager = two_used;
  sequences = running_on 0 ∷ running_on 1 ∷ waiting_one ∷ [];
  waiting = 2 ∷ [];
  running = 0 ∷ 1 ∷ [];
}

pub two_used-Inv : Inv two_used (total_holders busy.sequences)
unfolding total_holders count ref_of
two_used-Inv = record {
  refs = λ b. ground arith;
  ids = λ b k e. ground arith;
  free_once = λ b. ground arith;
  used_once = λ b. ground arith;
  hash_in = λ h b e. cc;
  total = refl;
}

-- Where the sequences of `busy` are.
pub busy-Placed :
    (k : ℕ)
    → Placed (get_elem? busy.sequences k) (count k (2 ∷ [])) (count k (0 ∷ 1 ∷ []) + count k [])
unfolding count
busy-Placed zero = ground arith
busy-Placed (suc zero) = ground arith
busy-Placed (suc (suc zero)) = ground arith
busy-Placed (suc (suc (suc k))) = ground arith

pub busy-SchedInv : SchedInv busy []
busy-SchedInv = record { blocks = two_used-Inv; placed = busy-Placed }

-- One of the two is held aside, as a step holds it.
abbrev pub held_aside : Scheduler
held_aside = record busy { running = 1 ∷ [] }

pub held_aside-SchedInv : SchedInv held_aside (0 ∷ [])
unfolding count
held_aside-SchedInv = SchedInv-move refl refl refl (λ k. ground arith) busy-SchedInv

-- A runner that answers every sequence with the token 5.
abbrev pub fives : List Sequence → List ℕ
fives [] = []
fives (q ∷ qs) = 5 ∷ fives qs

abbrev pub sample_fives : List ℕ → List ℕ
sample_fives [] = []
sample_fives (t ∷ ts) = 5 ∷ sample_fives ts

length-sample_fives : (ts : List ℕ) → length (sample_fives ts) ≡ length ts
length-sample_fives [] = refl
length-sample_fives (t ∷ ts) = ap suc (length-sample_fives ts)

-- The runner of one rank whose sampler picks the token 5.
abbrev forward_any : ModelInputs → Result (Option (Unit {0}))
forward_any i = ok (some tt)

abbrev sampler_fives : Unit {0} → SampleInputs → Result (List ℕ)
sampler_fives l s = ok (sample_fives s.temperatures)

abbrev pub run_batch : List Sequence → Bool → Result (List ℕ)
run_batch = run forward_any sampler_fives 1 0

abbrev pub run_fives : List Sequence → Bool → Result (List ℕ)
run_fives qs is_prefill = ok (fives qs)

pub run_batch_total :
    (qs : List Sequence) (is_prefill : Bool)
    → Accepts qs is_prefill
    → (ts : List ℕ) × (run_batch qs is_prefill ≡ ok ts) × (length ts ≡ length qs)
run_batch_total =
    run_lem forward_any sampler_fives 1 0 refl (λ i. (tt, refl))
      (λ l s. (sample_fives s.temperatures, refl, length-sample_fives s.temperatures))

abbrev pub config : SchedulerConfig
config = record {
  max_num_seqs = 4;
  max_num_batched_tokens = 1024;
  max_num_prefill_tokens = 512;
  eos_token_id = 2 ^ 32 - 1;
  enable_chunked_prefill = false;
  num_kvcache_blocks = 3;
  kvcache_block_size = 256;
}

-- Fallbacks that no test reaches.
abbrev pub engine_or : Result Engine → Engine
engine_or (ok e) = e
engine_or (err f) = record { scheduler = busy; eos_token_id = 0; next_seq_id = 0 }

abbrev pub first_engine : Engine
first_engine = engine_or (new_engine config 3 2)

abbrev pub asked : Engine
asked = add_request first_engine three_tokens params

abbrev pub result_or : Result StepResult → StepResult
result_or (ok r) = r
result_or (err f) = record {
  engine = asked;
  tokens = [];
  outputs = [];
  num_tokens = Throughput.decoded 0;
}

abbrev pub first_step : StepResult
first_step = result_or (step digest run_fives asked)
