-- ===== src/Engine.antt =====
-- include/engine/llm_engine.h and src/engine/llm_engine.cpp: construction, requests, and one step.
-- The model runner's `run` and the tokenizer's `encode` are parameters: functions of the scheduled
-- sequences, and of the text. The counter `next_seq_id_` of `Sequence` is a field of the engine.
pub mod Runs
pub mod EndToken
pub mod Generate
pub mod Batches
pub mod Ends
pub mod Stream
use mathlib.Core.List.{map}
use nano_vllm_cpp.Base.{
  ℕ, zero, suc, ◌+◌, ◌-◌, ◌^◌, List, [], ◌∷◌, ◌++◌, Bool, true, false, not, length, drop, Result,
  ok, err, out_of_range, invalid, ◌>>=◌, ◌>>◌, guard, leb, if◌then◌else◌,
}
use nano_vllm_cpp.Sequence
use nano_vllm_cpp.Sequence.{Sequence, SamplingParams}
use nano_vllm_cpp.Scheduler
use nano_vllm_cpp.Scheduler.{Scheduler, SchedulerConfig, Scheduled, seq_at, is_empty}

pub record Engine : Type 0 where
  pub scheduler : Scheduler
  pub eos_token_id : ℕ
  pub next_seq_id : ℕ

-- An `int` pattern of a negative number.
abbrev pub negative : ℕ → Bool
negative x = leb (2 ^ 31) x

-- The constructor, from the configuration, the number of blocks that the model runner allocated,
-- and the tokenizer's end token.
unfoldable pub new_engine : SchedulerConfig → ℕ → ℕ → Result Engine
new_engine config num_blocks tokenizer_eos = do
  s ← Scheduler.new_scheduler (record config { num_kvcache_blocks = num_blocks })
  ok (record {
    scheduler = s;
    eos_token_id = if negative config.eos_token_id then tokenizer_eos else config.eos_token_id;
    next_seq_id = 0;
  })

unfoldable pub add_request : Engine → List ℕ → SamplingParams → Engine
add_request e tokens params =
    let (q, next) = Sequence.new_sequence e.next_seq_id tokens params in
    record e { scheduler = Scheduler.add e.scheduler q; next_seq_id = next }

-- The overload that takes text.
unfoldable pub add_prompt : (List ℕ → List ℕ) → Engine → List ℕ → SamplingParams → Result Engine
add_prompt encode e prompt params = do
  let tokens = encode prompt
  guard (not (is_empty tokens)) invalid
  ok (add_request e tokens params)

-- The sequences that the pointers name.
unfoldable pub seqs_at : Scheduler → List ℕ → Result (List Sequence)
seqs_at s [] = ok []
seqs_at s (p ∷ ps) = do q ← seq_at s p; qs ← seqs_at s ps; ok (q ∷ qs)

-- The finished ones, each with its completion: the tokens behind the prompt.
unfoldable pub finished_outputs : List Sequence → List (ℕ × List ℕ)
finished_outputs [] = []
finished_outputs (q ∷ qs) =
    let rest = finished_outputs qs in
    if Sequence.is_finished q then (q.seq_id, drop q.num_prompt_tokens q.token_ids) ∷ rest else rest

unfoldable pub sum_lengths : List Sequence → ℕ
sum_lengths [] = 0
sum_lengths (q ∷ qs) = q.num_tokens + sum_lengths qs

-- `seqs[i]->seq_id` with `token_ids[i]`, for each `i` below `seqs.size()`.
unfoldable pub step_tokens : List Sequence → List ℕ → Result (List (ℕ × ℕ))
step_tokens [] ts = ok []
step_tokens (q ∷ qs) [] = err out_of_range
step_tokens (q ∷ qs) (t ∷ ts) = do rest ← step_tokens qs ts; ok ((q.seq_id, t) ∷ rest)

-- The second part of a step's result: the tokens of a prefill, or the sequences of a decode, which
-- the code writes as a negative number.
pub data Throughput : Type 0 where
  prefilled decoded : ℕ → Throughput

pub record StepResult : Type 0 where
  pub engine : Engine
  pub tokens : List (ℕ × ℕ)
  pub outputs : List (ℕ × List ℕ)
  pub num_tokens : Throughput

module _ (xxh64 : List ℕ → ℕ) (run : List Sequence → Bool → Result (List ℕ)) where
  unfoldable pub step : Engine → Result StepResult
  step e = do
    r ← Scheduler.schedule xxh64 e.scheduler
    seqs ← seqs_at r.sched r.seqs
    token_ids ← run seqs r.is_prefill
    tokens ← step_tokens seqs token_ids
    s ← Scheduler.postprocess r.sched r.seqs token_ids
    after ← seqs_at s r.seqs
    ok (record {
      engine = record e { scheduler = s };
      tokens = tokens;
      outputs = finished_outputs after;
      num_tokens = if r.is_prefill then prefilled (sum_lengths after) else decoded (length r.seqs);
    })
