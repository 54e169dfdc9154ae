-- ===== src/Sequence.antt =====
-- include/engine/sequence.h, src/engine/sequence.cpp and include/core/sampling_params.h: one
-- request, its tokens and its block table.
-- A token id is the 32-bit pattern of its `int32_t` (-1 is `minus_one`), and so are `top_k` and
-- `max_tokens`; a `float` is its bit pattern, which the engine only moves. Counts of tokens and
-- blocks are plain numbers: the code keeps them non-negative `int`s.
pub mod Blocks
use nano_vllm_cpp.Base.{
  ℕ, ◌+◌, ◌-◌, ◌*◌, ◌/◌, ◌^◌, ◌≤◌, ◌≡◌, List, [], ◌∷◌, ◌++◌, Bool, true, false, Option, none, some,
  length, take, drop, last?, min, Result, ok, err, out_of_range, ltb, ◌==◌, if◌then◌else◌,
}

abbrev pub minus_one : ℕ
minus_one = 2 ^ 32 - 1

pub data SequenceStatus : Type 0 where
  waiting running finished : SequenceStatus

pub record SamplingParams : Type 0 where
  pub temperature : ℕ
  pub top_k : ℕ
  pub top_p : ℕ
  pub repetition_penalty : ℕ
  pub max_tokens : ℕ
  pub ignore_eos : Bool

abbrev pub block_size : ℕ
block_size = 256

pub record Sequence : Type 0 where
  pub seq_id : ℕ
  pub status : SequenceStatus
  pub token_ids : List ℕ
  pub last_token : ℕ
  pub num_tokens : ℕ
  pub num_prompt_tokens : ℕ
  pub num_cached_tokens : ℕ
  pub num_computed_tokens : ℕ
  pub num_tokens_to_process : ℕ
  pub block_table : List ℕ
  pub temperature : ℕ
  pub top_k : ℕ
  pub top_p : ℕ
  pub repetition_penalty : ℕ
  pub max_tokens : ℕ
  pub ignore_eos : Bool

abbrev back_or : List ℕ → ℕ → ℕ
back_or xs d = elim (last? xs) [ none ↦ d | some x ↦ x ]

-- The constructor; the first number is the counter `next_seq_id_`, returned one higher.
unfoldable pub new_sequence : ℕ → List ℕ → SamplingParams → Sequence × ℕ
new_sequence next_seq_id tokens params = (
  record {
    seq_id = next_seq_id;
    status = SequenceStatus.waiting;
    token_ids = tokens;
    last_token = back_or tokens minus_one;
    num_tokens = length tokens;
    num_prompt_tokens = length tokens;
    num_cached_tokens = 0;
    num_computed_tokens = 0;
    num_tokens_to_process = 0;
    block_table = [];
    temperature = params.temperature;
    top_k = params.top_k;
    top_p = params.top_p;
    repetition_penalty = params.repetition_penalty;
    max_tokens = params.max_tokens;
    ignore_eos = params.ignore_eos;
  },
  next_seq_id + 1,
)

unfoldable pub is_finished : Sequence → Bool
is_finished s = elim s.status [ SequenceStatus.finished ↦ true | _ ↦ false ]

unfoldable pub num_completion_tokens : Sequence → ℕ
num_completion_tokens s = s.num_tokens - s.num_prompt_tokens

unfoldable pub num_cached_blocks : Sequence → ℕ
num_cached_blocks s = s.num_cached_tokens / block_size

unfoldable pub num_blocks : Sequence → ℕ
num_blocks s = (s.num_tokens + block_size - 1) / block_size

unfoldable pub last_block_num_tokens : Sequence → ℕ
unfolding num_blocks
last_block_num_tokens s =
    if s.num_tokens == 0 then 0 else s.num_tokens - (num_blocks s - 1) * block_size

-- The tokens of logical block `i`.
unfoldable pub block : Sequence → ℕ → Result (List ℕ)
unfolding num_blocks
block s i =
    let start = i * block_size in
    let end = min (start + block_size) s.num_tokens in
    if ltb i (num_blocks s)
    then ok (take (end - start) (drop start s.token_ids))
    else err out_of_range

unfoldable pub append_token : Sequence → ℕ → Sequence
append_token s token_id = record s {
  token_ids = s.token_ids ++ token_id ∷ [];
  last_token = token_id;
  num_tokens = s.num_tokens + 1;
}

-- `num_tokens` is the size of `token_ids`, the prompt is a prefix of it, and the last token is
-- its back.
pub record IsValid (s : Sequence) : Type 0 where
  pub counted : s.num_tokens ≡ length s.token_ids
  pub prompt_within : s.num_prompt_tokens ≤ s.num_tokens
  pub last_is_back : s.last_token ≡ back_or s.token_ids minus_one
