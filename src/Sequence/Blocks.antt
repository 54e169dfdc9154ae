-- ===== src/Sequence/Blocks.antt =====
-- How the logical blocks of a sequence cover its tokens.
use nano_vllm_cpp.Base.{
  ℕ, ◌+◌, ◌-◌, ◌*◌, ◌≤◌, ◌<◌, ◌≡◌, refl, List, [], ◌∷◌, ◌++◌, arith, length, drop, last?, min, ok,
  some, length-append, length-take, length-drop,
}
use nano_vllm_cpp.Sequence.{
  Sequence, SamplingParams, IsValid, block_size, new_sequence, num_blocks, last_block_num_tokens,
  block, append_token,
}

last?-append_one : (xs : List ℕ) (x : ℕ) → last? (xs ++ x ∷ []) ≡ some x
last?-append_one [] x = refl
last?-append_one (y ∷ []) x = refl
last?-append_one (y ∷ z ∷ xs) x = last?-append_one (z ∷ xs) x

-- A new sequence is valid.
pub new_sequence-IsValid :
    (n : ℕ) (tokens : List ℕ) (p : SamplingParams) → IsValid (new_sequence n tokens p).0
unfolding new_sequence
new_sequence-IsValid n tokens p = ground arith

-- `append_token` keeps a sequence valid: the count is that of the tokens, the prompt stays within
-- them, and the last token is their back.
pub append_token-IsValid : (s : Sequence) (t : ℕ) → IsValid s → IsValid (append_token s t)
unfolding append_token
append_token-IsValid s t v =
    ground (arith, length-append s.token_ids (t ∷ []), last?-append_one s.token_ids t)

-- Of a sequence with at least one token every block but the last is full, the last holds between 1
-- and 256 tokens, and together they hold `num_tokens`.
pub last_block_lem :
    (s : Sequence)
    → 0 < s.num_tokens
    → (1 ≤ last_block_num_tokens s)
      × (last_block_num_tokens s ≤ block_size)
      × ((num_blocks s - 1) * block_size + last_block_num_tokens s ≡ s.num_tokens)
unfolding last_block_num_tokens num_blocks
last_block_lem s h = ground arith

-- Where `block(i)` of a valid sequence returns, `i` is the number of a block, and the tokens are at
-- least one and as many as are left from `i * 256` on, up to 256.
pub block-length :
    (s : Sequence) (i : ℕ) (tokens : List ℕ)
    → IsValid s
    → block s i ≡ ok tokens
    → (1 ≤ length tokens)
      × (length tokens ≡ min block_size (s.num_tokens - i * block_size))
      × (i < num_blocks s)
unfolding block num_blocks
block-length s i tokens v h = ground (
  arith,
  length-take (min (i * block_size + block_size) s.num_tokens - i * block_size)
      (drop (i * block_size) s.token_ids),
  length-drop (i * block_size) s.token_ids,
)
