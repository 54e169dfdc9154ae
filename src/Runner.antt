-- ===== src/Runner.antt =====
-- src/engine/model_runner.cpp and include/engine/model_runner.h: the host arrays of a step, and the
-- sizes that the runner computes. The model, the GPU copies and the CUDA graphs themselves are not
-- modelled; a `Tensor` of the inputs is the list of numbers that is copied into it. The block size
-- is the configuration's, which the constructor requires to be `Sequence::BLOCK_SIZE`.
pub mod Slots
pub mod Prefill
pub mod Scratch
pub mod Captured
pub mod Pinned
pub mod Cache
pub mod CacheViews
pub mod Samples
pub mod Accepts
pub mod Run
use nano_vllm_cpp.Base.{
  ℕ, zero, suc, ◌+◌, ◌-◌, ◌*◌, ◌/◌, ◌%◌, ◌^◌, List, [], ◌∷◌, ◌++◌, Bool, true, false, not, ◌&&◌,
  ◌||◌, Option, none, some, length, get_elem?, last?, Result, ok, err, out_of_range, invalid, ◌>>=◌,
  ◌>>◌, guard, or_fail, ltb, leb, ◌==◌, if◌then◌else◌, min, max,
}
use nano_vllm_cpp.Sequence
use nano_vllm_cpp.Sequence.{Sequence}

-- The cache slot of a token: `block_id * block_size + offset`.
unfoldable pub slot_of : Sequence → ℕ → ℕ → Result ℕ
slot_of q size i = do
  id ← or_fail (get_elem? q.block_table (i / size)) out_of_range
  ok (id * size + i % size)

-- The host arrays of a prefill.
pub record PrefillInputs : Type 0 where
  pub input_ids : List ℕ
  pub positions : List ℕ
  pub slot_mapping : List ℕ
  pub cu_seqlens_q : List ℕ
  pub cu_seqlens_k : List ℕ
  pub last_q : ℕ
  pub last_k : ℕ
  pub max_seqlen_q : ℕ
  pub max_seqlen_k : ℕ

-- `last_q` and `last_k` are `cu_seqlens_q.back()` and `cu_seqlens_k.back()`.
abbrev pub no_inputs : PrefillInputs
no_inputs = record {
  input_ids = [];
  positions = [];
  slot_mapping = [];
  cu_seqlens_q = 0 ∷ [];
  cu_seqlens_k = 0 ∷ [];
  last_q = 0;
  last_k = 0;
  max_seqlen_q = 0;
  max_seqlen_k = 0;
}

-- `query_begin` and `query_end`.
unfoldable pub query_begin : Sequence → ℕ
query_begin q =
    if ltb 0 q.num_tokens_to_process
    then q.num_computed_tokens
    else if leb q.num_tokens q.num_cached_tokens
    then q.num_tokens - 1
    else q.num_cached_tokens

unfoldable pub query_end : Sequence → ℕ
query_end q =
    if ltb 0 q.num_tokens_to_process
    then min (q.num_computed_tokens + q.num_tokens_to_process) q.num_tokens
    else q.num_tokens

-- The loop over the tokens from `i` on, `n` of them.
unfoldable pub push_tokens : Sequence → ℕ → ℕ → ℕ → PrefillInputs → Result PrefillInputs
push_tokens q size zero i a = ok a
push_tokens q size (suc n) i a = do
  t ← or_fail (get_elem? q.token_ids i) out_of_range
  slot ← slot_of q size i
  push_tokens q size n (i + 1) (record a {
    input_ids = a.input_ids ++ t ∷ [];
    positions = a.positions ++ i ∷ [];
    slot_mapping = a.slot_mapping ++ slot ∷ [];
  })

-- One round of the loop over the sequences.
unfoldable pub push_seq : ℕ → PrefillInputs → Sequence → Result PrefillInputs
push_seq size a q = do
  guard (ltb 0 q.num_tokens) invalid
  guard (length q.block_table == Sequence.num_blocks q) invalid
  let begin = query_begin q
  let end = query_end q
  b ← push_tokens q size (end - begin) begin a
  ok (record b {
    cu_seqlens_q = b.cu_seqlens_q ++ (b.last_q + (end - begin)) ∷ [];
    cu_seqlens_k = b.cu_seqlens_k ++ (b.last_k + end) ∷ [];
    last_q = b.last_q + (end - begin);
    last_k = b.last_k + end;
    max_seqlen_q = max b.max_seqlen_q (end - begin);
    max_seqlen_k = max b.max_seqlen_k end;
  })

unfoldable pub push_seqs : ℕ → PrefillInputs → List Sequence → Result PrefillInputs
push_seqs size a [] = ok a
push_seqs size a (q ∷ qs) = push_seq size a q >>= λ b. push_seqs size b qs

abbrev pub some_seq : List Sequence → Bool
some_seq [] = false
some_seq (q ∷ qs) = true

-- `build_block_tables`: one row for each sequence, filled up with 0.
unfoldable pub max_blocks : List Sequence → ℕ
max_blocks [] = 0
max_blocks (q ∷ qs) = max (length q.block_table) (max_blocks qs)

unfoldable pub pad : ℕ → List ℕ → List ℕ
pad zero xs = xs
pad (suc n) [] = 0 ∷ pad n []
pad (suc n) (x ∷ xs) = x ∷ pad n xs

unfoldable pub table_rows : ℕ → List Sequence → List ℕ
table_rows width [] = []
table_rows width (q ∷ qs) = pad width q.block_table ++ table_rows width qs

-- `none` is the undefined tensor.
unfoldable pub build_block_tables : List Sequence → Option (List ℕ)
unfolding max_blocks table_rows
build_block_tables qs = if max_blocks qs == 0 then none else some (table_rows (max_blocks qs) qs)

-- `prepare_prefill`, with the block tables that it builds where there are earlier keys.
unfoldable pub prepare_prefill : ℕ → List Sequence → Result (PrefillInputs × Option (List ℕ))
prepare_prefill size qs = do
  guard (some_seq qs) invalid
  a ← push_seqs size no_inputs qs
  ok (a, (if ltb a.last_q a.last_k then build_block_tables qs else none))

pub record DecodeInputs : Type 0 where
  pub input_ids : List ℕ
  pub positions : List ℕ
  pub slot_mapping : List ℕ
  pub context_lens : List ℕ

unfoldable pub decode_slot : ℕ → Sequence → Result ℕ
decode_slot size q = do
  id ← or_fail (last? q.block_table) out_of_range
  ok (id * size + (Sequence.last_block_num_tokens q - 1))

unfoldable pub decode_arrays : ℕ → List Sequence → Result DecodeInputs
decode_arrays size [] =
    ok (record { input_ids = []; positions = []; slot_mapping = []; context_lens = [] })
decode_arrays size (q ∷ qs) = do
  guard (ltb 0 q.num_tokens) invalid
  guard (ltb 0 (length q.block_table)) invalid
  slot ← decode_slot size q
  rest ← decode_arrays size qs
  ok (record {
    input_ids = q.last_token ∷ rest.input_ids;
    positions = (q.num_tokens - 1) ∷ rest.positions;
    slot_mapping = slot ∷ rest.slot_mapping;
    context_lens = q.num_tokens ∷ rest.context_lens;
  })

-- The one array that is copied: the four, one behind the other.
unfoldable pub packed : DecodeInputs → List ℕ
packed a = a.input_ids ++ (a.positions ++ (a.slot_mapping ++ a.context_lens))

unfoldable pub prepare_decode : ℕ → List Sequence → Result (DecodeInputs × List ℕ × Option (List ℕ))
prepare_decode size qs = do
  guard (some_seq qs) invalid
  a ← decode_arrays size qs
  ok (a, packed a, build_block_tables qs)
