-- ===== src/Runner/Accepts.antt =====
-- The batches for which `prepare_prefill` and `prepare_decode` return.
use nano_vllm_cpp.Base.{
  ℕ, zero, suc, ◌-◌, ◌*◌, ◌≤◌, ◌≡◌, refl, List, [], ◌∷◌, Bool, true, false, Option, arith, length,
  get_elem?-some, ok, ltb, Bool-cases, inl, inr, eq→==,
}
use nano_vllm_cpp.Sequence
use nano_vllm_cpp.Sequence.{Sequence}
use nano_vllm_cpp.Runner.{
  PrefillInputs, no_inputs, query_begin, query_end, push_tokens, push_seq, push_seqs, some_seq,
  prepare_prefill, DecodeInputs, decode_slot, decode_arrays, prepare_decode,
}
use nano_vllm_cpp.Runner.Prefill.{push_tokens_lem}
use nano_vllm_cpp.Runner.Slots.{last?-get}

abbrev pub AllSeqs : (Sequence → Type 0) → List Sequence → Type 0
AllSeqs P [] = Unit
AllSeqs P (q ∷ qs) = P q × AllSeqs P qs

-- A sequence with its tokens, at least one, and a block for each logical block.
abbrev pub Whole : Sequence → Type 0
Whole q =
    (1 ≤ q.num_tokens)
    × (q.num_tokens ≡ length q.token_ids)
    × (length q.block_table ≡ Sequence.num_blocks q)

-- A sequence with a token and a block.
abbrev pub Started : Sequence → Type 0
Started q = (1 ≤ q.num_tokens) × (1 ≤ length q.block_table)

query_end-le : (q : Sequence) → query_end q ≤ q.num_tokens
unfolding query_end
query_end-le q = elim (Bool-cases (ltb 0 q.num_tokens_to_process)) [
  | inl chunk ↦ rw chunk (omega arith)
  | inr none_planned ↦ rw none_planned (omega arith)
]

blocks_hold : (q : Sequence) → q.num_tokens ≤ Sequence.num_blocks q * 256
unfolding Sequence.num_blocks
blocks_hold q = omega arith

module _ (q : Sequence) (w : Whole q) where
  tokens_return :
      (n : ℕ) (a : PrefillInputs)
      → query_end q - query_begin q ≡ n
      → (b : PrefillInputs) × (push_tokens q 256 n (query_begin q) a ≡ ok b)
  tokens_return zero a e = (a, unfold push_tokens in refl)
  tokens_return (suc n) a e =
      let end = query_end-le q in
      let (b, run, ps, ts, ss) =
        push_tokens_lem q (suc n) (query_begin q) a (omega (arith, e, end, w.1))
          (omega (arith, e, end, blocks_hold q, w.2)) in
      (b, run)

  push_seq-Whole : (a : PrefillInputs) → (b : PrefillInputs) × (push_seq 256 a q ≡ ok b)
  unfolding push_seq
  push_seq-Whole a =
      let (b, run) = tokens_return (query_end q - query_begin q) a refl in
      let some_tokens : ltb 0 q.num_tokens ≡ true = ground (arith, w.0) in
      let full = eq→== (length q.block_table) (Sequence.num_blocks q) w.2 in
      rw (some_tokens, full, run) (_, refl)

push_seqs-Whole :
    (qs : List Sequence) (a : PrefillInputs)
    → AllSeqs Whole qs
    → (b : PrefillInputs) × (push_seqs 256 a qs ≡ ok b)
unfolding push_seqs
push_seqs-Whole [] a w = (a, refl)
push_seqs-Whole (q ∷ qs) a w =
    let (b, run) = push_seq-Whole q w.0 a in
    let (c, runs) = push_seqs-Whole qs b w.1 in (c, rw run runs)

some_seq-length : (qs : List Sequence) → 1 ≤ length qs → some_seq qs ≡ true
some_seq-length [] h = absurd (omega arith)
some_seq-length (q ∷ qs) h = refl

prepare_prefill-Whole :
    (qs : List Sequence)
    → 1 ≤ length qs
    → AllSeqs Whole qs
    → (i : PrefillInputs × Option (List ℕ)) × (prepare_prefill Sequence.block_size qs ≡ ok i)
unfolding prepare_prefill
prepare_prefill-Whole qs h w =
    let (a, run) = push_seqs-Whole qs no_inputs w in rw (some_seq-length qs h, run) (_, refl)

decode_slot-Started : (q : Sequence) → Started q → (slot : ℕ) × (decode_slot 256 q ≡ ok slot)
unfolding decode_slot
decode_slot-Started q h =
    let (id, e) = get_elem?-some q.block_table (length q.block_table - 1) (omega (arith, h)) in
    rw (last?-get q.block_table, e) (_, refl)

decode_arrays-Started :
    (qs : List Sequence) → AllSeqs Started qs → (a : DecodeInputs) × (decode_arrays 256 qs ≡ ok a)
unfolding decode_arrays
decode_arrays-Started [] h = (_, refl)
decode_arrays-Started (q ∷ qs) h =
    let (slot, e) = decode_slot-Started q h.0 in
    let (a, run) = decode_arrays-Started qs h.1 in
    let some_tokens : ltb 0 q.num_tokens ≡ true = ground (arith, h.0) in
    let some_blocks : ltb 0 (length q.block_table) ≡ true = ground (arith, h.0) in
    rw (some_tokens, some_blocks, e, run) (_, refl)

prepare_decode-Started :
    (qs : List Sequence)
    → 1 ≤ length qs
    → AllSeqs Started qs
    → (i : DecodeInputs × List ℕ × Option (List ℕ)) × (prepare_decode Sequence.block_size qs ≡ ok i)
unfolding prepare_decode
prepare_decode-Started qs h w =
    let (a, run) = decode_arrays-Started qs w in rw (some_seq-length qs h, run) (_, refl)

-- The preparation of a step returns for a batch.
abbrev pub Accepts : List Sequence → Bool → Type 0
Accepts qs true =
    (i : PrefillInputs × Option (List ℕ)) × (prepare_prefill Sequence.block_size qs ≡ ok i)
Accepts qs false =
    (i : DecodeInputs × List ℕ × Option (List ℕ)) × (prepare_decode Sequence.block_size qs ≡ ok i)

-- Whole sequences are accepted in a prefill, and sequences with a token and a block in a decode.
pub batch-Accepts :
    (qs : List Sequence) (is_prefill : Bool)
    → 1 ≤ length qs
    → AllSeqs Started qs
    → (is_prefill ≡ true → AllSeqs Whole qs)
    → Accepts qs is_prefill
batch-Accepts qs true h w v = prepare_prefill-Whole qs h (v refl)
batch-Accepts qs false h w v = prepare_decode-Started qs h w
