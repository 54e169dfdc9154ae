-- ===== src/Runner/Prefill.antt =====
-- The arrays that a prefill gets from one sequence.
use mathlib.Core.List.{append_assoc, append-nil}
use nano_vllm_cpp.Base.{
  ℕ, zero, suc, ◌+◌, ◌*◌, ◌/◌, ◌%◌, ◌≤◌, ◌<◌, ◌≡◌, refl, sym, ◌∙◌, [], ◌∷◌, ◌++◌, some, arith,
  length, get_elem?, get_elem?-some, ok, length-append,
}
use nano_vllm_cpp.Sequence.{Sequence}
use nano_vllm_cpp.BlockManager.{ids_from}
use nano_vllm_cpp.Runner.{PrefillInputs, push_tokens, slot_of}

abbrev pushed : PrefillInputs → ℕ → ℕ → ℕ → PrefillInputs
pushed a t i slot = record a {
  input_ids = a.input_ids ++ t ∷ [];
  positions = a.positions ++ i ∷ [];
  slot_mapping = a.slot_mapping ++ slot ∷ [];
}

slot_at :
    (q : Sequence) (i : ℕ)
    → i < length q.block_table * 256
    → (slot : ℕ) × (slot_of q 256 i ≡ ok slot)
unfolding slot_of
slot_at q i h =
    let (id, e) = get_elem?-some q.block_table (i / 256) (omega arith) in
    (id * 256 + i % 256, rw e refl)

push_token :
    (q : Sequence) (n i t slot : ℕ) (a : PrefillInputs)
    → get_elem? q.token_ids i ≡ some t
    → slot_of q 256 i ≡ ok slot
    → push_tokens q 256 (suc n) i a ≡ push_tokens q 256 n (i + 1) (pushed a t i slot)
unfolding push_tokens
push_token q n i t slot a e f = rw (e, f) refl

-- For `n` positions from `i` on that are within the tokens and the blocks of the sequence, the loop
-- over the tokens returns. It appends the positions `i` up to `i + n - 1` in order, and as many
-- tokens and slots.
pub push_tokens_lem :
    (q : Sequence) (n i : ℕ) (a : PrefillInputs)
    → i + n ≤ length q.token_ids
    → i + n ≤ length q.block_table * 256
    → (b : PrefillInputs) × (push_tokens q 256 n i a ≡ ok b)
      × (b.positions ≡ a.positions ++ ids_from i n)
      × (length b.input_ids ≡ length a.input_ids + n)
      × (length b.slot_mapping ≡ length a.slot_mapping + n)
unfolding ids_from
push_tokens_lem q zero i a h k =
    (a, unfold push_tokens in refl, sym (append-nil a.positions), omega arith, omega arith)
push_tokens_lem q (suc n) i a h k =
    let (t, e) = get_elem?-some q.token_ids i (omega arith) in
    let (slot, f) = slot_at q i (omega arith) in
    let (b, run, ps, ts, ss) =
      push_tokens_lem q n (i + 1) (pushed a t i slot) (omega arith) (omega arith) in
    (
      b,
      push_token q n i t slot a e f ∙ run,
      ps ∙ append_assoc a.positions (i ∷ []) (ids_from (i + 1) n),
      omega (arith, ts, length-append a.input_ids (t ∷ [])),
      omega (arith, ss, length-append a.slot_mapping (slot ∷ [])),
    )
