-- ===== src/Runner/Run.antt =====
-- src/engine/model_runner.cpp, `run`: from a batch to its tokens.
-- `forward` stands for the model on the device, by a captured graph or by `run_model`, and `sampler`
-- for the sampling kernels; the logits of a rank that has none are `none`.
use nano_vllm_cpp.Base.{
  ℕ, ◌≡◌, refl, List, [], ◌∷◌, Bool, true, false, not, ◌&&◌, Option, none, some, arith, length,
  Result, ok, ◌>>=◌, ltb, ◌==◌, ◌∙◌,
}
use nano_vllm_cpp.Sequence
use nano_vllm_cpp.Sequence.{Sequence}
use nano_vllm_cpp.Runner.{PrefillInputs, DecodeInputs, prepare_prefill, prepare_decode}
use nano_vllm_cpp.Runner.Samples.{SampleInputs, prepare_sample, temperatures_of}
use nano_vllm_cpp.Runner.Accepts.{Accepts}

-- The inputs and the context that the preparation sets.
pub data ModelInputs : Type 0 where
  prefill_inputs : PrefillInputs → Option (List ℕ) → ModelInputs
  decode_inputs : DecodeInputs → Option (List ℕ) → ModelInputs

unfoldable pub prepare : List Sequence → Bool → Result ModelInputs
prepare qs true = do
  (inputs, tables) ← prepare_prefill Sequence.block_size qs
  ok (prefill_inputs inputs tables)
prepare qs false = do
  (inputs, packed, tables) ← prepare_decode Sequence.block_size qs
  ok (decode_inputs inputs tables)

module _ {Logits : Type 0} (forward : ModelInputs → Result (Option Logits))
    (sampler : Logits → SampleInputs → Result (List ℕ)) (tensor_parallel_size rank : ℕ) where
  unfoldable pub run : List Sequence → Bool → Result (List ℕ)
  run [] is_prefill = ok []
  run (q ∷ qs) is_prefill = do
    inputs ← prepare (q ∷ qs) is_prefill
    let sample = prepare_sample (q ∷ qs)
    logits ← forward inputs
    elim (ltb 1 tensor_parallel_size && not (rank == 0)) [
      | true ↦ ok []
      | false ↦ elim logits [ none ↦ ok [] | some l ↦ sampler l sample ]
    ]

prepare-Accepts :
    (qs : List Sequence) (is_prefill : Bool)
    → Accepts qs is_prefill
    → (i : ModelInputs) × (prepare qs is_prefill ≡ ok i)
unfolding prepare
prepare-Accepts qs true (i, e) = rw e (_, refl)
prepare-Accepts qs false (i, e) = rw e (_, refl)

length-temperatures_of : (qs : List Sequence) → length (temperatures_of qs) ≡ length qs
unfolding temperatures_of
length-temperatures_of [] = refl
length-temperatures_of (q ∷ qs) = omega (arith, length-temperatures_of qs)

-- On the rank that samples, if the model makes logits of what was prepared and the sampler a token
-- for each temperature, then `run` returns one token for each sequence of a batch that is accepted.
pub run_lem :
    {Logits : Type 0} (forward : ModelInputs → Result (Option Logits))
    (sampler : Logits → SampleInputs → Result (List ℕ)) (tensor_parallel_size rank : ℕ)
    → (ltb 1 tensor_parallel_size && not (rank == 0)) ≡ false
    → ((i : ModelInputs) → (l : Logits) × (forward i ≡ ok (some l)))
    → ((l : Logits) (s : SampleInputs)
        → (ts : List ℕ) × (sampler l s ≡ ok ts) × (length ts ≡ length s.temperatures))
    → (qs : List Sequence) (is_prefill : Bool) → Accepts qs is_prefill
    → (ts : List ℕ) × (run forward sampler tensor_parallel_size rank qs is_prefill ≡ ok ts)
      × (length ts ≡ length qs)
unfolding run prepare_sample
run_lem forward sampler size rank samples made one_each [] is_prefill a = ([], refl, refl)
run_lem forward sampler size rank samples made one_each (q ∷ qs) is_prefill a =
    let (i, prepared) = prepare-Accepts (q ∷ qs) is_prefill a in
    let (l, e) = made i in
    let (ts, sampled, n) = one_each l (prepare_sample (q ∷ qs)) in
    (ts, rw (prepared, e, samples) sampled, n ∙ length-temperatures_of (q ∷ qs))
