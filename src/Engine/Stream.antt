-- ===== src/Engine/Stream.antt =====
-- A run of `generate_stream` of a new engine ends, with fuel for the tokens that it may make.
use nano_vllm_cpp.Base.{
  ℕ, ◌+◌, ◌*◌, ◌≤◌, ◌<◌, ◌≡◌, refl, sym, subst, List, [], ◌∷◌, ◌++◌, Bool, false, Option, none,
  some, arith, length, get_elem?, Result, ok, Safe, Safe-bind, IfOk, IfOk-ok, Bool-cases, inl, inr,
  ltb, ltb→lt, ◌==◌,
}
use native.Mathlib.Nat.{suc-mul}
use nano_vllm_cpp.Base.Counting.{count, count-append}
use nano_vllm_cpp.Sequence
use nano_vllm_cpp.Sequence.{Sequence, SamplingParams}
use nano_vllm_cpp.Scheduler
use nano_vllm_cpp.Scheduler.{Scheduler, SchedulerConfig, add}
use nano_vllm_cpp.Scheduler.Invariant.{SchedInv}
use nano_vllm_cpp.Scheduler.Default.{new_scheduler-SchedInv, get_elem?-append}
use nano_vllm_cpp.Scheduler.Progress.{HasRoom, left, tokens_left}
use nano_vllm_cpp.Runner.Accepts.{Accepts}
use nano_vllm_cpp.Engine.{Engine, new_engine, add_request}
use nano_vllm_cpp.Engine.Runs.{add_request-SchedInv}
use nano_vllm_cpp.Engine.Ends.{Going, Ended, generate_loop-Ended}
use nano_vllm_cpp.Engine.Generate.{
  Generated, Output, Call, generate_loop, generate_stream, add_requests, outputs,
}

tokens_left-append :
    (xs : List Sequence) (q : Sequence) → tokens_left (xs ++ q ∷ []) ≡ tokens_left xs + left q
unfolding tokens_left
tokens_left-append [] q = omega arith
tokens_left-append (x ∷ xs) q = omega (arith, tokens_left-append xs q)

-- Prompts of at least one token each.
abbrev pub AllSome : List (List ℕ) → Type 0
AllSome [] = Unit
AllSome (tokens ∷ prompts) = (1 ≤ length tokens) × AllSome prompts

-- A request with at least one token that may get at least one more.
module _ (params : SamplingParams) (some_tokens : 1 ≤ params.max_tokens) where
  add_request-Going :
      (e : Engine) (tokens : List ℕ)
      → 1 ≤ length tokens
      → Going e.scheduler
      → Going (add_request e tokens params).scheduler
        × (tokens_left (add_request e tokens params).scheduler.sequences
            ≡ tokens_left e.scheduler.sequences + params.max_tokens)
  unfolding add_request Sequence.new_sequence add count
  add_request-Going e tokens h v =
      let s = e.scheduler in
      let q = (Sequence.new_sequence e.next_seq_id tokens params).0 in
      (
        record {
          inv = add_request-SchedInv e tokens params h v.inv;
          rooms = λ k n. elim (Bool-cases (length s.sequences == k)) [
            | inl new ↦
                let here : get_elem? (s.sequences ++ q ∷ []) k ≡ some q =
                  ground (arith, get_elem?-append s.sequences q k) in
                subst HasRoom (sym here) (omega arith, omega arith, refl)
            | inr old ↦
                let here : get_elem? (s.sequences ++ q ∷ []) k ≡ get_elem? s.sequences k =
                  ground (arith, get_elem?-append s.sequences q k) in
                subst HasRoom (sym here) (
                  v.rooms k (ground (arith, n, count-append k s.waiting (length s.sequences ∷ []))))
          ];
          whole = v.whole;
        },
        omega (arith, tokens_left-append s.sequences q),
      )

  add_requests-Going :
      (prompts : List (List ℕ)) (e : Engine)
      → AllSome prompts
      → Going e.scheduler
      → Going (add_requests e prompts params).scheduler
        × (tokens_left (add_requests e prompts params).scheduler.sequences
            ≡ tokens_left e.scheduler.sequences + length prompts * params.max_tokens)
  unfolding add_requests
  add_requests-Going [] e h v = (v, omega arith)
  add_requests-Going (tokens ∷ prompts) e h v =
      let first = add_request-Going e tokens h.0 v in
      let rest = add_requests-Going prompts (add_request e tokens params) h.1 first.0 in
      (rest.0, omega (arith, rest.1, first.1, suc-mul (length prompts) params.max_tokens))

-- The run has returned its outputs.
abbrev pub Returned : Option (List Output × List Call) → Type 0
Returned none = ⊥
Returned (some r) = Unit

module _ (xxh64 : List ℕ → ℕ) (run : List Sequence → Bool → Result (List ℕ))
    (decode : List ℕ → List ℕ)
    (run_total : (qs : List Sequence) (is_prefill : Bool)
      → Accepts qs is_prefill
      → (ts : List ℕ) × (run qs is_prefill ≡ ok ts) × (length ts ≡ length qs)) where
  generate_stream-Going :
      (fuel : ℕ) (streams : Bool) (e : Engine) (prompts : List (List ℕ)) (params : SamplingParams)
      → Going e.scheduler
      → 1 ≤ params.max_tokens
      → AllSome prompts
      → tokens_left e.scheduler.sequences + length prompts * params.max_tokens < fuel
      → Safe (generate_stream xxh64 run decode fuel streams e prompts params) Returned
  unfolding generate_stream
  generate_stream-Going fuel streams e prompts params v some_tokens some_prompts enough =
      let (going, all) = add_requests-Going params some_tokens prompts e some_prompts v in
      let start : Generated = record {
        engine = add_requests e prompts params;
        collected = [];
        calls = [];
      } in
      Safe-bind (generate_loop xxh64 run decode fuel streams start) _ Ended Returned
        (generate_loop-Ended xxh64 run decode run_total fuel streams start going
          (omega (arith, all, enough)))
        λ o. done o
    where
      done :
          (o : Option Generated)
          → Ended o
          → Safe
              (elim o [
                | none ↦ ok none
                | some g ↦ ok (some (outputs xxh64 run decode g.collected, g.calls))
              ])
              Returned
      done none h = h
      done (some g) h = tt

  new_engine-Going :
      (c : SchedulerConfig) (blocks tokenizer_eos : ℕ)
      → c.enable_chunked_prefill ≡ false
      → IfOk
          (new_engine c blocks tokenizer_eos)
          (λ e. Going e.scheduler × (tokens_left e.scheduler.sequences ≡ 0))
  unfolding new_engine Scheduler.new_scheduler count tokens_left
  new_engine-Going c blocks eos off =
      let c' : SchedulerConfig = record c { num_kvcache_blocks = blocks } in
      elim (Bool-cases (ltb 0 blocks)) [
        | inl some_blocks ↦
            let (s, e, v, w, r) = new_scheduler-SchedInv c' (ltb→lt 0 blocks some_blocks) in
            rw some_blocks (
              record {
                inv = subst (λ x. SchedInv x []) (ground arith) v;
                rooms = λ k n. absurd (omega (arith, n));
                whole = off;
              },
              refl,
            )
        | inr nothing ↦ rw nothing tt
      ]

  -- For a new engine that does not chunk prompts, if the model runner returns one token for each
  -- sequence of a batch that `prepare_prefill` or `prepare_decode` accepts: a call of `generate_stream` for prompts of at least one token each, and at least one
  -- token allowed to each, meets no fault but a failed `assert`, and if none fails it returns within
  -- as many steps as tokens are allowed to all prompts together, whatever tokens are sampled.
  pub generate_stream-Returned :
      (c : SchedulerConfig) (blocks tokenizer_eos : ℕ) (e : Engine) (fuel : ℕ) (streams : Bool)
      (prompts : List (List ℕ)) (params : SamplingParams)
      → new_engine c blocks tokenizer_eos ≡ ok e
      → c.enable_chunked_prefill ≡ false
      → 1 ≤ params.max_tokens
      → AllSome prompts
      → length prompts * params.max_tokens < fuel
      → Safe (generate_stream xxh64 run decode fuel streams e prompts params) Returned
  generate_stream-Returned c blocks eos e fuel streams prompts params made off allowed some_prompts
        enough =
      let start =
        IfOk-ok (new_engine c blocks eos)
          (λ (x : Engine). Going x.scheduler × (tokens_left x.scheduler.sequences ≡ 0)) e
          (new_engine-Going c blocks eos off) made in
      generate_stream-Going fuel streams e prompts params start.0 allowed some_prompts
        (omega (arith, start.1, enough))
