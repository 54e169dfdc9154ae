-- ===== src/Engine/Runs.antt =====
-- What holds of an engine after any sequence of requests and steps.
use nano_vllm_cpp.Base.{
  ℕ, ◌≤◌, ◌≡◌, refl, List, [], ◌∷◌, Bool, ◌==◌, arith, length, Result, ok, err, assertion, IfOk,
  IfOk-bind, IfOk-ok, Safe-IfOk, get_elem?, some, Bool-cases, inl, inr, ltb, ltb→lt, get_elem?-some,
  get_elem?-lt,
}
use nano_vllm_cpp.Base.Counting.{count}
use nano_vllm_cpp.Sequence
use nano_vllm_cpp.Sequence.{Sequence, SamplingParams, SequenceStatus}
use nano_vllm_cpp.Scheduler
use nano_vllm_cpp.Scheduler.{Scheduler, SchedulerConfig, Scheduled, seq_at, is_empty, store}
use nano_vllm_cpp.Scheduler.Invariant.{SchedInv}
use nano_vllm_cpp.Scheduler.Moves.{SameLimits}
use nano_vllm_cpp.Scheduler.Default.{add-SchedInv, new_scheduler-SchedInv}
use nano_vllm_cpp.Scheduler.Steps.{Done, schedule-Safe}
use nano_vllm_cpp.Scheduler.Postprocess.{postprocess_lem}
use nano_vllm_cpp.Engine.{Engine, new_engine, add_request, seqs_at, step_tokens, StepResult, step}

-- A request with at least one token is taken in with the invariant kept.
pub add_request-SchedInv :
    (e : Engine) (tokens : List ℕ) (params : SamplingParams)
    → 1 ≤ length tokens
    → SchedInv e.scheduler []
    → SchedInv (add_request e tokens params).scheduler []
unfolding add_request Sequence.new_sequence
add_request-SchedInv e tokens params h v =
    add-SchedInv e.scheduler (Sequence.new_sequence e.next_seq_id tokens params).0 v
      (record { tokens = h; status = refl; table = refl; cached = refl })

pub seqs_at_lem :
    (s : Scheduler) (ps : List ℕ)
    → ((k : ℕ) → 1 ≤ count k ps → (q : Sequence) × (get_elem? s.sequences k ≡ some q))
    → (qs : List Sequence) × (seqs_at s ps ≡ ok qs) × (length qs ≡ length ps)
unfolding seqs_at count
seqs_at_lem s [] h = ([], refl, refl)
seqs_at_lem s (p ∷ ps) h =
    let (q, at) = h p (ground arith) in
    let (qs, run, e) = seqs_at_lem s ps (λ k c. h k (ground arith)) in
    (q ∷ qs, rw (at, run), omega (arith, e))

pub step_tokens_lem :
    (qs : List Sequence) (ts : List ℕ)
    → length qs ≡ length ts
    → (out : List (ℕ × ℕ)) × (step_tokens qs ts ≡ ok out)
unfolding step_tokens
step_tokens_lem [] ts e = ([], refl)
step_tokens_lem (q ∷ qs) [] e = absurd (omega arith)
step_tokens_lem (q ∷ qs) (t ∷ ts) e =
    let (out, run) = step_tokens_lem qs ts (omega arith) in ((q.seq_id, t) ∷ out, rw run)

pub still_there :
    (s s' : Scheduler)
    → SameLimits s s'
    → (k : ℕ) (q : Sequence) → get_elem? s.sequences k ≡ some q
    → (q' : Sequence) × (get_elem? s'.sequences k ≡ some q')
still_there s s' e k q at =
    get_elem?-some s'.sequences k (omega (arith, get_elem?-lt s.sequences k q at, e.many))

postprocess-IfOk :
    (s : Scheduler) (ps ts : List ℕ)
    → SchedInv s []
    → ((k : ℕ) → count k ps ≤ count k s.running)
    → IfOk (Scheduler.postprocess s ps ts) (λ s'. SchedInv s' [])
postprocess-IfOk s ps ts v within = elim (Bool-cases (length ps == length ts)) [
  | inl same ↦
      let (s', e, v', w, limits) = postprocess_lem s ps ts v within (ground arith) in rw e v'
  | inr differ ↦
      let stops : Scheduler.postprocess s ps ts ≡ err assertion =
        unfold Scheduler.postprocess in (rw differ) in
      rw stops tt
]

module _ (xxh64 : List ℕ → ℕ) (run : List Sequence → Bool → Result (List ℕ)) where
  -- A step that returns leaves a good state, whatever the model runner returned.
  step-IfOk :
      (e : Engine)
      → SchedInv e.scheduler []
      → IfOk (step xxh64 run e) (λ r. SchedInv r.engine.scheduler [])
  unfolding step
  step-IfOk e v = IfOk-bind (Scheduler.schedule xxh64 e.scheduler) _ _ λ d e₁.
      let done =
        IfOk-ok (Scheduler.schedule xxh64 e.scheduler) (Done e.scheduler) d
          (Safe-IfOk (Scheduler.schedule xxh64 e.scheduler) (Done e.scheduler)
            (schedule-Safe xxh64 e.scheduler v))
          e₁ in
      IfOk-bind (seqs_at d.sched d.seqs) _ _ λ seqs e₂.
        IfOk-bind (run seqs d.is_prefill) _ _ λ ts e₃.
          IfOk-bind (step_tokens seqs ts) _ _ λ tokens e₄.
            IfOk-bind (Scheduler.postprocess d.sched d.seqs ts) _ _ λ s e₅.
              IfOk-bind (seqs_at s d.seqs) _ _ λ after e₆.
                IfOk-ok (Scheduler.postprocess d.sched d.seqs ts) (λ x. SchedInv x []) s
                  (postprocess-IfOk d.sched d.seqs ts done.inv done.within) e₅

  -- The engines that requests of at least one token and completed steps reach.
  pub data Reach (start : Engine) : Engine → Type 0 where
    here : Reach start start
    request :
        {e : Engine}
        → Reach start e
        → (tokens : List ℕ) (params : SamplingParams) → 1 ≤ length tokens
        → Reach start (add_request e tokens params)
    stepped :
        {e : Engine}
        → Reach start e
        → (r : StepResult) → step xxh64 run e ≡ ok r
        → Reach start r.engine

  -- Whatever requests come and whatever the model returns, the state stays good.
  pub Reach-SchedInv :
      {start e : Engine} → SchedInv start.scheduler [] → Reach start e → SchedInv e.scheduler []
  Reach-SchedInv v here = v
  Reach-SchedInv v (request {e} r tokens params h) =
      add_request-SchedInv e tokens params h (Reach-SchedInv v r)
  Reach-SchedInv v (stepped {e} r s h) =
      IfOk-ok (step xxh64 run e) (λ x. SchedInv x.engine.scheduler []) s
        (step-IfOk e (Reach-SchedInv v r)) h

new_engine-IfOk :
    (c : SchedulerConfig) (blocks tokenizer_eos : ℕ)
    → IfOk (new_engine c blocks tokenizer_eos) (λ e. SchedInv e.scheduler [])
unfolding new_engine
new_engine-IfOk c blocks eos =
    let c' : SchedulerConfig = record c { num_kvcache_blocks = blocks } in
    elim (Bool-cases (ltb 0 blocks)) [
      | inl some_blocks ↦
          let (s, e, v, w, r) = new_scheduler-SchedInv c' (ltb→lt 0 blocks some_blocks) in rw e v
      | inr nothing ↦
          let stops : Scheduler.new_scheduler c' ≡ err assertion =
            unfold Scheduler.new_scheduler in (rw nothing) in
          rw stops tt
    ]

-- In every engine that is reached from a constructed one by requests of at least one token and by
-- completed steps, in any order and whatever the model runner returns, the invariant of the
-- scheduler holds: reference counts are the numbers of holders, free and used ids split the blocks,
-- and each sequence stands in the queue that its status names.
pub new_engine-Reach :
    (xxh64 : List ℕ → ℕ) (run : List Sequence → Bool → Result (List ℕ)) (c : SchedulerConfig)
    (blocks tokenizer_eos : ℕ) (start e : Engine)
    → new_engine c blocks tokenizer_eos ≡ ok start
    → Reach xxh64 run start e
    → SchedInv e.scheduler []
new_engine-Reach xxh64 run c blocks eos start e made r =
    Reach-SchedInv xxh64 run
      (IfOk-ok (new_engine c blocks eos) (λ x. SchedInv x.scheduler []) start
        (new_engine-IfOk c blocks eos) made)
      r
