-- ===== src/Engine/Ends.antt =====
-- Without the chunked prefill every run of `generate_stream` ends.
use nano_vllm_cpp.Base.{
  ℕ, zero, suc, ◌+◌, ◌≤◌, ◌<◌, ◌≡◌, refl, sym, ◌∙◌, subst, List, [], ◌∷◌, Bool, true, false, Option,
  none, some, arith, length, get_elem?, Result, ok, Safe, Safe-bind, Safe-map, Safe-both, ok-same,
  Bool-cases, inl, inr,
}
use nano_vllm_cpp.Base.Counting.{count}
use nano_vllm_cpp.Sequence.{Sequence, SequenceStatus}
use nano_vllm_cpp.Scheduler
use nano_vllm_cpp.Scheduler.{Scheduler, Scheduled, schedule, postprocess, is_empty}
use nano_vllm_cpp.Scheduler.Invariant.{SchedInv, Placed, Fits}
use nano_vllm_cpp.Scheduler.Moves.{SameLimits, SameLimits-trans}
use nano_vllm_cpp.Scheduler.Work.{running_at}
use nano_vllm_cpp.Scheduler.Steps.{Done, schedule-Safe}
use nano_vllm_cpp.Scheduler.Postprocess.{postprocess_lem}
use nano_vllm_cpp.Scheduler.FramePrefill.{Prepared, schedule-Prepared}
use nano_vllm_cpp.Scheduler.Progress.{AllHaveRoom, tokens_left}
use nano_vllm_cpp.Scheduler.Advance.{scheduled-AllAdvanced}
use nano_vllm_cpp.Runner.Accepts.{Accepts}
use nano_vllm_cpp.Engine.{Engine, seqs_at, step}
use nano_vllm_cpp.Engine.Batches.{batch_lem}
use nano_vllm_cpp.Engine.Runs.{seqs_at_lem, step_tokens_lem, still_there}
use nano_vllm_cpp.Engine.Generate.{
  Generated, generate_step, generate_loop, generate_loop-over, generate_loop-more,
}

-- A state from which a run ends: the invariant holds, every sequence in a queue counts its tokens
-- and may still get one, and prompts are not chunked.
pub record Going (s : Scheduler) : Type 0 where
  pub inv : SchedInv s []
  pub rooms : AllHaveRoom s
  pub whole : s.enable_chunked_prefill ≡ false

-- From a state that satisfies the invariant, with prompts not chunked, and in which every sequence in
-- a queue counts its tokens and may still get one: a step of `schedule` meets no fault but a failed
-- `assert`, and if it returns, its sequences can be read, and `prepare_prefill` of them returns in a
-- prefill, `prepare_decode` in a decode.
pub schedule-Accepts :
    (xxh64 : List ℕ → ℕ) (s : Scheduler)
    → Going s
    → Safe
        (schedule xxh64 s)
        (λ r. (qs : List Sequence) × (seqs_at r.sched r.seqs ≡ ok qs) × Accepts qs r.is_prefill)
schedule-Accepts xxh64 s v =
    Safe-map (schedule xxh64 s)
      (Safe-both (schedule xxh64 s) (Done s) (Prepared s) (schedule-Safe xxh64 s v.inv)
        (schedule-Prepared xxh64 s v.inv v.whole))
      λ r d. let (qs, run, e, accepted) = batch_lem s r v.rooms d.1 in (qs, run, accepted)

postprocess-Going :
    (s : Scheduler) (r : Scheduled) (ts : List ℕ)
    → Going s
    → Prepared s r
    → SameLimits s r.sched
    → length r.seqs ≡ length ts
    → (s' : Scheduler) × (postprocess r.sched r.seqs ts ≡ ok s')
      × Going s'
      × (tokens_left s'.sequences < tokens_left s.sequences)
      × SameLimits r.sched s'
postprocess-Going s r ts v d limits e =
    let (s', run, a) = scheduled-AllAdvanced s r ts d limits v.rooms e in
    let (s₁, run₁, v₁, w₁, same₁) = postprocess_lem r.sched r.seqs ts d.inv d.within e in
    let same : s₁ ≡ s' = ok-same (postprocess r.sched r.seqs ts) s₁ s' run₁ run in
    (
      s',
      run,
      record {
        inv = subst (λ x. SchedInv x []) same v₁;
        rooms = a.rooms;
        whole = a.mode ∙ v.whole;
      },
      omega (arith, a.less, d.some_seqs),
      subst (λ x. SameLimits r.sched x) same same₁,
    )

module _ (xxh64 : List ℕ → ℕ) (run : List Sequence → Bool → Result (List ℕ))
    (run_total : (qs : List Sequence) (is_prefill : Bool)
      → Accepts qs is_prefill
      → (ts : List ℕ) × (run qs is_prefill ≡ ok ts) × (length ts ≡ length qs)) where
  -- If the model runner returns one token for each sequence of a batch that `prepare_prefill` or
  -- `prepare_decode` accepts, then a step from a state that satisfies the invariant, with prompts not
  -- chunked, and in which every sequence in a queue counts its tokens and may still get one, meets no
  -- fault but a failed `assert`: its batch is accepted. If it returns, the state is such a one again,
  -- the limits are the same, and fewer tokens are left.
  pub step-Going :
      (e : Engine)
      → Going e.scheduler
      → Safe (step xxh64 run e) (λ r.
        Going r.engine.scheduler
        × (tokens_left r.engine.scheduler.sequences < tokens_left e.scheduler.sequences)
        × SameLimits e.scheduler r.engine.scheduler)
  unfolding step
  step-Going e v =
      Safe-bind (schedule xxh64 e.scheduler) _ _ _
        (Safe-both (schedule xxh64 e.scheduler) (Done e.scheduler) (Prepared e.scheduler)
          (schedule-Safe xxh64 e.scheduler v.inv)
          (schedule-Prepared xxh64 e.scheduler v.inv v.whole))
        λ r d.
          let there : (k : ℕ)
              → 1 ≤ count k r.seqs
              → (q : Sequence) × (get_elem? r.sched.sequences k ≡ some q) =
            (λ k c.
              let (q, at, tokens, once) =
                running_at r.sched k d.1.inv (omega (arith, d.1.within k)) in
              (q, at)) in
          let (seqs, e₁, n₁, accepted) = batch_lem e.scheduler r v.rooms d.1 in
          let (ts, e₂, n₂) = run_total seqs r.is_prefill accepted in
          let (tokens, e₃) = step_tokens_lem seqs ts (omega arith) in
          let (s, e₄, going, fewer, same) =
            postprocess-Going e.scheduler r ts v d.1 d.0.same (omega arith) in
          let (after, e₅, n₅) =
            seqs_at_lem s r.seqs
              (λ k c. let (q, at) = there k c in still_there r.sched s same k q at) in
          rw (e₁, e₂, e₃, e₄, e₅) (going, fewer, SameLimits-trans d.0.same same)

-- Every sequence is finished.
abbrev pub AllFinished : Scheduler → Type 0
AllFinished s =
    (k : ℕ) (q : Sequence) → get_elem? s.sequences k ≡ some q → q.status ≡ SequenceStatus.finished

is_empty-count : (xs : List ℕ) (k : ℕ) → is_empty xs ≡ true → count k xs ≡ 0
unfolding count
is_empty-count [] k h = refl
is_empty-count (x ∷ xs) k h = cc

SchedInv-AllFinished :
    (s : Scheduler) → SchedInv s [] → Scheduler.is_finished s ≡ true → AllFinished s
unfolding Scheduler.is_finished count
SchedInv-AllFinished s v h k q at =
    by q.status
      (subst (λ o. Placed o (count k s.waiting) (count k s.running + count k [])) at (v.placed k)).1
  where
    w0 : count k s.waiting ≡ 0
    w0 = is_empty-count s.waiting k (ground arith)

    r0 : count k s.running ≡ 0
    r0 = is_empty-count s.running k (ground arith)

    by :
        (st : SequenceStatus)
        → Fits st q (count k s.waiting) (count k s.running + count k [])
        → st ≡ SequenceStatus.finished
    by SequenceStatus.waiting f = absurd (omega (arith, f.0, w0))
    by SequenceStatus.running f = absurd (omega (arith, f.1, r0))
    by SequenceStatus.finished f = refl

-- How a run of the loop ends.
abbrev pub Ended : Option Generated → Type 0
Ended none = ⊥
Ended (some g) = (Scheduler.is_finished g.engine.scheduler ≡ true) × AllFinished g.engine.scheduler

module _ (xxh64 : List ℕ → ℕ) (run : List Sequence → Bool → Result (List ℕ))
    (decode : List ℕ → List ℕ)
    (run_total : (qs : List Sequence) (is_prefill : Bool)
      → Accepts qs is_prefill
      → (ts : List ℕ) × (run qs is_prefill ≡ ok ts) × (length ts ≡ length qs)) where
  generate_step-Going :
      (streams : Bool) (g : Generated)
      → Going g.engine.scheduler
      → Safe (generate_step xxh64 run decode streams g) (λ g'.
        Going g'.engine.scheduler
        × (tokens_left g'.engine.scheduler.sequences < tokens_left g.engine.scheduler.sequences))
  unfolding generate_step
  generate_step-Going streams g v =
      Safe-bind (step xxh64 run g.engine) _ _ _ (step-Going xxh64 run run_total g.engine v)
        λ r d. (d.0, d.1)

  -- If the model runner returns one token for each sequence of a batch that `prepare_prefill` or
  -- `prepare_decode` accepts, then from a state that satisfies the invariant, with prompts not
  -- chunked, and in which every sequence in a queue counts its tokens and may still get one, with
  -- more fuel than all sequences together may get tokens, the loop of `generate_stream` meets no fault
  -- but a failed `assert`; if none fails, it returns before the fuel runs out, with nothing waiting or
  -- running and every sequence finished.
  pub generate_loop-Ended :
      (fuel : ℕ) (streams : Bool) (g : Generated)
      → Going g.engine.scheduler
      → tokens_left g.engine.scheduler.sequences < fuel
      → Safe (generate_loop xxh64 run decode fuel streams g) Ended
  generate_loop-Ended zero streams g v h = absurd (omega arith)
  generate_loop-Ended (suc fuel) streams g v h =
      elim (Bool-cases (Scheduler.is_finished g.engine.scheduler)) [
        | inl over ↦
            subst (λ r. Safe r Ended)
              (sym (generate_loop-over xxh64 run decode fuel streams g over))
              (over, SchedInv-AllFinished g.engine.scheduler v.inv over)
        | inr more ↦
            subst (λ r. Safe r Ended)
              (sym (generate_loop-more xxh64 run decode fuel streams g more))
              (Safe-bind (generate_step xxh64 run decode streams g) _ _ Ended
                (generate_step-Going streams g v)
                λ g' d. generate_loop-Ended fuel streams g' d.0 (omega (arith, d.1)))
      ]
