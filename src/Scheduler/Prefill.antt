-- ===== src/Scheduler/Prefill.antt =====
-- The two admission loops: the prefill of `schedule_default`, and phase 1 of `schedule_chunked`.
use nano_vllm_cpp.Base.{
  ℕ, ◌+◌, ◌-◌, ◌≤◌, ◌≡◌, ◌≢◌, refl, sym, ◌∙◌, ap, subst, ◌⊎◌, List, [], ◌∷◌, ◌++◌, true, false,
  Option, none, some, arith, length, get_elem?, Bool-cases, inl, inr, ok, length-append, ltb,
  ltb→lt,
}
use mathlib.Core.List.{append-nil, append_assoc}
use nano_vllm_cpp.Base.Counting.{count, count-append}
use nano_vllm_cpp.Sequence
use nano_vllm_cpp.Sequence.{Sequence}
use nano_vllm_cpp.BlockManager
use nano_vllm_cpp.BlockManager.{BlockManager}
use nano_vllm_cpp.Scheduler.{Scheduler, Batch, blocked, admit, prefill_loop}
use nano_vllm_cpp.Scheduler.Invariant.{SchedInv, waiting_seq}
use nano_vllm_cpp.Scheduler.Moves.{SameLimits, SameLimits-trans, Admitted, admit_lem}
use nano_vllm_cpp.Scheduler.Room.{SameLimits-refl}

-- A sequence whose whole rest is processed in this step: at least one token, with a block for each
-- logical block.
abbrev pub Planned : Option Sequence → Type 0
Planned none = ⊥
Planned (some q) =
    (q.num_computed_tokens + q.num_tokens_to_process ≡ q.num_tokens)
    × (1 ≤ q.num_tokens_to_process)
    × (length q.block_table ≡ Sequence.num_blocks q)

abbrev pub AllPlanned : Scheduler → List ℕ → Type 0
AllPlanned s [] = Unit
AllPlanned s (p ∷ ps) = Planned (get_elem? s.sequences p) × AllPlanned s ps

-- What the prefill loop keeps.
pub record Prefilling (b : Batch) : Type 0 where
  pub inv : SchedInv b.sched []
  pub counted : b.num_seqs ≡ length b.scheduled
  pub seqs_bound : b.num_seqs ≤ b.sched.max_num_seqs
  pub tokens_bound : b.num_batched_tokens ≤ b.sched.max_num_batched_tokens
  pub at_back : (ps : List ℕ) × (b.sched.running ≡ ps ++ b.scheduled)
  pub planned : AllPlanned b.sched b.scheduled

-- Where the loop stops: nothing waits, the batch is full, or the front does not fit.
abbrev pub Stops : Batch → List ℕ → Type 0
Stops b [] = Unit
Stops b (p ∷ rest) =
    (b.sched.max_num_seqs ≤ b.num_seqs)
    ⊎ ((q : Sequence) × (get_elem? b.sched.sequences p ≡ some q) × (blocked b q ≡ true))

pub record Prefilled (b c : Batch) : Type 0 where
  pub good : Prefilling c
  pub same : SameLimits b.sched c.sched
  pub stops : Stops c c.sched.waiting
  pub in_order :
      (ps : List ℕ) × (b.sched.waiting ≡ ps ++ c.sched.waiting) × (c.scheduled ≡ b.scheduled ++ ps)

AllPlanned-keep :
    (s s' : Scheduler) (ps : List ℕ)
    → ((k : ℕ) → 1 ≤ count k ps → get_elem? s'.sequences k ≡ get_elem? s.sequences k)
    → AllPlanned s ps
    → AllPlanned s' ps
unfolding count
AllPlanned-keep s s' [] same a = tt
AllPlanned-keep s s' (p ∷ ps) same a = (
  subst Planned (sym (same p (ground arith))) a.0,
  AllPlanned-keep s s' ps (λ k h. same k (ground arith)) a.1,
)

AllPlanned-append :
    (s : Scheduler) (ps qs : List ℕ) → AllPlanned s ps → AllPlanned s qs → AllPlanned s (ps ++ qs)
AllPlanned-append s [] qs a b = b
AllPlanned-append s (p ∷ ps) qs a b = (a.0, AllPlanned-append s ps qs a.1 b)

blocked_no :
    (b : Batch) (q : Sequence)
    → blocked b q ≡ false
    → BlockManager.can_allocate b.sched.block_manager q ≡ true
unfolding blocked
blocked_no b q h = ground arith

module _ (xxh64 : List ℕ → ℕ) where
  abbrev pub one_more : Batch → ℕ → Scheduler → Sequence → Batch
  one_more b p s q' = record {
    sched = s;
    scheduled = b.scheduled ++ p ∷ [];
    num_seqs = b.num_seqs + 1;
    num_batched_tokens = b.num_batched_tokens + q'.num_tokens - q'.num_cached_tokens;
  }

  module _ (p : ℕ) (rest : List ℕ) (b : Batch) where
    pub round_full :
        ltb b.num_seqs b.sched.max_num_seqs ≡ false → prefill_loop xxh64 (p ∷ rest) b ≡ ok b
    unfolding prefill_loop
    round_full e = ground arith

    module _ (q : Sequence) (at : get_elem? b.sched.sequences p ≡ some q)
        (more : ltb b.num_seqs b.sched.max_num_seqs ≡ true) where
      pub round_stuck : blocked b q ≡ true → prefill_loop xxh64 (p ∷ rest) b ≡ ok b
      unfolding prefill_loop
      round_stuck e = ground arith

      pub round_admits :
          (s : Scheduler) (q' : Sequence)
          → blocked b q ≡ false
          → admit xxh64 true b.sched p rest q ≡ ok (s, q')
          → prefill_loop xxh64 (p ∷ rest) b ≡ prefill_loop xxh64 rest (one_more b p s q')
      unfolding prefill_loop
      round_admits s q' e a = ground arith

    module _ (v : Prefilling b) (front : b.sched.waiting ≡ p ∷ rest) where
      Admitted-Prefilling :
          (q q' : Sequence) (hits : ℕ) (s : Scheduler)
          → count p b.sched.running ≡ 0
          → get_elem? b.sched.sequences p ≡ some q
          → 1 ≤ q.num_tokens
          → ltb b.num_seqs b.sched.max_num_seqs ≡ true
          → blocked b q ≡ false
          → Admitted xxh64 true b.sched p rest q s q' hits
          → Prefilling (one_more b p s q')
      unfolding blocked count
      Admitted-Prefilling q q' hits s r0 at tokens more fits a = record {
        inv = a.inv;
        counted = omega (arith, v.counted, length-append b.scheduled (p ∷ []));
        seqs_bound = omega (arith, ltb→lt _ _ more, a.same.seqs);
        tokens_bound = ground (arith, a.same.batched, a.tokens_kept.0);
        at_back = (
          v.at_back.0,
          a.runs
              ∙ ap (λ xs. xs ++ p ∷ []) v.at_back.1
              ∙ append_assoc v.at_back.0 b.scheduled (p ∷ []),
        );
        planned =
            AllPlanned-append s b.scheduled (p ∷ [])
              (AllPlanned-keep b.sched s b.scheduled (λ k h. a.others k (not_scheduled k h))
                v.planned)
              (
                subst Planned (sym a.stored) (
                  ground (arith, a.computed, a.planned, a.tokens_kept.0),
                  ground (arith, a.computed, a.planned, a.tokens_kept.0),
                  a.table,
                ),
                tt,
              );
      }
        where
          not_scheduled : (k : ℕ) → 1 ≤ count k b.scheduled → p ≢ k
          not_scheduled k h same = absurd (
              ground (
                arith,
                ap (λ xs. count k xs) v.at_back.1,
                count-append k v.at_back.0 b.scheduled,
                ap (λ j. count j b.sched.running) same,
              ))

  Prefilled-after :
      (b : Batch) (p : ℕ) (rest : List ℕ) (s : Scheduler) (q q' : Sequence) (hits : ℕ)
      → b.sched.waiting ≡ p ∷ rest
      → Admitted xxh64 true b.sched p rest q s q' hits
      → (c : Batch) → Prefilled (one_more b p s q') c
      → Prefilled b c
  Prefilled-after b p rest s q q' hits front a c d = record {
    good = d.good;
    same = SameLimits-trans a.same d.same;
    stops = d.stops;
    in_order = (
      p ∷ d.in_order.0,
      front ∙ ap (λ xs. p ∷ xs) (sym a.waits ∙ d.in_order.1),
      d.in_order.2 ∙ append_assoc b.scheduled (p ∷ []) d.in_order.0,
    );
  }

  Prefilled-now : (b : Batch) → Prefilling b → Stops b b.sched.waiting → Prefilled b b
  Prefilled-now b v stop = record {
    good = v;
    same = SameLimits-refl b.sched;
    stops = stop;
    in_order = ([], refl, sym (append-nil b.scheduled));
  }

  -- The prefill loop of `schedule_default`, from a batch within the limits, returns. The batch is
  -- still within `max_num_seqs` and `max_num_batched_tokens`, the invariant holds, a front part of
  -- `waiting_` was scheduled in its order with the whole rest of each sequence planned, and the loop
  -- stopped because nothing waits, the batch is full, or the front is blocked.
  pub prefill_loop_lem :
      (waiting : List ℕ) (b : Batch)
      → b.sched.waiting ≡ waiting
      → Prefilling b
      → (c : Batch) × (prefill_loop xxh64 waiting b ≡ ok c) × Prefilled b c
  unfolding count
  prefill_loop_lem [] b e v =
      (b, unfold prefill_loop in refl, Prefilled-now b v (subst (Stops b) (sym e) tt))
  prefill_loop_lem (p ∷ rest) b e v =
      let (q, at, tokens, w1, r0, empty, no_cache, st) =
        waiting_seq v.inv p (ground (arith, ap (λ xs. count p xs) e)) in
      elim (Bool-cases (ltb b.num_seqs b.sched.max_num_seqs)) [
        | inl more ↦ elim (Bool-cases (blocked b q)) [
          | inl stuck ↦ (
            b,
            round_stuck p rest b q at more stuck,
            Prefilled-now b v (subst (Stops b) (sym e) (inr (q, at, stuck))),
          )
          | inr fits ↦
              let (s, q', hits, a) =
                admit_lem xxh64 true b.sched p rest q v.inv e at (blocked_no b q fits) in
              let (c, run, d) = prefill_loop_lem rest (one_more b p s q') a.waits (
                Admitted-Prefilling p rest b v e q q' hits s (omega arith) at tokens more fits a) in
              (
                c,
                round_admits p rest b q at more s q' fits a.admits ∙ run,
                Prefilled-after b p rest s q q' hits e a c d,
              )
        ]
        | inr full ↦ (
          b,
          round_full p rest b full,
          Prefilled-now b v (subst (Stops b) (sym e) (inl (ground arith))),
        )
      ]
