-- ===== src/Scheduler/FramePrefill.antt =====
-- What a step of `schedule_default` leaves alone, and that its sequences are ready for a token.
use nano_vllm_cpp.Base.{
  ℕ, ◌+◌, ◌≤◌, ◌≡◌, refl, ap, subst, sym, ◌⊎◌, inl, inr, List, [], ◌∷◌, true, false, not, Option,
  none, some, arith, length, get_elem?, ok, err, IfOk, IfOk-bind, IfOk-ok, IfOk-map, Option-cases,
  Bool-cases, guard, assertion, if◌then◌else◌, ltb, Result, Fault, out_of_range, Safe-IfOk,
  IfOk-both,
}
use native.Mathlib.Decide.{ℕ_discrete}
use nano_vllm_cpp.Base.Counting.{count, count-append}
use nano_vllm_cpp.Sequence.{Sequence}
use nano_vllm_cpp.Scheduler.{
  Scheduler, Scheduled, Batch, new_batch, blocked, admit, prefill_loop, decode_loop, decode_step,
  is_empty, schedule_default, schedule_chunked, schedule, is_finished,
}
use nano_vllm_cpp.Scheduler.Invariant.{SchedInv}
use nano_vllm_cpp.Scheduler.Prefill.{
  AllPlanned, Planned, round_full, round_stuck, round_admits, one_more,
}
use nano_vllm_cpp.Scheduler.Default.{DefaultDone, schedule_default-Safe}
use nano_vllm_cpp.Scheduler.Frame.{Keeps, Keeps-refl, Keeps-trans, admit-Keeps, num_at, chunk_at}
use nano_vllm_cpp.Scheduler.FrameDecode.{DecodeKeeps, decode_loop-Keeps}

abbrev BatchKeeps : Batch → Batch → Type 0
BatchKeeps b c = Keeps b.sched [] c.sched []

module _ (xxh64 : List ℕ → ℕ) where
  abbrev AdmitKeeps : Scheduler → List ℕ → Scheduler × Sequence → Type 0
  AdmitKeeps s rest r = Keeps s [] r.0 [] × (r.0.waiting ≡ rest)

  module _ (p : ℕ) (rest : List ℕ) (b : Batch) where
    round-fails :
        ltb b.num_seqs b.sched.max_num_seqs ≡ true
        → get_elem? b.sched.sequences p ≡ none
        → prefill_loop xxh64 (p ∷ rest) b ≡ err out_of_range
    unfolding prefill_loop
    round-fails more gone = ground arith

    round-admit_fails :
        (q : Sequence) (f : Fault)
        → get_elem? b.sched.sequences p ≡ some q
        → ltb b.num_seqs b.sched.max_num_seqs ≡ true
        → blocked b q ≡ false
        → admit xxh64 true b.sched p rest q ≡ err f
        → prefill_loop xxh64 (p ∷ rest) b ≡ err f
    unfolding prefill_loop
    round-admit_fails q f at more fits a = ground arith

    round-Keeps :
        (q : Sequence) (r : Result (Scheduler × Sequence))
        → b.sched.waiting ≡ p ∷ rest
        → get_elem? b.sched.sequences p ≡ some q
        → ltb b.num_seqs b.sched.max_num_seqs ≡ true
        → blocked b q ≡ false
        → admit xxh64 true b.sched p rest q ≡ r
        → ((b' : Batch)
            → b'.sched.waiting ≡ rest
            → IfOk (prefill_loop xxh64 rest b') (BatchKeeps b'))
        → IfOk (prefill_loop xxh64 (p ∷ rest) b) (BatchKeeps b)
    round-Keeps q (err f) front at more fits a ih =
        subst (λ r. IfOk r (BatchKeeps b)) (sym (round-admit_fails q f at more fits a)) tt
    round-Keeps q (ok (s, q')) front at more fits a ih =
        let kept =
          IfOk-ok (admit xxh64 true b.sched p rest q) (AdmitKeeps b.sched rest) (s, q')
            (admit-Keeps xxh64 true b.sched p rest q front at) a in
        subst (λ r. IfOk r (BatchKeeps b)) (sym (round_admits xxh64 p rest b q at more s q' fits a))
          (IfOk-map (prefill_loop xxh64 rest (one_more xxh64 b p s q'))
            (ih (one_more xxh64 b p s q') kept.1) λ c d. Keeps-trans kept.0 d)

  prefill_loop-Keeps :
      (waiting : List ℕ) (b : Batch)
      → b.sched.waiting ≡ waiting
      → IfOk (prefill_loop xxh64 waiting b) (BatchKeeps b)
  prefill_loop-Keeps [] b e = unfold prefill_loop in Keeps-refl b.sched []
  prefill_loop-Keeps (p ∷ rest) b e = elim (Bool-cases (ltb b.num_seqs b.sched.max_num_seqs)) [
    | inr full ↦
        subst (λ r. IfOk r (BatchKeeps b)) (sym (round_full xxh64 p rest b full))
          (Keeps-refl b.sched [])
    | inl more ↦ elim (Option-cases (get_elem? b.sched.sequences p)) [
      | inl gone ↦ subst (λ r. IfOk r (BatchKeeps b)) (sym (round-fails p rest b more gone)) tt
      | inr (q, at) ↦ elim (Bool-cases (blocked b q)) [
        | inl stuck ↦
            subst (λ r. IfOk r (BatchKeeps b)) (sym (round_stuck xxh64 p rest b q at more stuck))
              (Keeps-refl b.sched [])
        | inr fits ↦
            round-Keeps p rest b q (admit xxh64 true b.sched p rest q) e at more fits refl
              (prefill_loop-Keeps rest)
      ]
    ]
  ]

  -- What a step has done: in a decode, the scheduled sequences have no chunk.
  pub record StepKeeps (s : Scheduler) (r : Scheduled) : Type 0 where
    pub keeps : Keeps s [] r.sched []
    pub idle :
        r.is_prefill ≡ false
        → (k : ℕ) → 1 ≤ count k r.seqs
        → chunk_at (get_elem? r.sched.sequences k) ≡ 0

  decode_step-Keeps :
      (b : Batch) → b.scheduled ≡ [] → IfOk (decode_step xxh64 b) (StepKeeps b.sched)
  unfolding decode_step count
  decode_step-Keeps b nil =
      IfOk-bind (decode_loop xxh64 (length b.sched.running) b) _ (StepKeeps b.sched) λ c e.
        IfOk-bind (guard (not (is_empty c.scheduled)) assertion) _ (StepKeeps b.sched) λ u g.
          let d =
            IfOk-ok (decode_loop xxh64 (length b.sched.running) b) (DecodeKeeps b) c
              (decode_loop-Keeps xxh64 (length b.sched.running) b) e in
          record {
            keeps = record {
              budget = λ k. d.keeps.budget k;
              in_flight = λ k. omega (
                arith,
                d.keeps.in_flight k,
                count-append k c.scheduled c.sched.running,
                ap (λ xs. count k xs) nil,
              );
              mode = d.keeps.mode;
            };
            idle = λ f. d.idle (λ k n. absurd (omega (arith, ap (λ xs. count k xs) nil)));
          }

  schedule_default-Keeps : (s : Scheduler) → IfOk (schedule_default xxh64 s) (StepKeeps s)
  unfolding schedule_default
  schedule_default-Keeps s =
      IfOk-bind (prefill_loop xxh64 s.waiting (new_batch s)) _ (StepKeeps s) λ b e.
        let kept =
          IfOk-ok (prefill_loop xxh64 s.waiting (new_batch s)) (BatchKeeps (new_batch s)) b
            (prefill_loop-Keeps s.waiting (new_batch s) refl) e in
        by b kept b.scheduled refl
    where
      by :
          (b : Batch)
          → Keeps s [] b.sched []
          → (xs : List ℕ) → b.scheduled ≡ xs
          → IfOk
              (if is_empty xs
                then decode_step xxh64 b
                else ok (record { sched = b.sched; seqs = xs; is_prefill = true }))
              (StepKeeps s)
      by b kept [] e =
          IfOk-map (decode_step xxh64 b) (decode_step-Keeps b e)
            λ r d. record { keeps = Keeps-trans kept d.keeps; idle = d.idle }
      by b kept (x ∷ xs) e = record { keeps = kept; idle = λ f. cc }

-- Ready for a token: without a chunk, or with one that ends at its last token.
abbrev pub computed_at : Option Sequence → ℕ
computed_at none = 0
computed_at (some q) = q.num_computed_tokens

abbrev pub Ready : Option Sequence → Type 0
Ready o = (chunk_at o ≡ 0) ⊎ (computed_at o + chunk_at o ≡ num_at o)

AllPlanned-Ready :
    (s : Scheduler) (ps : List ℕ)
    → AllPlanned s ps
    → (k : ℕ) → 1 ≤ count k ps
    → Ready (get_elem? s.sequences k)
unfolding count
AllPlanned-Ready s [] a k n = absurd (omega arith)
AllPlanned-Ready s (p ∷ ps) a k n = elim (ℕ_discrete p k) [
  | yes e ↦ subst (λ j. Ready (get_elem? s.sequences j)) e (planned (get_elem? s.sequences p) a.0)
  | no ne ↦ AllPlanned-Ready s ps a.1 k (ground arith)
]
  where
    planned : (o : Option Sequence) → Planned o → Ready o
    planned none h = absurd h
    planned (some q) h = inr h.0

-- What a step of `schedule` leaves without the chunked prefill.
pub record Prepared (s : Scheduler) (r : Scheduled) : Type 0 where
  pub inv : SchedInv r.sched []
  pub some_seqs : 1 ≤ length r.seqs
  pub within : (k : ℕ) → count k r.seqs ≤ count k r.sched.running
  pub keeps : Keeps s [] r.sched []
  pub ready : (k : ℕ) → 1 ≤ count k r.seqs → Ready (get_elem? r.sched.sequences k)
  pub planned : r.is_prefill ≡ true → AllPlanned r.sched r.seqs

pub schedule-Prepared :
    (xxh64 : List ℕ → ℕ) (s : Scheduler)
    → SchedInv s []
    → s.enable_chunked_prefill ≡ false
    → IfOk (schedule xxh64 s) (Prepared s)
unfolding schedule
schedule-Prepared xxh64 s v off =
    IfOk-bind (guard (not (is_finished s)) assertion) _ (Prepared s) λ u g.
      subst
        (λ b. IfOk (if b then schedule_chunked xxh64 s else schedule_default xxh64 s) (Prepared s))
        (sym off)
        (IfOk-both (schedule_default xxh64 s) (DefaultDone s) (StepKeeps xxh64 s)
          (Safe-IfOk (schedule_default xxh64 s) (DefaultDone s) (schedule_default-Safe xxh64 s v))
          (schedule_default-Keeps xxh64 s)
          λ r d k. record {
            inv = d.step.inv;
            some_seqs = d.step.some_seqs;
            within = d.step.within;
            keeps = k.keeps;
            ready = ready_of r d k;
            planned = d.planned;
          })
  where
    ready_of :
        (r : Scheduled)
        → DefaultDone s r
        → StepKeeps xxh64 s r
        → (k : ℕ) → 1 ≤ count k r.seqs
        → Ready (get_elem? r.sched.sequences k)
    ready_of r d kept k n = elim (Bool-cases r.is_prefill) [
      | inl yes_prefill ↦ AllPlanned-Ready r.sched r.seqs (d.planned yes_prefill) k n
      | inr decode ↦ inl (kept.idle decode k n)
    ]
