-- ===== src/Scheduler/Decode.antt =====
-- The decode loop of the scheduler, and a decode step.
use nano_vllm_cpp.Base.{
  ℕ, zero, suc, ◌+◌, ◌≤◌, ◌≡◌, refl, sym, ap, subst, ◌⊎◌, List, [], ◌∷◌, ◌++◌, Bool, true, false,
  not, arith, length, Bool-cases, inl, inr, Result, ok, err, Safe, Safe-bind, Safe-guard, guard,
  assertion, underflow, invalid, division, length-append, out_of_range, ◌>>=◌, ltb, ltb→lt,
  out_of_fuel,
}
use nano_vllm_cpp.Base.Counting.{count, count-append}
use nano_vllm_cpp.Sequence.{Sequence, SequenceStatus}
use nano_vllm_cpp.Scheduler.{
  Scheduler, Batch, Scheduled, make_room, decode_one, decode_loop, decode_step, is_empty,
}
use nano_vllm_cpp.Scheduler.Invariant.{SchedInv, running_seq}
use nano_vllm_cpp.Scheduler.Moves.{SameLimits, SameLimits-trans}
use nano_vllm_cpp.Scheduler.Room.{SameLimits-refl, SchedInv-move, Roomy, make_room_lem, same_t}
use nano_vllm_cpp.Scheduler.DecodeOne.{decode_one-Safe}

-- A batch within its limit.
pub record Decoding (b : Batch) : Type 0 where
  pub inv : SchedInv b.sched b.scheduled
  pub counted : b.num_seqs ≡ length b.scheduled
  pub bound : b.num_seqs ≤ b.sched.max_num_seqs

-- What the decode loop leaves: it ended by its test.
pub record Decoded (b c : Batch) : Type 0 where
  pub good : Decoding c
  pub same : SameLimits b.sched c.sched
  pub ended : (c.sched.running ≡ []) ⊎ (c.sched.max_num_seqs ≤ c.num_seqs)

module _ (xxh64 : List ℕ → ℕ) where
  abbrev pub one_more : Batch → Scheduler → ℕ → Batch
  one_more b s p = record b {
    sched = s;
    scheduled = b.scheduled ++ p ∷ [];
    num_seqs = b.num_seqs + 1;
  }

  pub decode_loop_stops :
      (fuel : ℕ) (b : Batch) → b.sched.running ≡ [] → decode_loop xxh64 fuel b ≡ ok b
  unfolding decode_loop
  decode_loop_stops zero b e = refl
  decode_loop_stops (suc fuel) b e = ground arith

  pub decode_loop_full :
      (fuel p : ℕ) (rest : List ℕ) (b : Batch)
      → b.sched.running ≡ p ∷ rest
      → ltb b.num_seqs b.sched.max_num_seqs ≡ false
      → decode_loop xxh64 (suc fuel) b ≡ ok b
  unfolding decode_loop
  decode_loop_full fuel p rest b e f = ground arith

  pub decode_loop_preempted :
      (fuel p : ℕ) (rest : List ℕ) (b : Batch) (s : Scheduler)
      → b.sched.running ≡ p ∷ rest
      → ltb b.num_seqs b.sched.max_num_seqs ≡ true
      → make_room (suc (length rest)) (record (b.sched) { running = rest }) p ≡ ok (s, true)
      → decode_loop xxh64 (suc fuel) b ≡ decode_loop xxh64 fuel (record b { sched = s })
  unfolding decode_loop
  decode_loop_preempted fuel p rest b s e f g = ground arith

  pub decode_loop_runs :
      (fuel p : ℕ) (rest : List ℕ) (b : Batch) (s : Scheduler)
      → b.sched.running ≡ p ∷ rest
      → ltb b.num_seqs b.sched.max_num_seqs ≡ true
      → make_room (suc (length rest)) (record (b.sched) { running = rest }) p ≡ ok (s, false)
      → decode_loop xxh64 (suc fuel) b
        ≡ (decode_one xxh64 s p >>= λ s'. decode_loop xxh64 fuel (one_more b s' p))
  unfolding decode_loop
  decode_loop_runs fuel p rest b s e f g = ground arith

  no_running : (xs : List ℕ) → length xs ≤ 0 → xs ≡ []
  no_running [] h = refl
  no_running (x ∷ xs) h = absurd (omega arith)

  Decoded-after :
      (b b' : Batch) (r : Result Batch)
      → SameLimits b.sched b'.sched
      → Safe r (Decoded b')
      → Safe r (Decoded b)
  Decoded-after b b' (ok c) e d = record {
    good = d.good;
    same = SameLimits-trans e d.same;
    ended = d.ended;
  }
  Decoded-after b b' (err assertion) e d = tt
  Decoded-after b b' (err out_of_range) e d = d
  Decoded-after b b' (err underflow) e d = d
  Decoded-after b b' (err invalid) e d = d
  Decoded-after b b' (err division) e d = d
  Decoded-after b b' (err out_of_fuel) e d = d

  module _ (fuel p : ℕ) (rest : List ℕ) (b : Batch) (e : b.sched.running ≡ p ∷ rest)
      (h : length rest ≤ fuel) (d : Decoding b) (more : ltb b.num_seqs b.sched.max_num_seqs ≡ true)
      (ih : (b' : Batch)
        → length b'.sched.running ≤ fuel
        → Decoding b'
        → Safe (decode_loop xxh64 fuel b') (Decoded b')) where
    abbrev popped : Scheduler
    popped = record (b.sched) { running = rest }

    popped-Inv : SchedInv popped (p ∷ b.scheduled)
    unfolding count
    popped-Inv = SchedInv-move refl refl refl (λ k. omega (arith, ap (λ xs. count k xs) e)) d.inv

    loop_preempted :
        (s : Scheduler)
        → Roomy (suc (length rest)) popped b.scheduled p s true
        → Safe (decode_loop xxh64 (suc fuel) b) (Decoded b)
    loop_preempted s r = rw (decode_loop_preempted fuel p rest b s e more r.makes) (
        Decoded-after b (record b { sched = s }) (decode_loop xxh64 fuel (record b { sched = s }))
          (same_t r.same)
          (ih (record b { sched = s }) (omega (arith, r.fewer))
            (record {
              inv = r.inv;
              counted = d.counted;
              bound = omega (arith, d.bound, r.same.seqs);
            })))

    loop_runs :
        (s : Scheduler)
        → Roomy (suc (length rest)) popped b.scheduled p s false
        → Safe (decode_loop xxh64 (suc fuel) b) (Decoded b)
    unfolding count
    loop_runs s r =
        let (q₀, at₀, tokens₀, w0, r1, held₀, st₀) = running_seq r.inv p (ground arith) in
        let (q, at, fits) = r.room refl in
        let same : q₀ ≡ q = ground arith in
        rw (decode_loop_runs fuel p rest b s e more r.makes) (
          Safe-bind (decode_one xxh64 s p) _ _ _
            (decode_one-Safe xxh64 s b.scheduled p r.inv q at
              (subst (λ (x : Sequence). 1 ≤ x.num_tokens) same tokens₀)
              (subst (λ (x : Sequence). 1 ≤ length x.block_table) same held₀) w0 r1
              (subst (λ (x : Sequence). x.status ≡ SequenceStatus.running) same st₀) fits)
            λ s' t.
              Decoded-after b (one_more b s' p) (decode_loop xxh64 fuel (one_more b s' p))
                (SameLimits-trans (same_t r.same) t.2)
                (ih (one_more b s' p) (omega (arith, r.fewer, ap (λ xs. length xs) t.1)) (record {
                  inv =
                      SchedInv-move refl refl refl
                        (λ k. omega (arith, count-append k b.scheduled (p ∷ []))) t.0;
                  counted = omega (arith, d.counted, length-append b.scheduled (p ∷ []));
                  bound = omega (arith, ltb→lt _ _ more, r.same.seqs, t.2.seqs);
                })))

    loop_round : Safe (decode_loop xxh64 (suc fuel) b) (Decoded b)
    loop_round =
        let (s, pre, r) =
          make_room_lem (suc (length rest)) popped b.scheduled p (omega arith) popped-Inv in
        by pre s r
      where
        by :
            (pre : Bool) (s : Scheduler)
            → Roomy (suc (length rest)) popped b.scheduled p s pre
            → Safe (decode_loop xxh64 (suc fuel) b) (Decoded b)
        by true s r = loop_preempted s r
        by false s r = loop_runs s r

  -- With fuel for the number of running sequences, from a batch that is within `max_num_seqs` and
  -- satisfies the invariant, the decode loop meets no fault but a failed `assert`, and none of its
  -- loops runs out of fuel. If it returns, the batch is still so, and the loop has ended by its own
  -- test: nothing is left in `running_`, or the batch is full.
  pub decode_loop-Safe :
      (fuel : ℕ) (b : Batch)
      → length b.sched.running ≤ fuel
      → Decoding b
      → Safe (decode_loop xxh64 fuel b) (Decoded b)
  decode_loop-Safe zero b h d =
      let e = no_running b.sched.running h in
      rw (decode_loop_stops zero b e)
        (record { good = d; same = SameLimits-refl b.sched; ended = inl e })
  decode_loop-Safe (suc fuel) b h d = from b.sched.running refl (decode_loop-Safe fuel)
    where
      from :
          (xs : List ℕ)
          → b.sched.running ≡ xs
          → ((b' : Batch)
              → length b'.sched.running ≤ fuel
              → Decoding b'
              → Safe (decode_loop xxh64 fuel b') (Decoded b'))
          → Safe (decode_loop xxh64 (suc fuel) b) (Decoded b)
      from [] e ih =
          rw (decode_loop_stops (suc fuel) b e)
            (record { good = d; same = SameLimits-refl b.sched; ended = inl e })
      from (p ∷ rest) e ih = elim (Bool-cases (ltb b.num_seqs b.sched.max_num_seqs)) [
        | inl more ↦ loop_round fuel p rest b e (omega (arith, ap (λ xs. length xs) e)) d more ih
        | inr full ↦
            rw (decode_loop_full fuel p rest b e full)
              (record { good = d; same = SameLimits-refl b.sched; ended = inr (ground arith) })
      ]

-- What a decode step leaves.
pub record StepDone (s : Scheduler) (r : Scheduled) : Type 0 where
  pub inv : SchedInv r.sched []
  pub some_seqs : 1 ≤ length r.seqs
  pub bound : length r.seqs ≤ s.max_num_seqs
  pub within : (k : ℕ) → count k r.seqs ≤ count k r.sched.running
  pub same : SameLimits s r.sched

nonempty : {A : Type 0} (xs : List A) → not (is_empty xs) ≡ true → 1 ≤ length xs
nonempty [] h = cc
nonempty (x ∷ xs) h = omega arith

-- A decode step of a batch in which nothing is scheduled yet meets no fault but failed `assert`s.
pub decode_step-Safe :
    (xxh64 : List ℕ → ℕ) (b : Batch)
    → b.scheduled ≡ []
    → b.num_seqs ≡ 0
    → SchedInv b.sched []
    → Safe (decode_step xxh64 b) (λ r. StepDone b.sched r × (r.is_prefill ≡ false))
unfolding decode_step count
decode_step-Safe xxh64 b e z v =
    Safe-bind (decode_loop xxh64 (length b.sched.running) b) _ _ _
      (decode_loop-Safe xxh64 (length b.sched.running) b (omega arith) (record {
        inv = subst (λ a. SchedInv b.sched a) (sym e) v;
        counted = omega (arith, ap (λ xs. length xs) e);
        bound = omega arith;
      }))
      λ c d.
        Safe-bind (guard (not (is_empty c.scheduled)) assertion) _ _ _ (Safe-guard _) λ _ some_seqs.
          (
            record {
              inv =
                  SchedInv-move refl refl refl
                    (λ k. omega (arith, count-append k c.scheduled c.sched.running)) d.good.inv;
              some_seqs = nonempty c.scheduled some_seqs;
              bound = omega (arith, d.good.counted, d.good.bound, d.same.seqs);
              within = λ k. omega (arith, count-append k c.scheduled c.sched.running);
              same = record {
                seqs = d.same.seqs;
                batched = d.same.batched;
                prefill = d.same.prefill;
                eos_token = d.same.eos_token;
                size = d.same.size;
                many = d.same.many;
              };
            },
            refl,
          )
