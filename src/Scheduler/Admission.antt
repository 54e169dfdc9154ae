-- ===== src/Scheduler/Admission.antt =====
-- Phase 1 of `schedule_chunked`: new sequences are admitted.
use nano_vllm_cpp.Base.{
  ℕ, ◌+◌, ◌-◌, ◌≤◌, ◌<◌, ◌≡◌, refl, ◌∙◌, ap, ◌⊎◌, List, [], ◌∷◌, true, false, some, arith, length,
  get_elem?, Bool-cases, inl, inr, ok, length-append, ltb, ltb→lt,
}
use nano_vllm_cpp.Base.Counting.{count}
use nano_vllm_cpp.Sequence.{Sequence}
use nano_vllm_cpp.BlockManager
use nano_vllm_cpp.BlockManager.{BlockManager}
use nano_vllm_cpp.Scheduler.{Scheduler, admit, admit_loop}
use nano_vllm_cpp.Scheduler.Invariant.{SchedInv, waiting_seq}
use nano_vllm_cpp.Scheduler.Moves.{SameLimits, SameLimits-trans, admit_lem}
use nano_vllm_cpp.Scheduler.Room.{SameLimits-refl}

bound_lem :
    (n r r₁ r' limit limit₁ : ℕ)
    → n + r < limit
    → r₁ ≡ r + 1
    → limit₁ ≡ limit
    → r₁ ≤ r'
    → (r' ≡ r₁) ⊎ (n + 1 + (r' - r₁) + r' ≤ limit₁ + 1)
    → n + (r' - r) + r' ≤ limit + 1
bound_lem n r r₁ r' limit limit₁ a b c d e = omega arith

module _ (xxh64 : List ℕ → ℕ) where
  module _ (p : ℕ) (rest : List ℕ) (s : Scheduler) (n : ℕ) where
    admit_full :
        ltb (n + length s.running) s.max_num_seqs ≡ false → admit_loop xxh64 (p ∷ rest) s n ≡ ok s
    unfolding admit_loop
    admit_full e = ground arith

    module _ (q : Sequence) (at : get_elem? s.sequences p ≡ some q)
        (more : ltb (n + length s.running) s.max_num_seqs ≡ true) where
      admit_stuck :
          BlockManager.can_allocate s.block_manager q ≡ false
          → admit_loop xxh64 (p ∷ rest) s n ≡ ok s
      unfolding admit_loop
      admit_stuck e = ground arith

      admit_goes :
          (s' : Scheduler) (q' : Sequence)
          → BlockManager.can_allocate s.block_manager q ≡ true
          → admit xxh64 false s p rest q ≡ ok (s', q')
          → admit_loop xxh64 (p ∷ rest) s n ≡ admit_loop xxh64 rest s' (n + 1)
      unfolding admit_loop
      admit_goes s' q' e a = ground arith

  -- From a state that satisfies the invariant, phase 1 of `schedule_chunked` returns and keeps the
  -- invariant and the limits. Its test counts an admitted sequence twice, in `num_seqs` and in
  -- `running_`: unless it admits none, the final `num_seqs` and the number then running are together
  -- at most `max_num_seqs + 1`.
  pub admit_loop_lem :
      (waiting : List ℕ) (s : Scheduler) (n : ℕ)
      → s.waiting ≡ waiting
      → SchedInv s []
      → (s' : Scheduler) × (admit_loop xxh64 waiting s n ≡ ok s')
        × SchedInv s' []
        × SameLimits s s'
        × (length s.running ≤ length s'.running)
        × ((length s'.running ≡ length s.running)
            ⊎ (n + (length s'.running - length s.running) + length s'.running ≤ s.max_num_seqs + 1))
  unfolding count
  admit_loop_lem [] s n e v =
      (s, unfold admit_loop in refl, v, SameLimits-refl s, omega arith, inl refl)
  admit_loop_lem (p ∷ rest) s n e v =
      let (q, at, tokens, w1, r0, empty, no_cache, st) =
        waiting_seq v p (ground (arith, ap (λ xs. count p xs) e)) in
      elim (Bool-cases (ltb (n + length s.running) s.max_num_seqs)) [
        | inl more ↦ elim (Bool-cases (BlockManager.can_allocate s.block_manager q)) [
          | inl fits ↦
              let (s₁, q', hits, a) = admit_lem xxh64 false s p rest q v e at fits in
              let (s', run, v', same, grew, bound) = admit_loop_lem rest s₁ (n + 1) a.waits a.inv in
              (
                s',
                admit_goes p rest s n q at more s₁ q' fits a.admits ∙ run,
                v',
                SameLimits-trans a.same same,
                omega (arith, ap (λ xs. length xs) a.runs, length-append s.running (p ∷ [])),
                inr (
                    bound_lem n (length s.running) (length s₁.running) (length s'.running)
                      s.max_num_seqs s₁.max_num_seqs (ltb→lt _ _ more)
                      (omega (arith, ap (λ xs. length xs) a.runs, length-append s.running (p ∷ [])))
                      a.same.seqs grew bound),
              )
          | inr stuck ↦ (
            s,
            admit_stuck p rest s n q at more stuck,
            v,
            SameLimits-refl s,
            omega arith,
            inl refl,
          )
        ]
        | inr full ↦ (s, admit_full p rest s n full, v, SameLimits-refl s, omega arith, inl refl)
      ]
