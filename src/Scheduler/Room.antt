-- ===== src/Scheduler/Room.antt =====
-- The preemptions by which the decode loop makes room for one more token.
use nano_vllm_cpp.Base.{
  ℕ, zero, suc, ◌+◌, ◌≤◌, ◌<◌, ◌≡◌, refl, sym, ◌∙◌, ap, subst, List, [], ◌∷◌, Bool, true, false,
  none, some, arith, length, get_elem?, ◌==◌, if◌then◌else◌, Option-cases, Bool-cases, inl, inr, ok,
  last?, pop_back,
}
use nano_vllm_cpp.Base.Counting.{one_if, count}
use nano_vllm_cpp.Sequence.{Sequence}
use nano_vllm_cpp.BlockManager
use nano_vllm_cpp.BlockManager.{BlockManager}
use nano_vllm_cpp.BlockManager.Invariant.{Inv}
use nano_vllm_cpp.Scheduler.{Scheduler, preempt, make_room}
use nano_vllm_cpp.Scheduler.Invariant.{total_holders, SchedInv, Placed, running_seq}
use nano_vllm_cpp.Scheduler.Moves.{SameLimits, SameLimits-trans, preempt_lem}

pub SameLimits-refl : (s : Scheduler) → SameLimits s s
SameLimits-refl s = record {
  seqs = refl;
  batched = refl;
  prefill = refl;
  eos_token = refl;
  size = refl;
  many = refl;
}

-- What is held aside or running, in another order or another split.
pub SchedInv-move :
    {s s' : Scheduler} {aside aside' : List ℕ}
    → s'.block_manager ≡ s.block_manager
    → s'.sequences ≡ s.sequences
    → s'.waiting ≡ s.waiting
    → ((k : ℕ) → count k s'.running + count k aside' ≡ count k s.running + count k aside)
    → SchedInv s aside
    → SchedInv s' aside'
SchedInv-move {s} {s'} {aside} {aside'} em es ew er v = record {
  blocks =
      subst (λ m. Inv m (total_holders s'.sequences)) (sym em)
        (subst (λ qs. Inv s.block_manager (total_holders qs)) (sym es) v.blocks);
  placed = λ k.
      subst
        (λ qs. Placed (get_elem? qs k) (count k s'.waiting) (count k s'.running + count k aside'))
        (sym es)
        (subst
          (λ w. Placed (get_elem? s.sequences k) (count k w) (count k s'.running + count k aside'))
          (sym ew)
          (subst (λ r. Placed (get_elem? s.sequences k) (count k s.waiting) r) (sym (er k))
            (v.placed k)));
}

pub pop_back-last :
    (xs : List ℕ) (x k : ℕ)
    → last? xs ≡ some x
    → count k xs ≡ count k (pop_back xs) + one_if (x == k)
unfolding count
pop_back-last [] x k h = cc
pop_back-last (y ∷ []) x k h = ground arith
pop_back-last (y ∷ z ∷ xs) x k h = omega (arith, pop_back-last (z ∷ xs) x k h)

length-pop_back : (xs : List ℕ) (x : ℕ) → last? xs ≡ some x → length (pop_back xs) + 1 ≡ length xs
length-pop_back [] x h = cc
length-pop_back (y ∷ []) x h = omega arith
length-pop_back (y ∷ z ∷ xs) x h = omega (arith, length-pop_back (z ∷ xs) x h)

-- What the loop that makes room for `p` leaves.
pub record Roomy (fuel : ℕ) (s : Scheduler) (aside : List ℕ) (p : ℕ) (s' : Scheduler)
    (was_preempted : Bool) : Type 0 where
  pub makes : make_room fuel s p ≡ ok (s', was_preempted)
  pub inv : SchedInv s' (if was_preempted then aside else p ∷ aside)
  pub fewer : length s'.running ≤ length s.running
  pub same : SameLimits s s'
  pub room :
      was_preempted ≡ false
      → (q : Sequence) × (get_elem? s'.sequences p ≡ some q)
        × (BlockManager.can_append s'.block_manager q ≡ true)

-- Limits are read past a change of the queues.
pub same_t :
    {s s' : Scheduler} {running : List ℕ}
    → SameLimits (record s { running = running }) s'
    → SameLimits s s'
same_t a = record {
  seqs = a.seqs;
  batched = a.batched;
  prefill = a.prefill;
  eos_token = a.eos_token;
  size = a.size;
  many = a.many;
}

module _ (fuel : ℕ) (s : Scheduler) (p : ℕ) (q : Sequence)
    (at : get_elem? s.sequences p ≡ some q) where
  pub make_room_fits :
      BlockManager.can_append s.block_manager q ≡ true → make_room (suc fuel) s p ≡ ok (s, false)
  unfolding make_room
  make_room_fits fits = ground arith

  make_room_alone :
      (s' : Scheduler)
      → BlockManager.can_append s.block_manager q ≡ false
      → last? s.running ≡ none
      → preempt s p ≡ ok s'
      → make_room (suc fuel) s p ≡ ok (s', true)
  unfolding make_room
  make_room_alone s' full nobody gone = ground arith

  make_room_evict :
      (victim : ℕ) (s₁ : Scheduler)
      → BlockManager.can_append s.block_manager q ≡ false
      → last? s.running ≡ some victim
      → preempt (record s { running = pop_back s.running }) victim ≡ ok s₁
      → make_room (suc fuel) s p ≡ make_room fuel s₁ p
  unfolding make_room
  make_room_evict victim s₁ full last gone = ground arith

-- For a running sequence that is held aside, with fuel for more rounds than `running_` has entries,
-- the preemption loop of the decode step returns. Either the sequence was preempted itself, or it is
-- still held aside and `can_append` says yes; the invariant and the limits are kept, and `running_`
-- does not grow.
pub make_room_lem :
    (fuel : ℕ) (s : Scheduler) (aside : List ℕ) (p : ℕ)
    → length s.running < fuel
    → SchedInv s (p ∷ aside)
    → (s' : Scheduler) × (was_preempted : Bool) × Roomy fuel s aside p s' was_preempted
unfolding count
make_room_lem zero s aside p h v = absurd (omega arith)
make_room_lem (suc fuel) s aside p h v =
    let (q, at, tokens, w0, r1, held, running) = running_seq v p (ground arith) in
    elim (Bool-cases (BlockManager.can_append s.block_manager q)) [
      | inl fits ↦ (
        s,
        false,
        record {
          makes = make_room_fits fuel s p q at fits;
          inv = v;
          fewer = omega arith;
          same = SameLimits-refl s;
          room = λ _. (q, at, fits);
        },
      )
      | inr full ↦ elim (Option-cases (last? s.running)) [
        | inl nobody ↦
            let (s', d) = preempt_lem s aside p v in
            (
              s',
              true,
              record {
                makes = make_room_alone fuel s p q at s' full nobody d.preempts;
                inv = d.inv;
                fewer = omega (arith, ap (λ xs. length xs) d.runs);
                same = d.same;
                room = λ f. cc;
              },
            )
        | inr (victim, e) ↦
            let t : Scheduler = record s { running = pop_back s.running } in
            let vt : SchedInv t (victim ∷ p ∷ aside) =
              SchedInv-move refl refl refl (λ k. omega (arith, pop_back-last s.running victim k e))
                v in
            let (s₁, d) = preempt_lem t (p ∷ aside) victim vt in
            let shorter = length-pop_back s.running victim e in
            let (s', pre, r) =
              make_room_lem fuel s₁ aside p (omega (arith, shorter, ap (λ xs. length xs) d.runs))
                d.inv in
            (
              s',
              pre,
              record {
                makes = make_room_evict fuel s p q at victim s₁ full e d.preempts ∙ r.makes;
                inv = r.inv;
                fewer = omega (arith, r.fewer, shorter, ap (λ xs. length xs) d.runs);
                same = SameLimits-trans (same_t d.same) r.same;
                room = r.room;
              },
            )
      ]
    ]
