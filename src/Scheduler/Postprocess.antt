-- ===== src/Scheduler/Postprocess.antt =====
-- `postprocess`: the sampled tokens are taken in, and sequences finish.
use nano_vllm_cpp.Base.{
  ℕ, ◌+◌, ◌≤◌, ◌≡◌, ◌≢◌, refl, sym, ◌∙◌, ap, subst, List, [], ◌∷◌, Bool, true, not, ◌&&◌, ◌||◌,
  some, arith, length, get_elem?, set, ◌==◌, Bool-cases, inl, inr, ok, length-set, ltb,
}
use native.Mathlib.Decide.{ℕ_discrete}
use nano_vllm_cpp.Base.Counting.{count, erase, count-erase}
use nano_vllm_cpp.Sequence
use nano_vllm_cpp.Sequence.{Sequence, SequenceStatus}
use nano_vllm_cpp.BlockManager.{BlockManager}
use nano_vllm_cpp.BlockManager.Invariant.{Inv, Inv-cong}
use nano_vllm_cpp.BlockManager.Release.{deallocate_lem}
use nano_vllm_cpp.Scheduler.{
  Scheduler, store, finish_token, postprocess_one, postprocess_all, postprocess,
}
use nano_vllm_cpp.Scheduler.Invariant.{
  SchedInv, Fits, split_holders, join_holders, same_holders, rest_of, running_seq,
}
use nano_vllm_cpp.Scheduler.Moves.{SameLimits, SameLimits-trans, Placed-after}
use nano_vllm_cpp.Scheduler.Room.{SameLimits-refl}

-- The test by which a sequence finishes after the token is appended.
abbrev pub ends : Scheduler → Sequence → ℕ → Bool
ends s q token_id =
    (not q.ignore_eos && token_id == s.eos)
    || Sequence.num_completion_tokens (Sequence.append_token q token_id) == q.max_tokens

pub record Posted (s : Scheduler) (p : ℕ) (s' : Scheduler) : Type 0 where
  pub inv : SchedInv s' []
  pub waits : s'.waiting ≡ s.waiting
  pub kept : (k : ℕ) → p ≢ k → count k s'.running ≡ count k s.running
  pub same : SameLimits s s'

module _ (s : Scheduler) (p : ℕ) (v : SchedInv s []) (q : Sequence)
    (at : get_elem? s.sequences p ≡ some q) (tokens : 1 ≤ q.num_tokens) (w0 : count p s.waiting ≡ 0)
    (r1 : count p s.running + count p [] ≡ 1) (held : 1 ≤ length q.block_table)
    (st : q.status ≡ SequenceStatus.running) where
  -- A write that keeps the table and the status.
  store-Posted :
      (q' : Sequence)
      → q'.block_table ≡ q.block_table
      → q'.status ≡ q.status
      → 1 ≤ q'.num_tokens
      → Posted s p (store s p q')
  store-Posted q' et es tokens' = record {
    inv = record {
      blocks = same_holders s.sequences p q q' at et v.blocks;
      placed =
          Placed-after s p q q' at [] [] s.waiting s.running v
            (
              tokens',
              subst (λ x. Fits x q' (count p s.waiting) (count p s.running + count p []))
                  (sym (es ∙ st)) (w0, r1, omega (arith, held, ap (λ xs. length xs) et)),
            )
            (λ k ne. (refl, refl));
    };
    waits = refl;
    kept = λ k ne. refl;
    same = record {
      seqs = refl;
      batched = refl;
      prefill = refl;
      eos_token = refl;
      size = refl;
      many = length-set s.sequences p q';
    };
  }

  abbrev done_seq : Sequence → Sequence
  done_seq x = record x {
    status = SequenceStatus.finished;
    num_cached_tokens = 0;
    block_table = [];
  }

  -- A sequence that finishes gives up its blocks and leaves `running_`.
  finished-Posted :
      (q' : Sequence) (m : BlockManager)
      → 1 ≤ q'.num_tokens
      → Inv m (rest_of s.sequences q)
      → m.block_size ≡ s.block_manager.block_size
      → Posted s p (record s {
        block_manager = m;
        sequences = set s.sequences p (done_seq q');
        running = erase p s.running;
      })
  unfolding count
  finished-Posted q' m tokens' w size = record {
    inv = record {
      blocks = join_holders s.sequences p q (done_seq q') at (Inv-cong (λ b. omega arith) w);
      placed =
          Placed-after s p q (done_seq q') at [] [] s.waiting (erase p s.running) v
            (tokens', (w0, ground (arith, count-erase p p s.running), refl, refl))
            (λ k ne. (refl, ground (arith, count-erase k p s.running)));
    };
    waits = refl;
    kept = λ k ne. ground (arith, count-erase k p s.running);
    same = record {
      seqs = refl;
      batched = refl;
      prefill = refl;
      eos_token = refl;
      size = size;
      many = length-set s.sequences p (done_seq q');
    };
  }

  finish_token_lem :
      (q₁ : Sequence) (t : ℕ)
      → q₁.block_table ≡ q.block_table
      → q₁.status ≡ q.status
      → (s' : Scheduler) × (finish_token s p q₁ t ≡ ok s') × Posted s p s'
  unfolding finish_token Sequence.append_token
  finish_token_lem q₁ t et es = elim (Bool-cases (ends s q₁ t)) [
    | inl over ↦
        let q' = record (Sequence.append_token q₁ t) { status = SequenceStatus.finished } in
        let (m, e, w, room, size) = deallocate_lem s.block_manager q' (rest_of s.sequences q) (
          Inv-cong (λ b. omega (arith, ap (λ xs. count b xs) et))
            (split_holders s.sequences p q at v.blocks)) in
        (
          record s {
            block_manager = m;
            sequences = set s.sequences p (done_seq q');
            running = erase p s.running;
          },
          rw (over, e),
          finished-Posted q' m (omega arith) w size,
        )
    | inr goes_on ↦
        let q' = Sequence.append_token q₁ t in
        (store s p q', rw goes_on, store-Posted q' et es (omega arith))
  ]

  pub one_lem : (t : ℕ) → (s' : Scheduler) × (postprocess_one s p t ≡ ok s') × Posted s p s'
  unfolding postprocess_one
  one_lem t =
      let new = q.num_computed_tokens + q.num_tokens_to_process in
      let q' = record q { num_computed_tokens = new; num_tokens_to_process = 0 } in
      elim (Bool-cases (ltb 0 q.num_tokens_to_process)) [
        | inl prefilling ↦ elim (Bool-cases (new == q.num_tokens)) [
          | inl last ↦
              let (s', e, d) = finish_token_lem q' t refl refl in
              (s', rw (at, prefilling, last) e, d)
          | inr more ↦ (store s p q', rw (at, prefilling, more), store-Posted q' refl refl tokens)
        ]
        | inr decoding ↦
            let (s', e, d) = finish_token_lem q t refl refl in (s', rw (at, decoding) e, d)
      ]

pub still_within :
    (s s' : Scheduler) (p : ℕ) (ps : List ℕ)
    → ((k : ℕ) → count k (p ∷ ps) ≤ count k s.running)
    → count p s.running + count p [] ≡ 1
    → Posted s p s'
    → (k : ℕ) → count k ps ≤ count k s'.running
unfolding count
still_within s s' p ps within r1 d k = elim (ℕ_discrete p k) [
  | yes e ↦ subst (λ j. count j ps ≤ count j s'.running) e (ground (arith, within p))
  | no ne ↦ ground (arith, within k, d.kept k ne)
]

-- `postprocess` of running sequences, each at most once, with one token for each, meets no fault
-- and keeps the invariant; `waiting_` is as it was.
pub postprocess_all_lem :
    (ps ts : List ℕ) (s : Scheduler)
    → SchedInv s []
    → ((k : ℕ) → count k ps ≤ count k s.running)
    → length ps ≡ length ts
    → (s' : Scheduler) × (postprocess_all s ps ts ≡ ok s')
      × SchedInv s' []
      × (s'.waiting ≡ s.waiting)
      × SameLimits s s'
unfolding postprocess_all count
postprocess_all_lem [] ts s v within e = (s, refl, v, refl, SameLimits-refl s)
postprocess_all_lem (p ∷ ps) [] s v within e = absurd (omega arith)
postprocess_all_lem (p ∷ ps) (t ∷ ts) s v within e =
    let (q, at, tokens, w0, r1, held, st) = running_seq v p (ground (arith, within p)) in
    let (s₁, run, d) = one_lem s p v q at tokens w0 r1 held st t in
    let (s', runs, v', w, same) =
      postprocess_all_lem ps ts s₁ d.inv (still_within s s₁ p ps within r1 d) (omega arith) in
    (s', rw run runs, v', w ∙ d.waits, SameLimits-trans d.same same)

-- `postprocess` of running sequences, each at most once, with one token for each, returns. It keeps
-- the invariant and the limits, and leaves `waiting_` as it was.
pub postprocess_lem :
    (s : Scheduler) (ps ts : List ℕ)
    → SchedInv s []
    → ((k : ℕ) → count k ps ≤ count k s.running)
    → length ps ≡ length ts
    → (s' : Scheduler) × (postprocess s ps ts ≡ ok s')
      × SchedInv s' []
      × (s'.waiting ≡ s.waiting)
      × SameLimits s s'
unfolding postprocess
postprocess_lem s ps ts v within e =
    let g : (length ps == length ts) ≡ true = ground arith in
    let (s', runs, v', w, same) = postprocess_all_lem ps ts s v within e in
    (s', rw g runs, v', w, same)
