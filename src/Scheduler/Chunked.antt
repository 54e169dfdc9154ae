-- ===== src/Scheduler/Chunked.antt =====
-- `schedule_chunked`: how a prefill step hands out its budget.
use nano_vllm_cpp.Base.{
  ℕ, ◌+◌, ◌-◌, ◌≤◌, ◌≡◌, refl, sym, ◌∙◌, ap, subst, List, [], ◌∷◌, ◌++◌, true, false, some, arith,
  length, get_elem?, ◌==◌, Bool-cases, inl, inr, min, ok, length-append, length-set, ltb, ltb→lt,
  get_elem?-set_self, get_elem?-lt,
}
use nano_vllm_cpp.Base.Counting.{count, count-append}
use nano_vllm_cpp.Sequence.{Sequence}
use nano_vllm_cpp.Scheduler.{Scheduler, store, chunk_loop}
use nano_vllm_cpp.Scheduler.Invariant.{SchedInv}
use nano_vllm_cpp.Scheduler.Moves.{SameLimits, SameLimits-trans}
use nano_vllm_cpp.Scheduler.Room.{SameLimits-refl}
use nano_vllm_cpp.Scheduler.Work.{
  running_at, chunk-SchedInv, chunk_of, work, ChunkFits, AllChunks, work-append, AllChunks-append,
  work-store, AllChunks-store, left_of, left-store,
}

-- What the loop over the candidates leaves.
pub record Chunked (s : Scheduler) (limit : ℕ) (s' : Scheduler) (scheduled : List ℕ) : Type 0 where
  pub inv : SchedInv s' []
  pub same : SameLimits s s'
  pub queues : (s'.running ≡ s.running) × (s'.waiting ≡ s.waiting)
  pub within : work s' scheduled ≤ limit
  pub bound : length scheduled ≤ s.max_num_seqs
  pub fits : AllChunks s' scheduled
  pub mine : (k : ℕ) → count k scheduled ≤ count k s'.running
  pub left_kept : (k : ℕ) → left_of (get_elem? s'.sequences k) ≡ left_of (get_elem? s.sequences k)

module _ (p : ℕ) (ps : List ℕ) (budget : ℕ) (s : Scheduler) (scheduled : List ℕ) where
  chunk_full :
      ltb (length scheduled) s.max_num_seqs ≡ false
      → chunk_loop (p ∷ ps) budget s scheduled ≡ ok (s, scheduled)
  unfolding chunk_loop
  chunk_full e = ground arith

  module _ (q : Sequence) (at : get_elem? s.sequences p ≡ some q)
      (more : ltb (length scheduled) s.max_num_seqs ≡ true) where
    chunk_skip :
        (q.num_tokens - q.num_computed_tokens == 0) ≡ true
        → chunk_loop (p ∷ ps) budget s scheduled ≡ chunk_loop ps budget s scheduled
    unfolding chunk_loop
    chunk_skip e = ground arith

    chunk_stop :
        (q.num_tokens - q.num_computed_tokens == 0) ≡ false
        → (min (q.num_tokens - q.num_computed_tokens) budget == 0) ≡ true
        → chunk_loop (p ∷ ps) budget s scheduled ≡ ok (s, scheduled)
    unfolding chunk_loop
    chunk_stop e f = ground arith

    chunk_goes :
        (q.num_tokens - q.num_computed_tokens == 0) ≡ false
        → (min (q.num_tokens - q.num_computed_tokens) budget == 0) ≡ false
        → chunk_loop (p ∷ ps) budget s scheduled
          ≡ chunk_loop ps
              (budget - min (q.num_tokens - q.num_computed_tokens) budget)
              (store s p (record q {
                num_tokens_to_process = min (q.num_tokens - q.num_computed_tokens) budget;
              }))
              (scheduled ++ p ∷ [])
    unfolding chunk_loop
    chunk_goes e f = ground arith

module _ (limit : ℕ) where
  -- What the loop needs to go on.
  pub record Chunking (ps : List ℕ) (budget : ℕ) (s : Scheduler) (scheduled : List ℕ) : Type 0 where
    pub inv : SchedInv s []
    pub left : work s scheduled + budget ≤ limit
    pub bound : length scheduled ≤ s.max_num_seqs
    pub fits : AllChunks s scheduled
    pub mine : (k : ℕ) → count k ps + count k scheduled ≤ count k s.running

  Chunked-now :
      (ps : List ℕ) (budget : ℕ) (s : Scheduler) (scheduled : List ℕ)
      → Chunking ps budget s scheduled
      → Chunked s limit s scheduled
  Chunked-now ps budget s scheduled c = record {
    inv = c.inv;
    same = SameLimits-refl s;
    queues = (refl, refl);
    within = omega (arith, c.left);
    bound = c.bound;
    fits = c.fits;
    mine = λ k. omega (arith, c.mine k);
    left_kept = λ k. refl;
  }

  Chunked-later :
      (s s₁ : Scheduler) (s' : Scheduler) (scheduled : List ℕ)
      → SameLimits s s₁
      → s₁.running ≡ s.running
      → s₁.waiting ≡ s.waiting
      → ((k : ℕ) → left_of (get_elem? s₁.sequences k) ≡ left_of (get_elem? s.sequences k))
      → Chunked s₁ limit s' scheduled
      → Chunked s limit s' scheduled
  Chunked-later s s₁ s' scheduled e r w l c = record {
    inv = c.inv;
    same = SameLimits-trans e c.same;
    queues = (c.queues.0 ∙ r, c.queues.1 ∙ w);
    within = c.within;
    bound = omega (arith, c.bound, e.seqs);
    fits = c.fits;
    mine = c.mine;
    left_kept = λ k. c.left_kept k ∙ l k;
  }

  module _ (p : ℕ) (ps : List ℕ) (budget : ℕ) (s : Scheduler) (scheduled : List ℕ)
      (c : Chunking (p ∷ ps) budget s scheduled) (q : Sequence)
      (at : get_elem? s.sequences p ≡ some q) (more : ltb (length scheduled) s.max_num_seqs ≡ true)
      (once : count p s.running ≡ 1)
      (some_left : (q.num_tokens - q.num_computed_tokens == 0) ≡ false)
      (some_chunk : (min (q.num_tokens - q.num_computed_tokens) budget == 0) ≡ false) where
    abbrev chunk : ℕ
    chunk = min (q.num_tokens - q.num_computed_tokens) budget

    abbrev chunked : Sequence
    chunked = record q { num_tokens_to_process = chunk }

    abbrev next : Scheduler
    next = store s p chunked

    next-same : SameLimits s next
    next-same = record {
      seqs = refl;
      batched = refl;
      prefill = refl;
      eos_token = refl;
      size = refl;
      many = length-set s.sequences p chunked;
    }

    next-Chunking : Chunking ps (budget - chunk) next (scheduled ++ p ∷ [])
    unfolding count
    next-Chunking =
        let stored : get_elem? next.sequences p ≡ some chunked =
          get_elem?-set_self s.sequences p chunked (get_elem?-lt s.sequences p q at) in
        let apart : count p scheduled ≡ 0 = ground (arith, c.mine p) in
        record {
          inv = chunk-SchedInv s p chunk q c.inv (omega arith) at;
          left = omega (
            arith,
            c.left,
            work-append next scheduled (p ∷ []),
            ap chunk_of stored,
            work-store s p chunked scheduled apart,
          );
          bound = omega (arith, length-append scheduled (p ∷ []), ltb→lt _ _ more);
          fits =
              AllChunks-append next scheduled (p ∷ [])
                (AllChunks-store s p chunked scheduled apart c.fits)
                (subst ChunkFits (sym stored) (ground arith, ground arith), tt);
          mine = λ k. omega (arith, c.mine k, count-append k scheduled (p ∷ []));
        }

  -- The chunk loop over candidates that run, from chunks that together with the budget are at most
  -- `limit`, returns. The chunks of the scheduled sequences together are at most `limit`, each is at
  -- least one token and within its sequence, there are at most `max_num_seqs`, and the queues and the
  -- invariant are kept.
  pub chunk_loop_lem :
      (ps : List ℕ) (budget : ℕ) (s : Scheduler) (scheduled : List ℕ)
      → Chunking ps budget s scheduled
      → (s' : Scheduler) × (scheduled' : List ℕ) × (chunk_loop ps budget s scheduled
          ≡ ok (s', scheduled'))
        × Chunked s limit s' scheduled'
  unfolding count
  chunk_loop_lem [] budget s scheduled c =
      (s, scheduled, unfold chunk_loop in refl, Chunked-now [] budget s scheduled c)
  chunk_loop_lem (p ∷ ps) budget s scheduled c =
      let (q, at, tokens, once) = running_at s p c.inv (ground (arith, c.mine p)) in
      elim (Bool-cases (ltb (length scheduled) s.max_num_seqs)) [
        | inl more ↦ elim (Bool-cases (q.num_tokens - q.num_computed_tokens == 0)) [
          | inl none_left ↦
              let (s', out, run, d) = chunk_loop_lem ps budget s scheduled (record {
                inv = c.inv;
                left = c.left;
                bound = c.bound;
                fits = c.fits;
                mine = λ k. omega (arith, c.mine k);
              }) in
              (s', out, chunk_skip p ps budget s scheduled q at more none_left ∙ run, d)
          | inr some_left ↦
              elim (Bool-cases (min (q.num_tokens - q.num_computed_tokens) budget == 0)) [
                | inl spent ↦ (
                  s,
                  scheduled,
                  chunk_stop p ps budget s scheduled q at more some_left spent,
                  Chunked-now (p ∷ ps) budget s scheduled c,
                )
                | inr fits ↦
                    let (s', out, run, d) =
                      chunk_loop_lem ps (budget - min (q.num_tokens - q.num_computed_tokens) budget)
                        (next p ps budget s scheduled c q at more once some_left fits)
                        (scheduled ++ p ∷ [])
                        (next-Chunking p ps budget s scheduled c q at more once some_left fits) in
                    (
                      s',
                      out,
                      chunk_goes p ps budget s scheduled q at more some_left fits ∙ run,
                      Chunked-later s (next p ps budget s scheduled c q at more once some_left fits)
                          s' out (next-same p ps budget s scheduled c q at more once some_left fits)
                          refl refl
                          (λ k.
                            left-store s p (min (q.num_tokens - q.num_computed_tokens) budget) k q
                              at)
                          d,
                    )
              ]
        ]
        | inr full ↦ (
          s,
          scheduled,
          chunk_full p ps budget s scheduled full,
          Chunked-now (p ∷ ps) budget s scheduled c,
        )
      ]
