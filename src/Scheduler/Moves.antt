-- ===== src/Scheduler/Moves.antt =====
-- The operations on one sequence keep the invariant of the scheduler.
use nano_vllm_cpp.Base.{
  ℕ, ◌+◌, ◌-◌, ◌*◌, ◌≤◌, ◌≡◌, ◌≢◌, refl, ◌∙◌, ap, subst, List, [], ◌∷◌, ◌++◌, Bool, true, some,
  arith, length, get_elem?, set, if◌then◌else◌, min, ok, length-set, get_elem?-set_self,
  get_elem?-set_ne, get_elem?-lt,
}
use nano_vllm_cpp.Base.Counting.{count, count-append}
use nano_vllm_cpp.Sequence
use nano_vllm_cpp.Sequence.{Sequence, SequenceStatus}
use nano_vllm_cpp.BlockManager
use nano_vllm_cpp.BlockManager.{BlockManager}
use nano_vllm_cpp.BlockManager.Invariant.{Inv, Inv-cong}
use nano_vllm_cpp.BlockManager.Release.{deallocate_lem}
use nano_vllm_cpp.BlockManager.Allocate.{Allocated, allocate_lem}
use nano_vllm_cpp.Scheduler.{Scheduler, preempt, admit}
use nano_vllm_cpp.Scheduler.Invariant.{
  SchedInv, Placed, split_holders, join_holders, Placed-set, rest_of, waiting_seq, running_seq,
}

-- The limits of the configuration do not change.
pub record SameLimits (s s' : Scheduler) : Type 0 where
  pub seqs : s'.max_num_seqs ≡ s.max_num_seqs
  pub batched : s'.max_num_batched_tokens ≡ s.max_num_batched_tokens
  pub prefill : s'.max_num_prefill_tokens ≡ s.max_num_prefill_tokens
  pub eos_token : s'.eos ≡ s.eos
  pub size : s'.block_manager.block_size ≡ s.block_manager.block_size
  pub many : length s'.sequences ≡ length s.sequences

pub SameLimits-trans : {s t u : Scheduler} → SameLimits s t → SameLimits t u → SameLimits s u
SameLimits-trans a b = record {
  seqs = b.seqs ∙ a.seqs;
  batched = b.batched ∙ a.batched;
  prefill = b.prefill ∙ a.prefill;
  eos_token = b.eos_token ∙ a.eos_token;
  size = b.size ∙ a.size;
  many = b.many ∙ a.many;
}

-- What `preempt` of a running sequence that was taken off `running_` leaves.
pub record Preempted (s : Scheduler) (aside : List ℕ) (p : ℕ) (s' : Scheduler) : Type 0 where
  pub preempts : preempt s p ≡ ok s'
  pub inv : SchedInv s' aside
  pub waits : s'.waiting ≡ p ∷ s.waiting
  pub runs : s'.running ≡ s.running
  pub same : SameLimits s s'

module _ (s : Scheduler) (p : ℕ) (q q' : Sequence) (at : get_elem? s.sequences p ≡ some q) where
  -- The placements after a write at `p`, where only the counts of `p` change.
  pub Placed-after :
      (aside aside' waiting running : List ℕ)
      → SchedInv s aside
      → Placed (some q') (count p waiting) (count p running + count p aside')
      → ((k : ℕ)
          → p ≢ k
          → (count k waiting ≡ count k s.waiting)
            × (count k running + count k aside' ≡ count k s.running + count k aside))
      → (k : ℕ)
      → Placed
          (get_elem? (set s.sequences p q') k)
          (count k waiting)
          (count k running + count k aside')
  Placed-after aside aside' waiting running v here elsewhere k =
      Placed-set s.sequences p q q' k (count k s.waiting) (count k s.running + count k aside)
        (count k waiting) (count k running + count k aside') at (v.placed k)
        (λ same.
          subst (λ j. Placed (some q') (count j waiting) (count j running + count j aside')) same
            here)
        (elsewhere k)

module _ (s : Scheduler) (aside : List ℕ) (p : ℕ) (v : SchedInv s (p ∷ aside)) where
  abbrev idle_seq : Sequence → Sequence
  idle_seq q = record q { status = SequenceStatus.waiting; num_cached_tokens = 0; block_table = [] }

  abbrev preempted : Sequence → BlockManager → Scheduler
  preempted q m = record s {
    block_manager = m;
    sequences = set s.sequences p (idle_seq q);
    waiting = p ∷ s.waiting;
  }

  preempted-Inv :
      (q : Sequence) (m : BlockManager)
      → get_elem? s.sequences p ≡ some q
      → 1 ≤ q.num_tokens
      → count p s.waiting ≡ 0
      → count p s.running + count p (p ∷ aside) ≡ 1
      → Inv m (rest_of s.sequences q)
      → SchedInv (preempted q m) aside
  unfolding count
  preempted-Inv q m at tokens w0 r1 w = record {
    blocks = join_holders s.sequences p q (idle_seq q) at (Inv-cong (λ b. omega arith) w);
    placed =
        Placed-after s p q (idle_seq q) at (p ∷ aside) aside (p ∷ s.waiting) s.running v
          (tokens, (ground arith, ground arith, refl, refl)) (λ k ne. ground arith);
  }

  -- A running sequence that is held aside is preempted without a fault: it gives up its blocks and
  -- goes to the front of `waiting_`, `running_` is as it was, and the invariant and the limits are
  -- kept.
  pub preempt_lem : (s' : Scheduler) × Preempted s aside p s'
  unfolding preempt count
  preempt_lem =
      let (q, at, tokens, w0, r1, held, running) = running_seq v p (ground arith) in
      let (m, e, w, room, size) =
        deallocate_lem s.block_manager (record q { status = SequenceStatus.waiting })
          (rest_of s.sequences q) (split_holders s.sequences p q at v.blocks) in
      (
        preempted q m,
        record {
          preempts = rw (at, e);
          inv = preempted-Inv q m at tokens w0 r1 w;
          waits = refl;
          runs = refl;
          same = record {
            seqs = refl;
            batched = refl;
            prefill = refl;
            eos_token = refl;
            size = size;
            many = length-set s.sequences p (idle_seq q);
          };
        },
      )

module _ (xxh64 : List ℕ → ℕ) where
  -- What admitting the front of `waiting_` leaves.
  pub record Admitted (whole : Bool) (s : Scheduler) (p : ℕ) (rest : List ℕ) (q : Sequence)
      (s' : Scheduler) (q' : Sequence) (hits : ℕ) : Type 0 where
    pub admits : admit xxh64 whole s p rest q ≡ ok (s', q')
    pub inv : SchedInv s' []
    pub waits : s'.waiting ≡ rest
    pub runs : s'.running ≡ s.running ++ p ∷ []
    pub same : SameLimits s s'
    pub stored : get_elem? s'.sequences p ≡ some q'
    pub others : (k : ℕ) → p ≢ k → get_elem? s'.sequences k ≡ get_elem? s.sequences k
    pub tokens_kept : (q'.num_tokens ≡ q.num_tokens) × (q'.token_ids ≡ q.token_ids)
    pub cached : q'.num_cached_tokens ≡ hits * s.block_manager.block_size
    pub hit_bound : hits ≤ Sequence.num_blocks q
    pub computed : q'.num_computed_tokens ≡ min q'.num_cached_tokens (q'.num_tokens - 1)
    pub table : length q'.block_table ≡ Sequence.num_blocks q'
    pub planned :
        q'.num_tokens_to_process ≡ (if whole then q'.num_tokens - q'.num_computed_tokens else 0)

  module _ (whole : Bool) (s : Scheduler) (p : ℕ) (rest : List ℕ) (q : Sequence) (hits : ℕ)
      (m : BlockManager) (table : List ℕ) (v : SchedInv s []) (front : s.waiting ≡ p ∷ rest)
      (at : get_elem? s.sequences p ≡ some q) (tokens : 1 ≤ q.num_tokens)
      (w1 : count p s.waiting ≡ 1) (r0 : count p s.running + count p [] ≡ 0)
      (no_cache : q.num_cached_tokens ≡ 0)
      (a : Allocated xxh64 s.block_manager q (rest_of s.sequences q) m table hits) where
    abbrev running_now : Sequence
    running_now =
        let cached = q.num_cached_tokens + hits * s.block_manager.block_size in
        record q {
          num_cached_tokens = cached;
          block_table = table;
          num_computed_tokens = min cached (q.num_tokens - 1);
          num_tokens_to_process = if whole then q.num_tokens - min cached (q.num_tokens - 1) else 0;
          status = SequenceStatus.running;
        }

    abbrev admitted : Scheduler
    admitted = record s {
      block_manager = m;
      sequences = set s.sequences p running_now;
      waiting = rest;
      running = s.running ++ p ∷ [];
    }

    has_block : 1 ≤ length table
    unfolding Sequence.num_blocks
    has_block = omega (arith, a.counted)

    admitted-Inv : SchedInv admitted []
    unfolding count
    admitted-Inv = record {
      blocks = join_holders s.sequences p q running_now at a.inv;
      placed =
          Placed-after s p q running_now at [] [] rest (s.running ++ p ∷ []) v
            (
              tokens,
              (
                ground (arith, ap (λ xs. count p xs) front),
                ground (arith, count-append p s.running (p ∷ [])),
                has_block,
              ),
            )
            (λ k ne.
              ground (arith, ap (λ xs. count k xs) front, count-append k s.running (p ∷ [])));
    }

    admitted_lem : Admitted whole s p rest q admitted running_now hits
    unfolding admit Sequence.num_blocks
    admitted_lem = record {
      admits = rw a.allocates;
      inv = admitted-Inv;
      waits = refl;
      runs = refl;
      same = record {
        seqs = refl;
        batched = refl;
        prefill = refl;
        eos_token = refl;
        size = a.size_kept;
        many = length-set s.sequences p running_now;
      };
      stored = get_elem?-set_self s.sequences p running_now (get_elem?-lt s.sequences p q at);
      others = λ k ne. get_elem?-set_ne s.sequences p k running_now ne;
      tokens_kept = (refl, refl);
      cached = omega arith;
      hit_bound = a.hit_bound;
      computed = refl;
      table = omega (arith, a.counted);
      planned = refl;
    }

  -- The front of `waiting_` is admitted without a fault where `can_allocate` says yes: `Admitted`
  -- says what the state is then, for both ways of planning its tokens.
  pub admit_lem :
      (whole : Bool) (s : Scheduler) (p : ℕ) (rest : List ℕ) (q : Sequence)
      → SchedInv s []
      → s.waiting ≡ p ∷ rest
      → get_elem? s.sequences p ≡ some q
      → BlockManager.can_allocate s.block_manager q ≡ true
      → (s' : Scheduler) × (q' : Sequence) × (hits : ℕ) × Admitted whole s p rest q s' q' hits
  unfolding count
  admit_lem whole s p rest q v front at room =
      let (q₀, at₀, tokens₀, w1, r0, empty₀, no_cache₀, st) =
        waiting_seq v p (ground (arith, ap (λ xs. count p xs) front)) in
      let same : q₀ ≡ q = ground arith in
      let empty = subst (λ (x : Sequence). x.block_table ≡ []) same empty₀ in
      let no_cache = subst (λ (x : Sequence). x.num_cached_tokens ≡ 0) same no_cache₀ in
      let tokens = subst (λ (x : Sequence). 1 ≤ x.num_tokens) same tokens₀ in
      let (m, table, hits, a) =
        allocate_lem xxh64 s.block_manager q (rest_of s.sequences q)
          (Inv-cong (λ b. ground arith) v.blocks) empty room in
      (
        admitted whole s p rest q hits m table v front at tokens w1 r0 no_cache a,
        running_now whole s p rest q hits m table v front at tokens w1 r0 no_cache a,
        hits,
        admitted_lem whole s p rest q hits m table v front at tokens w1 r0 no_cache a,
      )
