-- ===== src/Scheduler/Frame.antt =====
-- What the operations of a step leave alone: the numbers of tokens of every sequence, and which
-- sequences are in flight.
use nano_vllm_cpp.Base.{
  ℕ, zero, suc, ◌+◌, ◌≡◌, refl, ◌∙◌, ap, List, [], ◌∷◌, Bool, false, Option, none, some, arith,
  length, get_elem?, set, get_elem?-set, ok, IfOk, IfOk-bind, IfOk-ok, guard, assertion, IfOk-map,
  Option-cases, inl, inr, ◌==◌, if◌then◌else◌,
}
use nano_vllm_cpp.Base.Counting.{count, count-append}
use mathlib.Core.List.{reverse}
use nano_vllm_cpp.Sequence.{Sequence, SequenceStatus}
use nano_vllm_cpp.Sequence
use nano_vllm_cpp.BlockManager
use nano_vllm_cpp.BlockManager.{BlockManager, Progress}
use nano_vllm_cpp.Scheduler.{Scheduler, preempt, admit, seq_at}

-- The numbers of a sequence that decide how many tokens it may still get, and how many it has.
abbrev pub num_at : Option Sequence → ℕ
num_at none = 0
num_at (some q) = q.num_tokens

abbrev pub prompt_at : Option Sequence → ℕ
prompt_at none = 0
prompt_at (some q) = q.num_prompt_tokens

abbrev pub max_at : Option Sequence → ℕ
max_at none = 0
max_at (some q) = q.max_tokens

abbrev pub chunk_at : Option Sequence → ℕ
chunk_at none = 0
chunk_at (some q) = q.num_tokens_to_process

abbrev pub size_at : Option Sequence → ℕ
size_at none = 0
size_at (some q) = length q.token_ids

abbrev pub SameBudget : Option Sequence → Option Sequence → Type 0
SameBudget o o' =
    (num_at o' ≡ num_at o)
    × (prompt_at o' ≡ prompt_at o)
    × (max_at o' ≡ max_at o)
    × (size_at o' ≡ size_at o)

-- How often a pointer is in a queue or held aside.
abbrev pub flight : Scheduler → List ℕ → ℕ → ℕ
flight s aside k = count k s.waiting + count k s.running + count k aside

pub record Keeps (s : Scheduler) (aside : List ℕ) (s' : Scheduler) (aside' : List ℕ) : Type 0 where
  pub budget : (k : ℕ) → SameBudget (get_elem? s.sequences k) (get_elem? s'.sequences k)
  pub in_flight : (k : ℕ) → flight s' aside' k ≡ flight s aside k
  pub mode : s'.enable_chunked_prefill ≡ s.enable_chunked_prefill

-- A sequence without a chunk gets none.
abbrev pub StaysIdle : Scheduler → Scheduler → Type 0
StaysIdle s s' =
    (k : ℕ) → chunk_at (get_elem? s.sequences k) ≡ 0 → chunk_at (get_elem? s'.sequences k) ≡ 0

pub Keeps-refl : (s : Scheduler) (aside : List ℕ) → Keeps s aside s aside
Keeps-refl s aside = record {
  budget = λ k. (refl, refl, refl, refl);
  in_flight = λ k. refl;
  mode = refl;
}

pub Keeps-trans :
    {s t u : Scheduler} {a b c : List ℕ} → Keeps s a t b → Keeps t b u c → Keeps s a u c
Keeps-trans x y = record {
  budget = λ k. (
    (y.budget k).0 ∙ (x.budget k).0,
    (y.budget k).1 ∙ (x.budget k).1,
    (y.budget k).2 ∙ (x.budget k).2,
    (y.budget k).3 ∙ (x.budget k).3,
  );
  in_flight = λ k. y.in_flight k ∙ x.in_flight k;
  mode = y.mode ∙ x.mode;
}

-- A write that keeps the numbers of one sequence.
module _ (xs : List Sequence) (p : ℕ) (q q' : Sequence) (at : get_elem? xs p ≡ some q) where
  pub set-SameBudget :
      q'.num_tokens ≡ q.num_tokens
      → q'.num_prompt_tokens ≡ q.num_prompt_tokens
      → q'.max_tokens ≡ q.max_tokens
      → length q'.token_ids ≡ length q.token_ids
      → (k : ℕ) → SameBudget (get_elem? xs k) (get_elem? (set xs p q') k)
  set-SameBudget a b c d k = ground (arith, get_elem?-set xs p k q' q at)

  pub set-StaysIdle :
      (q.num_tokens_to_process ≡ 0 → q'.num_tokens_to_process ≡ 0)
      → (k : ℕ) → chunk_at (get_elem? xs k) ≡ 0
      → chunk_at (get_elem? (set xs p q') k) ≡ 0
  set-StaysIdle f k h = ground (arith, get_elem?-set xs p k q' q at)

abbrev pub SameNumbers : Sequence → Sequence → Type 0
SameNumbers q q' =
    (q'.num_tokens ≡ q.num_tokens)
    × (q'.num_prompt_tokens ≡ q.num_prompt_tokens)
    × (q'.max_tokens ≡ q.max_tokens)
    × (length q'.token_ids ≡ length q.token_ids)

SameNumbers-trans : (q q₁ q₂ : Sequence) → SameNumbers q q₁ → SameNumbers q₁ q₂ → SameNumbers q q₂
SameNumbers-trans q q₁ q₂ a b = (b.0 ∙ a.0, b.1 ∙ a.1, b.2 ∙ a.2, b.3 ∙ a.3)

pub seq_at-ok :
    (s : Scheduler) (p : ℕ) (q : Sequence) → seq_at s p ≡ ok q → get_elem? s.sequences p ≡ some q
seq_at-ok s p q h = elim (Option-cases (get_elem? s.sequences p)) [
  | inl e ↦ absurd (ground arith)
  | inr (q₀, e) ↦ ground arith
]

-- The sequence has given up its blocks.
abbrev pub Emptied : Sequence → Sequence → Type 0
Emptied q q' =
    (q'.num_tokens ≡ q.num_tokens)
    × (q'.num_prompt_tokens ≡ q.num_prompt_tokens)
    × (q'.max_tokens ≡ q.max_tokens)
    × (q'.num_tokens_to_process ≡ q.num_tokens_to_process)
    × (q'.status ≡ q.status)
    × (length q'.token_ids ≡ length q.token_ids)

pub deallocate-Emptied :
    (m : BlockManager) (q : Sequence) → IfOk (BlockManager.deallocate m q) (λ r. Emptied q r.1)
unfolding BlockManager.deallocate
deallocate-Emptied m q =
    IfOk-bind (BlockManager.release_all m (reverse q.block_table)) _
      (λ (r : BlockManager × Sequence). Emptied q r.1) λ m' e. (refl, refl, refl, refl, refl, refl)

-- What `preempt` of a sequence that is held aside leaves.
abbrev pub PreemptKeeps : Scheduler → List ℕ → ℕ → Scheduler → Type 0
PreemptKeeps s aside p s' = Keeps s (p ∷ aside) s' aside × StaysIdle s s' × (s'.running ≡ s.running)

pub preempt-Keeps :
    (s : Scheduler) (aside : List ℕ) (p : ℕ) → IfOk (preempt s p) (PreemptKeeps s aside p)
unfolding preempt count
preempt-Keeps s aside p = IfOk-bind (seq_at s p) _ (PreemptKeeps s aside p) λ q at₀.
    let at = seq_at-ok s p q at₀ in
    let q₀ : Sequence = record q { status = SequenceStatus.waiting } in
    IfOk-bind (BlockManager.deallocate s.block_manager q₀) _ (PreemptKeeps s aside p) λ r e.
      let same =
        IfOk-ok (BlockManager.deallocate s.block_manager q₀)
          (λ (x : BlockManager × Sequence). Emptied q₀ x.1) r
          (deallocate-Emptied s.block_manager q₀) e in
      (
        record {
          budget = set-SameBudget s.sequences p q (r.1) at same.0 same.1 same.2 same.5;
          in_flight = λ k. omega arith;
          mode = refl;
        },
        set-StaysIdle s.sequences p q (r.1) at (λ h. same.3 ∙ h),
        refl,
      )

module _ (xxh64 : List ℕ → ℕ) where
  allocate_step-SameNumbers :
      (p : Progress) (i : ℕ)
      → IfOk (BlockManager.allocate_step xxh64 p i) (λ r. SameNumbers p.seq r.seq)
  unfolding BlockManager.allocate_step
  allocate_step-SameNumbers p i =
      let Q : Progress → Type 0 = (λ r. SameNumbers p.seq r.seq) in
      let m = p.manager in
      IfOk-bind (Sequence.block p.seq i) _ Q λ token_ids e₁.
        let h = BlockManager.chain_hash xxh64 m.block_size token_ids p.h in
        IfOk-bind (BlockManager.look_up m p.cache_miss h token_ids) _ Q λ found e₂.
          IfOk-bind (BlockManager.claim m found) _ Q λ c e₃.
            IfOk-bind
              (if h == BlockManager.no_hash
                then ok c.1
                else BlockManager.register c.1 c.0 h token_ids)
              _ Q λ m' e₄. (refl, refl, refl, refl)

  allocate_from-SameNumbers :
      (n : ℕ) (p : Progress) (i : ℕ)
      → IfOk (BlockManager.allocate_from xxh64 n p i) (λ r. SameNumbers p.seq r.seq)
  unfolding BlockManager.allocate_from
  allocate_from-SameNumbers zero p i = (refl, refl, refl, refl)
  allocate_from-SameNumbers (suc n) p i =
      IfOk-bind (BlockManager.allocate_step xxh64 p i) _ (λ (r : Progress). SameNumbers p.seq r.seq)
        λ q e.
          let first =
            IfOk-ok (BlockManager.allocate_step xxh64 p i)
              (λ (x : Progress). SameNumbers p.seq x.seq) q (allocate_step-SameNumbers p i) e in
          IfOk-map (BlockManager.allocate_from xxh64 n q (i + 1))
            (allocate_from-SameNumbers n q (i + 1))
            λ r same. SameNumbers-trans p.seq q.seq r.seq first same

  allocate-SameNumbers :
      (m : BlockManager) (q : Sequence)
      → IfOk (BlockManager.allocate xxh64 m q) (λ r. SameNumbers q r.1)
  unfolding BlockManager.allocate
  allocate-SameNumbers m q =
      let Q : BlockManager × Sequence → Type 0 = (λ r. SameNumbers q r.1) in
      IfOk-bind (guard (length q.block_table == 0) assertion) _ Q λ u e₁.
        let start : Progress = record {
          manager = m;
          seq = q;
          h = BlockManager.no_hash;
          cache_miss = false;
        } in
        let rounds = BlockManager.allocate_from xxh64 (Sequence.num_blocks q) start 0 in
        IfOk-bind rounds _ Q λ r e₂.
          IfOk-ok rounds (λ (x : Progress). SameNumbers q x.seq) r
            (allocate_from-SameNumbers (Sequence.num_blocks q) start 0) e₂

  pub admit-Keeps :
      (whole : Bool) (s : Scheduler) (p : ℕ) (rest : List ℕ) (q : Sequence)
      → s.waiting ≡ p ∷ rest
      → get_elem? s.sequences p ≡ some q
      → IfOk (admit xxh64 whole s p rest q) (λ r. Keeps s [] r.0 [] × (r.0.waiting ≡ rest))
  unfolding admit count
  admit-Keeps whole s p rest q front at =
      IfOk-bind (BlockManager.allocate xxh64 s.block_manager q) _
        (λ (r : Scheduler × Sequence). Keeps s [] r.0 [] × (r.0.waiting ≡ rest))
        λ r e.
          let same =
            IfOk-ok (BlockManager.allocate xxh64 s.block_manager q)
              (λ (x : BlockManager × Sequence). SameNumbers q x.1) r
              (allocate-SameNumbers s.block_manager q) e in
          (
            record {
              budget = set-SameBudget s.sequences p q _ at same.0 same.1 same.2 same.3;
              in_flight = λ k.
                  omega (arith, ap (λ xs. count k xs) front, count-append k s.running (p ∷ []));
              mode = refl;
            },
            refl,
          )
