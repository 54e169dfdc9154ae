-- ===== src/Scheduler/Work.antt =====
-- The chunks of the scheduled sequences, and what writing one of them changes.
use nano_vllm_cpp.Base.{
  ℕ, ◌+◌, ◌-◌, ◌≤◌, ◌≡◌, refl, sym, subst, List, [], ◌∷◌, ◌++◌, Option, none, some, arith, length,
  get_elem?, get_elem?-set, get_elem?-set_ne,
}
use mathlib.Core.Path.{ap₂}
use nano_vllm_cpp.Base.Counting.{count}
use nano_vllm_cpp.Sequence.{Sequence, SequenceStatus}
use nano_vllm_cpp.Scheduler.{Scheduler, store}
use nano_vllm_cpp.Scheduler.Invariant.{SchedInv, Fits, same_holders, running_seq}
use nano_vllm_cpp.Scheduler.Moves.{Placed-after}

-- A sequence whose pointer is in `running_` can be read.
pub running_at :
    (s : Scheduler) (p : ℕ)
    → SchedInv s []
    → 1 ≤ count p s.running
    → (q : Sequence) × (get_elem? s.sequences p ≡ some q)
      × (1 ≤ q.num_tokens)
      × (count p s.running ≡ 1)
unfolding count
running_at s p v h =
    let (q, at, tokens, w0, r1, held, st) = running_seq v p (omega arith) in
    (q, at, tokens, omega arith)

-- Setting the chunk of a running sequence keeps the invariant.
pub chunk-SchedInv :
    (s : Scheduler) (p chunk : ℕ) (q : Sequence)
    → SchedInv s []
    → 1 ≤ count p s.running
    → get_elem? s.sequences p ≡ some q
    → SchedInv (store s p (record q { num_tokens_to_process = chunk })) []
chunk-SchedInv s p chunk q v h at =
    let (q₀, at₀, tokens₀, w0, r1, held₀, st₀) = running_seq v p (omega arith) in
    let same : q₀ ≡ q = ground arith in
    let q' = record q { num_tokens_to_process = chunk } in
    record {
      blocks = same_holders s.sequences p q q' at refl v.blocks;
      placed =
          Placed-after s p q q' at [] [] s.waiting s.running v
            (
              subst (λ (x : Sequence). 1 ≤ x.num_tokens) same tokens₀,
              subst (λ x. Fits x q' (count p s.waiting) (count p s.running + count p []))
                  (sym (subst (λ (x : Sequence). x.status ≡ SequenceStatus.running) same st₀))
                  (w0, r1, subst (λ (x : Sequence). 1 ≤ length x.block_table) same held₀),
            )
            (λ k ne. (refl, refl));
    }

-- The chunks that the scheduled sequences process in this step.
abbrev pub chunk_of : Option Sequence → ℕ
chunk_of none = 0
chunk_of (some q) = q.num_tokens_to_process

abbrev pub work : Scheduler → List ℕ → ℕ
work s [] = 0
work s (p ∷ ps) = chunk_of (get_elem? s.sequences p) + work s ps

-- Each chunk is at least one token and stays within the sequence.
abbrev pub ChunkFits : Option Sequence → Type 0
ChunkFits none = ⊥
ChunkFits (some q) =
    (1 ≤ q.num_tokens_to_process) × (q.num_computed_tokens + q.num_tokens_to_process ≤ q.num_tokens)

abbrev pub AllChunks : Scheduler → List ℕ → Type 0
AllChunks s [] = Unit
AllChunks s (p ∷ ps) = ChunkFits (get_elem? s.sequences p) × AllChunks s ps

pub work-append : (s : Scheduler) (ps qs : List ℕ) → work s (ps ++ qs) ≡ work s ps + work s qs
work-append s [] qs = omega arith
work-append s (p ∷ ps) qs = omega (arith, work-append s ps qs)

pub AllChunks-append :
    (s : Scheduler) (ps qs : List ℕ) → AllChunks s ps → AllChunks s qs → AllChunks s (ps ++ qs)
AllChunks-append s [] qs a b = b
AllChunks-append s (p ∷ ps) qs a b = (a.0, AllChunks-append s ps qs a.1 b)

module _ (s : Scheduler) (p : ℕ) (q : Sequence) where
  pub work-store : (ps : List ℕ) → count p ps ≡ 0 → work (store s p q) ps ≡ work s ps
  unfolding count
  work-store [] h = refl
  work-store (k ∷ ps) h =
      ap₂ (λ o n. chunk_of o + n) (get_elem?-set_ne s.sequences p k q (λ e. absurd (ground arith)))
        (work-store ps (ground arith))

  pub AllChunks-store : (ps : List ℕ) → count p ps ≡ 0 → AllChunks s ps → AllChunks (store s p q) ps
  unfolding count
  AllChunks-store [] h a = tt
  AllChunks-store (k ∷ ps) h a = (
    subst ChunkFits (sym (get_elem?-set_ne s.sequences p k q (λ e. absurd (ground arith)))) a.0,
    AllChunks-store ps (ground arith) a.1,
  )

-- How many tokens of a sequence are still to be computed.
abbrev pub left_of : Option Sequence → ℕ
left_of none = 0
left_of (some q) = q.num_tokens - q.num_computed_tokens

pub left-store :
    (s : Scheduler) (p chunk k : ℕ) (q : Sequence)
    → get_elem? s.sequences p ≡ some q
    → left_of (get_elem? (store s p (record q { num_tokens_to_process = chunk })).sequences k)
      ≡ left_of (get_elem? s.sequences k)
left-store s p chunk k q at =
    ground (arith, get_elem?-set s.sequences p k (record q { num_tokens_to_process = chunk }) q at)
