-- ===== src/Engine/Batches.antt =====
-- Without the chunked prefill the model runner can prepare what the scheduler hands to it.
use nano_vllm_cpp.Base.{
  ℕ, ◌≤◌, ◌≡◌, refl, subst, List, [], ◌∷◌, Bool, true, some, arith, length, get_elem?, ok,
}
use native.Mathlib.Decide.{ℕ_discrete}
use nano_vllm_cpp.Base.Counting.{count}
use nano_vllm_cpp.Sequence.{Sequence}
use nano_vllm_cpp.Scheduler.{Scheduler, Scheduled}
use nano_vllm_cpp.Scheduler.Invariant.{running_seq}
use nano_vllm_cpp.Scheduler.Prefill.{Planned, AllPlanned}
use nano_vllm_cpp.Scheduler.FramePrefill.{Prepared}
use nano_vllm_cpp.Scheduler.Progress.{HasRoom, AllHaveRoom}
use nano_vllm_cpp.Scheduler.Advance.{Keeps-AllHaveRoom}
use nano_vllm_cpp.Runner.Accepts.{AllSeqs, Whole, Started, Accepts, batch-Accepts}
use nano_vllm_cpp.Engine.{seqs_at}

AllPlanned-at :
    (s : Scheduler) (ps : List ℕ) (k : ℕ)
    → AllPlanned s ps
    → 1 ≤ count k ps
    → Planned (get_elem? s.sequences k)
unfolding count
AllPlanned-at s [] k a n = absurd (omega arith)
AllPlanned-at s (p ∷ ps) k a n = elim (ℕ_discrete p k) [
  | yes e ↦ subst (λ j. Planned (get_elem? s.sequences j)) e a.0
  | no ne ↦ AllPlanned-at s ps k a.1 (ground arith)
]

-- The sequences that pointers name, with what holds of each of them.
seqs_at-AllSeqs :
    (P : Sequence → Type 0) (s : Scheduler) (ps : List ℕ)
    → ((k : ℕ) → 1 ≤ count k ps → (q : Sequence) × (get_elem? s.sequences k ≡ some q) × P q)
    → (qs : List Sequence) × (seqs_at s ps ≡ ok qs) × (length qs ≡ length ps) × AllSeqs P qs
unfolding seqs_at count
seqs_at-AllSeqs P s [] h = ([], refl, refl, tt)
seqs_at-AllSeqs P s (p ∷ ps) h =
    let (q, at, here) = h p (ground arith) in
    let (qs, run, e, rest) = seqs_at-AllSeqs P s ps (λ k c. h k (ground arith)) in
    (q ∷ qs, rw (at, run), omega (arith, e), (here, rest))

AllSeqs-map :
    (P Q : Sequence → Type 0) (qs : List Sequence)
    → ((q : Sequence) → P q → Q q)
    → AllSeqs P qs
    → AllSeqs Q qs
AllSeqs-map P Q [] f a = tt
AllSeqs-map P Q (q ∷ qs) f a = (f q a.0, AllSeqs-map P Q qs f a.1)

-- A scheduled sequence, by the kind of the step.
abbrev Prepares : Bool → Sequence → Type 0
Prepares is_prefill q = Started q × (is_prefill ≡ true → Whole q)

-- The batch of a step of `schedule` can be read, and its preparation returns.
pub batch_lem :
    (s : Scheduler) (r : Scheduled)
    → AllHaveRoom s
    → Prepared s r
    → (qs : List Sequence) × (seqs_at r.sched r.seqs ≡ ok qs)
      × (length qs ≡ length r.seqs)
      × Accepts qs r.is_prefill
unfolding count
batch_lem s r rooms d =
    let (qs, run, e, all) = seqs_at-AllSeqs (Prepares r.is_prefill) r.sched r.seqs at_pointer in
    (
      qs,
      run,
      e,
      batch-Accepts qs r.is_prefill (omega (arith, e, d.some_seqs))
          (AllSeqs-map (Prepares r.is_prefill) Started qs (λ q a. a.0) all)
          (λ yes_prefill.
            AllSeqs-map (Prepares r.is_prefill) Whole qs (λ q a. a.1 yes_prefill) all),
    )
  where
    at_pointer :
        (k : ℕ)
        → 1 ≤ count k r.seqs
        → (q : Sequence) × (get_elem? r.sched.sequences k ≡ some q) × Prepares r.is_prefill q
    at_pointer k n =
        let (q, at, tokens, w0, r1, held, st) =
          running_seq d.inv k (omega (arith, n, d.within k)) in
        let room : HasRoom (some q) =
          subst HasRoom at
            (Keeps-AllHaveRoom s r.sched d.keeps rooms k (omega (arith, n, d.within k))) in
        (
          q,
          at,
          (
            (tokens, held),
            λ yes_prefill.
                let plan : Planned (some q) =
                  subst Planned at (AllPlanned-at r.sched r.seqs k (d.planned yes_prefill) n) in
                (tokens, room.2, plan.2),
          ),
        )
