-- ===== src/Scheduler/Steps.antt =====
-- A whole step of `schedule_chunked` and of `schedule`.
use nano_vllm_cpp.Base.{
  ℕ, ◌+◌, ◌-◌, ◌≤◌, ◌≡◌, refl, sym, ap, subst, List, [], ◌∷◌, Bool, true, false, not, some, arith,
  length, get_elem?, ◌==◌, if◌then◌else◌, Bool-cases, inl, inr, min, max, ok, Safe, Safe-bind,
  Safe-map, Safe-guard, guard, assertion, length-set, ltb, get_elem?-set_self, get_elem?-lt,
}
use native.Mathlib.Decide.{ℕ_discrete}
use nano_vllm_cpp.Base.Counting.{one_if, count}
use nano_vllm_cpp.Scheduler.{
  Scheduler, Scheduled, store, prefill_candidates, force_one, prefill_chunks, schedule_chunked,
  schedule, is_empty, new_batch, is_finished, schedule_default, chunk_loop, decode_step,
}
use nano_vllm_cpp.Scheduler.Invariant.{SchedInv}
use nano_vllm_cpp.Scheduler.Moves.{SameLimits, SameLimits-trans}
use nano_vllm_cpp.Scheduler.Decode.{decode_step-Safe}
use nano_vllm_cpp.Scheduler.Default.{schedule_default-Safe}
use nano_vllm_cpp.Scheduler.Admission.{admit_loop_lem}
use nano_vllm_cpp.Scheduler.Chunked.{Chunked, chunk_loop_lem}
use nano_vllm_cpp.Scheduler.Work.{
  AllChunks, ChunkFits, work, chunk_of, left_of, running_at, chunk-SchedInv,
}

-- Every candidate has at least two positions to compute.
abbrev AllBehind : Scheduler → List ℕ → Type 0
AllBehind s [] = Unit
AllBehind s (p ∷ ps) = (2 ≤ left_of (get_elem? s.sequences p)) × AllBehind s ps

candidates_lem :
    (s : Scheduler) (ps : List ℕ)
    → SchedInv s []
    → ((k : ℕ) → count k ps ≤ count k s.running)
    → (cs : List ℕ) × (prefill_candidates s ps ≡ ok cs)
      × ((k : ℕ) → count k cs ≤ count k ps)
      × AllBehind s cs
unfolding prefill_candidates count
candidates_lem s [] v within = ([], refl, (λ k. omega arith), tt)
candidates_lem s (p ∷ ps) v within =
    let (q, at, tokens, once) = running_at s p v (ground (arith, within p)) in
    let (cs, run, sub, behind) = candidates_lem s ps v (λ k. omega (arith, within k)) in
    elim (Bool-cases (ltb q.num_computed_tokens (q.num_tokens - 1))) [
      | inl more ↦
          (p ∷ cs, rw (at, run, more), (λ k. omega (arith, sub k)), (rw at (ground arith), behind))
      | inr done ↦ (cs, rw (at, run, done), (λ k. omega (arith, sub k)), behind)
    ]

-- What a step of `schedule_chunked` leaves. The chunks of a prefill are at least one token each,
-- stay within their sequences, and together within the budget, or within one token where the
-- budget is 0.
pub record ChunkedDone (s : Scheduler) (r : Scheduled) : Type 0 where
  pub inv : SchedInv r.sched []
  pub some_seqs : 1 ≤ length r.seqs
  pub bound : length r.seqs ≤ max 1 s.max_num_seqs
  pub within : (k : ℕ) → count k r.seqs ≤ count k r.sched.running
  pub same : SameLimits s r.sched
  pub budget :
      r.is_prefill ≡ true
      → work r.sched r.seqs ≤ max 1 (min s.max_num_prefill_tokens s.max_num_batched_tokens)
  pub fits : r.is_prefill ≡ true → AllChunks r.sched r.seqs

single_within : (xs : List ℕ) (p : ℕ) → 1 ≤ count p xs → (k : ℕ) → count k (p ∷ []) ≤ count k xs
unfolding count
single_within xs p h k = elim (ℕ_discrete p k) [
  | yes e ↦ subst (λ j. one_if (p == j) + 0 ≤ count j xs) e (ground arith)
  | no ne ↦ ground arith
]

ChunkedDone-from :
    (s s' : Scheduler) (r : Scheduled) → SameLimits s s' → ChunkedDone s' r → ChunkedDone s r
ChunkedDone-from s s' r e d = record {
  inv = d.inv;
  some_seqs = d.some_seqs;
  bound = omega (arith, d.bound, e.seqs);
  within = d.within;
  same = SameLimits-trans e d.same;
  budget = λ f. omega (arith, d.budget f, e.prefill, e.batched);
  fits = d.fits;
}

force_one_lem :
    (s : Scheduler) (p : ℕ)
    → SchedInv s []
    → 1 ≤ count p s.running
    → 2 ≤ left_of (get_elem? s.sequences p)
    → (r : Scheduled) × (force_one s p ≡ ok r) × ChunkedDone s r
unfolding force_one count
force_one_lem s p v h behind =
    let (q, at, tokens, once) = running_at s p v h in
    let q' = record q { num_tokens_to_process = 1 } in
    let stored : get_elem? (store s p q').sequences p ≡ some q' =
      get_elem?-set_self s.sequences p q' (get_elem?-lt s.sequences p q at) in
    let behind' : 2 ≤ q.num_tokens - q.num_computed_tokens = subst (λ o. 2 ≤ left_of o) at behind in
    (
      record { sched = store s p q'; seqs = p ∷ []; is_prefill = true },
      rw at,
      record {
        inv = chunk-SchedInv s p 1 q v h at;
        some_seqs = omega arith;
        bound = omega arith;
        within = single_within s.running p h;
        same = record {
          seqs = refl;
          batched = refl;
          prefill = refl;
          eos_token = refl;
          size = refl;
          many = length-set s.sequences p q';
        };
        budget = λ _. omega (arith, ap chunk_of stored);
        fits = λ _. (subst ChunkFits (sym stored) (omega arith, omega arith), tt);
      },
    )

prefill_chunks_lem :
    (s : Scheduler) (p : ℕ) (ps : List ℕ)
    → SchedInv s []
    → ((k : ℕ) → count k (p ∷ ps) ≤ count k s.running)
    → 2 ≤ left_of (get_elem? s.sequences p)
    → (r : Scheduled) × (prefill_chunks s p ps ≡ ok r) × ChunkedDone s r
unfolding prefill_chunks count
prefill_chunks_lem s p ps v within behind =
    let limit = min s.max_num_prefill_tokens s.max_num_batched_tokens in
    let (s', out, run, d) = chunk_loop_lem limit (p ∷ ps) limit s [] (record {
      inv = v;
      left = omega arith;
      bound = omega arith;
      fits = tt;
      mine = λ k. omega (arith, within k);
    }) in
    by s' out run d (is_empty out) refl
  where
    by :
        (s' : Scheduler) (out : List ℕ)
        → chunk_loop (p ∷ ps) (min s.max_num_prefill_tokens s.max_num_batched_tokens) s []
          ≡ ok (s', out)
        → Chunked s (min s.max_num_prefill_tokens s.max_num_batched_tokens) s' out
        → (e : Bool) → is_empty out ≡ e
        → (r : Scheduled) × (prefill_chunks s p ps ≡ ok r) × ChunkedDone s r
    by s' out run d true nobody =
        let (r, f, t) =
          force_one_lem s' p d.inv (ground (arith, within p, ap (λ xs. count p xs) d.queues.0))
            (rw (d.left_kept p) behind) in
        (r, rw (run, nobody) f, ChunkedDone-from s s' r d.same t)
    by s' out run d false some_seqs = (
      record { sched = s'; seqs = out; is_prefill = true },
      rw (run, some_seqs),
      record {
        inv = d.inv;
        some_seqs = nonempty out some_seqs;
        bound = omega (arith, d.bound);
        within = d.mine;
        same = d.same;
        budget = λ _. omega (arith, d.within);
        fits = λ _. d.fits;
      },
    )
      where
        nonempty : (xs : List ℕ) → is_empty xs ≡ false → 1 ≤ length xs
        nonempty [] h = cc
        nonempty (x ∷ xs) h = omega arith

-- From a state that satisfies the invariant, a step of `schedule_chunked` meets no fault but a
-- failed `assert`. If it returns, it has kept the invariant and the limits and scheduled running
-- sequences, each once, at least 1 and at most `max(1, max_num_seqs)`. The chunks of a prefill are
-- at least one token each, stay within their sequences, and together within the budget, or within
-- one token where the budget is 0.
pub schedule_chunked-Safe :
    (xxh64 : List ℕ → ℕ) (s : Scheduler)
    → SchedInv s []
    → Safe (schedule_chunked xxh64 s) (ChunkedDone s)
unfolding schedule_chunked
schedule_chunked-Safe xxh64 s v =
    let (s₁, run, v₁, same, grew, bound) = admit_loop_lem xxh64 s.waiting s 0 refl v in
    let (cs, found, sub, behind) = candidates_lem s₁ s₁.running v₁ (λ k. omega arith) in
    rw (run, found) (by s₁ v₁ same cs sub behind)
  where
    by :
        (s₁ : Scheduler)
        → SchedInv s₁ []
        → SameLimits s s₁
        → (cs : List ℕ) → ((k : ℕ) → count k cs ≤ count k s₁.running)
        → AllBehind s₁ cs
        → Safe
            (elim cs [ [] ↦ decode_step xxh64 (new_batch s₁) | p ∷ ps ↦ prefill_chunks s₁ p ps ])
            (ChunkedDone s)
    by s₁ v₁ same [] sub behind =
        Safe-map (decode_step xxh64 (new_batch s₁))
          (decode_step-Safe xxh64 (new_batch s₁) refl refl v₁)
          λ r t. ChunkedDone-from s s₁ r same (record {
            inv = t.0.inv;
            some_seqs = t.0.some_seqs;
            bound = omega (arith, t.0.bound);
            within = t.0.within;
            same = t.0.same;
            budget = λ e. cc;
            fits = λ e. cc;
          })
    by s₁ v₁ same (p ∷ ps) sub behind =
        let (r, run, d) = prefill_chunks_lem s₁ p ps v₁ sub behind.0 in
        rw run (ChunkedDone-from s s₁ r same d)

-- What any step leaves.
pub record Done (s : Scheduler) (r : Scheduled) : Type 0 where
  pub inv : SchedInv r.sched []
  pub some_seqs : 1 ≤ length r.seqs
  pub within : (k : ℕ) → count k r.seqs ≤ count k r.sched.running
  pub same : SameLimits s r.sched

pub schedule-Safe :
    (xxh64 : List ℕ → ℕ) (s : Scheduler) → SchedInv s [] → Safe (schedule xxh64 s) (Done s)
unfolding schedule
schedule-Safe xxh64 s v =
    Safe-bind (guard (not (is_finished s)) assertion) _ _ _ (Safe-guard _)
      λ _ busy. by s.enable_chunked_prefill
  where
    by :
        (chunked : Bool)
        → Safe (if chunked then schedule_chunked xxh64 s else schedule_default xxh64 s) (Done s)
    by true =
        Safe-map (schedule_chunked xxh64 s) (schedule_chunked-Safe xxh64 s v)
          λ r d. record { inv = d.inv; some_seqs = d.some_seqs; within = d.within; same = d.same }
    by false = Safe-map (schedule_default xxh64 s) (schedule_default-Safe xxh64 s v) λ r d. record {
      inv = d.step.inv;
      some_seqs = d.step.some_seqs;
      within = d.step.within;
      same = d.step.same;
    }
