-- ===== src/Scheduler/Advance.antt =====
-- A whole `postprocess`, behind a step of `schedule` without the chunked prefill: every scheduled
-- sequence gets one token.
use nano_vllm_cpp.Base.{
  ℕ, ◌+◌, ◌≤◌, ◌≡◌, refl, ◌∙◌, ap, subst, sym, List, [], ◌∷◌, true, some, arith, length, get_elem?,
  ok, IfOk-ok, ◌==◌,
}
use native.Mathlib.Decide.{ℕ_discrete}
use nano_vllm_cpp.Base.Counting.{count}
use nano_vllm_cpp.Scheduler.{Scheduler, Scheduled, postprocess_one, postprocess_all, postprocess}
use nano_vllm_cpp.Scheduler.Invariant.{SchedInv, running_seq}
use nano_vllm_cpp.Scheduler.Postprocess.{Posted, one_lem, still_within}
use nano_vllm_cpp.Scheduler.FramePrefill.{Ready, Prepared}
use nano_vllm_cpp.Scheduler.Moves.{SameLimits}
use nano_vllm_cpp.Scheduler.Frame.{Keeps}
use nano_vllm_cpp.Scheduler.Progress.{
  HasRoom, AllHaveRoom, Advanced, tokens_left, tokens_left-same, postprocess_one-Advanced,
}

AllHaveRoom-after :
    (s s' : Scheduler) (p : ℕ) → Posted s p s' → Advanced s p s' → AllHaveRoom s → AllHaveRoom s'
AllHaveRoom-after s s' p d a h k n = elim (ℕ_discrete p k) [
  | yes e ↦
      subst (λ j. HasRoom (get_elem? s'.sequences j)) e
        (a.room (subst (λ j. 1 ≤ count j s'.waiting + count j s'.running) (sym e) n))
  | no ne ↦
      subst HasRoom (sym (a.others k ne))
        (h k (omega (arith, n, d.kept k ne, ap (λ xs. count k xs) d.waits)))
]

still-Ready :
    (s s' : Scheduler) (p : ℕ) (ps : List ℕ)
    → Advanced s p s'
    → count p ps ≡ 0
    → ((k : ℕ) → 1 ≤ count k (p ∷ ps) → Ready (get_elem? s.sequences k))
    → (k : ℕ) → 1 ≤ count k ps
    → Ready (get_elem? s'.sequences k)
unfolding count
still-Ready s s' p ps a once ready k n = elim (ℕ_discrete p k) [
  | yes e ↦ absurd (omega (arith, subst (λ j. 1 ≤ count j ps) (sym e) n))
  | no ne ↦ subst Ready (sym (a.others k ne)) (ready k (ground arith))
]

-- What taking in the tokens of the sequences `ps` has done.
pub record AllAdvanced (s : Scheduler) (ps : List ℕ) (s' : Scheduler) : Type 0 where
  pub less : tokens_left s'.sequences + length ps ≡ tokens_left s.sequences
  pub rooms : AllHaveRoom s'
  pub mode : s'.enable_chunked_prefill ≡ s.enable_chunked_prefill

postprocess_all-AllAdvanced :
    (ps ts : List ℕ) (s : Scheduler)
    → SchedInv s []
    → AllHaveRoom s
    → ((k : ℕ) → count k ps ≤ count k s.running)
    → ((k : ℕ) → 1 ≤ count k ps → Ready (get_elem? s.sequences k))
    → length ps ≡ length ts
    → (s' : Scheduler) × (postprocess_all s ps ts ≡ ok s') × AllAdvanced s ps s'
unfolding postprocess_all count
postprocess_all-AllAdvanced [] ts s v h within ready e =
    (s, refl, record { less = omega arith; rooms = h; mode = refl })
postprocess_all-AllAdvanced (p ∷ ps) [] s v h within ready e = absurd (omega arith)
postprocess_all-AllAdvanced (p ∷ ps) (t ∷ ts) s v h within ready e =
    let (q, at, tokens, w0, r1, held, st) = running_seq v p (ground (arith, within p)) in
    let (s₁, run, d) = one_lem s p v q at tokens w0 r1 held st t in
    let now : Ready (some q) = subst Ready at (ready p (ground arith)) in
    let has_room : HasRoom (some q) = subst HasRoom at (h p (omega (arith, r1))) in
    let a =
      IfOk-ok (postprocess_one s p t) (Advanced s p) s₁
        (postprocess_one-Advanced s p q at has_room w0 (omega (arith, r1)) t now) run in
    let once : count p ps ≡ 0 = ground (arith, within p, r1) in
    let (s', runs, rest) =
      postprocess_all-AllAdvanced ps ts s₁ d.inv (AllHaveRoom-after s s₁ p d a h)
        (still_within s s₁ p ps within r1 d) (still-Ready s s₁ p ps a once ready) (omega arith) in
    (
      s',
      rw run runs,
      record {
        less = omega (arith, rest.less, a.less);
        rooms = rest.rooms;
        mode = rest.mode ∙ a.mode;
      },
    )

pub Keeps-AllHaveRoom : (s s' : Scheduler) → Keeps s [] s' [] → AllHaveRoom s → AllHaveRoom s'
unfolding count
Keeps-AllHaveRoom s s' d h k n = omega (arith, d.budget k, h k (omega (arith, n, d.in_flight k)))

-- A step of `schedule` without the chunked prefill, and `postprocess` of its sequences with one
-- token for each.
pub scheduled-AllAdvanced :
    (s : Scheduler) (r : Scheduled) (ts : List ℕ)
    → Prepared s r
    → SameLimits s r.sched
    → AllHaveRoom s
    → length r.seqs ≡ length ts
    → (s' : Scheduler) × (postprocess r.sched r.seqs ts ≡ ok s') × AllAdvanced s r.seqs s'
unfolding postprocess
scheduled-AllAdvanced s r ts d limits h e =
    let g : (length r.seqs == length ts) ≡ true = ground arith in
    let (s', runs, a) =
      postprocess_all-AllAdvanced r.seqs ts r.sched d.inv (Keeps-AllHaveRoom s r.sched d.keeps h)
        d.within d.ready e in
    (
      s',
      rw g runs,
      record {
        less = omega (
          arith,
          a.less,
          tokens_left-same s.sequences r.sched.sequences d.keeps.budget limits.many,
        );
        rooms = a.rooms;
        mode = a.mode ∙ d.keeps.mode;
      },
    )
