-- ===== src/Scheduler/Progress.antt =====
-- `postprocess` gives every scheduled sequence that is ready one token, so the tokens that are
-- still allowed become fewer.
use nano_vllm_cpp.Base.{
  ℕ, zero, suc, ◌+◌, ◌-◌, ◌≤◌, ◌<◌, ◌≡◌, ◌≢◌, refl, ◌∙◌, ap, subst, sym, inl, inr, List, [], ◌∷◌,
  true, false, Option, some, arith, length, get_elem?, set, IfOk, IfOk-bind, IfOk-ok, Bool-cases,
  ltb, ◌==◌, get_elem?-set_self, get_elem?-set_ne, get_elem?-lt, eq→==, length-append,
}
use nano_vllm_cpp.Base.Counting.{count, one_if, count-erase}
use nano_vllm_cpp.Sequence
use nano_vllm_cpp.Sequence.{Sequence, SequenceStatus}
use nano_vllm_cpp.BlockManager
use nano_vllm_cpp.BlockManager.{BlockManager}
use nano_vllm_cpp.Scheduler.{Scheduler, store, finish_token, postprocess_one}
use nano_vllm_cpp.Scheduler.Postprocess.{ends}
use nano_vllm_cpp.Scheduler.Frame.{
  num_at, prompt_at, max_at, size_at, SameNumbers, SameBudget, Emptied, deallocate-Emptied,
}
use nano_vllm_cpp.Scheduler.FramePrefill.{Ready}

-- How many tokens a sequence may still get, and all of them together.
abbrev pub left : Sequence → ℕ
left q = q.num_prompt_tokens + q.max_tokens - q.num_tokens

unfoldable pub tokens_left : List Sequence → ℕ
tokens_left [] = 0
tokens_left (q ∷ qs) = left q + tokens_left qs

left-set :
    (xs : List Sequence) (p : ℕ) (q q' : Sequence)
    → get_elem? xs p ≡ some q
    → tokens_left (set xs p q') + left q ≡ tokens_left xs + left q'
unfolding tokens_left
left-set [] p q q' h = cc
left-set (x ∷ xs) zero q q' h = ground arith
left-set (x ∷ xs) (suc p) q q' h = omega (arith, left-set xs p q q' h)

pub tokens_left-same :
    (xs ys : List Sequence)
    → ((k : ℕ) → SameBudget (get_elem? xs k) (get_elem? ys k))
    → length ys ≡ length xs
    → tokens_left ys ≡ tokens_left xs
unfolding tokens_left
tokens_left-same [] [] h e = refl
tokens_left-same [] (y ∷ ys) h e = absurd (omega arith)
tokens_left-same (x ∷ xs) [] h e = absurd (omega arith)
tokens_left-same (x ∷ xs) (y ∷ ys) h e =
    omega (arith, h zero, tokens_left-same xs ys (λ k. h (suc k)) (omega arith))

-- A sequence that has its prompt, may still get a token, and counts its tokens.
abbrev pub HasRoom : Option Sequence → Type 0
HasRoom o = (prompt_at o ≤ num_at o) × (num_at o < prompt_at o + max_at o) × (num_at o ≡ size_at o)

abbrev pub AllHaveRoom : Scheduler → Type 0
AllHaveRoom s =
    (k : ℕ) → 1 ≤ count k s.waiting + count k s.running → HasRoom (get_elem? s.sequences k)

-- What a round of `postprocess` for `p` has done.
pub record Advanced (s : Scheduler) (p : ℕ) (s' : Scheduler) : Type 0 where
  pub less : tokens_left s'.sequences + 1 ≡ tokens_left s.sequences
  pub others : (k : ℕ) → p ≢ k → get_elem? s'.sequences k ≡ get_elem? s.sequences k
  pub room : 1 ≤ count p s'.waiting + count p s'.running → HasRoom (get_elem? s'.sequences p)
  pub mode : s'.enable_chunked_prefill ≡ s.enable_chunked_prefill

module _ (s : Scheduler) (p : ℕ) (q : Sequence) (at : get_elem? s.sequences p ≡ some q)
    (has_room : HasRoom (some q)) (w0 : count p s.waiting ≡ 0) (r1 : count p s.running ≡ 1) where
  -- A sequence that is longer by one token is written, and either may get another or is nowhere.
  abbrev Longer : Sequence → Type 0
  Longer q' =
      (q'.num_tokens ≡ q.num_tokens + 1)
      × (q'.num_prompt_tokens ≡ q.num_prompt_tokens)
      × (q'.max_tokens ≡ q.max_tokens)
      × (length q'.token_ids ≡ length q.token_ids + 1)

  Longer-Advanced :
      (q' : Sequence) (s' : Scheduler)
      → Longer q'
      → s'.sequences ≡ set s.sequences p q'
      → s'.enable_chunked_prefill ≡ s.enable_chunked_prefill
      → (1 ≤ count p s'.waiting + count p s'.running → HasRoom (some q'))
      → Advanced s p s'
  Longer-Advanced q' s' longer e m room = record {
    less = omega (arith, left-set s.sequences p q q' at, ap tokens_left e);
    others = λ k ne. ap (λ xs. get_elem? xs k) e ∙ get_elem?-set_ne s.sequences p k q' ne;
    room = λ n.
        subst HasRoom
          (sym (
            ap (λ xs. get_elem? xs p) e
            ∙ get_elem?-set_self s.sequences p q' (get_elem?-lt s.sequences p q at)))
          (room n);
    mode = m;
  }

  finish_token-Advanced :
      (q₁ : Sequence) (t : ℕ) → SameNumbers q q₁ → IfOk (finish_token s p q₁ t) (Advanced s p)
  unfolding finish_token Sequence.append_token Sequence.num_completion_tokens count
  finish_token-Advanced q₁ t same = elim (Bool-cases (ends s q₁ t)) [
    | inl over ↦
        let q₂ : Sequence = record (Sequence.append_token q₁ t) {
          status = SequenceStatus.finished;
        } in
        rw over (
          IfOk-bind (BlockManager.deallocate s.block_manager q₂) _ (Advanced s p) λ r e.
            let emptied =
              IfOk-ok (BlockManager.deallocate s.block_manager q₂)
                (λ (x : BlockManager × Sequence). Emptied q₂ x.1) r
                (deallocate-Emptied s.block_manager q₂) e in
            Longer-Advanced (r.1) _
              (
                omega (arith, emptied, same),
                omega (arith, emptied, same),
                omega (arith, emptied, same),
                omega (arith, emptied, same, length-append q₁.token_ids (t ∷ [])),
              )
              refl refl
              (λ n.
                absurd (omega (arith, n, count-erase p p s.running, ap one_if (eq→== p p refl)))))
    | inr goes_on ↦
        let q₂ : Sequence = Sequence.append_token q₁ t in
        rw goes_on (
          Longer-Advanced q₂ (store s p q₂)
            (
              omega (arith, same),
              same.1,
              same.2,
              omega (arith, same, length-append q₁.token_ids (t ∷ [])),
            )
            refl refl
            (λ n. (
              omega (arith, same),
              more goes_on,
              omega (arith, same, has_room, length-append q₁.token_ids (t ∷ [])),
            )))
  ]
    where
      more : ends s q₁ t ≡ false → q₁.num_tokens + 1 < q₁.num_prompt_tokens + q₁.max_tokens
      more h = ground (arith, same)

  pub postprocess_one-Advanced :
      (t : ℕ) → Ready (some q) → IfOk (postprocess_one s p t) (Advanced s p)
  unfolding postprocess_one
  postprocess_one-Advanced t ready =
      let new = q.num_computed_tokens + q.num_tokens_to_process in
      let q' : Sequence = record q { num_computed_tokens = new; num_tokens_to_process = 0 } in
      rw at (elim (Bool-cases (ltb 0 q.num_tokens_to_process)) [
        | inl prefilling ↦
            let last : (new == q.num_tokens) ≡ true = ground arith in
            rw (prefilling, last) (finish_token-Advanced q' t (refl, refl, refl, refl))
        | inr decoding ↦ rw decoding (finish_token-Advanced q t (refl, refl, refl, refl))
      ])
