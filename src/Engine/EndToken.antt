-- ===== src/Engine/EndToken.antt =====
-- Which end token the scheduler of a new engine knows.
use nano_vllm_cpp.Base.{
  ℕ, ◌≡◌, ◌≢◌, refl, true, false, ◌==◌, arith, ok, IfOk, IfOk-ok, ltb, Bool-cases, inl, inr,
  if◌then◌else◌, ne→==,
}
use nano_vllm_cpp.Sequence
use nano_vllm_cpp.Sequence.{Sequence}
use nano_vllm_cpp.Scheduler
use nano_vllm_cpp.Scheduler.{Scheduler, SchedulerConfig, store}
use nano_vllm_cpp.Engine.{Engine, negative, new_engine}

new_engine-eos :
    (c : SchedulerConfig) (blocks t : ℕ)
    → IfOk (new_engine c blocks t) (λ e.
      (e.scheduler.eos ≡ c.eos_token_id)
      × (e.eos_token_id ≡ (if negative c.eos_token_id then t else c.eos_token_id)))
unfolding new_engine Scheduler.new_scheduler
new_engine-eos c blocks t = elim (Bool-cases (ltb 0 blocks)) [
  | inl some_blocks ↦ rw some_blocks (refl, refl)
  | inr nothing ↦ rw nothing tt
]

-- Where the configuration has no end token and the tokenizer has one, the new engine takes the
-- tokenizer's for itself, but its scheduler keeps the negative one of the configuration. So for a
-- sequence that does not ignore the end token, the tokenizer's end token is appended as any other
-- token, and the sequence runs on, unless it has reached its last allowed token.
pub new_engine_misses_eos :
    (c : SchedulerConfig) (blocks t : ℕ) (e : Engine) (s : Scheduler) (p : ℕ) (q : Sequence)
    → new_engine c blocks t ≡ ok e
    → negative c.eos_token_id ≡ true
    → negative t ≡ false
    → s.eos ≡ e.scheduler.eos
    → Sequence.num_completion_tokens (Sequence.append_token q t) ≢ q.max_tokens
    → (e.eos_token_id ≡ t)
      × (Scheduler.finish_token s p q t ≡ ok (store s p (Sequence.append_token q t)))
unfolding Scheduler.finish_token Sequence.append_token
new_engine_misses_eos c blocks t e s p q made none_set has_one same more =
    let (sched_eos, own_eos) =
      IfOk-ok (new_engine c blocks t)
        (λ x.
          (x.scheduler.eos ≡ c.eos_token_id)
          × (x.eos_token_id ≡ (if negative c.eos_token_id then t else c.eos_token_id)))
        e (new_engine-eos c blocks t) made in
    let other_token : (t == s.eos) ≡ false = ground arith in
    let goes_on = ne→== _ _ more in (ground arith, ground arith)
