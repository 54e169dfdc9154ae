-- ===== src/Scheduler/Default.antt =====
-- `add`, the constructor, and a whole step of `schedule_default`.
use nano_vllm_cpp.Base.{
  ℕ, zero, suc, ◌+◌, ◌≤◌, ◌<◌, ◌≡◌, refl, sym, ◌∙◌, ap, subst, List, [], ◌∷◌, ◌++◌, Bool, true,
  false, none, some, arith, length, get_elem?, ◌==◌, if◌then◌else◌, Bool-cases, inl, inr, ok, Safe,
  Safe-map,
}
use mathlib.Core.List.{append-nil}
use nano_vllm_cpp.Base.Counting.{count, count-append}
use nano_vllm_cpp.Sequence.{Sequence, SequenceStatus}
use nano_vllm_cpp.BlockManager
use nano_vllm_cpp.BlockManager.{BlockManager}
use nano_vllm_cpp.BlockManager.Invariant.{Inv-cong}
use nano_vllm_cpp.BlockManager.Append.{new_block_manager-Inv}
use nano_vllm_cpp.Scheduler.{
  Scheduler, SchedulerConfig, Scheduled, Batch, new_batch, is_empty, new_scheduler, add,
  decode_step, schedule_default,
}
use nano_vllm_cpp.Scheduler.Invariant.{SchedInv, Placed, Fits, total_holders}
use nano_vllm_cpp.Scheduler.Moves.{SameLimits, SameLimits-trans}
use nano_vllm_cpp.Scheduler.Decode.{StepDone, decode_step-Safe}
use nano_vllm_cpp.Scheduler.Prefill.{AllPlanned, Prefilling, Prefilled, prefill_loop_lem}

-- A new scheduler satisfies the invariant.
pub new_scheduler-SchedInv :
    (c : SchedulerConfig)
    → 0 < c.num_kvcache_blocks
    → (s : Scheduler) × (new_scheduler c ≡ ok s)
      × SchedInv s []
      × (s.waiting ≡ [])
      × (s.running ≡ [])
unfolding new_scheduler total_holders count
new_scheduler-SchedInv c h = (
  record {
    max_num_seqs = c.max_num_seqs;
    max_num_batched_tokens = c.max_num_batched_tokens;
    max_num_prefill_tokens = c.max_num_prefill_tokens;
    eos = c.eos_token_id;
    enable_chunked_prefill = c.enable_chunked_prefill;
    block_manager = BlockManager.new_block_manager c.num_kvcache_blocks c.kvcache_block_size;
    sequences = [];
    waiting = [];
    running = [];
  },
  ground arith,
  record {
    blocks = (new_block_manager-Inv c.num_kvcache_blocks c.kvcache_block_size).0;
    placed = λ p. (refl, refl);
  },
  refl,
  refl,
)

-- A new request: it has tokens, no blocks, and waits.
pub record Fresh (q : Sequence) : Type 0 where
  pub tokens : 1 ≤ q.num_tokens
  pub status : q.status ≡ SequenceStatus.waiting
  pub table : q.block_table ≡ []
  pub cached : q.num_cached_tokens ≡ 0

pub get_elem?-append :
    (qs : List Sequence) (q : Sequence) (k : ℕ)
    → get_elem? (qs ++ q ∷ []) k ≡ (if length qs == k then some q else get_elem? qs k)
get_elem?-append [] q zero = ground arith
get_elem?-append [] q (suc k) = ground arith
get_elem?-append (x ∷ qs) q zero = ground arith
get_elem?-append (x ∷ qs) q (suc k) = ground (arith, get_elem?-append qs q k)

pub get_elem?-past : (qs : List Sequence) (k : ℕ) → length qs ≡ k → get_elem? qs k ≡ none
get_elem?-past [] k e = refl
get_elem?-past (x ∷ qs) zero e = absurd (omega arith)
get_elem?-past (x ∷ qs) (suc k) e = get_elem?-past qs k (omega arith)

total-append :
    (qs : List Sequence) (q : Sequence) (b : ℕ)
    → total_holders (qs ++ q ∷ []) b ≡ total_holders qs b + count b q.block_table
unfolding total_holders
total-append [] q b = omega arith
total-append (x ∷ qs) q b = omega (arith, total-append qs q b)

-- `add` of a new request, which has at least one token, no blocks and the status waiting, keeps the
-- invariant.
pub add-SchedInv : (s : Scheduler) (q : Sequence) → SchedInv s [] → Fresh q → SchedInv (add s q) []
unfolding add count
add-SchedInv s q v f = record {
  blocks =
      Inv-cong (λ b. omega (arith, total-append s.sequences q b, ap (λ t. count b t) f.table))
        v.blocks;
  placed = λ k. elim (Bool-cases (length s.sequences == k)) [
    | inl new ↦
        let here : get_elem? (s.sequences ++ q ∷ []) k ≡ some q =
          ground (arith, get_elem?-append s.sequences q k) in
        let gone : get_elem? s.sequences k ≡ none = get_elem?-past s.sequences k (ground arith) in
        let was =
          subst (λ o. Placed o (count k s.waiting) (count k s.running + count k [])) gone
            (v.placed k) in
        subst
          (λ o.
            Placed o (count k (s.waiting ++ length s.sequences ∷ []))
              (count k s.running + count k []))
          (sym here)
          (
            f.tokens,
            subst
                (λ st.
                  Fits st q (count k (s.waiting ++ length s.sequences ∷ []))
                    (count k s.running + count k []))
                (sym f.status)
                (
                  ground (arith, count-append k s.waiting (length s.sequences ∷ []), was),
                  was.1,
                  f.table,
                  f.cached,
                ),
          )
    | inr old ↦
        let here : get_elem? (s.sequences ++ q ∷ []) k ≡ get_elem? s.sequences k =
          ground (arith, get_elem?-append s.sequences q k) in
        subst
          (λ o.
            Placed o (count k (s.waiting ++ length s.sequences ∷ []))
              (count k s.running + count k []))
          (sym here)
          (subst (λ w. Placed (get_elem? s.sequences k) w (count k s.running + count k []))
            (ground (arith, count-append k s.waiting (length s.sequences ∷ []))) (v.placed k))
  ];
}

-- What a step of `schedule_default` leaves.
pub record DefaultDone (s : Scheduler) (r : Scheduled) : Type 0 where
  pub step : StepDone s r
  -- A prefill takes the front of `waiting_`, in order, and each of its sequences processes the
  -- whole rest of its tokens, at least one.
  pub in_order : r.is_prefill ≡ true → s.waiting ≡ r.seqs ++ r.sched.waiting
  pub planned : r.is_prefill ≡ true → AllPlanned r.sched r.seqs

is_empty-eq : (xs : List ℕ) → is_empty xs ≡ true → xs ≡ []
is_empty-eq [] h = refl
is_empty-eq (x ∷ xs) h = cc

prefill_done :
    (s : Scheduler) (c : Batch)
    → Prefilled (new_batch s) c
    → is_empty c.scheduled ≡ false
    → DefaultDone s (record { sched = c.sched; seqs = c.scheduled; is_prefill = true })
prefill_done s c d some_seqs = record {
  step = record {
    inv = d.good.inv;
    some_seqs = nonempty c.scheduled some_seqs;
    bound = omega (arith, d.good.counted, d.good.seqs_bound, d.same.seqs);
    within = λ k. omega (
      arith,
      ap (λ xs. count k xs) d.good.at_back.1,
      count-append k d.good.at_back.0 c.scheduled,
    );
    same = d.same;
  };
  in_order = λ _. d.in_order.1 ∙ ap (λ xs. xs ++ c.sched.waiting) (sym d.in_order.2);
  planned = λ _. d.good.planned;
}
  where
    nonempty : (xs : List ℕ) → is_empty xs ≡ false → 1 ≤ length xs
    nonempty [] h = cc
    nonempty (x ∷ xs) h = omega arith

StepDone_from : (s t : Scheduler) (r : Scheduled) → SameLimits s t → StepDone t r → StepDone s r
StepDone_from s t r e d = record {
  inv = d.inv;
  some_seqs = d.some_seqs;
  bound = omega (arith, d.bound, e.seqs);
  within = d.within;
  same = SameLimits-trans e d.same;
}

start-Prefilling : (s : Scheduler) → SchedInv s [] → Prefilling (new_batch s)
start-Prefilling s v = record {
  inv = v;
  counted = refl;
  seqs_bound = omega arith;
  tokens_bound = omega arith;
  at_back = (s.running, sym (append-nil s.running));
  planned = tt;
}

-- From a state that satisfies the invariant, a step of `schedule_default` meets no fault but a
-- failed `assert`. If it returns, it has scheduled between 1 and `max_num_seqs` running sequences,
-- each once, and kept the invariant and the limits; if it is a prefill, it took the front of
-- `waiting_` in order and plans the whole rest of each sequence.
pub schedule_default-Safe :
    (xxh64 : List ℕ → ℕ) (s : Scheduler)
    → SchedInv s []
    → Safe (schedule_default xxh64 s) (DefaultDone s)
unfolding schedule_default
schedule_default-Safe xxh64 s v =
    let (c, run, d) = prefill_loop_lem xxh64 s.waiting (new_batch s) refl (start-Prefilling s v) in
    rw run (by c d (is_empty c.scheduled) refl)
  where
    by :
        (c : Batch)
        → Prefilled (new_batch s) c
        → (e : Bool) → is_empty c.scheduled ≡ e
        → Safe
            (if e
              then decode_step xxh64 c
              else ok (record { sched = c.sched; seqs = c.scheduled; is_prefill = true }))
            (DefaultDone s)
    by c d false some_seqs = prefill_done s c d some_seqs
    by c d true nobody =
        let nil = is_empty-eq c.scheduled nobody in
        Safe-map (decode_step xxh64 c)
          (decode_step-Safe xxh64 c nil (omega (arith, d.good.counted, ap (λ xs. length xs) nil))
            d.good.inv)
          λ r t. record {
            step = StepDone_from s c.sched r d.same t.0;
            in_order = λ e. cc;
            planned = λ e. cc;
          }
