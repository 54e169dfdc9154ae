-- ===== src/Scheduler.antt =====
-- include/engine/scheduler.h and src/engine/scheduler.cpp: which sequences run in a step.
-- A `Sequence*` is the index of its sequence in `sequences_`, which only grows at the end, so the
-- pointers stay good; a write through a pointer replaces the sequence there. The limits of the
-- configuration are non-negative. `num_tokens - 1` is written for sequences of at least one token.
pub mod Invariant
pub mod Moves
pub mod Room
pub mod DecodeOne
pub mod Decode
pub mod Prefill
pub mod Default
pub mod Postprocess
pub mod Admission
pub mod Work
pub mod Chunked
pub mod Steps
pub mod Frame
pub mod FrameDecode
pub mod FramePrefill
pub mod Progress
pub mod Advance
use mathlib.Core.List.{reverse}
use nano_vllm_cpp.Base.{
  ℕ, zero, suc, ◌+◌, ◌-◌, ◌≤◌, List, [], ◌∷◌, ◌++◌, Bool, true, false, not, Option, none, some,
  ◌&&◌, ◌||◌, length, get_elem?, set, last?, pop_back, Result, ok, err, out_of_range, assertion,
  ◌>>=◌, ◌>>◌, guard, or_fail, ltb, leb, ◌==◌, if◌then◌else◌, min, out_of_fuel,
}
use nano_vllm_cpp.Base.Counting.{erase}
use nano_vllm_cpp.Sequence
use nano_vllm_cpp.Sequence.{Sequence, SequenceStatus}
use nano_vllm_cpp.BlockManager
use nano_vllm_cpp.BlockManager.{BlockManager}

-- What the scheduler reads of `Config`.
pub record SchedulerConfig : Type 0 where
  pub max_num_seqs : ℕ
  pub max_num_batched_tokens : ℕ
  pub max_num_prefill_tokens : ℕ
  pub eos_token_id : ℕ
  pub enable_chunked_prefill : Bool
  pub num_kvcache_blocks : ℕ
  pub kvcache_block_size : ℕ

pub record Scheduler : Type 0 where
  pub max_num_seqs : ℕ
  pub max_num_batched_tokens : ℕ
  pub max_num_prefill_tokens : ℕ
  pub eos : ℕ
  pub enable_chunked_prefill : Bool
  pub block_manager : BlockManager
  pub sequences : List Sequence
  pub waiting : List ℕ
  pub running : List ℕ

-- The constructor.
unfoldable pub new_scheduler : SchedulerConfig → Result Scheduler
new_scheduler c = do
  guard (ltb 0 c.num_kvcache_blocks) assertion
  ok (record {
    max_num_seqs = c.max_num_seqs;
    max_num_batched_tokens = c.max_num_batched_tokens;
    max_num_prefill_tokens = c.max_num_prefill_tokens;
    eos = c.eos_token_id;
    enable_chunked_prefill = c.enable_chunked_prefill;
    block_manager = BlockManager.new_block_manager c.num_kvcache_blocks c.kvcache_block_size;
    sequences = [];
    waiting = [];
    running = [];
  })

unfoldable pub add : Scheduler → Sequence → Scheduler
add s q = record s {
  sequences = s.sequences ++ q ∷ [];
  waiting = s.waiting ++ length s.sequences ∷ [];
}

abbrev pub is_empty {ℓ} : {A : Type ℓ} → List A → Bool
is_empty [] = true
is_empty (x ∷ xs) = false

unfoldable pub is_finished : Scheduler → Bool
is_finished s = is_empty s.waiting && is_empty s.running

-- `*p`, and a write through `p`.
abbrev pub seq_at : Scheduler → ℕ → Result Sequence
seq_at s p = or_fail (get_elem? s.sequences p) out_of_range

abbrev pub store : Scheduler → ℕ → Sequence → Scheduler
store s p q = record s { sequences = set s.sequences p q }

unfoldable pub preempt : Scheduler → ℕ → Result Scheduler
preempt s p = do
  q ← seq_at s p
  (m, q') ← BlockManager.deallocate s.block_manager (record q { status = SequenceStatus.waiting })
  ok (record s { block_manager = m; sequences = set s.sequences p q'; waiting = p ∷ s.waiting })

-- The variables of the loops of a step.
pub record Batch : Type 0 where
  pub sched : Scheduler
  pub scheduled : List ℕ
  pub num_seqs : ℕ
  pub num_batched_tokens : ℕ

abbrev pub new_batch : Scheduler → Batch
new_batch s = record { sched = s; scheduled = []; num_seqs = 0; num_batched_tokens = 0 }

-- A result of `schedule`: the state, the scheduled sequences, and whether this is a prefill.
pub record Scheduled : Type 0 where
  pub sched : Scheduler
  pub seqs : List ℕ
  pub is_prefill : Bool

-- How many tokens of an admitted sequence count as computed.
abbrev pub seeded : Sequence → ℕ
seeded q = min q.num_cached_tokens (q.num_tokens - 1)

-- The test by which the first loop of `schedule_default` breaks.
unfoldable pub blocked : Batch → Sequence → Bool
blocked b q =
    ltb b.sched.max_num_batched_tokens (b.num_batched_tokens + q.num_tokens)
    || not (BlockManager.can_allocate b.sched.block_manager q)

module _ (xxh64 : List ℕ → ℕ) where
  -- The body of the two admission loops: blocks are allocated, the sequence runs, and its pointer
  -- goes from the front of `waiting_` to the back of `running_`. `whole` says that the whole rest
  -- of the prompt is processed in this step.
  unfoldable pub admit : Bool → Scheduler → ℕ → List ℕ → Sequence → Result (Scheduler × Sequence)
  admit whole s p rest q = do
    (m, q₁) ← BlockManager.allocate xxh64 s.block_manager q
    let q₂ = record q₁ {
      num_computed_tokens = seeded q₁;
      num_tokens_to_process = if whole then q₁.num_tokens - seeded q₁ else 0;
      status = SequenceStatus.running;
    }
    ok (
      record s {
        block_manager = m;
        sequences = set s.sequences p q₂;
        waiting = rest;
        running = s.running ++ p ∷ [];
      },
      q₂,
    )

  -- The first loop of `schedule_default`; the list is `waiting_`.
  unfoldable pub prefill_loop : List ℕ → Batch → Result Batch
  prefill_loop [] b = ok b
  prefill_loop (p ∷ rest) b = elim (ltb b.num_seqs b.sched.max_num_seqs) [
    | false ↦ ok b
    | true ↦ do
      q ← seq_at b.sched p
      elim (blocked b q) [
        | true ↦ ok b
        | false ↦ do
          (s, q') ← admit true b.sched p rest q
          prefill_loop rest (record {
            sched = s;
            scheduled = b.scheduled ++ p ∷ [];
            num_seqs = b.num_seqs + 1;
            num_batched_tokens = b.num_batched_tokens + q'.num_tokens - q'.num_cached_tokens;
          })
      ]
  ]

  -- Phase 1 of `schedule_chunked`; the number is `num_seqs`.
  unfoldable pub admit_loop : List ℕ → Scheduler → ℕ → Result Scheduler
  admit_loop [] s num_seqs = ok s
  admit_loop (p ∷ rest) s num_seqs = elim (ltb (num_seqs + length s.running) s.max_num_seqs) [
    | false ↦ ok s
    | true ↦ do
      q ← seq_at s p
      elim (BlockManager.can_allocate s.block_manager q) [
        | false ↦ ok s
        | true ↦ do (s', q') ← admit false s p rest q; admit_loop rest s' (num_seqs + 1)
      ]
  ]

-- The loop `while (!can_append(*seq))`: the last running sequence is preempted, or `p` itself where
-- none is left; the second part says so. The fuel is more than the number of running sequences.
unfoldable pub make_room : ℕ → Scheduler → ℕ → Result (Scheduler × Bool)
make_room zero s p = err out_of_fuel
make_room (suc fuel) s p = do
  q ← seq_at s p
  elim (BlockManager.can_append s.block_manager q) [
    | true ↦ ok (s, false)
    | false ↦ elim (last? s.running) [
      | none ↦ do s' ← preempt s p; ok (s', true)
      | some victim ↦ do
        s' ← preempt (record s { running = pop_back s.running }) victim
        make_room fuel s' p
    ]
  ]

module _ (xxh64 : List ℕ → ℕ) where
  -- The end of a round of the decode loop.
  unfoldable pub decode_one : Scheduler → ℕ → Result Scheduler
  decode_one s p = do
    q ← seq_at s p
    (m, q') ← BlockManager.may_append xxh64 s.block_manager q
    ok (record s {
      block_manager = m;
      sequences = set s.sequences p (record q' { num_tokens_to_process = 0 });
    })

  -- The decode loop of both paths. Each round takes at least the front of `running_`, so the number
  -- of running sequences is fuel enough.
  unfoldable pub decode_loop : ℕ → Batch → Result Batch
  decode_loop zero b = ok b
  decode_loop (suc fuel) b = elim (b.sched.running) [
    | [] ↦ ok b
    | p ∷ rest ↦ elim (ltb b.num_seqs b.sched.max_num_seqs) [
      | false ↦ ok b
      | true ↦ do
        (s, was_preempted) ← make_room (suc (length rest)) (record (b.sched) { running = rest }) p
        elim was_preempted [
          | true ↦ decode_loop fuel (record b { sched = s })
          | false ↦ do
            s' ← decode_one s p
            decode_loop fuel (record b {
              sched = s';
              scheduled = b.scheduled ++ p ∷ [];
              num_seqs = b.num_seqs + 1;
            })
        ]
    ]
  ]

  -- The decode step: the loop, the `assert`, and the scheduled sequences go back to the front.
  unfoldable pub decode_step : Batch → Result Scheduled
  decode_step b = do
    c ← decode_loop (length b.sched.running) b
    guard (not (is_empty c.scheduled)) assertion
    ok (record {
      sched = record (c.sched) { running = c.scheduled ++ c.sched.running };
      seqs = c.scheduled;
      is_prefill = false;
    })

  unfoldable pub schedule_default : Scheduler → Result Scheduled
  schedule_default s = do
    b ← prefill_loop xxh64 s.waiting (new_batch s)
    if is_empty b.scheduled
        then decode_step b
        else ok (record { sched = b.sched; seqs = b.scheduled; is_prefill = true })

-- Phase 2 of `schedule_chunked`: the running sequences with at least two positions to compute.
unfoldable pub prefill_candidates : Scheduler → List ℕ → Result (List ℕ)
prefill_candidates s [] = ok []
prefill_candidates s (p ∷ ps) = do
  q ← seq_at s p
  rest ← prefill_candidates s ps
  ok (if ltb q.num_computed_tokens (q.num_tokens - 1) then p ∷ rest else rest)

-- The budget is handed out in the order of the candidates.
unfoldable pub chunk_loop : List ℕ → ℕ → Scheduler → List ℕ → Result (Scheduler × List ℕ)
chunk_loop [] budget s scheduled = ok (s, scheduled)
chunk_loop (p ∷ ps) budget s scheduled = elim (ltb (length scheduled) s.max_num_seqs) [
  | false ↦ ok (s, scheduled)
  | true ↦ do
    q ← seq_at s p
    let remaining = q.num_tokens - q.num_computed_tokens
    let chunk = min remaining budget
    elim (remaining == 0) [
      | true ↦ chunk_loop ps budget s scheduled
      | false ↦ elim (chunk == 0) [
        | true ↦ ok (s, scheduled)
        | false ↦
            chunk_loop ps (budget - chunk) (store s p (record q { num_tokens_to_process = chunk }))
              (scheduled ++ p ∷ [])
      ]
    ]
]

-- Where nothing fits the budget, the first candidate gets one token.
unfoldable pub force_one : Scheduler → ℕ → Result Scheduled
force_one s p = do
  q ← seq_at s p
  ok (record {
    sched = store s p (record q { num_tokens_to_process = 1 });
    seqs = p ∷ [];
    is_prefill = true;
  })

unfoldable pub prefill_chunks : Scheduler → ℕ → List ℕ → Result Scheduled
prefill_chunks s p ps = do
  (s', scheduled) ← chunk_loop (p ∷ ps) (min s.max_num_prefill_tokens s.max_num_batched_tokens) s []
  if is_empty scheduled
      then force_one s' p
      else ok (record { sched = s'; seqs = scheduled; is_prefill = true })

module _ (xxh64 : List ℕ → ℕ) where
  unfoldable pub schedule_chunked : Scheduler → Result Scheduled
  schedule_chunked s = do
    s₁ ← admit_loop xxh64 s.waiting s 0
    candidates ← prefill_candidates s₁ s₁.running
    elim candidates [ [] ↦ decode_step xxh64 (new_batch s₁) | p ∷ ps ↦ prefill_chunks s₁ p ps ]

  unfoldable pub schedule : Scheduler → Result Scheduled
  schedule s = do
    guard (not (is_finished s)) assertion
    if s.enable_chunked_prefill then schedule_chunked s else schedule_default xxh64 s

-- The end of a round of `postprocess`: the sampled token is appended, and the sequence finishes at
-- the end token or at its last allowed token.
unfoldable pub finish_token : Scheduler → ℕ → Sequence → ℕ → Result Scheduler
finish_token s p q token_id =
    let q' = Sequence.append_token q token_id in
    if (not q'.ignore_eos && token_id == s.eos)
      || Sequence.num_completion_tokens q' == q'.max_tokens
    then (do
      (m, q'') ←
          BlockManager.deallocate s.block_manager (record q' { status = SequenceStatus.finished })
      ok (record s {
        block_manager = m;
        sequences = set s.sequences p q'';
        running = erase p s.running;
      }))
    else ok (store s p q')

-- One round of `postprocess`.
unfoldable pub postprocess_one : Scheduler → ℕ → ℕ → Result Scheduler
postprocess_one s p token_id = do
  q ← seq_at s p
  let new_computed = q.num_computed_tokens + q.num_tokens_to_process
  let q' = record q { num_computed_tokens = new_computed; num_tokens_to_process = 0 }
  if ltb 0 q.num_tokens_to_process
      then (if new_computed == q.num_tokens
          then finish_token s p q' token_id
          else ok (store s p q'))
      else finish_token s p q token_id

unfoldable pub postprocess_all : Scheduler → List ℕ → List ℕ → Result Scheduler
postprocess_all s (p ∷ ps) (t ∷ ts) = postprocess_one s p t >>= λ s'. postprocess_all s' ps ts
postprocess_all s ps ts = ok s

unfoldable pub postprocess : Scheduler → List ℕ → List ℕ → Result Scheduler
postprocess s seqs token_ids =
    guard (length seqs == length token_ids) assertion >> postprocess_all s seqs token_ids
