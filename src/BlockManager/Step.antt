-- ===== src/BlockManager/Step.antt =====
-- What one round of the loop in `allocate` does.
use nano_vllm_cpp.Base.{
  ℕ, ◌+◌, ◌-◌, ◌*◌, ◌≤◌, ◌<◌, ◌≡◌, ◌≢◌, refl, sym, ◌∙◌, ap, subst, inl, inr, List, [], ◌∷◌, ◌++◌,
  true, Option, none, some, arith, length, ok, ◌==◌, if◌then◌else◌, Option-cases, Bool-cases, take,
  drop, min,
}
use nano_vllm_cpp.Sequence
use nano_vllm_cpp.Sequence.{Sequence}
use native.Mathlib.Decide.{ℕ_discrete}
use nano_vllm_cpp.BlockManager.{
  BlockManager, Progress, no_hash, look_up, register, chain_hash, allocate_step, is_miss,
}
use nano_vllm_cpp.BlockManager.Invariant.{Inv, Touches, plus_one, tokens_at, register_lem}
use nano_vllm_cpp.BlockManager.Claim.{Claimed, claim_lem, look_up_lem}

-- The tokens of the logical block `i`, and that `block` returns them within the blocks.
abbrev pub chunk : Sequence → ℕ → List ℕ
chunk s i =
    take
      (min (i * Sequence.block_size + Sequence.block_size) s.num_tokens - i * Sequence.block_size)
      (drop (i * Sequence.block_size) s.token_ids)

pub block-chunk :
    (s : Sequence) (i : ℕ) → i < Sequence.num_blocks s → Sequence.block s i ≡ ok (chunk s i)
unfolding Sequence.block Sequence.num_blocks
block-chunk s i h = ground arith

-- The state after the round is settled: the block is registered unless it has no hash.
pub record Settled (m : BlockManager) (holders : ℕ → ℕ) (h id : ℕ) (tids : List ℕ)
    (m' : BlockManager) : Type 0 where
  pub settles : (if h == no_hash then ok m else register m id h tids) ≡ ok m'
  pub inv : Inv m' holders
  pub room : m'.free_block_ids ≡ m.free_block_ids
  pub touches : Touches m id m'
  pub recorded : h ≢ no_hash → tokens_at m' id ≡ some tids
  pub kept : tokens_at m id ≡ some tids → tokens_at m' id ≡ tokens_at m id

settle_lem :
    (m : BlockManager) (holders : ℕ → ℕ) (h id : ℕ) (tids : List ℕ)
    → Inv m holders
    → id < length m.blocks
    → (m' : BlockManager) × Settled m holders h id tids m'
settle_lem m holders h id tids v there = elim (Bool-cases (h == no_hash)) [
  | inl none_yet ↦ (
    m,
    record {
      settles = rw none_yet;
      inv = v;
      room = refl;
      touches = record { others = λ b ne. refl; size_kept = refl; count_kept = refl };
      recorded = λ ne. absurd (ne (ground arith));
      kept = λ e. refl;
    },
  )
  | inr hashed ↦
      let (m', e, w, f, t, r, g) = register_lem m holders v id h tids there in
      (
        m',
        record {
          settles = rw hashed e;
          inv = w;
          room = f;
          touches = t;
          recorded = λ ne. r;
          kept = λ e. r ∙ sym e;
        },
      )
]

module _ (xxh64 : List ℕ → ℕ) where
  pub record Stepped (p : Progress) (holders : ℕ → ℕ) (i id : ℕ) (q : Progress) : Type 0 where
    pub steps : allocate_step xxh64 p i ≡ ok q
    pub seq_after : q.seq ≡ record (p.seq) {
      num_cached_tokens =
          p.seq.num_cached_tokens + (if q.cache_miss then 0 else p.manager.block_size);
      block_table = p.seq.block_table ++ id ∷ [];
    }
    pub inv : Inv q.manager (plus_one holders id)
    pub room : length p.manager.free_block_ids ≤ length q.manager.free_block_ids + 1
    pub size_kept : q.manager.block_size ≡ p.manager.block_size
    pub key : q.h ≡ chain_hash xxh64 p.manager.block_size (chunk p.seq i) p.h
    pub recorded : q.h ≢ no_hash → tokens_at q.manager id ≡ some (chunk p.seq i)
    pub frame : (b : ℕ) → holders b ≢ 0 → tokens_at q.manager b ≡ tokens_at p.manager b
    pub fresh : q.cache_miss ≡ true → holders id ≡ 0
    pub sticky : p.cache_miss ≡ true → q.cache_miss ≡ true

  held_in_range :
      (m : BlockManager) (holders : ℕ → ℕ)
      → Inv m holders
      → (b : ℕ) → holders b ≢ 0
      → b < length m.blocks
  held_in_range m holders v b ne = ground (arith, v.free_once b)

  module _ (p : Progress) (holders : ℕ → ℕ) (i : ℕ) (within : i < Sequence.num_blocks p.seq)
      (found : Option ℕ)
      (looked : look_up p.manager p.cache_miss
          (chain_hash xxh64 p.manager.block_size (chunk p.seq i) p.h)
          (chunk p.seq i)
        ≡ ok found)
      (hit_info : (j : ℕ) → found ≡ some j → tokens_at p.manager j ≡ some (chunk p.seq i))
      (sticks : p.cache_miss ≡ true → found ≡ none) (id : ℕ) (m₁ m₂ : BlockManager)
      (c : Claimed p.manager holders found id m₁)
      (d : Settled m₁
        (plus_one holders id)
        (chain_hash xxh64 p.manager.block_size (chunk p.seq i) p.h)
        id
        (chunk p.seq i)
        m₂) where
    abbrev after : Progress
    after = record {
      manager = m₂;
      seq = record (p.seq) {
        num_cached_tokens =
            p.seq.num_cached_tokens + (if is_miss found then 0 else p.manager.block_size);
        block_table = p.seq.block_table ++ id ∷ [];
      };
      h = chain_hash xxh64 p.manager.block_size (chunk p.seq i) p.h;
      cache_miss = is_miss found;
    }

    hit_tokens : holders id ≢ 0 → tokens_at p.manager id ≡ some (chunk p.seq i)
    hit_tokens held = elim (Option-cases found) [
      | inl miss ↦ absurd (held (c.fresh miss))
      | inr (j, hit) ↦ rw (c.hits j hit) (hit_info j hit)
    ]

    frame_after : (b : ℕ) → holders b ≢ 0 → tokens_at m₂ b ≡ tokens_at p.manager b
    frame_after b held = elim (ℕ_discrete id b) [
      | yes same ↦
          subst (λ k. tokens_at m₂ k ≡ tokens_at p.manager k) same
            (let held' : holders id ≢ 0 = (λ z. held (subst (λ k. holders k ≡ 0) same z)) in
              d.kept (c.kept held' ∙ hit_tokens held') ∙ c.kept held')
      | no other ↦ cc (d.touches.others b other, c.touches.others b other)
    ]

    stepped : Stepped p holders i id after
    unfolding allocate_step
    stepped = record {
      steps = rw (block-chunk p.seq i within, looked, c.claims, d.settles);
      seq_after = refl;
      inv = d.inv;
      room = omega (arith, c.room, ap (λ xs. length xs) d.room);
      size_kept = d.touches.size_kept ∙ c.touches.size_kept;
      key = refl;
      recorded = d.recorded;
      frame = frame_after;
      fresh = λ miss. c.fresh (ground arith);
      sticky = λ miss. rw (sticks miss);
    }

  -- A round within the blocks, with a block free, meets no fault.
  pub step_lem :
      (p : Progress) (holders : ℕ → ℕ) (i : ℕ)
      → Inv p.manager holders
      → i < Sequence.num_blocks p.seq
      → 1 ≤ length p.manager.free_block_ids
      → (id : ℕ) × (q : Progress) × Stepped p holders i id q
  step_lem p holders i v within room =
      let m = p.manager in
      let tids = chunk p.seq i in
      let h = chain_hash xxh64 m.block_size tids p.h in
      let (found, e₁, hit_info, sticks) = look_up_lem m holders v p.cache_miss h tids in
      let (id, m₁, c) = claim_lem m holders v found room (λ j f. (hit_info j f).0) in
      let there : id < length m₁.blocks =
        held_in_range m₁ (plus_one holders id) c.inv id (ground arith) in
      let (m₂, d) = settle_lem m₁ (plus_one holders id) h id tids c.inv there in
      (
        id,
        after p holders i within found e₁ (λ j f. (hit_info j f).1) sticks id m₁ m₂ c d,
        stepped p holders i within found e₁ (λ j f. (hit_info j f).1) sticks id m₁ m₂ c d,
      )
