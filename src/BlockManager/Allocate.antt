-- ===== src/BlockManager/Allocate.antt =====
-- `allocate` of a whole sequence.
use nano_vllm_cpp.Base.{
  ℕ, zero, suc, ◌+◌, ◌-◌, ◌*◌, ◌≤◌, ◌≡◌, ◌≢◌, refl, sym, ◌∙◌, ap, subst, inl, inr, List, [], ◌∷◌,
  ◌++◌, true, false, some, arith, length, ok, ◌==◌, if◌then◌else◌, Bool-cases, take, drop, min,
}
use mathlib.Core.Path.{ap₂}
use mathlib.Core.List.{append-nil, append_assoc}
use nano_vllm_cpp.Base.Counting.{count}
use nano_vllm_cpp.Sequence
use nano_vllm_cpp.Sequence.{Sequence}
use nano_vllm_cpp.BlockManager.{
  BlockManager, Progress, no_hash, chain_hash, allocate_from, allocate, can_allocate,
}
use nano_vllm_cpp.BlockManager.Invariant.{Inv, Inv-cong, plus_one, tokens_at}
use nano_vllm_cpp.BlockManager.Step.{Stepped, step_lem}

-- The tokens of the logical blocks from `i` on, `n` of them, of a sequence of `num` tokens.
abbrev pub chunks : ℕ → List ℕ → ℕ → ℕ → List (List ℕ)
chunks num tokens i zero = []
chunks num tokens i (suc n) =
    take (min (i * Sequence.block_size + Sequence.block_size) num - i * Sequence.block_size)
      (drop (i * Sequence.block_size) tokens)
    ∷ chunks num tokens (i + 1) n

-- The hash of each chunk, chained from the hash `h` of what stands before it.
abbrev pub keys : (List ℕ → ℕ) → ℕ → ℕ → List (List ℕ) → List ℕ
keys xxh64 size h [] = []
keys xxh64 size h (c ∷ cs) =
    chain_hash xxh64 size c h ∷ keys xxh64 size (chain_hash xxh64 size c h) cs

-- The blocks record the chunks, but for those that have no hash.
abbrev pub Recorded : BlockManager → List ℕ → List (List ℕ) → List ℕ → Type 0
Recorded m (id ∷ ids) (c ∷ cs) (k ∷ ks) =
    (k ≢ no_hash → tokens_at m id ≡ some c) × Recorded m ids cs ks
Recorded m ids cs ks = Unit

-- No block of the list has a holder.
abbrev pub Unheld : (ℕ → ℕ) → List ℕ → Type 0
Unheld holders [] = Unit
Unheld holders (id ∷ ids) = (holders id ≡ 0) × Unheld holders ids

Unheld-less :
    (holders : ℕ → ℕ) (x : ℕ) (ids : List ℕ) → Unheld (plus_one holders x) ids → Unheld holders ids
Unheld-less holders x [] u = tt
Unheld-less holders x (id ∷ ids) u = (omega (arith, u.0), Unheld-less holders x ids u.1)

module _ (xxh64 : List ℕ → ℕ) where
  record Ran (p : Progress) (holders : ℕ → ℕ) (n i : ℕ) (ids : List ℕ) (hits : ℕ) (q : Progress)
      : Type 0 where
    runs : allocate_from xxh64 n p i ≡ ok q
    seq_after : q.seq ≡ record (p.seq) {
      num_cached_tokens = p.seq.num_cached_tokens + hits * p.manager.block_size;
      block_table = p.seq.block_table ++ ids;
    }
    counted : length ids ≡ n
    inv : Inv q.manager (λ b. count b ids + holders b)
    room : length p.manager.free_block_ids ≤ length q.manager.free_block_ids + n
    size_kept : q.manager.block_size ≡ p.manager.block_size
    frame : (b : ℕ) → holders b ≢ 0 → tokens_at q.manager b ≡ tokens_at p.manager b
    recorded :
        Recorded q.manager ids
          (chunks p.seq.num_tokens p.seq.token_ids i n)
          (keys xxh64 p.manager.block_size p.h (chunks p.seq.num_tokens p.seq.token_ids i n))
    hit_bound : hits ≤ n
    missed : p.cache_miss ≡ true → hits ≡ 0
    fresh : Unheld holders (drop hits ids)

  module _ (p : Progress) (holders : ℕ → ℕ) (n i id : ℕ) (q r : Progress) (ids : List ℕ) (hits : ℕ)
      (a : Stepped xxh64 p holders i id q)
      (b : Ran q (plus_one holders id) n (i + 1) ids hits r) where
    abbrev all_hits : ℕ
    all_hits = if q.cache_miss then 0 else suc hits

    cached_both :
        p.seq.num_cached_tokens
          + (if q.cache_miss then 0 else p.manager.block_size)
          + hits * q.manager.block_size
        ≡ p.seq.num_cached_tokens + all_hits * p.manager.block_size
    cached_both = rw (a.size_kept) (elim (Bool-cases q.cache_miss) [
      | inl miss ↦ rw (miss, b.missed miss) (omega arith)
      | inr hit ↦ rw hit (omega arith)
    ])

    abbrev with_table : Sequence → ℕ → List ℕ → Sequence
    with_table s cached table = record s { num_cached_tokens = cached; block_table = table }

    seq_both : r.seq ≡ record (p.seq) {
      num_cached_tokens = p.seq.num_cached_tokens + all_hits * p.manager.block_size;
      block_table = p.seq.block_table ++ id ∷ ids;
    }
    seq_both =
        b.seq_after
        ∙ ap
            (λ s.
              with_table s (s.num_cached_tokens + hits * q.manager.block_size)
                (s.block_table ++ ids))
            a.seq_after
        ∙ ap (λ c. with_table p.seq c ((p.seq.block_table ++ id ∷ []) ++ ids)) cached_both
        ∙ ap (with_table p.seq (p.seq.num_cached_tokens + all_hits * p.manager.block_size))
            (append_assoc p.seq.block_table (id ∷ []) ids)

    fresh_both : Unheld holders (drop all_hits (id ∷ ids))
    fresh_both = elim (Bool-cases q.cache_miss) [
      | inl miss ↦ rw miss (
        a.fresh miss,
        Unheld-less holders id ids
            (subst (λ k. Unheld (plus_one holders id) (drop k ids)) (b.missed miss) b.fresh),
      )
      | inr hit ↦ rw hit (Unheld-less holders id (drop hits ids) b.fresh)
    ]

    same_chunks :
        (j k : ℕ)
        → chunks q.seq.num_tokens q.seq.token_ids j k ≡ chunks p.seq.num_tokens p.seq.token_ids j k
    same_chunks j k = ap (λ s. chunks s.num_tokens s.token_ids j k) a.seq_after

    Recorded-both :
        Recorded r.manager
          (id ∷ ids)
          (chunks p.seq.num_tokens p.seq.token_ids i (suc n))
          (keys xxh64 p.manager.block_size p.h (chunks p.seq.num_tokens p.seq.token_ids i (suc n)))
    Recorded-both = (
      (λ hashed. b.frame id (ground arith) ∙ a.recorded (rw a.key hashed)),
      subst
          (λ h.
            Recorded r.manager ids (chunks p.seq.num_tokens p.seq.token_ids (i + 1) n) (
              keys xxh64 p.manager.block_size h
                (chunks p.seq.num_tokens p.seq.token_ids (i + 1) n)))
          a.key
          (subst (λ cs. Recorded r.manager ids cs (keys xxh64 p.manager.block_size q.h cs))
            (same_chunks (i + 1) n)
            (subst
              (λ z.
                Recorded r.manager ids (chunks q.seq.num_tokens q.seq.token_ids (i + 1) n)
                  (keys xxh64 z q.h (chunks q.seq.num_tokens q.seq.token_ids (i + 1) n)))
              a.size_kept b.recorded)),
    )

    Ran-both : Ran p holders (suc n) i (id ∷ ids) all_hits r
    unfolding allocate_from count
    Ran-both = record {
      runs = rw a.steps b.runs;
      seq_after = seq_both;
      counted = omega (arith, b.counted);
      inv = Inv-cong (λ k. omega arith) b.inv;
      room = omega (arith, a.room, b.room);
      size_kept = b.size_kept ∙ a.size_kept;
      frame = λ k held. b.frame k (ground arith) ∙ a.frame k held;
      recorded = Recorded-both;
      hit_bound = ground (arith, b.hit_bound);
      missed = λ m. ground (arith, a.sticky m);
      fresh = fresh_both;
    }

  same_blocks :
      (s t : Sequence) (c : ℕ) (b : List ℕ)
      → t ≡ record s { num_cached_tokens = c; block_table = b }
      → Sequence.num_blocks t ≡ Sequence.num_blocks s
  unfolding Sequence.num_blocks
  same_blocks s t c b e = ap (λ s. Sequence.num_blocks s) e

  allocate_from_lem :
      (n : ℕ) (p : Progress) (holders : ℕ → ℕ) (i : ℕ)
      → Inv p.manager holders
      → i + n ≤ Sequence.num_blocks p.seq
      → n ≤ length p.manager.free_block_ids
      → (ids : List ℕ) × (hits : ℕ) × (q : Progress) × Ran p holders n i ids hits q
  unfolding allocate_from count
  allocate_from_lem zero p holders i v within room = (
    [],
    0,
    p,
    record {
      runs = refl;
      seq_after =
          ap₂ (λ c t. record (p.seq) { num_cached_tokens = c; block_table = t }) (omega arith)
            (sym (append-nil p.seq.block_table));
      counted = refl;
      inv = Inv-cong (λ k. omega arith) v;
      room = omega arith;
      size_kept = refl;
      frame = λ k held. refl;
      recorded = tt;
      hit_bound = omega arith;
      missed = λ m. refl;
      fresh = tt;
    },
  )
  allocate_from_lem (suc n) p holders i v within room =
      let (id, q, a) = step_lem xxh64 p holders i v (omega arith) (omega arith) in
      let (ids, hits, r, b) =
        allocate_from_lem n q (plus_one holders id) (i + 1) a.inv
          (rw (same_blocks p.seq q.seq _ _ a.seq_after) (omega arith)) (omega (arith, a.room)) in
      (
        id ∷ ids,
        all_hits p holders n i id q r ids hits a b,
        r,
        Ran-both p holders n i id q r ids hits a b,
      )

  -- What `allocate` promises.
  pub record Allocated (m : BlockManager) (s : Sequence) (others : ℕ → ℕ) (m' : BlockManager)
      (table : List ℕ) (hits : ℕ) : Type 0 where
    pub allocates :
        allocate xxh64 m s
        ≡ ok (
          m',
          record s {
            num_cached_tokens = s.num_cached_tokens + hits * m.block_size;
            block_table = table;
          },
        )
    pub inv : Inv m' (λ b. count b table + others b)
    pub counted : length table ≡ Sequence.num_blocks s
    pub room : length m.free_block_ids ≤ length m'.free_block_ids + Sequence.num_blocks s
    pub size_kept : m'.block_size ≡ m.block_size
    pub frame : (b : ℕ) → others b ≢ 0 → tokens_at m' b ≡ tokens_at m b
    pub recorded : Recorded m' table (chunks s.num_tokens s.token_ids 0 (Sequence.num_blocks s)) (
        keys xxh64 m.block_size no_hash (chunks s.num_tokens s.token_ids 0 (Sequence.num_blocks s)))
    pub hit_bound : hits ≤ Sequence.num_blocks s
    pub fresh : Unheld others (drop hits table)

  -- Where `can_allocate` says yes, `allocate` of a sequence with an empty table meets no fault. It
  -- gives the sequence one block for each of its logical blocks and counts the table among the
  -- holders. A prefix of `hits` blocks comes from the cache and adds `block_size` cached tokens
  -- each; all later blocks had no holder. Each block of the table that gets a hash records exactly
  -- the tokens of its logical block, and what the blocks of other holders record is unchanged.
  pub allocate_lem :
      (m : BlockManager) (s : Sequence) (others : ℕ → ℕ)
      → Inv m others
      → s.block_table ≡ []
      → can_allocate m s ≡ true
      → (m' : BlockManager) × (table : List ℕ) × (hits : ℕ) × Allocated m s others m' table hits
  unfolding allocate can_allocate
  allocate_lem m s others v empty room =
      let start : Progress = record { manager = m; seq = s; h = no_hash; cache_miss = false } in
      let (ids, hits, q, r) =
        allocate_from_lem (Sequence.num_blocks s) start others 0 v (omega arith) (ground arith) in
      let no_table : (length s.block_table == 0) ≡ true = ground arith in
      let tabled = λ (k : ℕ) (xs : List ℕ).
        ap
          (λ t. record s {
            num_cached_tokens = s.num_cached_tokens + k * m.block_size;
            block_table = t ++ xs;
          })
          empty in
      (
        q.manager,
        ids,
        hits,
        record {
          allocates =
              rw (no_table, r.runs) (ap (λ t. ok (q.manager, t)) (r.seq_after ∙ tabled hits ids));
          inv = r.inv;
          counted = r.counted;
          room = r.room;
          size_kept = r.size_kept;
          frame = r.frame;
          recorded = r.recorded;
          hit_bound = r.hit_bound;
          fresh = r.fresh;
        },
      )
