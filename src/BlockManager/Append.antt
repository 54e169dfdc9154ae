-- ===== src/BlockManager/Append.antt =====
-- `may_append`, and the manager that the constructor makes.
use nano_vllm_cpp.Base.{
  ℕ, zero, suc, ◌+◌, ◌-◌, ◌%◌, ◌≤◌, ◌<◌, ◌≡◌, refl, sym, ◌∙◌, ap, subst, inl, inr, List, [], ◌∷◌,
  ◌++◌, true, false, not, some, arith, length, get_elem?, set, last?, ok, ◌==◌, if◌then◌else◌, ltb,
  leb, ◌&&◌, Option-cases, Bool-cases, length-append, Safe, Safe-bind, Safe-guard, guard, assertion,
  get_elem?-some,
}
use native.Mathlib.Nat.{add-zero}
use nano_vllm_cpp.Base.Counting.{one_if, count, count-append}
use nano_vllm_cpp.Sequence
use nano_vllm_cpp.Sequence.{Sequence}
use nano_vllm_cpp.BlockManager.{
  Block, BlockManager, no_hash, can_append, append_block, seal_block, may_append, front,
  prefix_hash, new_block_manager, ids_from, blocks_from, insert_hash, update, new_block,
  compute_hash, num_free_blocks,
}
use nano_vllm_cpp.BlockManager.Invariant.{Inv, Inv-cong, allocate_block_lem, registered-Inv, ref_of}
use nano_vllm_cpp.BlockManager.Step.{chunk, block-chunk}

abbrev held : List ℕ → (ℕ → ℕ) → (ℕ → ℕ)
held table others b = count b table + others b

-- What `may_append` leaves: the table is the same, or one block longer at the length where a block
-- begins, and counts among the holders.
pub record Appended (m : BlockManager) (s : Sequence) (others : ℕ → ℕ) (m' : BlockManager)
    (s' : Sequence) : Type 0 where
  pub table : List ℕ
  pub seq_after : s' ≡ record s { block_table = table }
  pub longer :
      length table ≡ length s.block_table + (if s.num_tokens % m.block_size == 1 then 1 else 0)
  pub inv : Inv m' (held table others)
  pub size_kept : m'.block_size ≡ m.block_size

count-in-range : (m : BlockManager) (h : ℕ → ℕ) → Inv m h → (b : ℕ) → 1 ≤ h b → b < length m.blocks
count-in-range m h v b e = ground (arith, v.free_once b)

last?-count : (xs : List ℕ) (x : ℕ) → last? xs ≡ some x → 1 ≤ count x xs
unfolding count
last?-count [] x h = ground arith
last?-count (y ∷ []) x h = ground arith
last?-count (y ∷ z ∷ xs) x h = omega (arith, last?-count (z ∷ xs) x h)

get_elem?-count : (xs : List ℕ) (i x : ℕ) → get_elem? xs i ≡ some x → 1 ≤ count x xs
unfolding count
get_elem?-count [] i x h = ground arith
get_elem?-count (y ∷ xs) zero x h = ground arith
get_elem?-count (y ∷ xs) (suc i) x h = omega (arith, get_elem?-count xs i x h)

front-some : (xs : List ℕ) → 1 ≤ length xs → (x : ℕ) × (front xs ≡ some x) × (1 ≤ count x xs)
unfolding count
front-some [] h = absurd (omega arith)
front-some (x ∷ xs) h = (x, refl, ground arith)

last_within : (s : Sequence) → 1 ≤ s.num_tokens → Sequence.num_blocks s - 1 < Sequence.num_blocks s
unfolding Sequence.num_blocks
last_within s h = omega arith

last?-some : (xs : List ℕ) → 1 ≤ length xs → (x : ℕ) × (last? xs ≡ some x)
last?-some [] h = absurd (omega arith)
last?-some (x ∷ []) h = (x, refl)
last?-some (x ∷ y ∷ xs) h = last?-some (y ∷ xs) (omega arith)

module _ (m : BlockManager) (s : Sequence) (others : ℕ → ℕ)
    (v : Inv m (held s.block_table others)) where
  append_block-Safe :
      (last : Block)
      → (s.num_tokens % m.block_size == 1) ≡ true
      → 1 ≤ length m.free_block_ids
      → Safe (append_block m s last) (λ r. Appended m s others r.0 r.1)
  unfolding append_block count
  append_block-Safe last rem room =
      let (id, e, in_free) = front-some m.free_block_ids room in
      let (m', a, w, f, t) = allocate_block_lem m (held s.block_table others) v id in_free in
      Safe-bind (guard (not (last.hash == no_hash)) assertion) _ _ _ (Safe-guard _) λ _ h.
        rw (e, a)
          (record {
            table = s.block_table ++ id ∷ [];
            seq_after = refl;
            longer = rw rem (omega (arith, length-append s.block_table (id ∷ [])));
            inv = Inv-cong (λ b. omega (arith, count-append b s.block_table (id ∷ []))) w;
            size_kept = t.size_kept;
          })

  entry :
      (i : ℕ)
      → i < length s.block_table
      → (id : ℕ) × (b : Block) × (get_elem? s.block_table i ≡ some id)
        × (get_elem? m.blocks id ≡ some b)
  entry i h =
      let (id, e) = get_elem?-some s.block_table i h in
      let (b, f) = get_elem?-some m.blocks id (
        count-in-range m (held s.block_table others) v id
          (omega (arith, get_elem?-count s.block_table i id e))) in
      (id, b, e, f)

  prefix_hash-ok : (h : ℕ) × (prefix_hash m s.block_table ≡ ok h)
  unfolding prefix_hash
  prefix_hash-ok = elim (Bool-cases (ltb 1 (length s.block_table))) [
    | inl long ↦
        let (id, b, e, f) = entry (length s.block_table - 2) (ground arith) in
        (b.hash, rw (long, e, f))
    | inr short ↦ (no_hash, rw short)
  ]

  seal_block-Safe :
      (xxh64 : List ℕ → ℕ) (id : ℕ) (last : Block)
      → get_elem? m.blocks id ≡ some last
      → 1 ≤ s.num_tokens
      → (s.num_tokens % m.block_size == 1) ≡ false
      → Safe (seal_block xxh64 m s id last) (λ r. Appended m s others r.0 r.1)
  unfolding seal_block
  seal_block-Safe xxh64 id last at some_tokens rem =
      let i = Sequence.num_blocks s - 1 in
      let within : i < Sequence.num_blocks s = last_within s some_tokens in
      let (h, e) = prefix_hash-ok in
      Safe-bind (guard (last.hash == no_hash) assertion) _ _ _ (Safe-guard _) λ _ z.
        rw (block-chunk s i within, e)
          (record {
            table = s.block_table;
            seq_after = refl;
            longer = rw rem (omega arith);
            inv =
                subst
                  (λ j.
                    Inv
                      (record m {
                        blocks =
                            set m.blocks id
                              (update last (compute_hash xxh64 (chunk s i) h) (chunk s i));
                        hash_to_block_id =
                            insert_hash m.hash_to_block_id (compute_hash xxh64 (chunk s i) h) j;
                      })
                      (held s.block_table others))
                  (sym (v.ids id last at))
                  (registered-Inv m (held s.block_table others) v id last
                    (compute_hash xxh64 (chunk s i) h) (chunk s i) at);
            size_kept = refl;
          })

-- For a sequence with at least one token and one block, whose table counts among the holders, where
-- `can_append` says yes, `may_append` meets no fault but a failed `assert`. If it returns, the table
-- is one block longer exactly when the token count is 1 modulo the block size, the new table counts
-- among the holders, and all else of the sequence is unchanged.
pub may_append-Safe :
    (xxh64 : List ℕ → ℕ) (m : BlockManager) (s : Sequence) (others : ℕ → ℕ)
    → Inv m (held s.block_table others)
    → 1 ≤ s.num_tokens
    → 1 ≤ length s.block_table
    → can_append m s ≡ true
    → Safe (may_append xxh64 m s) (λ r. Appended m s others r.0 r.1)
unfolding may_append can_append
may_append-Safe xxh64 m s others v tokens blocks room =
    let (id, e) = last?-some s.block_table blocks in
    let (last, f) = get_elem?-some m.blocks id (
      count-in-range m (held s.block_table others) v id
        (omega (arith, last?-count s.block_table id e))) in
    elim (Bool-cases (s.num_tokens % m.block_size == 1)) [
      | inl one ↦ rw (e, f, one) (append_block-Safe m s others v last one (ground arith))
      | inr not_one ↦ elim (Bool-cases (s.num_tokens % m.block_size == 0)) [
        | inl full ↦
            rw (e, f, not_one, full) (seal_block-Safe m s others v xxh64 id last f tokens not_one)
        | inr partly ↦
            rw (e, f, not_one, partly)
              (Safe-bind (guard (last.hash == no_hash) assertion) _ _ _ (Safe-guard _) λ _ _.
                record {
                  table = s.block_table;
                  seq_after = refl;
                  longer = rw not_one (omega arith);
                  inv = v;
                  size_kept = refl;
                })
      ]
    ]

-- A new manager satisfies the invariant with no holder, and has all its blocks free.
ids_from-count : (n i b : ℕ) → count b (ids_from i n) ≡ one_if (leb i b && ltb b (i + n))
unfolding ids_from count
ids_from-count zero i b = ground arith
ids_from-count (suc n) i b = ground (arith, ids_from-count n (i + 1) b)

length-ids_from : (n i : ℕ) → length (ids_from i n) ≡ n
unfolding ids_from
length-ids_from zero i = refl
length-ids_from (suc n) i = ap suc (length-ids_from n (i + 1))

length-blocks_from : (n i : ℕ) → length (blocks_from i n) ≡ n
unfolding blocks_from
length-blocks_from zero i = refl
length-blocks_from (suc n) i = ap suc (length-blocks_from n (i + 1))

blocks_from-get :
    (n i b : ℕ) (k : Block) → get_elem? (blocks_from i n) b ≡ some k → k ≡ new_block (i + b)
unfolding blocks_from
blocks_from-get zero i b k h = cc
blocks_from-get (suc n) i zero k h = ground (arith, add-zero i)
blocks_from-get (suc n) i (suc b) k h = blocks_from-get n (i + 1) b k h ∙ ap new_block (omega arith)

new_refs : (n b : ℕ) → ref_of (get_elem? (blocks_from 0 n) b) ≡ 0
unfolding ref_of
new_refs n b = elim (Option-cases (get_elem? (blocks_from 0 n) b)) [
  | inl e ↦ rw e
  | inr (k, e) ↦ rw e (ap (λ (j : Block). j.ref_count) (blocks_from-get n 0 b k e))
]

-- The constructor's block manager satisfies the invariant with no holders, and all its `n` blocks
-- are free.
pub new_block_manager-Inv :
    (n size : ℕ)
    → Inv (new_block_manager n size) (λ b. 0) × (num_free_blocks (new_block_manager n size) ≡ n)
unfolding new_block_manager num_free_blocks count
new_block_manager-Inv n size = (
  record {
    refs = new_refs n;
    ids = λ b k e. ap (λ (j : Block). j.block_id) (blocks_from-get n 0 b k e) ∙ omega arith;
    free_once = λ b. ground (arith, ids_from-count n 0 b, length-blocks_from n 0);
    used_once = λ b. refl;
    hash_in = λ h b e. cc;
    total = omega (arith, length-ids_from n 0, length-blocks_from n 0);
  },
  length-ids_from n 0,
)
