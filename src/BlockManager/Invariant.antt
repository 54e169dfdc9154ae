-- ===== src/BlockManager/Invariant.antt =====
-- The invariant of the block manager: reference counts are the numbers of holders, and the free
-- and the used ids split the blocks.
use nano_vllm_cpp.Base.{
  ℕ, ◌+◌, ◌≤◌, ◌<◌, ◌≡◌, ◌≢◌, refl, ◌∙◌, List, not, Option, none, some, arith, length, get_elem?,
  set, ok, ltb, ◌==◌, length-set, get_elem?-set, get_elem?-lt, get_elem?-some,
}
use nano_vllm_cpp.Base.Counting.{
  one_if, count, erase, set_insert, count-contains, count-erase, count-set_insert, length-erase,
  length-set_insert,
}
use nano_vllm_cpp.BlockManager.{
  Block, BlockManager, reset, update, insert_hash, allocate_block, add_ref, register,
}

unfoldable pub ref_of : Option Block → ℕ
ref_of none = 0
ref_of (some b) = b.ref_count

-- `holders b` is how many entries of block tables name the block `b`.
pub record Inv (m : BlockManager) (holders : ℕ → ℕ) : Type 0 where
  pub refs : (b : ℕ) → ref_of (get_elem? m.blocks b) ≡ holders b
  pub ids : (b : ℕ) (k : Block) → get_elem? m.blocks b ≡ some k → k.block_id ≡ b
  pub free_once :
      (b : ℕ)
      → count b m.free_block_ids + one_if (not (holders b == 0)) ≡ one_if (ltb b (length m.blocks))
  pub used_once : (b : ℕ) → count b m.used_block_ids ≡ one_if (not (holders b == 0))
  pub hash_in : (h b : ℕ) → m.hash_to_block_id h ≡ some b → b < length m.blocks
  pub total : length m.free_block_ids + length m.used_block_ids ≡ length m.blocks

-- One more holder of `id`.
abbrev pub plus_one : (ℕ → ℕ) → ℕ → (ℕ → ℕ)
plus_one holders id b = holders b + one_if (id == b)

pub Inv-cong : {m : BlockManager} {f g : ℕ → ℕ} → ((b : ℕ) → f b ≡ g b) → Inv m f → Inv m g
Inv-cong e v = record {
  refs = λ b. v.refs b ∙ e b;
  ids = v.ids;
  free_once = λ b. ground (arith, v.free_once b, e b);
  used_once = λ b. ground (arith, v.used_once b, e b);
  hash_in = v.hash_in;
  total = v.total;
}

-- An operation that writes the block `id` only.
pub record Touches (m : BlockManager) (id : ℕ) (m' : BlockManager) : Type 0 where
  pub others : (b : ℕ) → id ≢ b → get_elem? m'.blocks b ≡ get_elem? m.blocks b
  pub size_kept : m'.block_size ≡ m.block_size
  pub count_kept : length m'.blocks ≡ length m.blocks

-- The recorded tokens and the recorded hash of a block.
abbrev pub tokens_at : BlockManager → ℕ → Option (List ℕ)
tokens_at m b = elim (get_elem? m.blocks b) [ none ↦ none | some k ↦ some k.token_ids ]

abbrev pub hash_at : BlockManager → ℕ → Option ℕ
hash_at m b = elim (get_elem? m.blocks b) [ none ↦ none | some k ↦ some k.hash ]

written-Touches :
    (m m' : BlockManager) (id : ℕ) (k k' : Block)
    → get_elem? m.blocks id ≡ some k
    → m'.blocks ≡ set m.blocks id k'
    → m'.block_size ≡ m.block_size
    → Touches m id m'
written-Touches m m' id k k' e w z = record {
  others = λ b ne. rw w (ground (arith, get_elem?-set m.blocks id b k' k e));
  size_kept = z;
  count_kept = rw w (length-set m.blocks id k');
}

abbrev taken : BlockManager → ℕ → Block → BlockManager
taken m id k = record m {
  blocks = set m.blocks id (reset k);
  free_block_ids = erase id m.free_block_ids;
  used_block_ids = set_insert id m.used_block_ids;
}

module _ (m : BlockManager) (holders : ℕ → ℕ) (v : Inv m holders) (id : ℕ) where
  -- An id in the free list is that of a block, which has no holder.
  free_id :
      1 ≤ count id m.free_block_ids
      → (holders id ≡ 0) × (count id m.free_block_ids ≡ 1) × (id < length m.blocks)
  free_id h = ground (arith, v.free_once id)

  block_at :
      id < length m.blocks
      → (k : Block) × (get_elem? m.blocks id ≡ some k) × (k.ref_count ≡ holders id)
  unfolding ref_of
  block_at h = let (k, e) = get_elem?-some m.blocks id h in (k, e, ground (arith, v.refs id))

  taken-Inv :
      (k : Block)
      → get_elem? m.blocks id ≡ some k
      → 1 ≤ count id m.free_block_ids
      → Inv (taken m id k) (plus_one holders id)
  unfolding ref_of
  taken-Inv k e h =
      let (no_holder, once, there) = free_id h in
      record {
        refs = λ b. ground (arith, get_elem?-set m.blocks id b (reset k) k e, v.refs b);
        ids = λ b j at.
            ground (arith, get_elem?-set m.blocks id b (reset k) k e, v.ids b j, v.ids id k e);
        free_once = λ b. ground (
          arith,
          count-erase b id m.free_block_ids,
          v.free_once b,
          length-set m.blocks id (reset k),
        );
        used_once = λ b.
            ground (arith, v.used_once b, v.used_once id, count-set_insert b id m.used_block_ids);
        hash_in = λ g b at. ground (arith, v.hash_in g b at, length-set m.blocks id (reset k));
        total = omega (
          arith,
          v.total,
          length-set m.blocks id (reset k),
          length-erase id m.free_block_ids h,
          length-set_insert id m.used_block_ids (ground (arith, v.used_once id)),
        );
      }

  -- A block of the free list has no holder, and no `assert` of `allocate_block` fails.
  pub allocate_block_lem :
      1 ≤ count id m.free_block_ids
      → (m' : BlockManager) × (allocate_block m id ≡ ok m')
        × Inv m' (plus_one holders id)
        × (length m'.free_block_ids + 1 ≡ length m.free_block_ids)
        × Touches m id m'
  unfolding allocate_block
  allocate_block_lem h =
      let (no_holder, once, there) = free_id h in
      let (k, e, r) = block_at there in
      (
        taken m id k,
        ground (arith, count-contains id m.free_block_ids),
        taken-Inv k e h,
        length-erase id m.free_block_ids h,
        written-Touches m (taken m id k) id k (reset k) e refl refl,
      )

  abbrev shared : Block → BlockManager
  shared k = record m { blocks = set m.blocks id (record k { ref_count = k.ref_count + 1 }) }

  shared-Inv :
      (k : Block)
      → get_elem? m.blocks id ≡ some k
      → holders id ≢ 0
      → Inv (shared k) (plus_one holders id)
  unfolding ref_of
  shared-Inv k e h = record {
    refs = λ b. ground (
      arith,
      get_elem?-set m.blocks id b (record k { ref_count = k.ref_count + 1 }) k e,
      v.refs b,
      v.refs id,
    );
    ids = λ b j at. ground (
      arith,
      get_elem?-set m.blocks id b (record k { ref_count = k.ref_count + 1 }) k e,
      v.ids b j,
      v.ids id k e,
    );
    free_once = λ b.
        ground
          (arith, v.free_once b, length-set m.blocks id (record k { ref_count = k.ref_count + 1 }));
    used_once = λ b. ground (arith, v.used_once b);
    hash_in = λ g b at. ground (
      arith,
      v.hash_in g b at,
      length-set m.blocks id (record k { ref_count = k.ref_count + 1 }),
    );
    total =
        omega (arith, v.total, length-set m.blocks id (record k { ref_count = k.ref_count + 1 }));
  }

  -- A used block takes one more holder.
  pub add_ref_lem :
      holders id ≢ 0
      → (m' : BlockManager) × (add_ref m id ≡ ok m')
        × Inv m' (plus_one holders id)
        × (m'.free_block_ids ≡ m.free_block_ids)
        × Touches m id m'
        × (tokens_at m' id ≡ tokens_at m id)
  unfolding add_ref
  add_ref_lem h =
      let (k, e, r) = block_at (ground (arith, v.free_once id)) in
      let k' = record k { ref_count = k.ref_count + 1 } in
      (
        shared k,
        ground arith,
        shared-Inv k e h,
        refl,
        written-Touches m (shared k) id k k' e refl refl,
        ground (arith, get_elem?-set m.blocks id id k' k e),
      )

  abbrev pub written : Block → ℕ → List ℕ → BlockManager
  written k h tids = record m {
    blocks = set m.blocks id (update k h tids);
    hash_to_block_id = insert_hash m.hash_to_block_id h id;
  }

  pub registered-Inv :
      (k : Block) (h : ℕ) (tids : List ℕ)
      → get_elem? m.blocks id ≡ some k
      → Inv (written k h tids) holders
  unfolding ref_of
  registered-Inv k h tids e = record {
    refs =
        λ b. ground (arith, get_elem?-set m.blocks id b (update k h tids) k e, v.refs b, v.refs id);
    ids = λ b j at.
        ground (arith, get_elem?-set m.blocks id b (update k h tids) k e, v.ids b j, v.ids id k e);
    free_once = λ b. ground (arith, v.free_once b, length-set m.blocks id (update k h tids));
    used_once = v.used_once;
    hash_in = λ g b at. ground (
      arith,
      v.hash_in g b,
      length-set m.blocks id (update k h tids),
      get_elem?-lt m.blocks id k e,
    );
    total = omega (arith, v.total, length-set m.blocks id (update k h tids));
  }

  -- The tokens and the hash of a block can be written while it has a place.
  pub register_lem :
      (h : ℕ) (tids : List ℕ)
      → id < length m.blocks
      → (m' : BlockManager) × (register m id h tids ≡ ok m')
        × Inv m' holders
        × (m'.free_block_ids ≡ m.free_block_ids)
        × Touches m id m'
        × (tokens_at m' id ≡ some tids)
        × (hash_at m' id ≡ some h)
  unfolding register
  register_lem h tids there =
      let (k, e, r) = block_at there in
      (
        written k h tids,
        ground arith,
        registered-Inv k h tids e,
        refl,
        written-Touches m (written k h tids) id k (update k h tids) e refl refl,
        ground (arith, get_elem?-set m.blocks id id (update k h tids) k e),
        ground (arith, get_elem?-set m.blocks id id (update k h tids) k e),
      )
