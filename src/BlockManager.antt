-- ===== src/BlockManager.antt =====
-- include/engine/block_manager.h and src/engine/block_manager.cpp: the KV-cache blocks, their
-- reference counts and the prefix cache.
-- A failed `assert` is `err assertion`, an access outside a container `err out_of_range`, and a
-- reference count that would fall below 0 `err underflow`. The map from hashes to blocks is a
-- function, the set of used ids a list. XXH64 (package xxhash) is the parameter `xxh64`, the digest
-- with seed 0 of all bytes that were fed in, in order, as its streaming interface documents.
pub mod Invariant
pub mod Release
pub mod Claim
pub mod Step
pub mod Allocate
pub mod Append
use nano_vllm_cpp.Base.{
  ℕ, zero, suc, ◌+◌, ◌-◌, ◌*◌, ◌/◌, ◌%◌, ◌^◌, List, [], ◌∷◌, ◌++◌, Bool, true, false, not, Option,
  none, some, length, get_elem?, set, last?, Result, ok, err, out_of_range, assertion, underflow,
  ◌>>=◌, ◌>>◌, guard, or_fail, ltb, leb, ◌==◌, if◌then◌else◌, vec_eq,
}
use nano_vllm_cpp.Base.Counting.{erase, contains, set_insert}
use nano_vllm_cpp.Sequence
use nano_vllm_cpp.Sequence.{Sequence}
use mathlib.Core.List.{reverse}

abbrev pub no_hash : ℕ
no_hash = 2 ^ 64 - 1

pub record Block : Type 0 where
  pub block_id : ℕ
  pub ref_count : ℕ
  pub hash : ℕ
  pub token_ids : List ℕ

abbrev pub new_block : ℕ → Block
new_block id = record { block_id = id; ref_count = 0; hash = no_hash; token_ids = [] }

-- `Block::update`.
abbrev pub update : Block → ℕ → List ℕ → Block
update b h tids = record b { hash = h; token_ids = tids }

-- `Block::reset`.
abbrev pub reset : Block → Block
reset b = record b { ref_count = 1; hash = no_hash; token_ids = [] }

pub record BlockManager : Type 0 where
  pub block_size : ℕ
  pub blocks : List Block
  pub hash_to_block_id : ℕ → Option ℕ
  pub free_block_ids : List ℕ
  pub used_block_ids : List ℕ

-- `hash_to_block_id_[h] = id`.
abbrev pub insert_hash : (ℕ → Option ℕ) → ℕ → ℕ → (ℕ → Option ℕ)
insert_hash m h id k = if h == k then some id else m k

-- The numbers from `i` on, `n` of them.
unfoldable pub ids_from : ℕ → ℕ → List ℕ
ids_from i zero = []
ids_from i (suc n) = i ∷ ids_from (i + 1) n

unfoldable pub blocks_from : ℕ → ℕ → List Block
blocks_from i zero = []
blocks_from i (suc n) = new_block i ∷ blocks_from (i + 1) n

-- The constructor.
unfoldable pub new_block_manager : ℕ → ℕ → BlockManager
new_block_manager num_blocks block_size = record {
  block_size = block_size;
  blocks = blocks_from 0 num_blocks;
  hash_to_block_id = λ h. none;
  free_block_ids = ids_from 0 num_blocks;
  used_block_ids = [];
}

-- The lowest `n` bytes of a number, the lowest first.
unfoldable pub le_bytes : ℕ → ℕ → List ℕ
le_bytes zero x = []
le_bytes (suc n) x = x % 256 ∷ le_bytes n (x / 256)

-- The bytes of an `int32_t` array.
unfoldable pub token_bytes : List ℕ → List ℕ
unfolding le_bytes
token_bytes [] = []
token_bytes (t ∷ ts) = le_bytes 4 t ++ token_bytes ts

unfoldable pub compute_hash : (List ℕ → ℕ) → List ℕ → ℕ → ℕ
unfolding le_bytes token_bytes
compute_hash xxh64 token_ids prefix =
    xxh64 ((if prefix == no_hash then [] else le_bytes 8 prefix) ++ token_bytes token_ids)

-- `erase(std::find(...))` wants the id to be there.
unfoldable pub allocate_block : BlockManager → ℕ → Result BlockManager
allocate_block m id = do
  b ← or_fail (get_elem? m.blocks id) out_of_range
  guard (b.ref_count == 0) assertion
  guard (contains id m.free_block_ids) out_of_range
  ok (record m {
    blocks = set m.blocks id (reset b);
    free_block_ids = erase id m.free_block_ids;
    used_block_ids = set_insert id m.used_block_ids;
  })

unfoldable pub deallocate_block : BlockManager → ℕ → Result BlockManager
deallocate_block m id = do
  b ← or_fail (get_elem? m.blocks id) out_of_range
  guard (b.ref_count == 0) assertion
  ok (record m {
    free_block_ids = m.free_block_ids ++ id ∷ [];
    used_block_ids = erase id m.used_block_ids;
  })

unfoldable pub num_free_blocks : BlockManager → ℕ
num_free_blocks m = length m.free_block_ids

unfoldable pub num_used_blocks : BlockManager → ℕ
num_used_blocks m = length m.used_block_ids

unfoldable pub num_total_blocks : BlockManager → ℕ
num_total_blocks m = length m.blocks

unfoldable pub can_allocate : BlockManager → Sequence → Bool
can_allocate m s = leb (Sequence.num_blocks s) (length m.free_block_ids)

-- `front()` of the free list.
abbrev pub front : List ℕ → Option ℕ
front [] = none
front (x ∷ xs) = some x

-- The lookup in the prefix cache: the block that is hit, or `none` for a miss.
unfoldable pub look_up : BlockManager → Bool → ℕ → List ℕ → Result (Option ℕ)
look_up m true h token_ids = ok none
look_up m false h token_ids = elim (m.hash_to_block_id h) [
  | none ↦ ok none
  | some id ↦ do
    b ← or_fail (get_elem? m.blocks id) out_of_range
    ok (if vec_eq b.token_ids token_ids then some id else none)
]

-- `blocks_[id].ref_count++`.
unfoldable pub add_ref : BlockManager → ℕ → Result BlockManager
add_ref m id = do
  b ← or_fail (get_elem? m.blocks id) out_of_range
  ok (record m { blocks = set m.blocks id (record b { ref_count = b.ref_count + 1 }) })

-- A block for the sequence: a fresh one on a miss; on a hit one more reference, or the free block
-- that still holds the tokens.
unfoldable pub claim : BlockManager → Option ℕ → Result (ℕ × BlockManager)
claim m none = do
  id ← or_fail (front m.free_block_ids) out_of_range
  m' ← allocate_block m id
  ok (id, m')
claim m (some id) = do
  m' ← if contains id m.used_block_ids then add_ref m id else allocate_block m id
  ok (id, m')

-- `blocks_[id].update(h, token_ids); hash_to_block_id_[h] = id`.
unfoldable pub register : BlockManager → ℕ → ℕ → List ℕ → Result BlockManager
register m id h token_ids = do
  b ← or_fail (get_elem? m.blocks id) out_of_range
  ok (record m {
    blocks = set m.blocks id (update b h token_ids);
    hash_to_block_id = insert_hash m.hash_to_block_id h id;
  })

-- The variables of the loop in `allocate`.
pub record Progress : Type 0 where
  pub manager : BlockManager
  pub seq : Sequence
  pub h : ℕ
  pub cache_miss : Bool

abbrev pub is_miss : Option ℕ → Bool
is_miss none = true
is_miss (some id) = false

module _ (xxh64 : List ℕ → ℕ) where
  -- The hash that a block gets: that of its tokens after the blocks before it, if it is full.
  unfoldable pub chain_hash : ℕ → List ℕ → ℕ → ℕ
  chain_hash size token_ids h =
      if length token_ids == size then compute_hash xxh64 token_ids h else no_hash

  -- One round of the loop in `allocate`, for the logical block `i`.
  unfoldable pub allocate_step : Progress → ℕ → Result Progress
  allocate_step p i = do
    token_ids ← Sequence.block p.seq i
    let size = p.manager.block_size
    let h = chain_hash size token_ids p.h
    found ← look_up p.manager p.cache_miss h token_ids
    (id, m) ← claim p.manager found
    m' ← if h == no_hash then ok m else register m id h token_ids
    ok (record {
      manager = m';
      seq = record (p.seq) {
        num_cached_tokens = p.seq.num_cached_tokens + (if is_miss found then 0 else size);
        block_table = p.seq.block_table ++ id ∷ [];
      };
      h = h;
      cache_miss = is_miss found;
    })

  -- The rounds from `i` on, `n` of them.
  unfoldable pub allocate_from : ℕ → Progress → ℕ → Result Progress
  allocate_from zero p i = ok p
  allocate_from (suc n) p i = allocate_step p i >>= λ q. allocate_from n q (i + 1)

  unfoldable pub allocate : BlockManager → Sequence → Result (BlockManager × Sequence)
  allocate m s = do
    guard (length s.block_table == 0) assertion
    p ←
        allocate_from (Sequence.num_blocks s)
          (record { manager = m; seq = s; h = no_hash; cache_miss = false }) 0
    ok (p.manager, p.seq)

-- One round of the loop in `deallocate`.
unfoldable pub release_block : BlockManager → ℕ → Result BlockManager
release_block m id = do
  b ← or_fail (get_elem? m.blocks id) out_of_range
  guard (not (b.ref_count == 0)) underflow
  let m' = record m { blocks = set m.blocks id (record b { ref_count = b.ref_count - 1 }) }
  if b.ref_count == 1 then deallocate_block m' id else ok m'

unfoldable pub release_all : BlockManager → List ℕ → Result BlockManager
release_all m [] = ok m
release_all m (id ∷ ids) = release_block m id >>= λ m'. release_all m' ids

unfoldable pub deallocate : BlockManager → Sequence → Result (BlockManager × Sequence)
deallocate m s = do
  m' ← release_all m (reverse s.block_table)
  ok (m', record s { num_cached_tokens = 0; block_table = [] })

unfoldable pub can_append : BlockManager → Sequence → Bool
can_append m s = leb (if s.num_tokens % m.block_size == 1 then 1 else 0) (length m.free_block_ids)

-- The hash of the last block but one, if there is one.
unfoldable pub prefix_hash : BlockManager → List ℕ → Result ℕ
prefix_hash m table =
    if ltb 1 (length table)
    then (do
      id ← or_fail (get_elem? table (length table - 2)) out_of_range
      b ← or_fail (get_elem? m.blocks id) out_of_range
      ok b.hash)
    else ok no_hash

-- The branch `rem == 1` of `may_append`: a new block.
unfoldable pub append_block : BlockManager → Sequence → Block → Result (BlockManager × Sequence)
append_block m s last = do
  guard (not (last.hash == no_hash)) assertion
  id ← or_fail (front m.free_block_ids) out_of_range
  m' ← allocate_block m id
  ok (m', record s { block_table = s.block_table ++ id ∷ [] })

module _ (xxh64 : List ℕ → ℕ) where
  -- The branch `rem == 0`: the last block is full now, and gets its hash. The first number is the
  -- block's place in `blocks_`; the map gets its `block_id`.
  unfoldable pub seal_block : BlockManager → Sequence → ℕ → Block → Result (BlockManager × Sequence)
  seal_block m s id last = do
    guard (last.hash == no_hash) assertion
    token_ids ← Sequence.block s (Sequence.num_blocks s - 1)
    prefix ← prefix_hash m s.block_table
    let h = compute_hash xxh64 token_ids prefix
    let m' = record m {
      blocks = set m.blocks id (update last h token_ids);
      hash_to_block_id = insert_hash m.hash_to_block_id h last.block_id;
    }
    ok (m', s)

  unfoldable pub may_append : BlockManager → Sequence → Result (BlockManager × Sequence)
  may_append m s = do
    id ← or_fail (last? s.block_table) out_of_range
    last ← or_fail (get_elem? m.blocks id) out_of_range
    let rem = s.num_tokens % m.block_size
    if rem == 1
        then append_block m s last
        else if rem == 0
        then seal_block m s id last
        else (guard (last.hash == no_hash) assertion >> ok (m, s))
