-- ===== src/Allocator.antt =====
-- src/utils/cuda_allocator.cpp, include/utils/cuda_allocator.h, and the owning half of `Memory` in
-- src/utils/tensor.cpp: the cache of device blocks by bucket size.
-- A pointer is its address, 0 for `nullptr`. The parameter `malloc` is `cudaMalloc`: from the
-- blocks that it has handed out, with their sizes, and a size, a new pointer or a failure, which
-- the code turns into an exception. `heap` records those blocks; the code never frees one. Sizes
-- are plain numbers: rounding up does not pass 2^64 for a size that a device can hold.
pub mod Sizes
pub mod Blocks
pub mod Live
use nano_vllm_cpp.Base.{
  ℕ, zero, suc, ◌+◌, ◌-◌, ◌*◌, ◌/◌, ◌^◌, List, [], ◌∷◌, ◌++◌, Bool, true, false, Option, none, some,
  last?, pop_back, Result, ok, invalid, ◌>>=◌, ◌>>◌, guard, or_fail, ltb, leb, ◌==◌, if◌then◌else◌,
}

-- The loop `while (s < bytes) s <<= 1`.
unfoldable pub double_up : ℕ → ℕ → ℕ → ℕ
double_up zero s bytes = s
double_up (suc fuel) s bytes = if ltb s bytes then double_up fuel (s * 2) bytes else s

-- The fuel: from 512, eleven rounds reach 1 MB.
unfoldable pub round_size : ℕ → ℕ
round_size bytes =
    if leb bytes 512
    then 512
    else if leb bytes (2 ^ 20)
    then double_up 11 512 bytes
    else (bytes + 2 ^ 21 - 1) / 2 ^ 21 * 2 ^ 21

-- `Memory`, but for its device: `owned` says that there is a deleter, which returns the block to
-- the cache.
pub record Memory : Type 0 where
  pub data_ptr : ℕ
  pub bytes : ℕ
  pub owned : Bool

-- `free_blocks_` as an association list; `heap` is what `cudaMalloc` has handed out.
pub record Allocator : Type 0 where
  pub free_blocks : List (ℕ × List ℕ)
  pub heap : List (ℕ × ℕ)

abbrev pub new_allocator : Allocator
new_allocator = record { free_blocks = []; heap = [] }

-- The free pointers of a bucket, none where there is no entry.
unfoldable pub find_bucket : ℕ → List (ℕ × List ℕ) → List ℕ
find_bucket b [] = []
find_bucket b ((c, ps) ∷ rest) = if c == b then ps else find_bucket b rest

unfoldable pub put_bucket : ℕ → List ℕ → List (ℕ × List ℕ) → List (ℕ × List ℕ)
put_bucket b ps [] = (b, ps) ∷ []
put_bucket b ps ((c, qs) ∷ rest) = if c == b then (b, ps) ∷ rest else (c, qs) ∷ put_bucket b ps rest

unfoldable pub return_block : Allocator → ℕ → ℕ → Allocator
return_block a ptr bucket = record a {
  free_blocks = put_bucket bucket (find_bucket bucket a.free_blocks ++ ptr ∷ []) a.free_blocks;
}

-- The back of a bucket, or `nullptr`, and the cache without it.
unfoldable pub pop_block : Allocator → ℕ → ℕ × Allocator
pop_block a bucket = elim (last? (find_bucket bucket a.free_blocks)) [
  | none ↦ (0, a)
  | some ptr ↦ (
    ptr,
    record a {
      free_blocks = put_bucket bucket (pop_back (find_bucket bucket a.free_blocks)) a.free_blocks;
    },
  )
]

module _ (malloc : List (ℕ × ℕ) → ℕ → Option ℕ) where
  unfoldable pub malloc_block : Allocator → ℕ → Result (Memory × Allocator)
  malloc_block a bucket = do
    ptr ← or_fail (malloc a.heap bucket) invalid
    ok (
      record { data_ptr = ptr; bytes = bucket; owned = true },
      record a { heap = (ptr, bucket) ∷ a.heap },
    )

  -- `CudaAllocator::allocate`; the Boolean says that the device is a CUDA device.
  unfoldable pub allocate : Bool → Allocator → ℕ → Result (Memory × Allocator)
  allocate is_cuda a bytes = do
    guard is_cuda invalid
    let bucket = round_size bytes
    let (ptr, a') = pop_block a bucket
    if bytes == 0
        then ok (record { data_ptr = 0; bytes = 0; owned = false }, a)
        else if ptr == 0
        then malloc_block a' bucket
        else ok (record { data_ptr = ptr; bytes = bucket; owned = true }, a')

-- `~Memory`.
unfoldable pub release : Allocator → Memory → Allocator
release a m =
    if m.data_ptr == 0 then a else if m.owned then return_block a m.data_ptr m.bytes else a
