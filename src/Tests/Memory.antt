-- ===== src/Tests/Memory.antt =====
-- The allocator with a concrete `cudaMalloc`.
use nano_vllm_cpp.Base.{ℕ, ◌+◌, ◌≤◌, ◌<◌, ◌≡◌, refl, List, [], ◌∷◌, true, Option, some, arith, ok}
use nano_vllm_cpp.Allocator.{
  Allocator, Memory, allocate, release, round_size, double_up, pop_block, find_bucket, malloc_block,
}
use nano_vllm_cpp.Allocator.Blocks.{total, free_total, live_total, is_ptr, Shared}
use nano_vllm_cpp.Allocator.Live.{Fresh, Run, Run-apart, allocate-release}

-- Each new pointer is above all earlier ones.
abbrev top : List (ℕ × ℕ) → ℕ
top [] = 0
top ((p, b) ∷ rest) = p + top rest

abbrev bump : List (ℕ × ℕ) → ℕ → Option ℕ
bump heap n = some (1 + top heap)

above_unused : (p : ℕ) (heap : List (ℕ × ℕ)) → top heap < p → total (is_ptr p) heap ≡ 0
above_unused p [] h = refl
above_unused p ((q, b) ∷ rest) h = ground (arith, above_unused p rest (omega arith))

bump_works : (heap : List (ℕ × ℕ)) (n : ℕ) → Fresh bump heap n
bump_works heap n = record {
  ptr = 1 + top heap;
  given = refl;
  some_ptr = omega arith;
  unused = above_unused (1 + top heap) heap (omega arith);
}

abbrev one_block : Memory
one_block = record { data_ptr = 1; bytes = 1024; owned = true }

abbrev one_live : Allocator
one_live = record { free_blocks = []; heap = (1, 1024) ∷ [] }

one_live-Shared : Shared one_live (one_block ∷ [])
one_live-Shared = record { split = λ w. omega arith; once = λ p. ground arith; not_null = refl }

allocate-release_example :
    (m' : Memory) × (a' : Allocator) × (allocate bump true (release one_live one_block) 700
      ≡ ok (m', a'))
    × (m'.data_ptr ≡ 1)
    × (m'.bytes ≡ 1024)
    × (a'.heap ≡ one_live.heap)
unfolding round_size double_up
allocate-release_example =
    allocate-release bump one_live one_block 700 refl (omega arith) (omega arith) refl

Run-apart_example :
    live_total (is_ptr 1) (one_block ∷ []) + free_total (is_ptr 1) one_live.free_blocks ≤ 1
unfolding allocate pop_block find_bucket malloc_block round_size double_up
Run-apart_example =
    Run-apart bump bump_works one_live (one_block ∷ []) 1 (Run.allocated Run.started 700 refl)
