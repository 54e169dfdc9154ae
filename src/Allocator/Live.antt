-- ===== src/Allocator/Live.antt =====
-- What runs of allocations and destructions keep.
use nano_vllm_cpp.Base.{
  ℕ, ◌+◌, ◌≤◌, ◌≡◌, ◌≢◌, refl, ◌∙◌, ap, subst, IfOk-ok, List, [], ◌∷◌, ◌++◌, true, false, Option,
  some, arith, ok, ◌==◌, Bool-cases, inl, inr,
}
use nano_vllm_cpp.Allocator.Sizes.{round_size_lem}
use nano_vllm_cpp.Allocator.{
  Memory, Allocator, new_allocator, return_block, pop_block, malloc_block, allocate, release,
  round_size,
}
use nano_vllm_cpp.Allocator.Blocks.{
  total, free_total, live_total, is_ptr, Shared, release-Shared, pop_block_lem,
  pop_block-return_block,
}

allocate_cached :
    (malloc : List (ℕ × ℕ) → ℕ → Option ℕ) (a a' : Allocator) (bytes p : ℕ)
    → (bytes == 0) ≡ false
    → pop_block a (round_size bytes) ≡ (p, a')
    → (p == 0) ≡ false
    → allocate malloc true a bytes
      ≡ ok (record { data_ptr = p; bytes = round_size bytes; owned = true }, a')
unfolding allocate
allocate_cached malloc a a' bytes p e f g = rw (f, e, g) refl

release_owned :
    (a : Allocator) (m : Memory)
    → m.owned ≡ true
    → m.data_ptr ≢ 0
    → release a m ≡ return_block a m.data_ptr m.bytes
unfolding release
release_owned a m owned some_ptr = ground arith

-- What a successful `cudaMalloc` gives: a pointer that is not null and not handed out before.
pub record Fresh (malloc : List (ℕ × ℕ) → ℕ → Option ℕ) (heap : List (ℕ × ℕ)) (n : ℕ) : Type 0 where
  pub ptr : ℕ
  pub given : malloc heap n ≡ some ptr
  pub some_ptr : ptr ≢ 0
  pub unused : total (is_ptr ptr) heap ≡ 0

module _ (malloc : List (ℕ × ℕ) → ℕ → Option ℕ)
    (works : (heap : List (ℕ × ℕ)) (n : ℕ) → Fresh malloc heap n) where
  malloc_block-Shared :
      (a : Allocator) (live : List Memory) (bucket : ℕ)
      → Shared a live
      → (m : Memory) × (a' : Allocator) × (malloc_block malloc a bucket ≡ ok (m, a'))
        × Shared a' (m ∷ live)
        × (m.bytes ≡ bucket)
  unfolding malloc_block
  malloc_block-Shared a live bucket v =
      let f = works a.heap bucket in
      (
        record { data_ptr = f.ptr; bytes = bucket; owned = true },
        record a { heap = (f.ptr, bucket) ∷ a.heap },
        rw f.given refl,
        record {
          split = λ w. omega (arith, v.split w);
          once = λ p. ground (arith, v.once p, f.unused);
          not_null = ground (arith, v.not_null, f.some_ptr);
        },
        refl,
      )

  allocate_anew :
      (a a' : Allocator) (bytes : ℕ)
      → (bytes == 0) ≡ false
      → pop_block a (round_size bytes) ≡ (0, a')
      → allocate malloc true a bytes ≡ malloc_block malloc a' (round_size bytes)
  unfolding allocate
  allocate_anew a a' bytes e f = rw (f, e) refl

  allocate_nothing :
      (a : Allocator)
      → allocate malloc true a 0 ≡ ok (record { data_ptr = 0; bytes = 0; owned = false }, a)
  unfolding allocate
  allocate_nothing a = refl

  -- With a `cudaMalloc` that gives pointers which are not null and not handed out before, `allocate`
  -- on a CUDA device returns memory of at least the bytes that are asked for. If the blocks of the
  -- heap were live or free, each once, they still are, with the new memory among the live ones.
  pub allocate-Shared :
      (a : Allocator) (live : List Memory) (bytes : ℕ)
      → Shared a live
      → (m : Memory) × (a' : Allocator) × (allocate malloc true a bytes ≡ ok (m, a'))
        × Shared a' (m ∷ live)
        × (bytes ≤ m.bytes)
  allocate-Shared a live bytes v = elim (Bool-cases (bytes == 0)) [
    | inl nothing ↦ (
      record { data_ptr = 0; bytes = 0; owned = false },
      a,
      subst
          (λ n.
            allocate malloc true a n ≡ ok (record { data_ptr = 0; bytes = 0; owned = false }, a))
          (ground arith) (allocate_nothing a),
      record { split = λ w. omega (arith, v.split w); once = v.once; not_null = v.not_null },
      ground arith,
    )
    | inr some_bytes ↦
        let big = (round_size_lem bytes).0 in
        elim (pop_block_lem a (round_size bytes)) [
          | inl e ↦
              let (m, a', run, v', size) = malloc_block-Shared a live (round_size bytes) v in
              (m, a', allocate_anew a a bytes some_bytes e ∙ run, v', omega (arith, big, size))
          | inr (p, a', e, same, less) ↦
              let some_ptr : (p == 0) ≡ false =
                ground (arith, less (is_ptr 0), v.split (is_ptr 0), v.not_null) in
              (
                record { data_ptr = p; bytes = round_size bytes; owned = true },
                a',
                allocate_cached malloc a a' bytes p some_bytes e some_ptr,
                record {
                  split = λ w. omega (arith, v.split w, less w, ap (λ h. total w h) same);
                  once = λ q. omega (arith, v.once q, ap (λ h. total (is_ptr q) h) same);
                  not_null = omega (arith, v.not_null, ap (λ h. total (is_ptr 0) h) same);
                },
                big,
              )
        ]
  ]

  -- The states that allocations and destructions reach, with the memories that are then live.
  pub data Run : Allocator → List Memory → Type 0 where
    started : Run new_allocator []
    allocated :
        {a a' : Allocator} {live : List Memory} {m : Memory}
        → Run a live
        → (bytes : ℕ) → allocate malloc true a bytes ≡ ok (m, a')
        → Run a' (m ∷ live)
    destroyed :
        {a : Allocator} (xs ys : List Memory) (m : Memory)
        → Run a (xs ++ m ∷ ys)
        → Run (release a m) (xs ++ ys)

  Run-Shared : {a : Allocator} {live : List Memory} → Run a live → Shared a live
  Run-Shared started = record { split = λ w. refl; once = λ p. omega arith; not_null = refl }
  Run-Shared (allocated {a} {a'} {live} {m} r bytes e) =
      let (m₁, a₁, run, v, big) = allocate-Shared a live bytes (Run-Shared r) in
      IfOk-ok (allocate malloc true a bytes) (λ x. Shared x.1 (x.0 ∷ live)) (m, a') (rw run v) e
  Run-Shared (destroyed {a} xs ys m r) = release-Shared a xs ys m (Run-Shared r)

  -- With a `cudaMalloc` that gives pointers which are not null and not handed out before, in every
  -- state that allocations and destructions reach, in any order, no two live memories share a
  -- pointer, and no live memory has a pointer that is also free in the cache.
  pub Run-apart :
      (a : Allocator) (live : List Memory) (p : ℕ)
      → Run a live
      → live_total (is_ptr p) live + free_total (is_ptr p) a.free_blocks ≤ 1
  Run-apart a live p r = let v = Run-Shared r in omega (arith, v.split (is_ptr p), v.once p)

-- After an owned memory with a pointer is destroyed, an allocation of a positive size of its bucket
-- returns that pointer again, without a call of `cudaMalloc`.
pub allocate-release :
    (malloc : List (ℕ × ℕ) → ℕ → Option ℕ) (a : Allocator) (m : Memory) (bytes : ℕ)
    → m.owned ≡ true
    → m.data_ptr ≢ 0
    → 1 ≤ bytes
    → round_size bytes ≡ m.bytes
    → (m' : Memory) × (a' : Allocator) × (allocate malloc true (release a m) bytes ≡ ok (m', a'))
      × (m'.data_ptr ≡ m.data_ptr)
      × (m'.bytes ≡ m.bytes)
      × (a'.heap ≡ a.heap)
allocate-release malloc a m bytes owned some_ptr some_bytes same =
    let returned : release a m ≡ return_block a m.data_ptr (round_size bytes) =
      rw same (release_owned a m owned some_ptr) in
    let (a', e, kept) = pop_block-return_block a m.data_ptr (round_size bytes) in
    (
      record { data_ptr = m.data_ptr; bytes = round_size bytes; owned = true },
      a',
      ap (λ x. allocate malloc true x bytes) returned
          ∙ allocate_cached malloc (return_block a m.data_ptr (round_size bytes)) a' bytes
              m.data_ptr (ground arith) e (ground arith),
      refl,
      same,
      kept,
    )
