-- ===== src/Allocator/Blocks.antt =====
-- Which pointers the live memories hold: the blocks of the heap are live or free, each once.
use nano_vllm_cpp.Base.{
  ℕ, ◌+◌, ◌≤◌, ◌≡◌, ◌≢◌, refl, ◌∙◌, ap, List, [], ◌∷◌, ◌++◌, true, false, none, some, last?,
  pop_back, arith, ◌==◌, if◌then◌else◌, Option-cases, Bool-cases, inl, inr, ◌⊎◌,
}
use nano_vllm_cpp.Base.Counting.{one_if}
use nano_vllm_cpp.Allocator.{
  Memory, Allocator, find_bucket, put_bucket, return_block, pop_block, release,
}

-- Sums over blocks, with a weight for a pointer and its size.
abbrev pub total : (ℕ → ℕ → ℕ) → List (ℕ × ℕ) → ℕ
total w [] = 0
total w ((p, b) ∷ rest) = w p b + total w rest

abbrev bucket_total : (ℕ → ℕ → ℕ) → ℕ → List ℕ → ℕ
bucket_total w b [] = 0
bucket_total w b (p ∷ ps) = w p b + bucket_total w b ps

abbrev pub free_total : (ℕ → ℕ → ℕ) → List (ℕ × List ℕ) → ℕ
free_total w [] = 0
free_total w ((b, ps) ∷ rest) = bucket_total w b ps + free_total w rest

abbrev pub live_total : (ℕ → ℕ → ℕ) → List Memory → ℕ
live_total w [] = 0
live_total w (m ∷ ms) = (if m.owned then w m.data_ptr m.bytes else 0) + live_total w ms

-- The weights that count one pointer, and one pointer with its size.
abbrev pub is_ptr : ℕ → ℕ → ℕ → ℕ
is_ptr p q c = one_if (q == p)

abbrev pub is_block : ℕ → ℕ → ℕ → ℕ → ℕ
is_block p b q c = if q == p then one_if (c == b) else 0

bucket_total-append :
    (w : ℕ → ℕ → ℕ) (b : ℕ) (ps qs : List ℕ)
    → bucket_total w b (ps ++ qs) ≡ bucket_total w b ps + bucket_total w b qs
bucket_total-append w b [] qs = omega arith
bucket_total-append w b (p ∷ ps) qs = omega (arith, bucket_total-append w b ps qs)

bucket_total-pop_back :
    (w : ℕ → ℕ → ℕ) (b p : ℕ) (ps : List ℕ)
    → last? ps ≡ some p
    → bucket_total w b ps ≡ bucket_total w b (pop_back ps) + w p b
bucket_total-pop_back w b p [] h = cc
bucket_total-pop_back w b p (q ∷ []) h =
    let same : q ≡ p = ground arith in omega (arith, ap (λ x. w x b) same)
bucket_total-pop_back w b p (q ∷ r ∷ ps) h = omega (arith, bucket_total-pop_back w b p (r ∷ ps) h)

free_total-put_bucket :
    (w : ℕ → ℕ → ℕ) (b : ℕ) (ps : List ℕ) (free : List (ℕ × List ℕ))
    → free_total w (put_bucket b ps free) + bucket_total w b (find_bucket b free)
      ≡ free_total w free + bucket_total w b ps
unfolding put_bucket find_bucket
free_total-put_bucket w b ps [] = omega arith
free_total-put_bucket w b ps ((c, qs) ∷ rest) = elim (Bool-cases (c == b)) [
  | inl same ↦
      let e : c ≡ b = ground arith in rw same (omega (arith, ap (λ x. bucket_total w x qs) e))
  | inr other ↦ rw other (omega (arith, free_total-put_bucket w b ps rest))
]

-- `live` are the memories that are not destroyed yet.
pub record Shared (a : Allocator) (live : List Memory) : Type 0 where
  pub split : (w : ℕ → ℕ → ℕ) → live_total w live + free_total w a.free_blocks ≡ total w a.heap
  pub once : (p : ℕ) → total (is_ptr p) a.heap ≤ 1
  pub not_null : total (is_ptr 0) a.heap ≡ 0

return_block-total :
    (w : ℕ → ℕ → ℕ) (a : Allocator) (p b : ℕ)
    → free_total w (return_block a p b).free_blocks ≡ free_total w a.free_blocks + w p b
unfolding return_block
return_block-total w a p b = omega (
  arith,
  bucket_total-append w b (find_bucket b a.free_blocks) (p ∷ []),
  free_total-put_bucket w b (find_bucket b a.free_blocks ++ p ∷ []) a.free_blocks,
)

pop_block-none :
    (a : Allocator) (b : ℕ) → last? (find_bucket b a.free_blocks) ≡ none → pop_block a b ≡ (0, a)
unfolding pop_block
pop_block-none a b e = ground arith

pop_block-some :
    (a : Allocator) (b p : ℕ)
    → last? (find_bucket b a.free_blocks) ≡ some p
    → pop_block a b ≡ (
      p,
      record a {
        free_blocks = put_bucket b (pop_back (find_bucket b a.free_blocks)) a.free_blocks;
      },
    )
unfolding pop_block
pop_block-some a b p e = ground arith

pub pop_block_lem :
    (a : Allocator) (b : ℕ)
    → (pop_block a b ≡ (0, a))
      ⊎ ((p : ℕ) × (a' : Allocator) × (pop_block a b ≡ (p, a'))
          × (a'.heap ≡ a.heap)
          × ((w : ℕ → ℕ → ℕ) → free_total w a'.free_blocks + w p b ≡ free_total w a.free_blocks))
pop_block_lem a b = elim (Option-cases (last? (find_bucket b a.free_blocks))) [
  | inl nothing ↦ inl (pop_block-none a b nothing)
  | inr (p, e) ↦
      let rest = pop_back (find_bucket b a.free_blocks) in
      inr (
        p,
        record a { free_blocks = put_bucket b rest a.free_blocks },
        pop_block-some a b p e,
        refl,
        λ w. omega (
          arith,
          free_total-put_bucket w b rest a.free_blocks,
          bucket_total-pop_back w b p (find_bucket b a.free_blocks) e,
        ),
      )
]

live_total-append :
    (w : ℕ → ℕ → ℕ) (ms ns : List Memory)
    → live_total w (ms ++ ns) ≡ live_total w ms + live_total w ns
live_total-append w [] ns = omega arith
live_total-append w (m ∷ ms) ns = omega (arith, live_total-append w ms ns)

release-heap : (a : Allocator) (m : Memory) → (release a m).heap ≡ a.heap
unfolding release return_block
release-heap a m = ground arith

release-total :
    (w : ℕ → ℕ → ℕ) (a : Allocator) (m : Memory)
    → (m.owned ≡ true → m.data_ptr ≢ 0)
    → free_total w (release a m).free_blocks
      ≡ free_total w a.free_blocks + (if m.owned then w m.data_ptr m.bytes else 0)
unfolding release
release-total w a m h = elim (Bool-cases (m.owned)) [
  | inl owned ↦
      let some_ptr : (m.data_ptr == 0) ≡ false = ground (arith, h owned) in
      rw (some_ptr, owned) (return_block-total w a m.data_ptr m.bytes)
  | inr borrowed ↦ rw borrowed (ground arith)
]

-- `~Memory` of a live memory keeps the blocks apart.
pub release-Shared :
    (a : Allocator) (xs ys : List Memory) (m : Memory)
    → Shared a (xs ++ m ∷ ys)
    → Shared (release a m) (xs ++ ys)
release-Shared a xs ys m v =
    let owned_ptr : m.owned ≡ true → m.data_ptr ≢ 0 = (λ owned null.
      absurd (
        ground
          (arith, v.split (is_ptr 0), v.not_null, live_total-append (is_ptr 0) xs (m ∷ ys)))) in
    record {
      split = λ w. omega (
        arith,
        v.split w,
        live_total-append w xs (m ∷ ys),
        live_total-append w xs ys,
        release-total w a m owned_ptr,
        ap (λ h. total w h) (release-heap a m),
      );
      once = λ p. omega (arith, v.once p, ap (λ h. total (is_ptr p) h) (release-heap a m));
      not_null = omega (arith, v.not_null, ap (λ h. total (is_ptr 0) h) (release-heap a m));
    }

find_bucket-put_bucket :
    (b : ℕ) (ps : List ℕ) (free : List (ℕ × List ℕ)) → find_bucket b (put_bucket b ps free) ≡ ps
unfolding put_bucket find_bucket
find_bucket-put_bucket b ps [] = ground arith
find_bucket-put_bucket b ps ((c, qs) ∷ rest) = ground (arith, find_bucket-put_bucket b ps rest)

last?-append_one : (ps : List ℕ) (p : ℕ) → last? (ps ++ p ∷ []) ≡ some p
last?-append_one [] p = refl
last?-append_one (q ∷ []) p = refl
last?-append_one (q ∷ r ∷ ps) p = last?-append_one (r ∷ ps) p

-- What was returned last to a bucket is popped first.
pub pop_block-return_block :
    (a : Allocator) (p b : ℕ)
    → (a' : Allocator) × (pop_block (return_block a p b) b ≡ (p, a')) × (a'.heap ≡ a.heap)
unfolding return_block
pop_block-return_block a p b = (
  _,
  pop_block-some (return_block a p b) b p (
      ap (λ ps. last? ps)
        (find_bucket-put_bucket b (find_bucket b a.free_blocks ++ p ∷ []) a.free_blocks)
      ∙ last?-append_one (find_bucket b a.free_blocks) p),
  refl,
)
