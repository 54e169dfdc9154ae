-- ===== src/Allocator/Sizes.antt =====
-- The bucket sizes of the allocator.
use nano_vllm_cpp.Base.{
  ℕ, ◌+◌, ◌-◌, ◌*◌, ◌/◌, ◌%◌, ◌^◌, ◌≤◌, ◌<◌, ◌≡◌, ◌⊎◌, inl, inr, leb, arith, Bool-cases,
}
use nano_vllm_cpp.Allocator.{double_up, round_size}

-- The loop from 512 reaches any size up to 1 MB, and doubles only sizes below it.
double_up_lem :
    (bytes : ℕ)
    → 512 < bytes
    → bytes ≤ 2 ^ 20
    → (bytes ≤ double_up 11 512 bytes)
      × (double_up 11 512 bytes % 512 ≡ 0)
      × (double_up 11 512 bytes < 2 * bytes)
unfolding double_up
double_up_lem bytes low high = ground arith

large_lem :
    (bytes : ℕ)
    → (bytes ≤ (bytes + 2 ^ 21 - 1) / 2 ^ 21 * 2 ^ 21)
      × ((bytes + 2 ^ 21 - 1) / 2 ^ 21 * 2 ^ 21 % 512 ≡ 0)
      × ((bytes + 2 ^ 21 - 1) / 2 ^ 21 * 2 ^ 21 < bytes + 2 ^ 21)
large_lem bytes = (omega arith, omega arith, omega arith)

-- A bucket holds the bytes that are asked for, is a positive multiple of 512, and is 512 bytes, or
-- less than twice the size, or less than 2 MB larger.
pub round_size_lem :
    (bytes : ℕ)
    → (bytes ≤ round_size bytes)
      × (round_size bytes % 512 ≡ 0)
      × (1 ≤ round_size bytes)
      × ((round_size bytes ≡ 512)
          ⊎ (round_size bytes < 2 * bytes)
          ⊎ (round_size bytes < bytes + 2 ^ 21))
unfolding round_size
round_size_lem bytes = elim (Bool-cases (leb bytes 512)) [
  | inl small ↦ ground arith
  | inr more ↦ elim (Bool-cases (leb bytes (2 ^ 20))) [
    | inl medium ↦
        let (a, b, c) = double_up_lem bytes (ground arith) (ground arith) in
        rw (more, medium) (a, b, omega arith, inr (inl c))
    | inr large ↦
        let (a, b, c) = large_lem bytes in rw (more, large) (a, b, ground arith, inr (inr c))
  ]
]
