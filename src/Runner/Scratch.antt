-- ===== src/Runner/Scratch.antt =====
-- src/engine/model_runner.cpp: `ScratchAllocator`, the bump allocator of a graph capture, and the
-- size of its buffer. Addresses are plain numbers; a `size_t` sum keeps its wrap-around. The calls
-- that go to the delegate are not modelled.
use nano_vllm_cpp.Base.{
  ℕ, ◌+◌, ◌*◌, ◌/◌, ◌%◌, ◌^◌, ◌≤◌, ◌<◌, ◌≡◌, refl, ◌⊎◌, inl, inr, List, [], ◌∷◌, false, arith,
  Result, ok, err, invalid, guard, ◌>>=◌, ◌>>◌, ltb, leb, ◌==◌, if◌then◌else◌, max, Bool-cases,
  bind-ok, ok-same, subst, sym, ◌∙◌, ap,
}
use nano_vllm_cpp.Allocator.{Memory}

pub record ScratchAllocator : Type 0 where
  pub base : ℕ
  pub capacity : ℕ
  pub offset : ℕ
  pub peak : ℕ

unfoldable pub new_scratch : ℕ → ℕ → ScratchAllocator
new_scratch base capacity = record { base = base; capacity = capacity; offset = 0; peak = 0 }

unfoldable pub reset_scratch : ScratchAllocator → ScratchAllocator
reset_scratch s = record s { offset = 0 }

-- `Memory::make_borrowed`.
abbrev pub borrowed : ℕ → ℕ → Memory
borrowed ptr bytes = record { data_ptr = ptr; bytes = bytes; owned = false }

-- `(bytes + 255) & ~size_t(255)`.
unfoldable pub align_up : ℕ → ℕ
align_up bytes = (bytes + 255) % 2 ^ 64 / 256 * 256

unfoldable pub scratch_allocate : ScratchAllocator → ℕ → Result (Memory × ScratchAllocator)
scratch_allocate s bytes = if bytes == 0 then ok (borrowed 0 0, s) else (do
  let aligned = align_up bytes
  let end = (s.offset + aligned) % 2 ^ 64
  guard (leb end s.capacity) invalid
  ok (
    borrowed (s.base + s.offset) aligned,
    record s { offset = end; peak = if ltb s.peak end then end else s.peak },
  ))

-- The allocations of a forward pass, in their order.
unfoldable pub scratch_run : ScratchAllocator → List ℕ → Result (List Memory × ScratchAllocator)
scratch_run s [] = ok ([], s)
scratch_run s (bytes ∷ requests) = do
  (m, t) ← scratch_allocate s bytes
  (ms, u) ← scratch_run t requests
  ok (m ∷ ms, u)

-- `kProbeScratchBytes`.
abbrev pub probe_bytes : ℕ
probe_bytes = 512 * 1024 * 1024

-- `scratch_size_`: the peak of the probe with 10% headroom, in whole pages.
unfoldable pub scratch_size : ℕ → ℕ
scratch_size peak = (peak * 11 % 2 ^ 64 / 10 + 4095) % 2 ^ 64 / 4096 * 4096

scratch_size-fits :
    (peak : ℕ) → peak ≤ 2 ^ 29 → (peak ≤ scratch_size peak) × (scratch_size peak ≤ 2 ^ 63)
unfolding scratch_size
scratch_size-fits peak h = (omega arith, omega arith)

-- The bytes that a request takes.
abbrev need : ℕ → ℕ
need bytes = if bytes == 0 then 0 else align_up bytes

need-lem :
    (bytes : ℕ)
    → bytes < 2 ^ 62
    → (bytes ≤ need bytes) × (need bytes ≤ 2 ^ 62) × (need bytes % 256 ≡ 0)
unfolding align_up
need-lem bytes h = elim (Bool-cases (bytes == 0)) [
  | inl nothing ↦ ground arith
  | inr some_bytes ↦ rw some_bytes (omega arith, omega arith, omega arith)
]

-- A good state: within a buffer of at most 2^63 bytes, at a multiple of 256.
pub record IsGood (s : ScratchAllocator) : Type 0 where
  pub low : s.offset ≤ s.peak
  pub high : s.peak ≤ s.capacity
  pub small : s.capacity ≤ 2 ^ 63
  pub aligned : s.offset % 256 ≡ 0

abbrev taken : ScratchAllocator → ℕ → ScratchAllocator
taken s bytes = record s {
  offset = s.offset + need bytes;
  peak = max s.peak (s.offset + need bytes);
}

abbrev piece : ScratchAllocator → ℕ → Memory
piece s bytes = borrowed (if bytes == 0 then 0 else s.base + s.offset) (need bytes)

module _ (s : ScratchAllocator) (bytes : ℕ) (g : IsGood s) (h : bytes < 2 ^ 62) where
  scratch_allocate-fits :
      s.offset + need bytes ≤ s.capacity
      → scratch_allocate s bytes ≡ ok (piece s bytes, taken s bytes)
  unfolding scratch_allocate
  scratch_allocate-fits fits = elim (Bool-cases (bytes == 0)) [
    | inl nothing ↦ ground (arith, g.low)
    | inr some_bytes ↦
        let e : (s.offset + align_up bytes) % 2 ^ 64 ≡ s.offset + align_up bytes =
          ground (arith, g.low, g.high, g.small, (need-lem bytes h).1) in
        ground (arith, e)
  ]

  scratch_allocate-full :
      s.capacity < s.offset + need bytes → scratch_allocate s bytes ≡ err invalid
  unfolding scratch_allocate
  scratch_allocate-full full = elim (Bool-cases (bytes == 0)) [
    | inl nothing ↦ absurd (ground (arith, g.low, g.high))
    | inr some_bytes ↦
        let e : (s.offset + align_up bytes) % 2 ^ 64 ≡ s.offset + align_up bytes =
          ground (arith, g.low, g.high, g.small, (need-lem bytes h).1) in
        ground (arith, e)
  ]

  taken-IsGood : s.offset + need bytes ≤ s.capacity → IsGood (taken s bytes)
  taken-IsGood fits =
      let (a, b, c) = need-lem bytes h in
      record {
        low = ground arith;
        high = ground (arith, g.high);
        small = g.small;
        aligned = omega (arith, g.aligned, c);
      }

abbrev pub AllBelow : ℕ → List ℕ → Type 0
AllBelow bound [] = Unit
AllBelow bound (x ∷ xs) = (x < bound) × AllBelow bound xs

-- Pieces from an offset on, one behind the other, up to an end: each holds its request, at a
-- multiple of 256 bytes from the base.
abbrev pub Stacked : ℕ → ℕ → ℕ → List ℕ → List Memory → Type 0
Stacked base from to [] [] = from ≤ to
Stacked base from to (r ∷ rs) (m ∷ ms) =
    (r ≤ m.bytes)
    × ((m.bytes ≡ 0) ⊎ ((m.data_ptr ≡ base + from) × (from % 256 ≡ 0)))
    × Stacked base (from + m.bytes) to rs ms
Stacked base from to _ _ = ⊥

-- The same pieces from another base.
abbrev pub SameOffsets : ℕ → ℕ → List Memory → List Memory → Type 0
SameOffsets base base' [] [] = Unit
SameOffsets base base' (m ∷ ms) (m' ∷ ms') =
    (m'.bytes ≡ m.bytes)
    × ((m.bytes ≡ 0) ⊎ (m'.data_ptr + base ≡ m.data_ptr + base'))
    × SameOffsets base base' ms ms'
SameOffsets base base' _ _ = ⊥

-- What a run that returned tells of any other buffer that is as large as its peak.
pub record Replays (s : ScratchAllocator) (requests : List ℕ) (ms : List Memory)
    (u : ScratchAllocator) : Type 0 where
  pub grows : s.peak ≤ u.peak
  pub within : u.peak ≤ u.capacity
  pub kept : u.capacity ≡ s.capacity
  pub stacked : Stacked s.base s.offset u.peak requests ms
  pub again :
      (s' : ScratchAllocator)
      → IsGood s'
      → s'.offset ≡ s.offset
      → u.peak ≤ s'.capacity
      → (ms' : List Memory) × (u' : ScratchAllocator) × (scratch_run s' requests ≡ ok (ms', u'))
        × SameOffsets s.base s'.base ms ms'
        × Stacked s'.base s'.offset s'.capacity requests ms'

piece-Stacked :
    (s : ScratchAllocator) (bytes : ℕ)
    → IsGood s
    → (m : Memory) → m ≡ piece s bytes
    → (m.bytes ≡ 0) ⊎ ((m.data_ptr ≡ s.base + s.offset) × (s.offset % 256 ≡ 0))
piece-Stacked s bytes g m e = elim (Bool-cases (bytes == 0)) [
  | inl nothing ↦ inl (ground arith)
  | inr some_bytes ↦ inr (ground arith, g.aligned)
]

same_piece :
    (s s' : ScratchAllocator) (bytes : ℕ)
    → s'.offset ≡ s.offset
    → ((piece s bytes).bytes ≡ 0)
      ⊎ ((piece s' bytes).data_ptr + s.base ≡ (piece s bytes).data_ptr + s'.base)
same_piece s s' bytes e = elim (Bool-cases (bytes == 0)) [
  | inl nothing ↦ inl (ground arith)
  | inr some_bytes ↦ inr (rw some_bytes (omega (arith, e)))
]

stays : (s : ScratchAllocator) → IsGood s → Replays s [] [] s
stays s g = record {
  grows = omega arith;
  within = g.high;
  kept = refl;
  stacked = g.low;
  again = λ s' g' e room. ([], s', unfold scratch_run in refl, tt, omega (arith, g'.low, g'.high));
}

module _ (s : ScratchAllocator) (bytes : ℕ) (requests : List ℕ) (ms : List Memory)
    (u : ScratchAllocator) (g : IsGood s) (h : bytes < 2 ^ 62)
    (fits : s.offset + need bytes ≤ s.capacity) (rest : Replays (taken s bytes) requests ms u) where
  again_one :
      (s' : ScratchAllocator)
      → IsGood s'
      → s'.offset ≡ s.offset
      → u.peak ≤ s'.capacity
      → (ms' : List Memory) × (u' : ScratchAllocator) × (scratch_run s' (bytes ∷ requests)
          ≡ ok (ms', u'))
        × SameOffsets s.base s'.base (piece s bytes ∷ ms) ms'
        × Stacked s'.base s'.offset s'.capacity (bytes ∷ requests) ms'
  unfolding scratch_run
  again_one s' g' e room =
      let fits' : s'.offset + need bytes ≤ s'.capacity = ground (arith, rest.grows, e, room) in
      let (ms', u', ran, same, stacked) =
        rest.again (taken s' bytes) (taken-IsGood s' bytes g' h fits') (omega (arith, e)) room in
      (
        piece s' bytes ∷ ms',
        u',
        rw (scratch_allocate-fits s' bytes g' h fits', ran),
        (refl, same_piece s s' bytes e, same),
        ((need-lem bytes h).0, piece-Stacked s' bytes g' (piece s' bytes) refl, stacked),
      )

  takes : Replays s (bytes ∷ requests) (piece s bytes ∷ ms) u
  takes = record {
    grows = ground (arith, rest.grows);
    within = rest.within;
    kept = rest.kept;
    stacked = ((need-lem bytes h).0, piece-Stacked s bytes g (piece s bytes) refl, rest.stacked);
    again = again_one;
  }

-- The rest of a run behind one allocation.
abbrev go_on : List ℕ → Memory × ScratchAllocator → Result (List Memory × ScratchAllocator)
go_on requests x = scratch_run x.1 requests >>= λ y. ok (x.0 ∷ y.0, y.1)

scratch_run-cons :
    (s : ScratchAllocator) (bytes : ℕ) (requests : List ℕ)
    → scratch_run s (bytes ∷ requests) ≡ scratch_allocate s bytes >>= go_on requests
unfolding scratch_run
scratch_run-cons s bytes requests = refl

scratch_run-Replays :
    (requests : List ℕ) (s : ScratchAllocator) (ms : List Memory) (u : ScratchAllocator)
    → IsGood s
    → AllBelow (2 ^ 62) requests
    → scratch_run s requests ≡ ok (ms, u)
    → Replays s requests ms u
scratch_run-Replays [] s ms u g h e =
    subst (λ z. Replays s [] (z.0) (z.1))
      (ok-same (scratch_run s []) ([], s) (ms, u) (unfold scratch_run in refl) e) (stays s g)
scratch_run-Replays (bytes ∷ requests) s ms u g h e =
    let (x, took, rest) =
      bind-ok (scratch_allocate s bytes) (go_on requests) (ms, u)
        (sym (scratch_run-cons s bytes requests) ∙ e) in
    let (y, ran, last) =
      bind-ok (scratch_run x.1 requests) (λ y. ok (x.0 ∷ y.0, y.1)) (ms, u) rest in
    elim (Bool-cases (leb (s.offset + need bytes) s.capacity)) [
      | inr full ↦ absurd (ground (arith, scratch_allocate-full s bytes g h.0 (ground arith)))
      | inl fits ↦
          let within : s.offset + need bytes ≤ s.capacity = ground arith in
          let same =
            ok-same (scratch_allocate s bytes) x (piece s bytes, taken s bytes) took
              (scratch_allocate-fits s bytes g h.0 within) in
          let ran' =
            ap (λ (w : Memory × ScratchAllocator). scratch_run w.1 requests) (sym same) ∙ ran in
          let later =
            scratch_run-Replays requests (taken s bytes) (y.0) (y.1)
              (taken-IsGood s bytes g h.0 within) h.1 ran' in
          subst (λ z. Replays s (bytes ∷ requests) (z.0) (z.1))
            (ok-same (ok (x.0 ∷ y.0, y.1)) (x.0 ∷ y.0, y.1) (ms, u) refl last)
            (subst
              (λ (w : Memory × ScratchAllocator). Replays s (bytes ∷ requests) (w.0 ∷ y.0) (y.1))
              (sym same) (takes s bytes requests (y.0) (y.1) g h.0 within later))
    ]

-- If a forward pass whose requests are below 2^62 bytes each runs in the probe buffer of 512 MB,
-- then its pieces lie one behind the other within the buffer's peak, each at a multiple of 256 bytes
-- and large enough; and in any other buffer of the size that is computed from the peak the same
-- requests succeed again, with every piece at the same offset, and within that buffer.
pub probe_replays :
    (base base' : ℕ) (requests : List ℕ) (ms : List Memory) (u : ScratchAllocator)
    → AllBelow (2 ^ 62) requests
    → scratch_run (new_scratch base probe_bytes) requests ≡ ok (ms, u)
    → Stacked base 0 u.peak requests ms
      × ((ms' : List Memory) × (u' : ScratchAllocator) × (scratch_run
              (new_scratch base' (scratch_size u.peak))
              requests
            ≡ ok (ms', u'))
          × SameOffsets base base' ms ms'
          × Stacked base' 0 (scratch_size u.peak) requests ms')
unfolding new_scratch
probe_replays base base' requests ms u h e =
    let good : IsGood (new_scratch base probe_bytes) = record {
      low = omega arith;
      high = omega arith;
      small = omega arith;
      aligned = refl;
    } in
    let r = scratch_run-Replays requests (new_scratch base probe_bytes) ms u good h e in
    let (room, small) = scratch_size-fits u.peak (omega (arith, r.within, r.kept)) in
    (
      r.stacked,
      r.again (new_scratch base' (scratch_size u.peak))
          (record { low = omega arith; high = omega arith; small = small; aligned = refl }) refl
          room,
    )
