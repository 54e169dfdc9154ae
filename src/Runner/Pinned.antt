-- ===== src/Runner/Pinned.antt =====
-- src/engine/model_runner.cpp: `pinned_alloc` and `reset_pinned_staging`, the staging memory of a
-- step's copies to the device.
-- The parameter `host_alloc` is `cudaHostAlloc`: from the number of buffers so far and a size, an
-- address or a failure, which the code turns into an exception. The synchronization before the old
-- buffer is freed is not modelled.
use native.Mathlib.Nat.{pow-suc}
use nano_vllm_cpp.Base.{
  ℕ, zero, suc, ◌+◌, ◌*◌, ◌/◌, ◌%◌, ◌^◌, ◌≤◌, ◌≡◌, refl, ◌⊎◌, inl, inr, Bool, true, false, Option,
  none, some, arith, Result, ok, invalid, guard, ◌>>=◌, ◌>>◌, or_fail, ltb, leb, if◌then◌else◌,
  Bool-cases, subst, sym, assertion, max,
}

-- `PinnedHostBuffer`.
pub record PinnedHostBuffer : Type 0 where
  pub data_ptr : ℕ
  pub bytes : ℕ

pub record Staging : Type 0 where
  pub buffer : Option PinnedHostBuffer
  pub offset : ℕ
  pub buffers : ℕ

unfoldable pub reset_pinned_staging : Staging → Staging
reset_pinned_staging s = record s { offset = 0 }

-- `while (new_bytes < needed) new_bytes *= 2`; `none` where the fuel runs out.
unfoldable pub grow_bytes : ℕ → ℕ → ℕ → Option ℕ
grow_bytes zero new_bytes needed = if ltb new_bytes needed then none else some new_bytes
grow_bytes (suc fuel) new_bytes needed =
    let rest = grow_bytes fuel (new_bytes * 2 % 2 ^ 64) needed in
    if ltb new_bytes needed then rest else some new_bytes

-- `(bytes + 15) & ~size_t(15)`.
unfoldable pub align_16 : ℕ → ℕ
align_16 bytes = (bytes + 15) % 2 ^ 64 / 16 * 16

abbrev pub bytes_of : Option PinnedHostBuffer → ℕ
bytes_of none = 0
bytes_of (some b) = b.bytes

-- The size from which the buffer grows.
abbrev pub start_bytes : Option PinnedHostBuffer → ℕ
start_bytes none = 256 * 1024
start_bytes (some b) = b.bytes * 2 % 2 ^ 64

abbrev pub no_room : Option PinnedHostBuffer → ℕ → Bool
no_room none end = true
no_room (some b) end = ltb b.bytes end

abbrev address : Option PinnedHostBuffer → ℕ
address none = 0
address (some b) = b.data_ptr

module _ (host_alloc : ℕ → ℕ → Option ℕ) where
  -- The branch that replaces the buffer; 64 doublings pass every size.
  unfoldable pub replace_buffer : Staging → ℕ → Result Staging
  replace_buffer s aligned = do
    new_bytes ←
        or_fail (grow_bytes 64 (start_bytes s.buffer) ((s.offset + aligned) % 2 ^ 64)) assertion
    ptr ← or_fail (host_alloc s.buffers new_bytes) invalid
    guard (leb aligned new_bytes) invalid
    ok (record {
      buffer = some (record { data_ptr = ptr; bytes = new_bytes });
      offset = 0;
      buffers = s.buffers + 1;
    })

  -- The pointer, and the staging memory behind it.
  unfoldable pub pinned_alloc : Staging → ℕ → Result (ℕ × Staging)
  pinned_alloc s bytes = do
    let aligned = align_16 bytes
    t ← if no_room s.buffer ((s.offset + aligned) % 2 ^ 64) then replace_buffer s aligned else ok s
    ok (address t.buffer + t.offset, record t { offset = (t.offset + aligned) % 2 ^ 64 })

-- The loop reaches the size, with at most a doubling past it.
grow_bytes_lem :
    (fuel new_bytes needed : ℕ)
    → needed ≤ 2 ^ 63
    → needed ≤ new_bytes * 2 ^ fuel
    → (r : ℕ) × (grow_bytes fuel new_bytes needed ≡ some r)
      × (needed ≤ r)
      × (new_bytes ≤ r)
      × (r ≤ max new_bytes (2 * needed))
unfolding grow_bytes
grow_bytes_lem zero new_bytes needed small reach =
    let enough : needed ≤ new_bytes = omega (arith, reach) in
    (new_bytes, ground arith, enough, omega arith, ground arith)
grow_bytes_lem (suc fuel) new_bytes needed small reach = elim (Bool-cases (ltb new_bytes needed)) [
  | inr done ↦ (new_bytes, rw done refl, ground arith, omega arith, ground arith)
  | inl less ↦
      let double : new_bytes * 2 % 2 ^ 64 ≡ new_bytes * 2 = ground arith in
      let next : needed ≤ new_bytes * 2 % 2 ^ 64 * 2 ^ fuel =
        subst (λ x. needed ≤ x * 2 ^ fuel) (sym double)
          (subst (λ x. needed ≤ x) (shift fuel) reach) in
      let (r, e, a, b, c) = grow_bytes_lem fuel (new_bytes * 2 % 2 ^ 64) needed small next in
      (r, rw less e, a, omega (arith, b, double), ground (arith, c, double))
]
  where
    shift : (f : ℕ) → new_bytes * 2 ^ suc f ≡ new_bytes * 2 * 2 ^ f
    shift f = grind (arith, pow-suc 2 f)

-- Staging memory within its buffer, at a multiple of 16, where sizes stay below 2^62.
pub record IsStaged (s : Staging) : Type 0 where
  pub within : s.offset ≤ bytes_of s.buffer
  pub small : bytes_of s.buffer ≤ 2 ^ 62
  pub aligned : s.offset % 16 ≡ 0
  pub some_bytes : (s.buffer ≡ none) ⊎ (1 ≤ bytes_of s.buffer)

-- What a request gets: memory of at least its bytes, from the end of what was handed out of the same
-- buffer, or from the start of a new one.
pub record Staged (s : Staging) (bytes ptr : ℕ) (t : Staging) : Type 0 where
  pub begin : ℕ
  pub pointer : ptr ≡ address t.buffer + begin
  pub held : begin + bytes ≤ t.offset
  pub inside : t.offset ≤ bytes_of t.buffer
  pub aligned : (begin % 16 ≡ 0) × (t.offset % 16 ≡ 0)
  pub where_from :
      ((t.buffer ≡ s.buffer) × (begin ≡ s.offset) × (t.buffers ≡ s.buffers))
      ⊎ ((begin ≡ 0) × (t.buffers ≡ s.buffers + 1) × (2 * bytes_of s.buffer ≤ bytes_of t.buffer))

align_16-lem :
    (bytes : ℕ)
    → bytes ≤ 2 ^ 61
    → (bytes ≤ align_16 bytes) × (align_16 bytes ≤ 2 ^ 61) × (align_16 bytes % 16 ≡ 0)
unfolding align_16
align_16-lem bytes h = (omega arith, omega arith, omega arith)

start_bytes-lem :
    (b : Option PinnedHostBuffer)
    → bytes_of b ≤ 2 ^ 62
    → (b ≡ none) ⊎ (1 ≤ bytes_of b)
    → (1 ≤ start_bytes b) × (2 * bytes_of b ≤ start_bytes b)
start_bytes-lem none h e = (omega arith, omega arith)
start_bytes-lem (some b) h (inl e) = cc
start_bytes-lem (some b) h (inr e) = (omega arith, omega arith)

module _ (host_alloc : ℕ → ℕ → Option ℕ)
    (host_alloc_ok : (n size : ℕ) → (ptr : ℕ) × (host_alloc n size ≡ some ptr)) where
  replace_buffer_lem :
      (s : Staging) (aligned : ℕ)
      → IsStaged s
      → aligned ≤ 2 ^ 61
      → (t : Staging) × (replace_buffer host_alloc s aligned ≡ ok t)
        × (t.offset ≡ 0)
        × (aligned ≤ bytes_of t.buffer)
        × (t.buffers ≡ s.buffers + 1)
        × (2 * bytes_of s.buffer ≤ bytes_of t.buffer)
  unfolding replace_buffer
  replace_buffer_lem s aligned g h =
      let (first, double) = start_bytes-lem s.buffer g.small g.some_bytes in
      let needed = (s.offset + aligned) % 2 ^ 64 in
      let exact : needed ≡ s.offset + aligned = omega (arith, g.within, g.small) in
      let (r, e, a, b, c) =
        grow_bytes_lem 64 (start_bytes s.buffer) needed (omega (arith, exact, g.within, g.small))
          (omega (arith, exact, first, g.within, g.small)) in
      let (ptr, f) = host_alloc_ok s.buffers r in
      let room : leb aligned r ≡ true = ground (arith, exact, a) in
      (
        record {
          buffer = some (record { data_ptr = ptr; bytes = r });
          offset = 0;
          buffers = s.buffers + 1;
        },
        rw (e, f, room) refl,
        refl,
        ground arith,
        refl,
        omega (arith, double, b),
      )

  -- If cudaHostAlloc succeeds, then from staging memory within a buffer of at most 2^62 bytes a
  -- request of at most 2^61 bytes returns: the loop that grows the buffer ends, and the throw behind
  -- it is not reached. The pointer is at a multiple of 16 from the start of the buffer, with at least
  -- the bytes asked for before the new offset, which is within the buffer, and lies behind all that
  -- was handed out before, or at the start of a new buffer, at least twice as large as the old.
  pub pinned_alloc_lem :
      (s : Staging) (bytes : ℕ)
      → IsStaged s
      → bytes ≤ 2 ^ 61
      → (ptr : ℕ) × (t : Staging) × (pinned_alloc host_alloc s bytes ≡ ok (ptr, t))
        × Staged s bytes ptr t
  unfolding pinned_alloc
  pinned_alloc_lem s bytes g h =
      let (a, b, c) = align_16-lem bytes h in
      let aligned = align_16 bytes in
      elim (Bool-cases (no_room s.buffer ((s.offset + aligned) % 2 ^ 64))) [
        | inl full ↦
            let (t, e, o, room, n, double) = replace_buffer_lem s aligned g b in
            (
              address t.buffer + t.offset,
              record t { offset = (t.offset + aligned) % 2 ^ 64 },
              rw (full, e) refl,
              record {
                begin = t.offset;
                pointer = refl;
                held = omega (arith, o, a, b);
                inside = omega (arith, o, b, room);
                aligned = (omega (arith, o), omega (arith, o, b, c));
                where_from = inr (o, n, double);
              },
            )
        | inr fits ↦
            let inside = within_buffer s.buffer ((s.offset + aligned) % 2 ^ 64) fits in
            (
              address s.buffer + s.offset,
              record s { offset = (s.offset + aligned) % 2 ^ 64 },
              rw fits refl,
              record {
                begin = s.offset;
                pointer = refl;
                held = omega (arith, a, b, g.within, g.small);
                inside = inside;
                aligned = (g.aligned, omega (arith, b, c, g.within, g.small, g.aligned));
                where_from = inl (refl, refl, refl);
              },
            )
      ]
    where
      within_buffer :
          (o : Option PinnedHostBuffer) (end : ℕ) → no_room o end ≡ false → end ≤ bytes_of o
      within_buffer none end h = cc
      within_buffer (some x) end h = ground arith
