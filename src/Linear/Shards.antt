-- ===== src/Linear/Shards.antt =====
-- The shards of a merged layer tile its local weight.
use native.Mathlib.Nat.{div-add-mod'}
use nano_vllm_cpp.Base.{ℕ, ◌+◌, ◌*◌, ◌/◌, ◌%◌, ◌≡◌, refl, List, [], ◌∷◌, ok, arith, eq→==}
use nano_vllm_cpp.Linear.{merged_shards, sum}

-- Shards that follow each other from an offset up to an end, without a gap.
pub data Tiles : ℕ → List ℕ → List ℕ → ℕ → Type 0 where
  none_left : {end : ℕ} → Tiles end [] [] end
  next :
      {offset local end : ℕ} {locals offsets : List ℕ}
      → Tiles (offset + local) locals offsets end
      → Tiles offset (local ∷ locals) (offset ∷ offsets) end

abbrev pub AllDivisible : ℕ → List ℕ → Type 0
AllDivisible tp_size [] = Unit
AllDivisible tp_size (n ∷ ns) = (n % tp_size ≡ 0) × AllDivisible tp_size ns

merged_shards-cons :
    (tp_size offset n : ℕ) (ns locals offsets : List ℕ)
    → n % tp_size ≡ 0
    → merged_shards tp_size (offset + n / tp_size) ns ≡ ok (locals, offsets)
    → merged_shards tp_size offset (n ∷ ns) ≡ ok (n / tp_size ∷ locals, offset ∷ offsets)
unfolding merged_shards
merged_shards-cons tp_size offset n ns locals offsets h run = rw (eq→== (n % tp_size) 0 h, run) refl

total_cons :
    (tp_size offset n : ℕ) (ns : List ℕ) (end : ℕ)
    → n % tp_size ≡ 0
    → end * tp_size ≡ (offset + n / tp_size) * tp_size + sum ns
    → end * tp_size ≡ offset * tp_size + sum (n ∷ ns)
unfolding sum
total_cons tp_size offset n ns end h e = grind (arith, div-add-mod' n tp_size)

-- For output sizes that are divisible by tp_size, the loop returns local sizes and offsets that
-- tile the rows of the local weight from the offset on without a gap, and the rows of all ranks
-- together are the output sizes.
pub merged_shards_lem :
    (tp_size offset : ℕ) (sizes : List ℕ)
    → AllDivisible tp_size sizes
    → (locals offsets : List ℕ) × (end : ℕ) × (merged_shards tp_size offset sizes
        ≡ ok (locals, offsets))
      × Tiles offset locals offsets end
      × (end * tp_size ≡ offset * tp_size + sum sizes)
merged_shards_lem tp_size offset [] v =
    ([], [], offset, unfold merged_shards in refl, Tiles.none_left, unfold sum in omega arith)
merged_shards_lem tp_size offset (n ∷ ns) (h, v) =
    let (locals, offsets, end, run, tiles, total) =
      merged_shards_lem tp_size (offset + n / tp_size) ns v in
    (
      n / tp_size ∷ locals,
      offset ∷ offsets,
      end,
      merged_shards-cons tp_size offset n ns locals offsets h run,
      Tiles.next tiles,
      total_cons tp_size offset n ns end h total,
    )
