-- ===== src/BlockManager/Release.antt =====
-- `deallocate` gives up one holder of each block of the table, and never meets a fault.
use mathlib.Core.List.{reverse, reverse-cons}
use nano_vllm_cpp.Base.{
  ℕ, ◌+◌, ◌-◌, ◌≤◌, ◌<◌, ◌≡◌, ◌≢◌, refl, ◌∙◌, inl, inr, List, [], ◌∷◌, ◌++◌, some, arith, length,
  get_elem?, set, ok, ◌==◌, length-append, length-set, get_elem?-set, get_elem?-some, Bool-cases,
}
use nano_vllm_cpp.Base.Counting.{count, count-append, erase, count-erase, length-erase}
use nano_vllm_cpp.Sequence.{Sequence}
use nano_vllm_cpp.BlockManager.{
  Block, BlockManager, deallocate_block, release_block, release_all, deallocate,
}
use nano_vllm_cpp.BlockManager.Invariant.{Inv, Inv-cong, ref_of, plus_one}

module _ (m : BlockManager) (holders : ℕ → ℕ) (id : ℕ) (v : Inv m (plus_one holders id)) where
  abbrev fewer : Block → BlockManager
  fewer k = record m { blocks = set m.blocks id (record k { ref_count = k.ref_count - 1 }) }

  abbrev freed : Block → BlockManager
  freed k = record (fewer k) {
    free_block_ids = m.free_block_ids ++ id ∷ [];
    used_block_ids = erase id m.used_block_ids;
  }

  held_block : (k : Block) × (get_elem? m.blocks id ≡ some k) × (k.ref_count ≡ holders id + 1)
  unfolding ref_of
  held_block =
      let there : id < length m.blocks = ground (arith, v.free_once id) in
      let (k, e) = get_elem?-some m.blocks id there in (k, e, ground (arith, v.refs id))

  fewer-Inv :
      (k : Block)
      → get_elem? m.blocks id ≡ some k
      → k.ref_count ≡ holders id + 1
      → holders id ≢ 0
      → Inv (fewer k) holders
  unfolding ref_of
  fewer-Inv k e r ne =
      let k' = record k { ref_count = k.ref_count - 1 } in
      record {
        refs = λ b. ground (arith, get_elem?-set m.blocks id b k' k e, v.refs b);
        ids = λ b j at. ground (arith, get_elem?-set m.blocks id b k' k e, v.ids b j, v.ids id k e);
        free_once = λ b. ground (arith, v.free_once b, length-set m.blocks id k');
        used_once = λ b. ground (arith, v.used_once b);
        hash_in = λ g b at. ground (arith, v.hash_in g b at, length-set m.blocks id k');
        total = omega (arith, v.total, length-set m.blocks id k');
      }

  freed-Inv :
      (k : Block)
      → get_elem? m.blocks id ≡ some k
      → k.ref_count ≡ holders id + 1
      → holders id ≡ 0
      → Inv (freed k) holders
  unfolding ref_of count
  freed-Inv k e r z =
      let k' = record k { ref_count = k.ref_count - 1 } in
      record {
        refs = λ b. ground (arith, get_elem?-set m.blocks id b k' k e, v.refs b);
        ids = λ b j at. ground (arith, get_elem?-set m.blocks id b k' k e, v.ids b j, v.ids id k e);
        free_once = λ b. ground (
          arith,
          v.free_once b,
          count-append b m.free_block_ids (id ∷ []),
          length-set m.blocks id k',
        );
        used_once = λ b. ground (arith, v.used_once b, count-erase b id m.used_block_ids);
        hash_in = λ g b at. ground (arith, v.hash_in g b at, length-set m.blocks id k');
        total = ground (
          arith,
          v.total,
          length-set m.blocks id k',
          length-append m.free_block_ids (id ∷ []),
          length-erase id m.used_block_ids,
          v.used_once id,
        );
      }

  release_block_lem :
      (m' : BlockManager) × (release_block m id ≡ ok m')
      × Inv m' holders
      × (length m.free_block_ids ≤ length m'.free_block_ids)
      × (m'.block_size ≡ m.block_size)
  unfolding release_block deallocate_block
  release_block_lem =
      let (k, e, r) = held_block in
      elim (Bool-cases (holders id == 0)) [
        | inl z ↦ (
          freed k,
          ground
              (arith, get_elem?-set m.blocks id id (record k { ref_count = k.ref_count - 1 }) k e),
          freed-Inv k e r (ground arith),
          omega (arith, length-append m.free_block_ids (id ∷ [])),
          refl,
        )
        | inr ne ↦ (fewer k, ground arith, fewer-Inv k e r (ground arith), omega arith, refl)
      ]

-- The tables other than this one hold `others b` entries of block `b`.
release_all_lem :
    (xs : List ℕ) (m : BlockManager) (others : ℕ → ℕ)
    → Inv m (λ b. count b xs + others b)
    → (m' : BlockManager) × (release_all m xs ≡ ok m')
      × Inv m' others
      × (length m.free_block_ids ≤ length m'.free_block_ids)
      × (m'.block_size ≡ m.block_size)
unfolding release_all count
release_all_lem [] m others v = (m, refl, Inv-cong (λ b. omega arith) v, omega arith, refl)
release_all_lem (x ∷ xs) m others v =
    let v' = Inv-cong {g = plus_one (λ b. count b xs + others b) x} (λ b. omega arith) v in
    let (m₁, e₁, v₁, f₁, z₁) = release_block_lem m (λ b. count b xs + others b) x v' in
    let (m₂, e₂, v₂, f₂, z₂) = release_all_lem xs m₁ others v₁ in
    (m₂, rw e₁ e₂, v₂, omega arith, z₂ ∙ z₁)

count-reverse : (b : ℕ) (xs : List ℕ) → count b (reverse xs) ≡ count b xs
unfolding count
count-reverse b [] = refl
count-reverse b (x ∷ xs) =
    rw (reverse-cons x xs) (omega (arith, count-append b (reverse xs) (x ∷ []), count-reverse b xs))

-- `deallocate` of a sequence whose table counts among the holders meets no fault, takes exactly the
-- entries of that table off the holders, empties the table and the cached count, and keeps the
-- rest of the sequence; the free list does not shrink.
pub deallocate_lem :
    (m : BlockManager) (s : Sequence) (others : ℕ → ℕ)
    → Inv m (λ b. count b s.block_table + others b)
    → (m' : BlockManager) × (deallocate m s
        ≡ ok (m', record s { num_cached_tokens = 0; block_table = [] }))
      × Inv m' others
      × (length m.free_block_ids ≤ length m'.free_block_ids)
      × (m'.block_size ≡ m.block_size)
unfolding deallocate
deallocate_lem m s others v =
    let v' =
      Inv-cong {g = λ b. count b (reverse s.block_table) + others b}
        (λ b. omega (arith, count-reverse b s.block_table)) v in
    let (m', e, w, f, z) = release_all_lem (reverse s.block_table) m others v' in
    (m', rw e, w, f, z)
