-- ===== src/BlockManager/Claim.antt =====
-- What one `claim` of a block does to the manager.
use nano_vllm_cpp.Base.{
  ℕ, ◌+◌, ◌≤◌, ◌<◌, ◌≡◌, ◌≢◌, refl, ap, inl, inr, List, [], ◌∷◌, Bool, true, false, Option, none,
  some, arith, length, ok, Option-cases, Bool-cases, vec_eq, vec_eq→eq, get_elem?-some,
}
use nano_vllm_cpp.Base.Counting.{
  count, count-contains, not-contains-count, contains-count, contains,
}
use nano_vllm_cpp.BlockManager.{BlockManager, claim, look_up}
use nano_vllm_cpp.BlockManager.Invariant.{
  Inv, Touches, plus_one, tokens_at, allocate_block_lem, add_ref_lem,
}

pub record Claimed (m : BlockManager) (holders : ℕ → ℕ) (found : Option ℕ) (id : ℕ)
    (m' : BlockManager) : Type 0 where
  pub claims : claim m found ≡ ok (id, m')
  pub inv : Inv m' (plus_one holders id)
  pub room : length m.free_block_ids ≤ length m'.free_block_ids + 1
  pub touches : Touches m id m'
  pub fresh : found ≡ none → holders id ≡ 0
  pub hits : (j : ℕ) → found ≡ some j → id ≡ j
  pub kept : holders id ≢ 0 → tokens_at m' id ≡ tokens_at m id

module _ (m : BlockManager) (holders : ℕ → ℕ) (v : Inv m holders) where
  claim_free :
      (x : ℕ) (xs : List ℕ)
      → m.free_block_ids ≡ x ∷ xs
      → (m' : BlockManager) × Claimed m holders none x m'
  unfolding claim count
  claim_free x xs e =
      let in_free : 1 ≤ count x m.free_block_ids = ground arith in
      let (m', a, w, f, t) = allocate_block_lem m holders v x in_free in
      let zero_holders : holders x ≡ 0 = ground (arith, v.free_once x) in
      (
        m',
        record {
          claims = ground arith;
          inv = w;
          room = omega arith;
          touches = t;
          fresh = λ _. zero_holders;
          hits = λ j h. cc;
          kept = λ h. absurd (h zero_holders);
        },
      )

  claim_hit :
      (id : ℕ) → id < length m.blocks → (m' : BlockManager) × Claimed m holders (some id) id m'
  unfolding claim
  claim_hit id there = elim (Bool-cases (contains id m.used_block_ids)) [
    | inl used ↦
        let held : holders id ≢ 0 =
          ground (arith, v.used_once id, contains-count id m.used_block_ids used) in
        let (m', a, w, f, t, k) = add_ref_lem m holders v id held in
        (
          m',
          record {
            claims = ground arith;
            inv = w;
            room = omega (arith, ap (λ xs. length xs) f);
            touches = t;
            fresh = λ h. cc;
            hits = λ j h. ground arith;
            kept = λ _. k;
          },
        )
    | inr unused ↦
        let free_one : (holders id ≡ 0) × (1 ≤ count id m.free_block_ids) = ground (
          arith,
          v.used_once id,
          v.free_once id,
          not-contains-count id m.used_block_ids unused,
          count-contains id m.used_block_ids,
        ) in
        let (m', a, w, f, t) = allocate_block_lem m holders v id (free_one.1) in
        (
          m',
          record {
            claims = ground arith;
            inv = w;
            room = omega arith;
            touches = t;
            fresh = λ h. cc;
            hits = λ j h. ground arith;
            kept = λ h. absurd (h free_one.0);
          },
        )
  ]

  -- `look_up` meets no fault; what it hits is a block that records the tokens asked for.
  pub look_up_lem :
      (miss : Bool) (h : ℕ) (tids : List ℕ)
      → (found : Option ℕ) × (look_up m miss h tids ≡ ok found)
        × ((j : ℕ)
            → found ≡ some j
            → (j < length m.blocks) × (tokens_at m j ≡ some tids) × (m.hash_to_block_id h ≡ some j))
        × (miss ≡ true → found ≡ none)
  unfolding look_up
  look_up_lem true h tids = (none, refl, (λ j e. cc), λ _. refl)
  look_up_lem false h tids = elim (Option-cases (m.hash_to_block_id h)) [
    | inl e ↦ (none, rw (e, look_up), (λ j e. cc), λ _. refl)
    | inr (id, e) ↦
        let (k, at) = get_elem?-some m.blocks id (v.hash_in h id e) in
        elim (Bool-cases (vec_eq k.token_ids tids)) [
          | inl same ↦ (
            some id,
            rw (e, look_up) (ground arith),
            (λ j f. ground (arith, v.hash_in h id e, vec_eq→eq k.token_ids tids same)),
            λ f. cc,
          )
          | inr other ↦ (none, rw (e, look_up) (ground arith), (λ j f. cc), λ _. refl)
        ]
  ]

  -- With a block free, or a hit, `claim` meets no fault.
  pub claim_lem :
      (found : Option ℕ)
      → 1 ≤ length m.free_block_ids
      → ((j : ℕ) → found ≡ some j → j < length m.blocks)
      → (id : ℕ) × (m' : BlockManager) × Claimed m holders found id m'
  claim_lem none room h = first (m.free_block_ids) refl
    where
      first :
          (xs : List ℕ)
          → m.free_block_ids ≡ xs
          → (id : ℕ) × (m' : BlockManager) × Claimed m holders none id m'
      first [] e = absurd (omega (arith, ap (λ ys. length ys) e))
      first (x ∷ xs) e = let (m', c) = claim_free x xs e in (x, m', c)
  claim_lem (some id) room h = let (m', c) = claim_hit id (h id refl) in (id, m', c)
