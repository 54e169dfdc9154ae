-- ===== src/Scheduler/Invariant.antt =====
-- The invariant of the scheduler: where each sequence stands, and that its block table counts
-- among the holders of the block manager.
use nano_vllm_cpp.Base.{
  ℕ, zero, suc, ◌+◌, ◌-◌, ◌≤◌, ◌≡◌, ◌≢◌, sym, ap, subst, List, [], ◌∷◌, Option, none, some, arith,
  length, get_elem?, set, get_elem?-set, Option-cases, inl, inr,
}
use nano_vllm_cpp.Base.Counting.{count}
use native.Mathlib.Decide.{ℕ_discrete}
use nano_vllm_cpp.Sequence.{Sequence, SequenceStatus}
use nano_vllm_cpp.BlockManager.{BlockManager}
use nano_vllm_cpp.BlockManager.Invariant.{Inv, Inv-cong}
use nano_vllm_cpp.Scheduler.{Scheduler}

-- How many entries of the block tables name the block `b`.
unfoldable pub total_holders : List Sequence → ℕ → ℕ
total_holders [] b = 0
total_holders (q ∷ qs) b = count b q.block_table + total_holders qs b

-- A sequence by its status, where `w` and `r` count its pointer in `waiting_`, and in `running_`
-- with the sequences that a step holds aside.
abbrev pub Fits : SequenceStatus → Sequence → ℕ → ℕ → Type 0
Fits SequenceStatus.waiting q w r =
    (w ≡ 1) × (r ≡ 0) × (q.block_table ≡ []) × (q.num_cached_tokens ≡ 0)
Fits SequenceStatus.running q w r = (w ≡ 0) × (r ≡ 1) × (1 ≤ length q.block_table)
Fits SequenceStatus.finished q w r =
    (w ≡ 0) × (r ≡ 0) × (q.block_table ≡ []) × (q.num_cached_tokens ≡ 0)

abbrev pub Placed : Option Sequence → ℕ → ℕ → Type 0
Placed none w r = (w ≡ 0) × (r ≡ 0)
Placed (some q) w r = (1 ≤ q.num_tokens) × Fits q.status q w r

-- `aside` are the running sequences that a step has taken off `running_`.
pub record SchedInv (s : Scheduler) (aside : List ℕ) : Type 0 where
  pub blocks : Inv s.block_manager (total_holders s.sequences)
  pub placed :
      (p : ℕ)
      → Placed (get_elem? s.sequences p) (count p s.waiting) (count p s.running + count p aside)

pub total-set :
    (qs : List Sequence) (p : ℕ) (q q' : Sequence) (b : ℕ)
    → get_elem? qs p ≡ some q
    → total_holders (set qs p q') b + count b q.block_table
      ≡ total_holders qs b + count b q'.block_table
unfolding total_holders
total-set [] p q q' b h = cc
total-set (x ∷ qs) zero q q' b h = ground arith
total-set (x ∷ qs) (suc p) q q' b h = omega (arith, total-set qs p q q' b h)

pub count-le-total :
    (qs : List Sequence) (p : ℕ) (q : Sequence) (b : ℕ)
    → get_elem? qs p ≡ some q
    → count b q.block_table ≤ total_holders qs b
unfolding total_holders
count-le-total [] p q b h = cc
count-le-total (x ∷ qs) zero q b h = ground arith
count-le-total (x ∷ qs) (suc p) q b h = omega (arith, count-le-total qs p q b h)

-- The holders other than one sequence.
abbrev pub rest_of : List Sequence → Sequence → ℕ → ℕ
rest_of qs q b = total_holders qs b - count b q.block_table

pub split_holders :
    {m : BlockManager} (qs : List Sequence) (p : ℕ) (q : Sequence)
    → get_elem? qs p ≡ some q
    → Inv m (total_holders qs)
    → Inv m (λ b. count b q.block_table + rest_of qs q b)
split_holders qs p q h = Inv-cong (λ b. omega (arith, count-le-total qs p q b h))

pub join_holders :
    {m : BlockManager} (qs : List Sequence) (p : ℕ) (q q' : Sequence)
    → get_elem? qs p ≡ some q
    → Inv m (λ b. count b q'.block_table + rest_of qs q b)
    → Inv m (total_holders (set qs p q'))
join_holders qs p q q' h =
    Inv-cong (λ b. omega (arith, count-le-total qs p q b h, total-set qs p q q' b h))

-- A sequence replaced by one with the same table leaves the holders as they are.
pub same_holders :
    {m : BlockManager} (qs : List Sequence) (p : ℕ) (q q' : Sequence)
    → get_elem? qs p ≡ some q
    → q'.block_table ≡ q.block_table
    → Inv m (total_holders qs)
    → Inv m (total_holders (set qs p q'))
same_holders qs p q q' h e =
    Inv-cong (λ b. omega (arith, total-set qs p q q' b h, ap (λ t. count b t) e))

-- The placement after a write at `p`: at `p` it is that of the new sequence, elsewhere it stays if
-- the counts do.
pub Placed-set :
    (qs : List Sequence) (p : ℕ) (q q' : Sequence) (k w r w' r' : ℕ)
    → get_elem? qs p ≡ some q
    → Placed (get_elem? qs k) w r
    → (p ≡ k → Placed (some q') w' r')
    → (p ≢ k → (w' ≡ w) × (r' ≡ r))
    → Placed (get_elem? (set qs p q') k) w' r'
Placed-set qs p q q' k w r w' r' h old at off = elim (ℕ_discrete p k) [
  | yes e ↦
      let there : get_elem? (set qs p q') k ≡ some q' =
        ground (arith, get_elem?-set qs p k q' q h) in
      subst (λ o. Placed o w' r') (sym there) (at e)
  | no ne ↦
      let there : get_elem? (set qs p q') k ≡ get_elem? qs k =
        ground (arith, get_elem?-set qs p k q' q h) in
      let (ew, er) = off ne in
      subst (λ o. Placed o w' r') (sym there)
        (subst (λ x. Placed (get_elem? qs k) x r') (sym ew)
          (subst (λ x. Placed (get_elem? qs k) w x) (sym er) old))
]

module _ {s : Scheduler} {aside : List ℕ} (v : SchedInv s aside) (p : ℕ) where
  -- A pointer in `waiting_` or `running_`, or held aside, is good.
  pub waiting_seq :
      1 ≤ count p s.waiting
      → (q : Sequence) × (get_elem? s.sequences p ≡ some q)
        × (1 ≤ q.num_tokens)
        × (count p s.waiting ≡ 1)
        × (count p s.running + count p aside ≡ 0)
        × (q.block_table ≡ [])
        × (q.num_cached_tokens ≡ 0)
        × (q.status ≡ SequenceStatus.waiting)
  waiting_seq h = elim (Option-cases (get_elem? s.sequences p)) [
    | inl e ↦ absurd (
        ground (
          arith,
          subst (λ o. Placed o (count p s.waiting) (count p s.running + count p aside)) e
              (v.placed p),
        ))
    | inr (q, e) ↦
        let f =
          subst (λ o. Placed o (count p s.waiting) (count p s.running + count p aside)) e
            (v.placed p) in
        (
          q,
          e,
          f.0,
          ground (arith, f),
          ground (arith, f),
          ground (arith, f),
          ground (arith, f),
          ground (arith, f),
        )
  ]

  pub running_seq :
      1 ≤ count p s.running + count p aside
      → (q : Sequence) × (get_elem? s.sequences p ≡ some q)
        × (1 ≤ q.num_tokens)
        × (count p s.waiting ≡ 0)
        × (count p s.running + count p aside ≡ 1)
        × (1 ≤ length q.block_table)
        × (q.status ≡ SequenceStatus.running)
  running_seq h = elim (Option-cases (get_elem? s.sequences p)) [
    | inl e ↦ absurd (
        ground (
          arith,
          subst (λ o. Placed o (count p s.waiting) (count p s.running + count p aside)) e
              (v.placed p),
        ))
    | inr (q, e) ↦
        let f =
          subst (λ o. Placed o (count p s.waiting) (count p s.running + count p aside)) e
            (v.placed p) in
        (q, e, f.0, ground (arith, f), ground (arith, f), ground (arith, f), ground (arith, f))
  ]
