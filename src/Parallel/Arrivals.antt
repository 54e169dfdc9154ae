-- ===== src/Parallel/Arrivals.antt =====
-- The ranks of a group arrive one after the other, in any order.
use nano_vllm_cpp.Base.{
  ℕ, zero, suc, ◌+◌, ◌≤◌, ◌<◌, ◌≡◌, refl, ap, subst, List, [], ◌∷◌, true, false, Option, none, some,
  arith, length, get_elem?, set, Result, ok, out_of_range, or_fail, ◌>>=◌, ltb, ◌==◌, vec_eq,
  Bool-cases, inl, inr, ap₂,
}
use nano_vllm_cpp.Base.Counting.{count}
use nano_vllm_cpp.Base.Maps.{bytes_key, find, assign}
use nano_vllm_cpp.Tensor.{Tensor, is_contiguous}
use nano_vllm_cpp.Copy.{is_cuda}
use nano_vllm_cpp.Parallel.{
  Device, device, is_defined, ensure_defined_cuda_contiguous, validate_group_key, validate_rank,
  no_tensors, open_group, Values, reduce, Communicator, all_reduce_sum, remove,
}
use nano_vllm_cpp.Parallel.Reduce.{all_defined}

pub find-remove : {V : Type 0} (m : List (List ℕ × V)) (k : List ℕ) → find (remove m k) k ≡ none
unfolding find remove
find-remove [] k = refl
find-remove ((j, v) ∷ m) k = elim (Bool-cases (vec_eq j k)) [
  | inl same ↦ rw same (find-remove m k)
  | inr other ↦ rw other (rw other (find-remove m k))
]

abbrev pub Usable : (ℕ → Device) → Tensor → Type 0
Usable devices t =
    (is_defined t ≡ true) × (is_cuda ((device devices t).type) ≡ true) × (is_contiguous t ≡ ok true)

abbrev pub AllUsable : (ℕ → Device) → List Tensor → Type 0
AllUsable devices [] = Unit
AllUsable devices (t ∷ ts) = Usable devices t × AllUsable devices ts

ensures :
    (devices : ℕ → Device) (t : Tensor)
    → Usable devices t
    → ensure_defined_cuda_contiguous devices t ≡ ok tt
unfolding ensure_defined_cuda_contiguous
ensures devices t (made, on_cuda, contiguous) = rw (made, on_cuda, contiguous) refl

pub usable_at :
    (devices : ℕ → Device) (ts : List Tensor) (k : ℕ) (t : Tensor)
    → AllUsable devices ts
    → get_elem? ts k ≡ some t
    → ensure_defined_cuda_contiguous devices t ≡ ok tt
usable_at devices [] k t a h = cc
usable_at devices (x ∷ ts) zero t a h =
    let same : x ≡ t = ground arith in ensures devices t (subst (Usable devices) same a.0)
usable_at devices (x ∷ ts) (suc k) t a h = usable_at devices ts k t a.1 h

pub get_elem?-all_defined :
    (ts : List Tensor) (k : ℕ) (t : Tensor)
    → get_elem? ts k ≡ some t
    → get_elem? (all_defined ts) k ≡ some (some t)
get_elem?-all_defined [] k t h = cc
get_elem?-all_defined (x ∷ ts) zero t h = ground arith
get_elem?-all_defined (x ∷ ts) (suc k) t h = get_elem?-all_defined ts k t h

-- Lists that agree at every place of one are equal if they are as long.
pub same_slots :
    (xs : List (Option Tensor)) (ts : List Tensor)
    → length xs ≡ length ts
    → ((k : ℕ) (t : Tensor) → get_elem? ts k ≡ some t → get_elem? xs k ≡ some (some t))
    → xs ≡ all_defined ts
same_slots [] [] e h = refl
same_slots [] (t ∷ ts) e h = absurd (omega arith)
same_slots (x ∷ xs) [] e h = absurd (omega arith)
same_slots (x ∷ xs) (t ∷ ts) e h =
    ap₂ (λ a b. a ∷ b) (ground (arith, h zero t refl))
      (same_slots xs ts (omega arith) (λ k. h (suc k)))

pub length-no_tensors : (n : ℕ) → length (no_tensors n) ≡ n
unfolding no_tensors
length-no_tensors zero = refl
length-no_tensors (suc n) = ap suc (length-no_tensors n)

pub get_elem?-no_tensors : (n k : ℕ) → k < n → get_elem? (no_tensors n) k ≡ some none
unfolding no_tensors
get_elem?-no_tensors zero k h = absurd (omega arith)
get_elem?-no_tensors (suc n) zero h = refl
get_elem?-no_tensors (suc n) (suc k) h = get_elem?-no_tensors n k (omega arith)

module _ {Value : Type 0} (plus : Value → Value → Value) (devices : ℕ → Device) (c₀ : ℕ)
    (name : List ℕ) (t : Tensor) (us : List Tensor) where
  abbrev pub group : List ℕ
  group = c₀ ∷ name

  abbrev pub ts : List Tensor
  ts = t ∷ us

  -- The calls of the ranks, in the order of the list, with their tensors.
  unfoldable pub run_ranks : Communicator plus → List ℕ → Result (Communicator plus)
  run_ranks c [] = ok c
  run_ranks c (rank ∷ ranks) = do
    tensor ← or_fail (get_elem? ts rank) out_of_range
    c' ← all_reduce_sum plus devices c group (length ts) rank tensor
    run_ranks c' ranks

  -- The ranks that are still to come have no tensor in the group, the others have theirs.
  pub record Waiting (m : Values plus) (c : Communicator plus) (ranks : List ℕ) : Type 0 where
    pub slots : List (Option Tensor)
    pub arrived : ℕ
    pub opens :
        open_group c.pending_all_reduce group (length ts)
        ≡ ok (record { tensors = slots; arrived = arrived })
    pub counted : arrived + length ranks ≡ length ts
    pub sized : length slots ≡ length ts
    pub free : (k : ℕ) → k < length ts → 1 ≤ count k ranks → get_elem? slots k ≡ some none
    pub taken :
        (k : ℕ) (u : Tensor)
        → get_elem? ts k ≡ some u
        → count k ranks ≡ 0
        → get_elem? slots k ≡ some (some u)
    pub kept : c.memory ≡ m

  module _ (c : Communicator plus) (rank : ℕ) (u : Tensor) (slots : List (Option Tensor))
      (arrived : ℕ) (usable : ensure_defined_cuda_contiguous devices u ≡ ok tt)
      (low : rank < length ts)
      (opens : open_group c.pending_all_reduce group (length ts)
        ≡ ok (record { tensors = slots; arrived = arrived }))
      (slot : get_elem? slots rank ≡ some none) where
    pub waits :
        (arrived + 1 == length ts) ≡ false
        → all_reduce_sum plus devices c group (length ts) rank u
          ≡ ok (record c {
            pending_all_reduce =
                assign c.pending_all_reduce group
                  (record { tensors = set slots rank (some u); arrived = arrived + 1 });
          })
    unfolding all_reduce_sum validate_group_key validate_rank
    waits more =
        let a : ltb 0 (length ts) ≡ true = ground arith in
        let b : ltb rank (length ts) ≡ true = ground arith in
        rw (a, b, usable, opens, slot, more) refl

    pub ends :
        (m' : Values plus)
        → (arrived + 1 == length ts) ≡ true
        → reduce plus devices c.memory (set slots rank (some u)) ≡ ok m'
        → all_reduce_sum plus devices c group (length ts) rank u
          ≡ ok (record c { pending_all_reduce = remove c.pending_all_reduce group; memory = m' })
    unfolding all_reduce_sum validate_group_key validate_rank
    ends m' last run =
        let a : ltb 0 (length ts) ≡ true = ground arith in
        let b : ltb rank (length ts) ≡ true = ground arith in
        rw (a, b, usable, opens, slot, last, run) refl
