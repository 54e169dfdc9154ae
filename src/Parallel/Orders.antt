-- ===== src/Parallel/Orders.antt =====
-- A whole group of calls of `all_reduce_sum`, in any order.
use nano_vllm_cpp.Base.{ℕ, ◌<◌, ◌≡◌, List, [], ◌∷◌, none, length}
use nano_vllm_cpp.Base.Counting.{count}
use nano_vllm_cpp.Base.Maps.{bytes_key, find}
use nano_vllm_cpp.Tensor.{Tensor, data_address}
use nano_vllm_cpp.Parallel.{Device, Values, Communicator}
use nano_vllm_cpp.Parallel.Reduce.{addresses, AllAlike, Summed}
use nano_vllm_cpp.Parallel.Arrivals.{AllUsable}

-- How the group ends: all tensors have the sum, and the group is gone.
pub record Reduced {Value : Type 0} (plus : Value → Value → Value) (devices : ℕ → Device)
    (key : List ℕ) (m : Values plus) (t : Tensor) (us : List Tensor) (c : Communicator plus)
    : Type 0 where
  pub summed : Summed plus devices m t us c.memory
  pub gone : find c.pending_all_reduce key ≡ none

module _ {Value : Type 0} (plus : Value → Value → Value) (devices : ℕ → Device) (c₀ : ℕ)
    (name : List ℕ) (t : Tensor) (us : List Tensor) (usable : AllUsable devices (t ∷ us))
    (alike : AllAlike devices t us) (apart : count (data_address t) (addresses us) ≡ 0) where
  -- Ranks that come once each.
  abbrev pub EachOnce : List ℕ → Type 0
  EachOnce [] = Unit
  EachOnce (r ∷ rs) = (r < length (t ∷ us)) × (count r rs ≡ 0) × EachOnce rs
