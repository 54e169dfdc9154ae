-- ===== src/Parallel.antt =====
-- src/utils/tensor_parallel.cpp: the communicator within one process, `all_reduce_sum`. Each rank
-- calls once; the call that completes the group adds up the tensors of all.
-- A call holds the lock from its lookup to its end, so a run is a sequence of calls. `memory` has
-- the value of the tensor that starts at an address, and `plus` is the kernel `add_inplace` on such
-- values. `devices` has the device of the memory at a base address. Ranks and sizes are plain numbers.
pub mod Reduce
pub mod Arrivals
pub mod Orders
use nano_vllm_cpp.Base.{
  ℕ, zero, suc, ◌+◌, List, [], ◌∷◌, Bool, true, false, not, ◌&&◌, Option, none, some, length,
  get_elem?, set, Result, ok, err, out_of_range, invalid, guard, or_fail, ◌>>=◌, ◌>>◌, ltb, ◌==◌,
  if◌then◌else◌, vec_eq,
}
use nano_vllm_cpp.Base.Maps.{Key, bytes_key, find, assign}
use nano_vllm_cpp.Tensor.{ScalarType, Tensor, is_contiguous, data_address}
use nano_vllm_cpp.Copy.{DeviceType, is_cuda}

-- `m.erase(k)`.
unfoldable pub remove {ℓ} : {V : Type ℓ} → List (List ℕ × V) → List ℕ → List (List ℕ × V)
remove [] k = []
remove ((j, v) ∷ m) k = let rest = remove m k in if vec_eq j k then rest else (j, v) ∷ rest

unfoldable pub is_defined : Tensor → Bool
is_defined t = elim (t.memory) [ none ↦ false | some base ↦ true ]

abbrev pub dtype_code : ScalarType → ℕ
dtype_code ScalarType.float16 = 0
dtype_code ScalarType.bfloat16 = 1
dtype_code ScalarType.float32 = 2
dtype_code ScalarType.int32 = 3
dtype_code ScalarType.int64 = 4
dtype_code ScalarType.int8 = 5

unfoldable pub validate_group_key : List ℕ → Result (Unit {0})
validate_group_key [] = err invalid
validate_group_key (c ∷ group_key) = ok tt

unfoldable pub validate_rank : ℕ → ℕ → Result (Unit {0})
validate_rank tp_size rank = guard (ltb 0 tp_size) invalid >> guard (ltb rank tp_size) invalid

-- A device, and those that are not the same.
pub record Device : Type 0 where
  pub type : DeviceType
  pub index : ℕ

unfoldable pub same_device : Device → Device → Bool
same_device lhs rhs =
    (if is_cuda lhs.type then is_cuda rhs.type else not (is_cuda rhs.type))
    && lhs.index == rhs.index

-- `Tensor::device`: that of its memory, and the CPU without one.
unfoldable pub device : (ℕ → Device) → Tensor → Device
device devices t = elim (t.memory) [
  | none ↦ record { type = DeviceType.cpu; index = 0 }
  | some base ↦ devices base
]

unfoldable pub ensure_defined_cuda_contiguous : (ℕ → Device) → Tensor → Result (Unit {0})
ensure_defined_cuda_contiguous devices t = do
  guard (is_defined t) invalid
  guard (is_cuda ((device devices t).type)) invalid
  contiguous ← is_contiguous t
  guard contiguous invalid

unfoldable pub ensure_same_metadata : (ℕ → Device) → Tensor → Tensor → Result (Unit {0})
ensure_same_metadata devices lhs rhs = do
  guard (vec_eq lhs.sizes rhs.sizes) invalid
  guard (dtype_code lhs.dtype == dtype_code rhs.dtype) invalid
  guard (same_device (device devices lhs) (device devices rhs)) invalid

-- The vector of a group, `none` for a tensor that is not defined.
pub record PendingAllReduce : Type 0 where
  pub tensors : List (Option Tensor)
  pub arrived : ℕ

unfoldable pub no_tensors : ℕ → List (Option Tensor)
no_tensors zero = []
no_tensors (suc n) = none ∷ no_tensors n

-- `pending_all_reduce_[group_key]`, and what a new group starts with.
unfoldable pub open_group : List (List ℕ × PendingAllReduce) → List ℕ → ℕ → Result PendingAllReduce
open_group groups group_key tp_size = elim (find groups group_key) [
  | none ↦ ok (record { tensors = no_tensors tp_size; arrived = 0 })
  | some pending ↦
      if length pending.tensors == 0
      then ok (record { tensors = no_tensors tp_size; arrived = 0 })
      else (guard (length pending.tensors == tp_size) invalid >> ok pending)
]

module _ {Value : Type 0} (plus : Value → Value → Value) where
  abbrev pub Values : Type 0
  Values = ℕ → Value

  abbrev pub write : Values → ℕ → Value → Values
  write memory address v a = if address == a then v else memory a

  pub record Communicator : Type 0 where
    pub pending_all_reduce : List (List ℕ × PendingAllReduce)
    pub memory : Values

  module _ (devices : ℕ → Device) where
    -- The loop of `add_inplace`.
    unfoldable pub add_shards : Values → Tensor → List (Option Tensor) → Result Values
    add_shards memory accumulator [] = ok memory
    add_shards memory accumulator (none ∷ tensors) = err invalid
    add_shards memory accumulator (some shard ∷ tensors) = do
      ensure_same_metadata devices accumulator shard
      let at = data_address accumulator
      add_shards (write memory at (plus (memory at) (memory (data_address shard)))) accumulator
          tensors

    -- The loop of `device_copy`.
    unfoldable pub copy_back : Values → Tensor → List (Option Tensor) → Result Values
    copy_back memory accumulator [] = ok memory
    copy_back memory accumulator (none ∷ tensors) = err invalid
    copy_back memory accumulator (some shard ∷ tensors) = do
      ensure_same_metadata devices accumulator shard
      copy_back (write memory (data_address shard) (memory (data_address accumulator))) accumulator
          tensors

    -- What the last rank does for all.
    unfoldable pub reduce : Values → List (Option Tensor) → Result Values
    reduce memory [] = err out_of_range
    reduce memory (none ∷ tensors) = err invalid
    reduce memory (some accumulator ∷ tensors) = do
      summed ← add_shards memory accumulator tensors
      copy_back summed accumulator tensors

    unfoldable pub all_reduce_sum : Communicator → List ℕ → ℕ → ℕ → Tensor → Result Communicator
    all_reduce_sum c group_key tp_size rank tensor = do
      validate_group_key group_key
      validate_rank tp_size rank
      ensure_defined_cuda_contiguous devices tensor
      pending ← open_group c.pending_all_reduce group_key tp_size
      slot ← or_fail (get_elem? pending.tensors rank) out_of_range
      elim slot [
        | some other ↦ err invalid
        | none ↦
            let tensors = set pending.tensors rank (some tensor) in
            let arrived = pending.arrived + 1 in
            if arrived == tp_size
            then (do
              memory ← reduce c.memory tensors
              ok (record c {
                pending_all_reduce = remove c.pending_all_reduce group_key;
                memory = memory;
              }))
            else ok (record c {
              pending_all_reduce =
                  assign c.pending_all_reduce group_key
                    (record { tensors = tensors; arrived = arrived });
            })
      ]
