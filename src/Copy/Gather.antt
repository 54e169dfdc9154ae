-- ===== src/Copy/Gather.antt =====
-- Gathering a strided tensor: its elements in row-major order, one behind the other.
use nano_vllm_cpp.Base.{ℕ, ◌+◌, ◌*◌, ◌≤◌, List, arith}
use nano_vllm_cpp.Tensor.{Tensor, ScalarType, scalar_type_size, data_address}
use nano_vllm_cpp.Copy.{bytes_at}

element-positive : (d : ScalarType) → 1 ≤ scalar_type_size d
unfolding scalar_type_size
element-positive ScalarType.float16 = omega arith
element-positive ScalarType.bfloat16 = omega arith
element-positive ScalarType.float32 = omega arith
element-positive ScalarType.int32 = omega arith
element-positive ScalarType.int64 = omega arith
element-positive ScalarType.int8 = omega arith

module _ (mem : ℕ → ℕ) (t : Tensor) where
  -- The bytes of the element at a storage offset.
  abbrev pub element_at : ℕ → List ℕ
  element_at offset =
      bytes_at mem (data_address t + offset * scalar_type_size t.dtype) (scalar_type_size t.dtype)
