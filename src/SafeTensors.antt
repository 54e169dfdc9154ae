-- ===== src/SafeTensors.antt =====
-- src/utils/loader.cpp and include/utils/loader.h: opening a SafeTensors file, the registry of
-- parameters, and the names of packed parameters. Copies of tensors are in Copy.
-- The JSON library, the mapped files and the loader functions are parameters; names are bytes.
pub mod Entries
pub mod Registry
use Prim.Native.Nat.{bit_or}
use nano_vllm_cpp.Base.{
  ℕ, zero, suc, ◌+◌, ◌-◌, ◌*◌, ◌/◌, ◌%◌, ◌^◌, List, [], ◌∷◌, ◌++◌, Bool, true, false, not, ◌&&◌,
  ◌||◌, Option, none, some, length, take, drop, get_elem?, Result, ok, err, invalid, out_of_range,
  division, guard, or_fail, ◌>>=◌, ◌>>◌, ltb, leb, ◌==◌, if◌then◌else◌, vec_eq,
}
use nano_vllm_cpp.Base.Maps.{bytes_key, find}
use nano_vllm_cpp.Config.{codes}
use nano_vllm_cpp.Tensor.{ScalarType, scalar_type_size, Tensor, compute_numel, from_memory}

-- What is asked of the parsed header: its members, and the fields of an entry.
pub record HeaderLibrary (Json : Type 0) : Type 0 where
  pub parse : List ℕ → Result Json
  pub is_object : Json → Bool
  pub items : Json → List (List ℕ × Json)
  pub contains : Json → List ℕ → Bool
  pub at : Json → List ℕ → Result Json
  pub get_string : Json → Result (List ℕ)
  pub get_sizes : Json → Result (List ℕ)

-- The bytes of a `uint64_t`, the lowest first; byte `index` is shifted by eight times its index.
unfoldable pub read_le_from : ℕ → ℕ → List ℕ → ℕ
read_le_from index value [] = value
read_le_from index value (b ∷ s) =
    read_le_from (suc index) (bit_or value (b * 2 ^ (index * 8) % 2 ^ 64)) s

unfoldable pub read_le_u64 : List ℕ → ℕ
read_le_u64 bytes = read_le_from 0 0 (take 8 bytes)

unfoldable pub parse_safetensors_dtype : List ℕ → Result ScalarType
parse_safetensors_dtype dtype =
    if vec_eq dtype (codes "F16")
    then ok ScalarType.float16
    else if vec_eq dtype (codes "BF16")
    then ok ScalarType.bfloat16
    else if vec_eq dtype (codes "F32")
    then ok ScalarType.float32
    else if vec_eq dtype (codes "I32")
    then ok ScalarType.int32
    else if vec_eq dtype (codes "I64")
    then ok ScalarType.int64
    else err invalid

pub record Entry : Type 0 where
  pub dtype : ScalarType
  pub shape : List ℕ
  pub data_offset : ℕ
  pub data_size : ℕ
  pub tensor : Tensor

pub record SafeTensorsFile : Type 0 where
  pub path : List ℕ
  pub data_memory : ℕ
  pub keys : List (List ℕ)
  pub entries : List (List ℕ × Entry)

-- `data_offsets` has to be a begin and an end.
unfoldable pub parse_offsets : List ℕ → Result (ℕ × ℕ)
parse_offsets (first ∷ end ∷ []) = if ltb end first then err invalid else ok (first, end)
parse_offsets _ = err invalid

unfoldable pub check_entry : ℕ → ℕ → ScalarType → List ℕ → ℕ → ℕ → Result Entry
check_entry memory payload dtype shape first end = do
  let element_size = scalar_type_size dtype
  n ← compute_numel shape
  guard (end - first == n * element_size % 2 ^ 64) invalid
  guard (leb end payload) invalid
  guard (first % element_size == 0) invalid
  t ← from_memory (some memory) shape dtype (first / element_size)
  ok (record {
    dtype = dtype;
    shape = shape;
    data_offset = first;
    data_size = end - first;
    tensor = t;
  })

unfoldable pub names_of : List (List ℕ × Entry) → List (List ℕ)
names_of [] = []
names_of ((key, e) ∷ es) = key ∷ names_of es

module _ {Json : Type 0} (lib : HeaderLibrary Json) where
  unfoldable pub read_entry : ℕ → ℕ → Json → Result Entry
  read_entry memory payload spec = do
    guard (lib.is_object spec) invalid
    guard
        (lib.contains spec (codes "dtype")
          && (lib.contains spec (codes "shape") && lib.contains spec (codes "data_offsets")))
        invalid
    offsets_value ← lib.at spec (codes "data_offsets")
    offsets ← lib.get_sizes offsets_value
    (first, end) ← parse_offsets offsets
    dtype_value ← lib.at spec (codes "dtype")
    dtype_name ← lib.get_string dtype_value
    dtype ← parse_safetensors_dtype dtype_name
    shape_value ← lib.at spec (codes "shape")
    shape ← lib.get_sizes shape_value
    check_entry memory payload dtype shape first end

  -- The loop over the members of the header.
  unfoldable pub read_entries : ℕ → ℕ → List (List ℕ × Json) → Result (List (List ℕ × Entry))
  read_entries memory payload [] = ok []
  read_entries memory payload ((key, spec) ∷ members) =
      if vec_eq key (codes "__metadata__") then read_entries memory payload members else (do
        e ← read_entry memory payload spec
        es ← read_entries memory payload members
        ok ((key, e) ∷ es))

  -- `SafeTensorsFile::open`, where `mapped` is the file's bytes, `none` if it cannot be opened or
  -- mapped, and `base` the address of the mapping.
  unfoldable pub open_safetensors : List ℕ → Option (List ℕ) → ℕ → Result SafeTensorsFile
  open_safetensors path mapped base = do
    bytes ← or_fail mapped invalid
    guard (leb 8 (length bytes)) invalid
    let header_size = read_le_u64 bytes
    guard (leb header_size (length bytes - 8)) invalid
    let data_offset = 8 + header_size
    parsed ← lib.parse (take header_size (drop 8 bytes))
    guard (lib.is_object parsed) invalid
    es ← read_entries (base + data_offset) (length bytes - data_offset) (lib.items parsed)
    ok (record { path = path; data_memory = base + data_offset; keys = names_of es; entries = es })

unfoldable pub contains : SafeTensorsFile → List ℕ → Bool
contains file name = elim (find file.entries name) [ none ↦ false | some e ↦ true ]

unfoldable pub entry : SafeTensorsFile → List ℕ → Result Entry
entry file name = or_fail (find file.entries name) out_of_range

unfoldable pub tensor : SafeTensorsFile → List ℕ → Result Tensor
tensor file name = do e ← entry file name; ok e.tensor
