-- ===== src/SafeTensors/Registry.antt =====
-- src/utils/loader.cpp: the names of packed parameters, and the registry that loads a checkpoint.
-- `collect_safetensors_files` is a parameter: the files it finds, each as `open_safetensors` gives
-- it. A loader of the registry is a function on the state of the weights.
pub mod Names
pub mod Load
pub mod Prefixes
use nano_vllm_cpp.Base.{
  ℕ, zero, suc, ◌+◌, ◌-◌, List, [], ◌∷◌, ◌++◌, Bool, true, false, ◌&&◌, ◌||◌, Option, none, some,
  length, take, drop, get_elem?, Result, ok, err, invalid, or_fail, ◌>>=◌, ◌>>◌, ◌==◌,
  if◌then◌else◌,
}
use nano_vllm_cpp.Base.Maps.{bytes_key, find}
use nano_vllm_cpp.SafeTensors.{SafeTensorsFile, tensor}
use nano_vllm_cpp.Tensor.{Tensor}
use nano_vllm_cpp.Tokenizer.{starts_with}

pub record PackedModuleMapping : Type 0 where
  pub source_name : List ℕ
  pub target_name : List ℕ
  pub shard_id : ℕ

-- `name.find(part)`: the first place where the part stands, counted from `pos`.
unfoldable pub find_from : ℕ → List ℕ → List ℕ → Option ℕ
find_from pos part [] = if starts_with part [] then some pos else none
find_from pos part (c ∷ s) =
    let rest = find_from (suc pos) part s in if starts_with part (c ∷ s) then some pos else rest

-- `name[i] == '.'`.
unfoldable pub dot_at : List ℕ → ℕ → Bool
dot_at name i = elim (get_elem? name i) [ none ↦ false | some c ↦ c == b'.' ]

unfoldable pub matches_parameter_segment : List ℕ → ℕ → List ℕ → Bool
matches_parameter_segment name pos segment =
    let end = pos + length segment in
    (pos == 0 || dot_at name (pos - 1)) && (end == length name || dot_at name end)

-- Where a mapping applies to a name.
unfoldable pub segment_at : PackedModuleMapping → List ℕ → Option ℕ
segment_at m name = elim (find_from 0 m.source_name name) [
  | none ↦ none
  | some pos ↦ if matches_parameter_segment name pos m.source_name then some pos else none
]

-- `resolved.replace(pos, source.size(), target)`.
abbrev pub replaced : PackedModuleMapping → List ℕ → ℕ → List ℕ
replaced m name pos = take pos name ++ m.target_name ++ drop (length m.source_name) (drop pos name)

unfoldable pub resolve_packed_parameter_name : List ℕ → List PackedModuleMapping → List ℕ × Option ℕ
resolve_packed_parameter_name name [] = (name, none)
resolve_packed_parameter_name name (m ∷ ms) = elim (segment_at m name) [
  | none ↦ resolve_packed_parameter_name name ms
  | some pos ↦ (replaced m name pos, some m.shard_id)
]

module _ (Weights : Type 0) where
  -- `ParameterLoadFn`.
  abbrev pub ParameterLoadFn : Type 0
  ParameterLoadFn = Tensor → Option ℕ → Weights → Result Weights

  unfoldable pub contains : List (List ℕ × ParameterLoadFn) → List ℕ → Bool
  contains parameters name = elim (find parameters name) [ none ↦ false | some load ↦ true ]

  unfoldable pub register_parameter :
      List (List ℕ × ParameterLoadFn)
      → List ℕ
      → ParameterLoadFn
      → Result (List (List ℕ × ParameterLoadFn))
  register_parameter parameters name load =
      if contains parameters name then err invalid else ok (parameters ++ (name, load) ∷ [])

  -- One round of the inner loop of `load`.
  unfoldable pub load_one :
      List (List ℕ × ParameterLoadFn)
      → List PackedModuleMapping
      → SafeTensorsFile
      → List ℕ
      → Weights
      → Result Weights
  load_one parameters mappings file source_name w = do
    let resolved = resolve_packed_parameter_name source_name mappings
    load ← or_fail (find parameters resolved.0) invalid
    source ← tensor file source_name
    load source resolved.1 w

  unfoldable pub load_keys :
      List (List ℕ × ParameterLoadFn)
      → List PackedModuleMapping
      → SafeTensorsFile
      → List (List ℕ)
      → Weights
      → Result Weights
  load_keys parameters mappings file [] w = ok w
  load_keys parameters mappings file (key ∷ keys) w = do
    w ← load_one parameters mappings file key w
    load_keys parameters mappings file keys w

  unfoldable pub load_files :
      List (List ℕ × ParameterLoadFn)
      → List PackedModuleMapping
      → List (Result SafeTensorsFile)
      → Weights
      → Result Weights
  load_files parameters mappings [] w = ok w
  load_files parameters mappings (opened ∷ files) w = do
    file ← opened
    w ← load_keys parameters mappings file file.keys w
    load_files parameters mappings files w
