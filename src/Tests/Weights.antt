-- ===== src/Tests/Weights.antt =====
-- A model directory, a checkpoint file of two elements, and a registry of one parameter.
use Prim.Native.String.{String}
use text.Mathlib.Text.{◌==◌ as text_eq}
use nano_vllm_cpp.Base.{
  ℕ, ◌+◌, ◌-◌, ◌%◌, ◌^◌, ◌≤◌, ◌≡◌, refl, List, [], ◌∷◌, ◌++◌, Bool, true, false, Option, none, some,
  arith, ◌⊎◌, inl, if◌then◌else◌, Result, ok, err, invalid, IfOk, vec_eq, ◌==◌,
}
use nano_vllm_cpp.Base.Maps.{bytes_key}
use nano_vllm_cpp.Config.{
  HfConfig, JsonLibrary, Files, codes, load_hf_config, load_hf_fields, load_int_with_aliases,
  first_alias, field_or, strings_or, token_id, int_div, infer_use_qk_norm_default, to_lower_ascii,
  positive_dimensions,
}
use nano_vllm_cpp.Config.Launch.{Config, Settings, from_model_dir, check_settings}
use nano_vllm_cpp.Config.Checks.{
  Accepted, Patterns, Sound, check_settings-Accepted, from_model_dir-Sound,
}
use nano_vllm_cpp.Tensor.{
  ScalarType, Tensor, row_major, scalar_type_size, all_non_negative, compute_numel, product_from,
  from_memory, new_tensor, make_contiguous_strides, validate_sizes, validate_strides,
}
use nano_vllm_cpp.SafeTensors.{
  HeaderLibrary, SafeTensorsFile, open_safetensors, read_le_u64, read_le_from, read_entries,
  read_entry, parse_offsets, parse_safetensors_dtype, check_entry, names_of,
}
use nano_vllm_cpp.SafeTensors.Entries.{AllInPayload, open_safetensors-AllInPayload}
use nano_vllm_cpp.SafeTensors.Registry.{PackedModuleMapping, resolve_packed_parameter_name}
use nano_vllm_cpp.SafeTensors.Registry.Names.{NoneApply, Applied, resolve_packed_parameter_name_lem}

-- Objects of integers; a value is an object with a nameless member.
abbrev Members : Type 0
Members = List (String × ℕ)

abbrev member : Members → String → Option ℕ
member [] name = none
member ((key, n) ∷ ms) name = if text_eq key name then some n else member ms name

abbrev integers : JsonLibrary Members
integers = record {
  contains = λ j name. elim (member j name) [ none ↦ false | some n ↦ true ];
  at = λ j name. elim (member j name) [ none ↦ err invalid | some n ↦ ok (("", n) ∷ []) ];
  is_array = λ j. false;
  empty = λ j. false;
  front = λ j. err invalid;
  get_int = λ j. elim (member j "") [ none ↦ err invalid | some n ↦ ok n ];
  get_float = λ j. err invalid;
  get_bool = λ j. err invalid;
  get_string = λ j. err invalid;
  get_strings = λ j. err invalid;
}

abbrev small_model : Members
small_model =
    ("n_embd", 64)
    ∷ ("num_attention_heads", 4)
    ∷ ("n_layer", 2)
    ∷ ("intermediate_size", 128)
    ∷ ("vocab_size", 1000)
    ∷ ("n_positions", 2048)
    ∷ ("eos_token_id", 7)
    ∷ []

abbrev one_file : Files Members
one_file = record {
  exists = λ path. true;
  is_directory = λ path. true;
  open_file = λ path. some [];
  join = λ dir name. dir ++ codes name;
  parse = λ text. ok small_model;
}

abbrev small_hf : HfConfig
small_hf = record {
  model_type = [];
  architectures = [];
  hidden_size = 64;
  num_attention_heads = 4;
  num_key_value_heads = 4;
  num_hidden_layers = 2;
  intermediate_size = 128;
  vocab_size = 1000;
  max_position_embeddings = 2048;
  head_dim = 16;
  rms_norm_eps = 0x358637BD;
  rope_theta = 0x461C4000;
  tie_word_embeddings = false;
  attention_bias = false;
  use_qk_norm = true;
  hidden_act = codes "silu";
  torch_dtype = codes "bfloat16";
  eos_token_id = 7;
  bos_token_id = 2 ^ 32 - 1;
}

abbrev defaults : Settings
defaults = record {
  max_model_len = 4096;
  max_num_seqs = 512;
  max_num_batched_tokens = 1024;
  gpu_memory_utilization = 0x3F666666;
  tensor_parallel_size = 1;
  enforce_eager = false;
  kvcache_block_size = 256;
  kv_cache_int8 = false;
}

defaults-Patterns : Patterns defaults
defaults-Patterns = record {
  block_size = omega arith;
  parallel = omega arith;
  utilization = omega arith;
}

defaults-Accepted : Accepted defaults
defaults-Accepted = record {
  block_size = (8, omega arith, omega arith, refl);
  parallel = (omega arith, omega arith);
  utilization = inl (omega arith, omega arith);
}

small_hf-loaded : load_hf_config integers one_file (codes "m/config.json") ≡ ok small_hf
unfolding load_hf_config load_hf_fields load_int_with_aliases first_alias field_or strings_or
    token_id int_div infer_use_qk_norm_default to_lower_ascii positive_dimensions
small_hf-loaded = refl

from_model_dir-Sound_example :
    (cfg : Config) × (from_model_dir integers one_file (codes "m/") defaults ≡ ok cfg)
    × Sound defaults cfg
from_model_dir-Sound_example =
    from_model_dir-Sound integers one_file (codes "m/") defaults small_hf refl small_hf-loaded
      defaults-Patterns defaults-Accepted

check_settings-Accepted_example :
    ((cfg : Config) × (check_settings (codes "m") defaults small_hf ≡ ok cfg) × Accepted defaults)
    ⊎ ((check_settings (codes "m") defaults small_hf ≡ err invalid) × (Accepted defaults → ⊥))
check_settings-Accepted_example =
    check_settings-Accepted (codes "m") defaults small_hf defaults-Patterns

-- A header with one entry: values are numbered.
abbrev one_entry : HeaderLibrary ℕ
one_entry = record {
  parse = λ text. ok 0;
  is_object = λ j. true;
  items = λ j. (codes "__metadata__", 9) ∷ (codes "w", 1) ∷ [];
  contains = λ j name. true;
  at = λ j name.
      if vec_eq name (codes "dtype")
      then ok 2
      else if vec_eq name (codes "shape")
      then ok 3
      else ok 4;
  get_string = λ j. ok (codes "F16");
  get_sizes = λ j. if j == 3 then ok (2 ∷ []) else ok (2 ∷ 6 ∷ []);
}

abbrev file_bytes : List ℕ
file_bytes = 2 ∷ 0 ∷ 0 ∷ 0 ∷ 0 ∷ 0 ∷ 0 ∷ 0 ∷ b'{' ∷ b'}' ∷ 11 ∷ 12 ∷ 13 ∷ 14 ∷ 15 ∷ 16 ∷ []

abbrev opened : Result SafeTensorsFile
opened = open_safetensors one_entry (codes "w.safetensors") (some file_bytes) 4096

abbrev is_ok : {A : Type 0} → Result A → Bool
is_ok (ok a) = true
is_ok (err e) = false

opened-is_ok : is_ok opened ≡ true
unfolding open_safetensors read_le_u64 read_le_from read_entries read_entry parse_offsets
    parse_safetensors_dtype check_entry compute_numel product_from from_memory new_tensor
    make_contiguous_strides validate_sizes validate_strides all_non_negative scalar_type_size vec_eq
    names_of row_major
opened-is_ok = refl

open_safetensors-AllInPayload_example : IfOk opened (λ file.
    AllInPayload file.data_memory (4096 + 16 - file.data_memory) file.entries
    × (file.data_memory ≤ 4096 + 16))
open_safetensors-AllInPayload_example =
    open_safetensors-AllInPayload one_entry (codes "w.safetensors") file_bytes 4096

abbrev packed_names : List PackedModuleMapping
packed_names =
    record { source_name = codes "q_proj"; target_name = codes "qkv_proj"; shard_id = 0 }
    ∷ record { source_name = codes "k_proj"; target_name = codes "qkv_proj"; shard_id = 1 }
    ∷ []

resolve_packed_parameter_name_lem_example :
    (NoneApply (codes "l.k_proj.w") packed_names
      × (resolve_packed_parameter_name (codes "l.k_proj.w") packed_names
          ≡ (codes "l.k_proj.w", none)))
    ⊎ Applied (codes "l.k_proj.w") packed_names
resolve_packed_parameter_name_lem_example =
    resolve_packed_parameter_name_lem (codes "l.k_proj.w") packed_names

abbrev two_elements : Tensor
two_elements = record {
  memory = some 4106;
  sizes = 2 ∷ 3 ∷ [];
  strides = 3 ∷ 1 ∷ [];
  dtype = ScalarType.float16;
  memory_offset = 1;
}

abbrev count_up : ℕ → ℕ
count_up a = a % 256

-- The transpose of a matrix: the source of a copy that has to be gathered.
abbrev transposed : Tensor
transposed = record two_elements { sizes = 3 ∷ 2 ∷ []; strides = 1 ∷ 3 ∷ [] }
