-- ===== src/Config/Launch.antt =====
-- src/core/config.cpp, `Config::from_model_dir`: the checks of the settings of a run.
use Prim.Native.Nat.{bit_and}
use nano_vllm_cpp.Base.{
  ℕ, ◌+◌, ◌-◌, ◌%◌, ◌^◌, List, Bool, false, not, ◌&&◌, ◌||◌, Result, ok, invalid, guard, ◌>>=◌,
  ◌>>◌, ltb, leb, ◌==◌, if◌then◌else◌,
}
use nano_vllm_cpp.Config.{HfConfig, JsonLibrary, Files, load_hf_config}

-- `x <= 0.0f` and `x > 1.0f`; both are false of a NaN.
abbrev pub float_le_zero : ℕ → Bool
float_le_zero x = x == 0 || (leb (2 ^ 31) x && leb x (2 ^ 31 + 0x7F800000))

abbrev pub float_gt_one : ℕ → Bool
float_gt_one x = ltb 0x3F800000 x && leb x 0x7F800000

-- `a < b` of two `int`s, by the patterns with the sign turned.
abbrev pub int_lt : ℕ → ℕ → Bool
int_lt a b = ltb ((a + 2 ^ 31) % 2 ^ 32) ((b + 2 ^ 31) % 2 ^ 32)

abbrev pub int_min : ℕ → ℕ → ℕ
int_min a b = if int_lt b a then b else a

abbrev pub int_max : ℕ → ℕ → ℕ
int_max a b = if int_lt a b then b else a

pub record Config : Type 0 where
  pub model : List ℕ
  pub max_num_batched_tokens : ℕ
  pub max_num_seqs : ℕ
  pub max_model_len : ℕ
  pub gpu_memory_utilization : ℕ
  pub tensor_parallel_size : ℕ
  pub enforce_eager : Bool
  pub kvcache_block_size : ℕ
  pub num_kvcache_blocks : ℕ
  pub eos_token_id : ℕ
  pub kv_cache_int8 : Bool
  pub enable_chunked_prefill : Bool
  pub max_num_prefill_tokens : ℕ
  pub hf_config : HfConfig

-- The arguments of `from_model_dir` behind the directory.
pub record Settings : Type 0 where
  pub max_model_len : ℕ
  pub max_num_seqs : ℕ
  pub max_num_batched_tokens : ℕ
  pub gpu_memory_utilization : ℕ
  pub tensor_parallel_size : ℕ
  pub enforce_eager : Bool
  pub kvcache_block_size : ℕ
  pub kv_cache_int8 : Bool

unfoldable pub bad_block_size : ℕ → Bool
bad_block_size size = int_lt size 16 || not (bit_and size ((size + 2 ^ 32 - 1) % 2 ^ 32) == 0)

unfoldable pub bad_parallel_size : ℕ → Bool
bad_parallel_size size = int_lt size 1 || int_lt 8 size

unfoldable pub bad_utilization : ℕ → Bool
bad_utilization x = float_le_zero x || float_gt_one x

-- What follows `load_hf_config` in `from_model_dir`: the checks, and the configuration.
unfoldable pub check_settings : List ℕ → Settings → HfConfig → Result Config
check_settings model_dir a hf = do
  guard (not (bad_block_size a.kvcache_block_size)) invalid
  guard (not (bad_parallel_size a.tensor_parallel_size)) invalid
  guard (not (bad_utilization a.gpu_memory_utilization)) invalid
  let max_model_len = int_min a.max_model_len hf.max_position_embeddings
  ok (record {
    model = model_dir;
    max_num_batched_tokens = int_max a.max_num_batched_tokens max_model_len;
    max_num_seqs = a.max_num_seqs;
    max_model_len = max_model_len;
    gpu_memory_utilization = a.gpu_memory_utilization;
    tensor_parallel_size = a.tensor_parallel_size;
    enforce_eager = a.enforce_eager;
    kvcache_block_size = a.kvcache_block_size;
    num_kvcache_blocks = 2 ^ 32 - 1;
    eos_token_id = hf.eos_token_id;
    kv_cache_int8 = a.kv_cache_int8;
    enable_chunked_prefill = false;
    max_num_prefill_tokens = 512;
    hf_config = hf;
  })

module _ {Json : Type 0} (lib : JsonLibrary Json) (files : Files Json) where
  unfoldable pub from_model_dir : List ℕ → Settings → Result Config
  from_model_dir model_dir a = do
    guard (files.is_directory model_dir) invalid
    hf ← load_hf_config lib files (files.join model_dir "config.json")
    check_settings model_dir a hf
