-- ===== src/Config/Checks.antt =====
-- What `from_model_dir` accepts, and what holds of the configuration it returns.
use Prim.Native.Nat.{bit_and}
use native.Mathlib.Nat.{pow-le-pow_right}
use nano_vllm_cpp.Base.{
  ℕ, ◌+◌, ◌-◌, ◌%◌, ◌^◌, ◌≤◌, ◌<◌, ◌≡◌, refl, ◌↔◌, ap, ◌∙◌, inl, inr, ◌⊎◌, List, Bool, true, false,
  not, ◌||◌, arith, ok, err, invalid, guard, IfOk, IfOk-bind, IfOk-ok, ltb, Bool-cases, Result,
  ◌>>◌, none, some, Option,
}
use nano_vllm_cpp.Config.{
  HfConfig, JsonLibrary, Files, positive_dimensions, load_hf_config, load_hf_fields,
}
use nano_vllm_cpp.Config.Launch.{
  Config, Settings, int_lt, int_min, int_max, bad_block_size, bad_parallel_size, bad_utilization,
  check_settings, from_model_dir,
}
use nano_vllm_cpp.Config.Powers.{power_of_two, two_to_the}

-- The settings that pass, with the arguments as 32-bit patterns: 0x3F800000 is 1.0, and what lies
-- above 0x7F800000 without the sign is a NaN.
pub record Accepted (a : Settings) : Type 0 where
  pub block_size : (k : ℕ) × (4 ≤ k) × (k ≤ 30) × (a.kvcache_block_size ≡ 2 ^ k)
  pub parallel : (1 ≤ a.tensor_parallel_size) × (a.tensor_parallel_size ≤ 8)
  pub utilization :
      ((1 ≤ a.gpu_memory_utilization) × (a.gpu_memory_utilization ≤ 0x3F800000))
      ⊎ (0x7F800000 < a.gpu_memory_utilization % 2 ^ 31)

pub record Patterns (a : Settings) : Type 0 where
  pub block_size : a.kvcache_block_size < 2 ^ 32
  pub parallel : a.tensor_parallel_size < 2 ^ 32
  pub utilization : a.gpu_memory_utilization < 2 ^ 32

-- The block size of a good pattern is its own number, and one less is one less.
block_size-bounds :
    (size : ℕ)
    → size < 2 ^ 32
    → bad_block_size size ≡ false
    → (16 ≤ size) × (size < 2 ^ 31) × (bit_and size ((size + 2 ^ 32 - 1) % 2 ^ 32) ≡ 0)
unfolding bad_block_size
block_size-bounds size w h = (ground arith, ground arith, ground arith)

block_size-good :
    (size : ℕ)
    → 16 ≤ size
    → size < 2 ^ 31
    → bit_and size ((size + 2 ^ 32 - 1) % 2 ^ 32) ≡ 0
    → bad_block_size size ≡ false
unfolding bad_block_size
block_size-good size low high e = ground arith

one_less :
    (size : ℕ)
    → 16 ≤ size
    → size < 2 ^ 32
    → bit_and size ((size + 2 ^ 32 - 1) % 2 ^ 32) ≡ bit_and size (size - 1)
one_less size low w = ap (λ x. bit_and size x) (omega arith)

powers_grow : (i j : ℕ) → i ≤ j → 2 ^ i ≤ 2 ^ j
powers_grow i j h = pow-le-pow_right {n = 2} (omega arith) h

exponent_at_least : (k : ℕ) → 16 ≤ 2 ^ k → 4 ≤ k
exponent_at_least k h = elim (Bool-cases (ltb k 4)) [
  | inl less ↦ absurd (omega (arith, powers_grow k 3 (ground arith)))
  | inr more ↦ ground arith
]

exponent_at_most : (k : ℕ) → 2 ^ k < 2 ^ 31 → k ≤ 30
exponent_at_most k h = elim (Bool-cases (ltb 30 k)) [
  | inl more ↦ absurd (omega (arith, powers_grow 31 k (ground arith)))
  | inr less ↦ ground arith
]

good_block_size :
    (size : ℕ)
    → size < 2 ^ 32
    → (bad_block_size size ≡ false) ↔ ((k : ℕ) × (4 ≤ k) × (k ≤ 30) × (size ≡ 2 ^ k))
good_block_size size w = (
  (λ h.
      let (low, high, e) = block_size-bounds size w h in
      let (k, power) =
        power_of_two size size (omega arith) (omega arith)
          (omega (arith, e, one_less size low w)) in
      (
        k,
        exponent_at_least k (omega (arith, power)),
        exponent_at_most k (omega (arith, power)),
        power,
      )),
  (λ (k, low, high, power).
      let sixteen : 16 ≤ size = omega (arith, power, powers_grow 4 k low) in
      let same : bit_and size (size - 1) ≡ bit_and (2 ^ k) (2 ^ k - 1) =
        ap (λ x. bit_and x (x - 1)) power in
      block_size-good size sixteen (omega (arith, power, powers_grow k 30 high))
        (omega (arith, one_less size sixteen w, same, two_to_the k))),
)

good_parallel_size :
    (size : ℕ) → size < 2 ^ 32 → (bad_parallel_size size ≡ false) ↔ ((1 ≤ size) × (size ≤ 8))
unfolding bad_parallel_size
good_parallel_size size w = ((λ h. (ground arith, ground arith)), λ v. ground arith)

good_utilization :
    (x : ℕ)
    → x < 2 ^ 32
    → (bad_utilization x ≡ false) ↔ (((1 ≤ x) × (x ≤ 0x3F800000)) ⊎ (0x7F800000 < x % 2 ^ 31))
unfolding bad_utilization
good_utilization x w = (
  (λ h. elim (Bool-cases (ltb 0x7F800000 (x % 2 ^ 31))) [
    | inl nan ↦ inr (ground arith)
    | inr number ↦ inl (ground arith, ground arith)
  ]),
  (λ v. elim v [ inl (low, high) ↦ ground arith | inr nan ↦ ground arith ]),
)

check_settings-IsOk :
    (model_dir : List ℕ) (a : Settings) (hf : HfConfig)
    → bad_block_size a.kvcache_block_size ≡ false
    → bad_parallel_size a.tensor_parallel_size ≡ false
    → bad_utilization a.gpu_memory_utilization ≡ false
    → (cfg : Config) × (check_settings model_dir a hf ≡ ok cfg)
unfolding check_settings
check_settings-IsOk model_dir a hf h k l = rw (h, k, l) (_, refl)

check_settings-refused :
    (model_dir : List ℕ) (a : Settings) (hf : HfConfig)
    → ((bad_block_size a.kvcache_block_size
          || (bad_parallel_size a.tensor_parallel_size || bad_utilization a.gpu_memory_utilization))
        ≡ true)
    → check_settings model_dir a hf ≡ err invalid
unfolding check_settings
check_settings-refused model_dir a hf h = ground arith

-- For arguments that are 32-bit patterns and any model configuration, the checks of
-- `from_model_dir` let exactly the accepted settings pass: a block size that is a power of two from
-- 16 on, a tensor-parallel size from 1 to 8, and a memory utilization in (0, 1] or a NaN; all other
-- settings are an `invalid_argument`.
pub check_settings-Accepted :
    (model_dir : List ℕ) (a : Settings) (hf : HfConfig)
    → Patterns a
    → ((cfg : Config) × (check_settings model_dir a hf ≡ ok cfg) × Accepted a)
      ⊎ ((check_settings model_dir a hf ≡ err invalid) × (Accepted a → ⊥))
check_settings-Accepted model_dir a hf w =
    let block = good_block_size a.kvcache_block_size w.block_size in
    let parallel = good_parallel_size a.tensor_parallel_size w.parallel in
    let utilization = good_utilization a.gpu_memory_utilization w.utilization in
    elim (Bool-cases (
      bad_block_size a.kvcache_block_size
      || (bad_parallel_size a.tensor_parallel_size || bad_utilization a.gpu_memory_utilization))) [
        | inl bad ↦ inr (
          check_settings-refused model_dir a hf bad,
          λ v.
              let one = block.1 v.block_size in
              let two = parallel.1 v.parallel in
              let three = utilization.1 v.utilization in ground (arith, one, two, three),
        )
        | inr good ↦
            let one : bad_block_size a.kvcache_block_size ≡ false = ground arith in
            let two : bad_parallel_size a.tensor_parallel_size ≡ false = ground arith in
            let three : bad_utilization a.gpu_memory_utilization ≡ false = ground arith in
            let (cfg, run) = check_settings-IsOk model_dir a hf one two three in
            inl (
              cfg,
              run,
              record {
                block_size = block.0 one;
                parallel = parallel.0 two;
                utilization = utilization.0 three;
              },
            )
      ]

passed : (b : Bool) (u : Unit {0}) → guard (not b) invalid ≡ ok u → b ≡ false
passed true u h = cc
passed false u h = refl

-- A configuration as the rest of the engine relies on it: the dimensions of the model are positive
-- `int`s, no sequence is longer than the model's positions, and a sequence of full length fits into
-- one step's budget of tokens.
pub record Sound (a : Settings) (cfg : Config) : Type 0 where
  pub dimensions : positive_dimensions cfg.hf_config ≡ true
  pub positions : int_lt cfg.hf_config.max_position_embeddings cfg.max_model_len ≡ false
  pub asked : int_lt a.max_model_len cfg.max_model_len ≡ false
  pub budget : int_lt cfg.max_num_batched_tokens cfg.max_model_len ≡ false
  pub block_size : bad_block_size cfg.kvcache_block_size ≡ false
  pub parallel : bad_parallel_size cfg.tensor_parallel_size ≡ false

int_min-least : (a b : ℕ) → (int_lt b (int_min a b) ≡ false) × (int_lt a (int_min a b) ≡ false)
int_min-least a b = (ground arith, ground arith)

int_max-most : (a b : ℕ) → int_lt (int_max a b) b ≡ false
int_max-most a b = ground arith

check_settings-Sound :
    (model_dir : List ℕ) (a : Settings) (hf : HfConfig)
    → positive_dimensions hf ≡ true
    → IfOk (check_settings model_dir a hf) (Sound a)
unfolding check_settings
check_settings-Sound model_dir a hf h =
    IfOk-bind (guard (not (bad_block_size a.kvcache_block_size)) invalid) _ (Sound a) (λ u block.
      IfOk-bind (guard (not (bad_parallel_size a.tensor_parallel_size)) invalid) _ (Sound a)
        (λ v par.
          IfOk-bind (guard (not (bad_utilization a.gpu_memory_utilization)) invalid) _ (Sound a)
            (λ x fits.
              let least = int_min-least a.max_model_len hf.max_position_embeddings in
              record {
                dimensions = h;
                positions = least.0;
                asked = least.1;
                budget =
                    int_max-most a.max_num_batched_tokens
                      (int_min a.max_model_len hf.max_position_embeddings);
                block_size = passed (bad_block_size a.kvcache_block_size) u block;
                parallel = passed (bad_parallel_size a.tensor_parallel_size) v par;
              })))

module _ {Json : Type 0} (lib : JsonLibrary Json) (files : Files Json) where
  load_hf_config-positive :
      (path : List ℕ) → IfOk (load_hf_config lib files path) (λ hf. positive_dimensions hf ≡ true)
  unfolding load_hf_config
  load_hf_config-positive path = IfOk-bind (guard (files.exists path) invalid) _ good (λ u there.
      IfOk-bind (contents (files.open_file path)) _ good (λ text opened.
        IfOk-bind (files.parse text) _ good (λ j parsed.
          IfOk-bind (load_hf_fields lib j) _ good
            (λ hf loaded. checked (positive_dimensions hf) hf refl))))
    where
      good : HfConfig → Type 0
      good hf = positive_dimensions hf ≡ true

      contents : Option (List ℕ) → Result (List ℕ)
      contents o = elim o [ none ↦ err invalid | some text ↦ ok text ]

      checked :
          (b : Bool) (hf : HfConfig)
          → positive_dimensions hf ≡ b
          → IfOk (guard b invalid >> ok hf) good
      checked true hf h = h
      checked false hf h = tt

  from_model_dir-loaded :
      (model_dir : List ℕ) (a : Settings) (hf : HfConfig)
      → files.is_directory model_dir ≡ true
      → load_hf_config lib files (files.join model_dir "config.json") ≡ ok hf
      → from_model_dir lib files model_dir a ≡ check_settings model_dir a hf
  unfolding from_model_dir
  from_model_dir-loaded model_dir a hf there loaded = ground arith

  -- Where the directory exists, its `config.json` loads, and the arguments are 32-bit patterns that
  -- the checks accept, `from_model_dir` returns a configuration whose model dimensions are positive,
  -- whose sequence length is at most the one asked for and at most the model's positions, whose
  -- token budget is at least that length, and whose block size and tensor-parallel size are good.
  pub from_model_dir-Sound :
      (model_dir : List ℕ) (a : Settings) (hf : HfConfig)
      → files.is_directory model_dir ≡ true
      → load_hf_config lib files (files.join model_dir "config.json") ≡ ok hf
      → Patterns a
      → Accepted a
      → (cfg : Config) × (from_model_dir lib files model_dir a ≡ ok cfg) × Sound a cfg
  from_model_dir-Sound model_dir a hf there loaded w v =
      let positive =
        IfOk-ok (load_hf_config lib files (files.join model_dir "config.json")) _ hf
          (load_hf_config-positive (files.join model_dir "config.json")) loaded in
      elim (check_settings-Accepted model_dir a hf w) [
        | inl (cfg, run, x) ↦ (
          cfg,
          from_model_dir-loaded model_dir a hf there loaded ∙ run,
          IfOk-ok (check_settings model_dir a hf) (Sound a) cfg
              (check_settings-Sound model_dir a hf positive) run,
        )
        | inr (refused, not_so) ↦ absurd (not_so v)
      ]
