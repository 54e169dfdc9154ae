-- ===== src/Config.antt =====
-- src/core/config.cpp and include/core/config.h: reading a model's `config.json` and checking the
-- settings of a run.
-- The JSON library and the file system are parameters. An `int` is a 32-bit pattern, a `float` the
-- bit pattern of its IEEE single; names are texts, other strings the bytes of an ASCII text.
pub mod Launch
pub mod Powers
pub mod Checks
use Prim.Native.Char.{code}
use Prim.Native.Nat.{bit_and}
use Prim.Native.String.{String}
use nano_vllm_cpp.Base.{
  ℕ, ◌+◌, ◌-◌, ◌*◌, ◌/◌, ◌%◌, ◌^◌, List, [], ◌∷◌, map, Bool, true, false, not, ◌&&◌, ◌||◌, Result,
  ok, err, invalid, division, guard, ◌>>=◌, ◌>>◌, ltb, leb, ◌==◌, if◌then◌else◌, vec_eq, Option,
  none, some,
}

-- What the code calls of the JSON library on a parsed value.
pub record JsonLibrary (Json : Type 0) : Type 0 where
  pub contains : Json → String → Bool
  pub at : Json → String → Result Json
  pub is_array : Json → Bool
  pub empty : Json → Bool
  pub front : Json → Result Json
  pub get_int : Json → Result ℕ
  pub get_float : Json → Result ℕ
  pub get_bool : Json → Result Bool
  pub get_string : Json → Result (List ℕ)
  pub get_strings : Json → Result (List (List ℕ))

-- The file system, and the parser of the JSON library.
pub record Files (Json : Type 0) : Type 0 where
  pub exists : List ℕ → Bool
  pub is_directory : List ℕ → Bool
  pub open_file : List ℕ → Option (List ℕ)
  pub join : List ℕ → String → List ℕ
  pub parse : List ℕ → Result Json

-- The bytes of a text of ASCII characters.
abbrev pub codes : String → List ℕ
codes String.[] = []
codes (String.◌∷◌ c s) = code c ∷ codes s

pub record HfConfig : Type 0 where
  pub model_type : List ℕ
  pub architectures : List (List ℕ)
  pub hidden_size : ℕ
  pub num_attention_heads : ℕ
  pub num_key_value_heads : ℕ
  pub num_hidden_layers : ℕ
  pub intermediate_size : ℕ
  pub vocab_size : ℕ
  pub max_position_embeddings : ℕ
  pub head_dim : ℕ
  pub rms_norm_eps : ℕ
  pub rope_theta : ℕ
  pub tie_word_embeddings : Bool
  pub attention_bias : Bool
  pub use_qk_norm : Bool
  pub hidden_act : List ℕ
  pub torch_dtype : List ℕ
  pub eos_token_id : ℕ
  pub bos_token_id : ℕ

-- `tolower` of the C locale.
unfoldable pub to_lower_ascii : List ℕ → List ℕ
to_lower_ascii [] = []
to_lower_ascii (c ∷ s) = (if leb b'A' c && leb c b'Z' then c + 32 else c) ∷ to_lower_ascii s

unfoldable pub is_one_of : List (List ℕ) → List ℕ → Bool
is_one_of [] s = false
is_one_of (t ∷ ts) s = vec_eq t s || is_one_of ts s

abbrev pub families_without_qk_norm : List (List ℕ)
families_without_qk_norm =
    codes "llama"
    ∷ codes "mistral"
    ∷ codes "mixtral"
    ∷ codes "gemma"
    ∷ codes "phi"
    ∷ codes "phi3"
    ∷ codes "yi"
    ∷ []

unfoldable pub infer_use_qk_norm_default : List ℕ → Bool → Bool
infer_use_qk_norm_default [] attention_bias = not attention_bias
infer_use_qk_norm_default (c ∷ s) attention_bias =
    if is_one_of families_without_qk_norm (c ∷ s)
    then false
    else if vec_eq (codes "qwen3") (c ∷ s)
    then true
    else not attention_bias

-- A positive `int`, and the quotient of two, rounded towards 0. A quotient by 0, and the one that
-- is too large, stop the program.
abbrev pub positive : ℕ → Bool
positive x = ltb 0 x && ltb x (2 ^ 31)

abbrev pub magnitude : ℕ → ℕ
magnitude x = if ltb x (2 ^ 31) then x else 2 ^ 32 - x

unfoldable pub int_div : ℕ → ℕ → Result ℕ
int_div a b =
    let q = magnitude a / magnitude b in
    if b == 0 || (a == 2 ^ 31 && b == 2 ^ 32 - 1)
    then err division
    else if (ltb a (2 ^ 31) && ltb b (2 ^ 31)) || (leb (2 ^ 31) a && leb (2 ^ 31) b)
    then ok q
    else ok ((2 ^ 32 - q) % 2 ^ 32)

module _ {Json : Type 0} (lib : JsonLibrary Json) where
  unfoldable pub first_alias : Json → List String → Result ℕ → Result ℕ
  first_alias j [] otherwise = otherwise
  first_alias j (alias ∷ aliases) otherwise =
      if lib.contains j alias
      then lib.at j alias >>= lib.get_int
      else first_alias j aliases otherwise

  unfoldable pub load_int_with_aliases : Json → String → List String → Bool → ℕ → Result ℕ
  load_int_with_aliases j name aliases required default_value =
      if lib.contains j name
      then lib.at j name >>= lib.get_int
      else first_alias j aliases (if required then err invalid else ok default_value)

  -- `if (j.contains(name)) field = j[name].get<T>()`, with the value of the field otherwise.
  unfoldable pub field_or : {A : Type 0} → Json → String → (Json → Result A) → Result A → Result A
  field_or j name get otherwise = if lib.contains j name then lib.at j name >>= get else otherwise

  unfoldable pub strings_or : Json → String → Result (List (List ℕ))
  strings_or j name =
      if lib.contains j name
      then (do v ← lib.at j name; if lib.is_array v then lib.get_strings v else ok [])
      else ok []

  -- The first id of an array with one, or the id itself.
  unfoldable pub token_id : Json → Result ℕ
  token_id v =
      if lib.is_array v && not (lib.empty v) then lib.front v >>= lib.get_int else lib.get_int v

  unfoldable pub load_hf_fields : Json → Result HfConfig
  load_hf_fields j = do
    model_type ← field_or j "model_type" lib.get_string (ok [])
    architectures ← strings_or j "architectures"
    hidden_size ← load_int_with_aliases j "hidden_size" ("n_embd" ∷ "d_model" ∷ []) true 0
    heads ← load_int_with_aliases j "num_attention_heads" ("n_head" ∷ []) true 0
    layers ← load_int_with_aliases j "num_hidden_layers" ("n_layer" ∷ "num_layers" ∷ []) true 0
    intermediate ← load_int_with_aliases j "intermediate_size" ("ffn_dim" ∷ []) true 0
    vocab_size ← load_int_with_aliases j "vocab_size" [] true 0
    positions ←
        load_int_with_aliases j "max_position_embeddings" ("n_positions" ∷ "seq_length" ∷ []) false
          4096
    kv_heads ←
        field_or j "num_key_value_heads" lib.get_int
          (field_or j "n_kv_heads" lib.get_int (ok heads))
    head_dim ← field_or j "head_dim" lib.get_int (int_div hidden_size heads)
    rms_norm_eps ← field_or j "rms_norm_eps" lib.get_float (ok 0x358637BD)
    rope_theta ← field_or j "rope_theta" lib.get_float (ok 0x461C4000)
    tied ← field_or j "tie_word_embeddings" lib.get_bool (ok false)
    attention_bias ← field_or j "attention_bias" lib.get_bool (ok false)
    use_qk_norm ← field_or j "use_qk_norm" lib.get_bool (
        field_or j "qk_norm" lib.get_bool
          (ok (infer_use_qk_norm_default (to_lower_ascii model_type) attention_bias)))
    hidden_act ← field_or j "hidden_act" lib.get_string (
        field_or j "hidden_activation" lib.get_string
          (field_or j "activation_function" lib.get_string (ok (codes "silu"))))
    torch_dtype ← field_or j "torch_dtype" lib.get_string (ok (codes "bfloat16"))
    eos ← field_or j "eos_token_id" token_id (ok (2 ^ 32 - 1))
    bos ← field_or j "bos_token_id" token_id (ok (2 ^ 32 - 1))
    ok (record {
      model_type = to_lower_ascii model_type;
      architectures = architectures;
      hidden_size = hidden_size;
      num_attention_heads = heads;
      num_key_value_heads = kv_heads;
      num_hidden_layers = layers;
      intermediate_size = intermediate;
      vocab_size = vocab_size;
      max_position_embeddings = positions;
      head_dim = head_dim;
      rms_norm_eps = rms_norm_eps;
      rope_theta = rope_theta;
      tie_word_embeddings = tied;
      attention_bias = attention_bias;
      use_qk_norm = use_qk_norm;
      hidden_act = hidden_act;
      torch_dtype = torch_dtype;
      eos_token_id = eos;
      bos_token_id = bos;
    })

-- The check at the end of `load_hf_config`.
unfoldable pub positive_dimensions : HfConfig → Bool
positive_dimensions hf =
    positive hf.hidden_size
    && (positive hf.num_attention_heads
        && (positive hf.num_hidden_layers
            && (positive hf.intermediate_size
                && (positive hf.vocab_size
                    && (positive hf.max_position_embeddings && positive hf.num_key_value_heads)))))

module _ {Json : Type 0} (lib : JsonLibrary Json) (files : Files Json) where
  unfoldable pub load_hf_config : List ℕ → Result HfConfig
  load_hf_config json_path = do
    guard (files.exists json_path) invalid
    text ← elim (files.open_file json_path) [ none ↦ err invalid | some text ↦ ok text ]
    j ← files.parse text
    hf ← load_hf_fields lib j
    guard (positive_dimensions hf) invalid
    ok hf
