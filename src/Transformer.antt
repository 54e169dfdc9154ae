-- ===== src/Transformer.antt =====
-- src/models/transformer.cpp and include/models/transformer.h: the names under which the model
-- registers its parameters, and the mapping of packed modules.
-- The parameters come in the order of their registration; their loaders, and the forward passes on
-- the device, are not modelled here. Names are lists of bytes.
pub mod Checkpoint
use nano_vllm_cpp.Base.{
  ℕ, zero, suc, ◌+◌, ◌/◌, ◌%◌, List, [], ◌∷◌, ◌++◌, Bool, true, false, ltb, if◌then◌else◌,
}
use nano_vllm_cpp.Config.{codes}
use nano_vllm_cpp.SafeTensors.Registry.{PackedModuleMapping}

-- `std::to_string`: the decimal digits in front of others. The fuel is more than the number.
unfoldable pub digits_before : ℕ → ℕ → List ℕ → List ℕ
digits_before zero n digits = digits
digits_before (suc fuel) n digits =
    let more = (b'0' + n % 10) ∷ digits in
    let rest = digits_before fuel (n / 10) more in if ltb n 10 then more else rest

unfoldable pub to_string : ℕ → List ℕ
to_string n = digits_before (suc n) n []

unfoldable pub join_name : List ℕ → List ℕ → List ℕ
join_name [] suffix = suffix
join_name (c ∷ prefix) suffix = (c ∷ prefix) ++ b'.' ∷ suffix

-- Which parameters the layers have: `defined()` of the biases, and `has_value()` of the norms.
pub record Shape : Type 0 where
  pub num_layers : ℕ
  pub qkv_bias : Bool
  pub o_bias : Bool
  pub qk_norm : Bool
  pub gate_up_bias : Bool
  pub down_bias : Bool

abbrev pub name_if : Bool → List ℕ → List (List ℕ)
name_if true name = name ∷ []
name_if false name = []

-- `TransformerAttention::register_parameters`.
unfoldable pub attention_names : Shape → List ℕ → List (List ℕ)
attention_names s prefix =
    join_name prefix (codes "qkv_proj.weight")
    ∷ (name_if s.qkv_bias (join_name prefix (codes "qkv_proj.bias"))
        ++ (join_name prefix (codes "o_proj.weight")
            ∷ (name_if s.o_bias (join_name prefix (codes "o_proj.bias"))
                ++ (name_if s.qk_norm (join_name prefix (codes "q_norm.weight"))
                    ++ name_if s.qk_norm (join_name prefix (codes "k_norm.weight"))))))

-- `TransformerMLP::register_parameters`.
unfoldable pub mlp_names : Shape → List ℕ → List (List ℕ)
mlp_names s prefix =
    join_name prefix (codes "gate_up_proj.weight")
    ∷ (name_if s.gate_up_bias (join_name prefix (codes "gate_up_proj.bias"))
        ++ (join_name prefix (codes "down_proj.weight")
            ∷ name_if s.down_bias (join_name prefix (codes "down_proj.bias"))))

-- `TransformerDecoderLayer::register_parameters`.
unfoldable pub layer_names : Shape → List ℕ → List (List ℕ)
layer_names s prefix =
    join_name prefix (codes "input_layernorm.weight")
    ∷ (attention_names s (join_name prefix (codes "self_attn"))
        ++ (join_name prefix (codes "post_attention_layernorm.weight")
            ∷ mlp_names s (join_name prefix (codes "mlp"))))

abbrev pub layer_prefix : List ℕ → ℕ → List ℕ
layer_prefix prefix index = join_name prefix (codes "layers." ++ to_string index)

-- The loop over the layers from `i` on, `n` of them.
unfoldable pub layers_names : Shape → List ℕ → ℕ → ℕ → List (List ℕ)
layers_names s prefix zero i = []
layers_names s prefix (suc n) i =
    layer_names s (layer_prefix prefix i) ++ layers_names s prefix n (i + 1)

-- `TransformerModel::register_parameters`.
unfoldable pub model_names : Shape → List ℕ → List (List ℕ)
model_names s prefix =
    join_name prefix (codes "embed_tokens.weight")
    ∷ (layers_names s prefix s.num_layers 0 ++ (join_name prefix (codes "norm.weight") ∷ []))

-- `TransformerForCausalLM::register_parameters`.
unfoldable pub parameter_names : Shape → List (List ℕ)
parameter_names s = model_names s (codes "model") ++ (codes "lm_head.weight" ∷ [])

abbrev pub packed_modules_mapping : List PackedModuleMapping
packed_modules_mapping =
    record { source_name = codes "q_proj"; target_name = codes "qkv_proj"; shard_id = 0 }
    ∷ record { source_name = codes "k_proj"; target_name = codes "qkv_proj"; shard_id = 1 }
    ∷ record { source_name = codes "v_proj"; target_name = codes "qkv_proj"; shard_id = 2 }
    ∷ record { source_name = codes "gate_proj"; target_name = codes "gate_up_proj"; shard_id = 0 }
    ∷ record { source_name = codes "up_proj"; target_name = codes "gate_up_proj"; shard_id = 1 }
    ∷ []
