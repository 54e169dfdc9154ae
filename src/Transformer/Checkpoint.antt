-- ===== src/Transformer/Checkpoint.antt =====
-- The names of a checkpoint and the parameters that they are loaded into.
use nano_vllm_cpp.Base.{
  ℕ, zero, suc, ◌+◌, ◌/◌, ◌%◌, ◌≤◌, ◌<◌, ◌≡◌, refl, sym, ◌∙◌, ap, subst, inl, inr, List, [], ◌∷◌,
  ◌++◌, some, arith, ltb, Bool-cases,
}
use mathlib.Core.List.{
  Mem, mem-append_left, mem-append_right, mem-cons_self, mem-cons_of_mem, append_assoc,
}
use nano_vllm_cpp.Base.Counting.{count}
use nano_vllm_cpp.Config.{codes}
use nano_vllm_cpp.Tokenizer.{starts_with}
use nano_vllm_cpp.SafeTensors.Registry.{
  find_from, dot_at, matches_parameter_segment, segment_at, resolve_packed_parameter_name,
}
use nano_vllm_cpp.SafeTensors.Registry.Prefixes.{AllForeign, behind, resolve-behind}
use nano_vllm_cpp.Transformer.{
  digits_before, to_string, join_name, Shape, attention_names, mlp_names, layer_names, layer_prefix,
  layers_names, model_names, parameter_names, packed_modules_mapping,
}

count-digits_before :
    (fuel n c : ℕ) (digits : List ℕ)
    → 58 ≤ c
    → count c digits ≡ 0
    → count c (digits_before fuel n digits) ≡ 0
unfolding digits_before count
count-digits_before zero n c digits h e = e
count-digits_before (suc fuel) n c digits h e =
    let more : count c ((48 + n % 10) ∷ digits) ≡ 0 = ground (arith, e) in
    elim (Bool-cases (ltb n 10)) [
      | inl last ↦ rw last more
      | inr rest ↦ rw rest (count-digits_before fuel (n / 10) c ((48 + n % 10) ∷ digits) h more)
    ]

-- No decimal digit starts the name of a packed module.
count-to_string : (n c : ℕ) → 58 ≤ c → count c (to_string n) ≡ 0
unfolding to_string count
count-to_string n c h = count-digits_before (suc n) n c [] h refl

layer_foreign : (i : ℕ) → AllForeign (layer_prefix (codes "model") i) packed_modules_mapping
unfolding join_name count
layer_foreign i = (
  (omega (arith, count-to_string i b'q' (omega arith)), refl),
  (
    (omega (arith, count-to_string i b'k' (omega arith)), refl),
    (
      (omega (arith, count-to_string i b'v' (omega arith)), refl),
      (
        (omega (arith, count-to_string i b'g' (omega arith)), refl),
        ((omega (arith, count-to_string i b'u' (omega arith)), refl), tt),
      ),
    ),
  ),
)

-- A parameter of a module of a layer.
unfoldable pub in_layer : ℕ → List ℕ → List ℕ → List ℕ
in_layer i part name = join_name (join_name (layer_prefix (codes "model") i) part) name

in_layer_lem :
    (i c : ℕ) (part name : List ℕ)
    → in_layer i (c ∷ part) name
      ≡ layer_prefix (codes "model") i ++ b'.' ∷ ((c ∷ part) ++ b'.' ∷ name)
unfolding in_layer join_name
in_layer_lem i c part name =
    append_assoc (layer_prefix (codes "model") i) (b'.' ∷ c ∷ part) (b'.' ∷ name)

-- What a name resolves to behind a prefix is known from the rest of the name.
resolve-in_layer :
    (i c : ℕ) (part name target : List ℕ) (shard : ℕ)
    → resolve_packed_parameter_name (b'.' ∷ ((c ∷ part) ++ b'.' ∷ name)) packed_modules_mapping
      ≡ (b'.' ∷ ((c ∷ part) ++ b'.' ∷ target), some shard)
    → resolve_packed_parameter_name (in_layer i (c ∷ part) name) packed_modules_mapping
      ≡ (in_layer i (c ∷ part) target, some shard)
resolve-in_layer i c part name target shard h =
    ap (λ x. resolve_packed_parameter_name x packed_modules_mapping) (in_layer_lem i c part name)
    ∙ resolve-behind (layer_prefix (codes "model") i) ((c ∷ part) ++ b'.' ∷ name)
        packed_modules_mapping (layer_foreign i)
    ∙ ap (behind (layer_prefix (codes "model") i)) h
    ∙ ap (λ x. (x, some shard)) (sym (in_layer_lem i c part target))

layer-Mem :
    (s : Shape) (prefix name : List ℕ) (n i k : ℕ)
    → k < n
    → Mem name (layer_names s (layer_prefix prefix (i + k)))
    → Mem name (layers_names s prefix n i)
unfolding layers_names
layer-Mem s prefix name zero i k h m = absurd (omega (arith, h))
layer-Mem s prefix name (suc n) i zero h m =
    mem-append_left (layers_names s prefix n (i + 1))
      (subst (λ j. Mem name (layer_names s (layer_prefix prefix j))) (omega arith) m)
layer-Mem s prefix name (suc n) i (suc k) h m =
    mem-append_right (layer_names s (layer_prefix prefix i)) (
      layer-Mem s prefix name n (i + 1) k (omega arith)
        (subst (λ j. Mem name (layer_names s (layer_prefix prefix j))) (omega arith) m))

parameter-Mem :
    (s : Shape) (i : ℕ) (name : List ℕ)
    → i < s.num_layers
    → Mem name (layer_names s (layer_prefix (codes "model") i))
    → Mem name (parameter_names s)
unfolding parameter_names model_names
parameter-Mem s i name h m = mem-append_left (codes "lm_head.weight" ∷ []) (
    mem-cons_of_mem (join_name (codes "model") (codes "embed_tokens.weight")) (
      mem-append_left (join_name (codes "model") (codes "norm.weight") ∷ []) (
        layer-Mem s (codes "model") name s.num_layers 0 i h (
          subst (λ j. Mem name (layer_names s (layer_prefix (codes "model") j))) (omega arith) m))))

module _ (s : Shape) (i : ℕ) where
  attention-Mem :
      (name : List ℕ)
      → Mem name
          (attention_names s (join_name (layer_prefix (codes "model") i) (codes "self_attn")))
      → Mem name (layer_names s (layer_prefix (codes "model") i))
  unfolding layer_names
  attention-Mem name m =
      mem-cons_of_mem (join_name (layer_prefix (codes "model") i) (codes "input_layernorm.weight"))
        (mem-append_left
          (join_name (layer_prefix (codes "model") i) (codes "post_attention_layernorm.weight")
            ∷ mlp_names s (join_name (layer_prefix (codes "model") i) (codes "mlp")))
          m)

  mlp-Mem :
      (name : List ℕ)
      → Mem name (mlp_names s (join_name (layer_prefix (codes "model") i) (codes "mlp")))
      → Mem name (layer_names s (layer_prefix (codes "model") i))
  unfolding layer_names
  mlp-Mem name m =
      mem-cons_of_mem (join_name (layer_prefix (codes "model") i) (codes "input_layernorm.weight"))
        (mem-append_right
          (attention_names s (join_name (layer_prefix (codes "model") i) (codes "self_attn")))
          (mem-cons_of_mem
            (join_name (layer_prefix (codes "model") i) (codes "post_attention_layernorm.weight"))
            m))

  qkv_weight-Mem :
      Mem
        (in_layer i (codes "self_attn") (codes "qkv_proj.weight"))
        (layer_names s (layer_prefix (codes "model") i))
  unfolding in_layer
  qkv_weight-Mem =
      attention-Mem (in_layer i (codes "self_attn") (codes "qkv_proj.weight"))
        (unfold attention_names in mem-cons_self)

  gate_up_weight-Mem :
      Mem
        (in_layer i (codes "mlp") (codes "gate_up_proj.weight"))
        (layer_names s (layer_prefix (codes "model") i))
  unfolding in_layer
  gate_up_weight-Mem =
      mlp-Mem (in_layer i (codes "mlp") (codes "gate_up_proj.weight"))
        (unfold mlp_names in mem-cons_self)

-- A name of a checkpoint resolves to a registered parameter and a shard of it.
abbrev pub LoadsInto : Shape → List ℕ → List ℕ → ℕ → Type 0
LoadsInto s name parameter shard =
    (resolve_packed_parameter_name name packed_modules_mapping ≡ (parameter, some shard))
    × Mem parameter (parameter_names s)

-- The five packed weights of a layer.
pub record LoadsLayer (s : Shape) (i : ℕ) : Type 0 where
  pub q :
      LoadsInto s
        (in_layer i (codes "self_attn") (codes "q_proj.weight"))
        (in_layer i (codes "self_attn") (codes "qkv_proj.weight"))
        0
  pub k :
      LoadsInto s
        (in_layer i (codes "self_attn") (codes "k_proj.weight"))
        (in_layer i (codes "self_attn") (codes "qkv_proj.weight"))
        1
  pub v :
      LoadsInto s
        (in_layer i (codes "self_attn") (codes "v_proj.weight"))
        (in_layer i (codes "self_attn") (codes "qkv_proj.weight"))
        2
  pub gate :
      LoadsInto s
        (in_layer i (codes "mlp") (codes "gate_proj.weight"))
        (in_layer i (codes "mlp") (codes "gate_up_proj.weight"))
        0
  pub up :
      LoadsInto s
        (in_layer i (codes "mlp") (codes "up_proj.weight"))
        (in_layer i (codes "mlp") (codes "gate_up_proj.weight"))
        1

-- For any layer of a model, whatever its number: the names of a checkpoint for the weights of the
-- query, key and value projections resolve to shards 0, 1 and 2 of the layer's `qkv_proj.weight`,
-- those of the gate and up projections to shards 0 and 1 of its `gate_up_proj.weight`, and both
-- are names under which the model registers a parameter.
pub checkpoint_loads : (s : Shape) (i : ℕ) → i < s.num_layers → LoadsLayer s i
unfolding resolve_packed_parameter_name segment_at find_from starts_with matches_parameter_segment
    dot_at
checkpoint_loads s i h = record {
  q = (
    resolve-in_layer i b's' (codes "elf_attn") (codes "q_proj.weight") (codes "qkv_proj.weight") 0
        refl,
    parameter-Mem s i (in_layer i (codes "self_attn") (codes "qkv_proj.weight")) h
        (qkv_weight-Mem s i),
  );
  k = (
    resolve-in_layer i b's' (codes "elf_attn") (codes "k_proj.weight") (codes "qkv_proj.weight") 1
        refl,
    parameter-Mem s i (in_layer i (codes "self_attn") (codes "qkv_proj.weight")) h
        (qkv_weight-Mem s i),
  );
  v = (
    resolve-in_layer i b's' (codes "elf_attn") (codes "v_proj.weight") (codes "qkv_proj.weight") 2
        refl,
    parameter-Mem s i (in_layer i (codes "self_attn") (codes "qkv_proj.weight")) h
        (qkv_weight-Mem s i),
  );
  gate = (
    resolve-in_layer i b'm' (codes "lp") (codes "gate_proj.weight") (codes "gate_up_proj.weight") 0
        refl,
    parameter-Mem s i (in_layer i (codes "mlp") (codes "gate_up_proj.weight")) h
        (gate_up_weight-Mem s i),
  );
  up = (
    resolve-in_layer i b'm' (codes "lp") (codes "up_proj.weight") (codes "gate_up_proj.weight") 1
        refl,
    parameter-Mem s i (in_layer i (codes "mlp") (codes "gate_up_proj.weight")) h
        (gate_up_weight-Mem s i),
  );
}
