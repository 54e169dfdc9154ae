-- ===== src/Tokenizer/Load.antt =====
-- src/utils/tokenizer.cpp, the constructor: the maps it fills from the values that the JSON library
-- finds in tokenizer.json and generation_config.json, in their order.
use nano_vllm_cpp.Base.{
  ℕ, ◌+◌, ◌-◌, ◌^◌, ◌≡◌, ◌∙◌, List, [], ◌∷◌, ◌++◌, Bool, true, false, not, ◌&&◌, ◌||◌, Option, none,
  some, leb, vec_eq,
}
use nano_vllm_cpp.Base.Maps.{ℕ_key, bytes_key, find, assign, find-assign_self, find-assign_other}
use nano_vllm_cpp.Config.{codes}
use nano_vllm_cpp.Text.{Bytes, build_byte_encoder, build_byte_decoder}
use nano_vllm_cpp.Bpe.{pair_key}
use nano_vllm_cpp.Tokenizer.{Tokenizer}
use nano_vllm_cpp.Tokenizer.Vocabulary.{Known}

-- An element of "merges": a string, an array of two strings, or something else.
pub data MergeEntry : Type 0 where
  text : Bytes → MergeEntry
  pair : Bytes → Bytes → MergeEntry
  other : MergeEntry

-- The section "decoder": its type, and the types of its sub-decoders, where it has them.
pub record DecoderSection : Type 0 where
  pub dtype : Bytes
  pub decoders : Option (List Bytes)

-- "eos_token_id": an array of numbers, a number, or something else.
pub data EosValue : Type 0 where
  ids : List ℕ → EosValue
  number : ℕ → EosValue
  unknown : EosValue

-- `token_to_id_[token] = id` and `id_to_token_[id] = token`, for all pairs.
unfoldable pub load_tokens :
    List (Bytes × ℕ) → List (Bytes × ℕ) → List (ℕ × Bytes) → List (Bytes × ℕ) × List (ℕ × Bytes)
load_tokens [] token_to_id id_to_token = (token_to_id, id_to_token)
load_tokens ((token, id) ∷ pairs) token_to_id id_to_token =
    load_tokens pairs (assign token_to_id token id) (assign id_to_token id token)

unfoldable pub load_specials : List (Bytes × ℕ) → List (Bytes × ℕ) → List (Bytes × ℕ)
load_specials [] specials = specials
load_specials ((content, id) ∷ added) specials = load_specials added (assign specials content id)

-- A merge that is skipped takes no rank.
unfoldable pub load_merges : ℕ → List MergeEntry → List (Bytes × ℕ) → List (Bytes × ℕ)
load_merges rank [] ranks = ranks
load_merges rank (MergeEntry.text key ∷ merges) ranks =
    load_merges (rank + 1) merges (assign ranks key rank)
load_merges rank (MergeEntry.pair x y ∷ merges) ranks =
    load_merges (rank + 1) merges (assign ranks (pair_key x y) rank)
load_merges rank (MergeEntry.other ∷ merges) ranks = load_merges rank merges ranks

unfoldable pub is_sentencepiece : List Bytes → Bool
is_sentencepiece [] = false
is_sentencepiece (dt ∷ dts) =
    vec_eq dt (codes "ByteFallback") || (vec_eq dt (codes "Replace") || is_sentencepiece dts)

unfoldable pub detect_byte_level : Option DecoderSection → Bool
detect_byte_level none = true
detect_byte_level (some d) =
    let listed : Bool = elim (d.decoders) [ none ↦ false | some dts ↦ is_sentencepiece dts ] in
    let known =
      vec_eq d.dtype (codes "Sequence")
      || (vec_eq d.dtype (codes "ByteFallback") || vec_eq d.dtype (codes "Replace")) in
    not (known && (listed || vec_eq d.dtype (codes "ByteFallback")))

-- The id of generation_config.json, -1 without one.
unfoldable pub configured_eos : Option EosValue → ℕ
configured_eos none = 2 ^ 32 - 1
configured_eos (some (EosValue.ids [])) = 2 ^ 32 - 1
configured_eos (some (EosValue.ids (id ∷ rest))) = id
configured_eos (some (EosValue.number id)) = id
configured_eos (some EosValue.unknown) = 2 ^ 32 - 1

unfoldable pub find_eos : Option EosValue → List (Bytes × ℕ) → ℕ
find_eos eos specials =
    let id = configured_eos eos in
    elim (leb (2 ^ 31) id) [
      | false ↦ id
      | true ↦ elim (find specials (codes "<|im_end|>")) [
        | some end ↦ end
        | none ↦ elim (find specials (codes "<|endoftext|>")) [ some end ↦ end | none ↦ id ]
      ]
    ]

unfoldable pub new_tokenizer :
    List (Bytes × ℕ)
    → List MergeEntry
    → List (Bytes × ℕ)
    → Option DecoderSection
    → Option EosValue
    → Tokenizer
new_tokenizer vocab merges added decoder eos =
    let (token_to_id, id_to_token) = load_tokens (vocab ++ added) [] [] in
    let specials = load_specials added [] in
    record {
      token_to_id = token_to_id;
      id_to_token = id_to_token;
      special_tokens = specials;
      merge_ranks = load_merges 0 merges [];
      byte_encoder = build_byte_encoder;
      byte_decoder = build_byte_decoder build_byte_encoder;
      eos_token_id = find_eos eos specials;
      use_byte_level_encoding = detect_byte_level decoder;
    }

-- No pair has the token or the id.
abbrev pub Apart : Bytes → ℕ → List (Bytes × ℕ) → Type 0
Apart token id [] = Unit
Apart token id ((t, i) ∷ pairs) =
    (bytes_key.same t token ≡ false) × (ℕ_key.same i id ≡ false) × Apart token id pairs

load_tokens-kept :
    (pairs tokens : List (Bytes × ℕ)) (names : List (ℕ × Bytes)) (token : Bytes) (id : ℕ)
    → Apart token id pairs
    → find tokens token ≡ some id
    → find names id ≡ some token
    → (find (load_tokens pairs tokens names).0 token ≡ some id)
      × (find (load_tokens pairs tokens names).1 id ≡ some token)
unfolding load_tokens
load_tokens-kept [] tokens names token id v h k = (h, k)
load_tokens-kept ((t, i) ∷ pairs) tokens names token id (a, b, v) h k =
    load_tokens-kept pairs (assign tokens t i) (assign names i t) token id v
      (find-assign_other tokens t token i a ∙ h) (find-assign_other names i id t b ∙ k)

-- A pair that no later one has the token or the id of is known after loading.
pub load_tokens-Known :
    (before after tokens : List (Bytes × ℕ)) (names : List (ℕ × Bytes)) (token : Bytes) (id : ℕ)
    → Apart token id after
    → Known
        (load_tokens (before ++ (token, id) ∷ after) tokens names).0
        (load_tokens (before ++ (token, id) ∷ after) tokens names).1
        token
unfolding load_tokens
load_tokens-Known [] after tokens names token id v =
    let (h, k) =
      load_tokens-kept after (assign tokens token id) (assign names id token) token id v
        (find-assign_self tokens token id) (find-assign_self names id token) in
    record { id = id; has_id = h; has_token = k }
load_tokens-Known ((t, i) ∷ before) after tokens names token id v =
    load_tokens-Known before after (assign tokens t i) (assign names i t) token id v
