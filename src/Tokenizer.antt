-- ===== src/Tokenizer.antt =====
-- src/utils/tokenizer.cpp and include/utils/tokenizer.h: `encode` and `decode`, and what the
-- constructor makes of the parsed files.
-- The regular expression is the parameter `match_at`, `pcre2_match` from an offset on: the begin
-- and the end of the match, or `none`. The JSON library's values come as the lists and cases that
-- the constructor asks for. The order of `special_tokens_` is that of its list. A result `none`
-- says that a loop does not end.
pub mod Segments
pub mod Vocabulary
pub mod Words
pub mod Encode
pub mod Load
use nano_vllm_cpp.Base.{
  ℕ, zero, suc, ◌+◌, ◌-◌, ◌*◌, ◌/◌, ◌%◌, List, [], ◌∷◌, ◌++◌, Bool, true, false, not, ◌&&◌, ◌||◌,
  Option, none, some, length, take, drop, ltb, leb, ◌==◌, if◌then◌else◌,
}
use nano_vllm_cpp.Base.Maps.{ℕ_key, bytes_key, find}
use nano_vllm_cpp.Text
use nano_vllm_cpp.Text.{Bytes}
use nano_vllm_cpp.Bpe.{bpe}

pub record Tokenizer : Type 0 where
  pub token_to_id : List (Bytes × ℕ)
  pub id_to_token : List (ℕ × Bytes)
  pub special_tokens : List (Bytes × ℕ)
  pub merge_ranks : List (Bytes × ℕ)
  pub byte_encoder : List (ℕ × Bytes)
  pub byte_decoder : List (Bytes × ℕ)
  pub eos_token_id : ℕ
  pub use_byte_level_encoding : Bool

pub record Segment : Type 0 where
  pub text : Bytes
  pub is_special : Bool

-- `std::sort` of the special tokens, longest first, by insertion.
unfoldable pub insert_special : Bytes × ℕ → List (Bytes × ℕ) → List (Bytes × ℕ)
insert_special t [] = t ∷ []
insert_special t (u ∷ us) =
    if ltb (length t.0) (length u.0) then u ∷ insert_special t us else t ∷ u ∷ us

unfoldable pub sorted_specials : List (Bytes × ℕ) → List (Bytes × ℕ)
sorted_specials [] = []
sorted_specials (t ∷ ts) = insert_special t (sorted_specials ts)

-- `text.compare(pos, tok.size(), tok) == 0`, with the text from `pos` on.
unfoldable pub starts_with : Bytes → Bytes → Bool
starts_with [] s = true
starts_with (x ∷ xs) [] = false
starts_with (x ∷ xs) (y ∷ ys) = x == y && starts_with xs ys

-- The first special token at the head of the text.
unfoldable pub special_at : List (Bytes × ℕ) → Bytes → Option Bytes
special_at [] s = none
special_at ((tok, id) ∷ ts) s = if starts_with tok s then some tok else special_at ts s

-- `segments`, with its back at the head of the list.
unfoldable pub push_special : Bytes → List Segment → List Segment
push_special tok [] = record { text = tok; is_special = true } ∷ []
push_special tok (back ∷ segments) =
    let special : Segment = record { text = tok; is_special = true } in
    elim (not back.is_special && length back.text == 0) [
      | true ↦ special ∷ segments
      | false ↦ special ∷ back ∷ segments
    ]

unfoldable pub push_char : Bytes → List Segment → List Segment
push_char c [] = record { text = [] ++ c; is_special = false } ∷ []
push_char c (back ∷ segments) = elim (back.is_special) [
  | true ↦ record { text = [] ++ c; is_special = false } ∷ back ∷ segments
  | false ↦ record back { text = back.text ++ c } ∷ segments
]

-- The loop over the text. Each round takes a character or a special token, so that the length of
-- the text is fuel enough, unless a special token is empty.
unfoldable pub segments_loop : List (Bytes × ℕ) → ℕ → Bytes → List Segment → Option (List Segment)
segments_loop specials zero [] segments = some segments
segments_loop specials zero (b ∷ s) segments = none
segments_loop specials (suc fuel) [] segments = some segments
segments_loop specials (suc fuel) (b ∷ s) segments = elim (special_at specials (b ∷ s)) [
  | some tok ↦ segments_loop specials fuel (drop (length tok) (b ∷ s)) (push_special tok segments)
  | none ↦
      let n = Text.char_length (b ∷ s) in
      segments_loop specials fuel (drop n (b ∷ s)) (push_char (take n (b ∷ s)) segments)
]

-- The ids of the tokens that have one.
unfoldable pub ids_of : List (Bytes × ℕ) → List Bytes → List ℕ
ids_of token_to_id [] = []
ids_of token_to_id (t ∷ ts) = elim (find token_to_id t) [
  | none ↦ ids_of token_to_id ts
  | some id ↦ id ∷ ids_of token_to_id ts
]

-- "▁", and the SentencePiece form of a text.
abbrev pub metaspace : Bytes
metaspace = 0xE2 ∷ 0x96 ∷ 0x81 ∷ []

unfoldable pub replace_spaces : Bytes → Bytes
replace_spaces [] = []
replace_spaces (c ∷ s) = if c == b' ' then metaspace ++ replace_spaces s else c ∷ replace_spaces s

-- `"<0x%02X>"` of a byte.
abbrev pub hex_digit : ℕ → ℕ
hex_digit n = if ltb n 10 then b'0' + n else b'A' + (n - 10)

abbrev pub hex_token : ℕ → Bytes
hex_token byte = b'<' ∷ b'0' ∷ b'x' ∷ hex_digit (byte / 16) ∷ hex_digit (byte % 16) ∷ b'>' ∷ []

unfoldable pub hex_tokens : Bytes → List Bytes
hex_tokens [] = []
hex_tokens (b ∷ s) = hex_token b ∷ hex_tokens s

-- The ids of SentencePiece tokens, byte by byte where a token has none.
unfoldable pub ids_or_bytes : List (Bytes × ℕ) → List Bytes → List ℕ
ids_or_bytes token_to_id [] = []
ids_or_bytes token_to_id (t ∷ ts) = elim (find token_to_id t) [
  | none ↦ ids_of token_to_id (hex_tokens t) ++ ids_or_bytes token_to_id ts
  | some id ↦ id ∷ ids_or_bytes token_to_id ts
]

module _ (match_at : Bytes → ℕ → Option (ℕ × ℕ)) where
  -- `pre_tokenize` from an offset on. A match begins at the offset or later, so each round goes on
  -- by a byte at least, and the length of the text is fuel enough.
  unfoldable pub pre_tokenize_from : ℕ → Bytes → ℕ → List Bytes
  pre_tokenize_from zero text offset = []
  pre_tokenize_from (suc fuel) text offset = elim (ltb offset (length text)) [
    | false ↦ []
    | true ↦ elim (match_at text offset) [
      | none ↦ []
      | some (start, end) ↦ elim (leb end start) [
        | true ↦ pre_tokenize_from fuel text (end + 1)
        | false ↦ take (end - start) (drop start text) ∷ pre_tokenize_from fuel text end
      ]
    ]
  ]

  unfoldable pub pre_tokenize : Bytes → List Bytes
  pre_tokenize text = pre_tokenize_from (length text) text 0

  -- The words of a segment, byte-encoded and merged.
  unfoldable pub ids_of_words : Tokenizer → List Bytes → List ℕ
  ids_of_words t [] = []
  ids_of_words t (w ∷ ws) =
      ids_of t.token_to_id (bpe t.merge_ranks (Text.bytes_to_unicode_str t.byte_encoder w))
      ++ ids_of_words t ws

  unfoldable pub ids_of_text : Tokenizer → Bytes → List ℕ
  ids_of_text t text =
      if t.use_byte_level_encoding
      then ids_of_words t (pre_tokenize text)
      else ids_or_bytes t.token_to_id (bpe t.merge_ranks (metaspace ++ replace_spaces text))

  unfoldable pub ids_of_segment : Tokenizer → Segment → List ℕ
  ids_of_segment t g =
      if g.is_special then ids_of t.special_tokens (g.text ∷ []) else ids_of_text t g.text

  -- The segments come with the back first.
  unfoldable pub ids_of_segments : Tokenizer → List Segment → List ℕ
  ids_of_segments t [] = []
  ids_of_segments t (g ∷ gs) = ids_of_segments t gs ++ ids_of_segment t g

  unfoldable pub encode : Tokenizer → Bytes → Option (List ℕ)
  encode t text = elim (segments_loop (sorted_specials t.special_tokens) (length text) text []) [
    | none ↦ none
    | some segments ↦ some (ids_of_segments t segments)
  ]

-- `byte_level_str` of `decode`.
unfoldable pub tokens_of : List (ℕ × Bytes) → List ℕ → Bytes
tokens_of id_to_token [] = []
tokens_of id_to_token (id ∷ ids) = elim (find id_to_token id) [
  | none ↦ tokens_of id_to_token ids
  | some t ↦ t ++ tokens_of id_to_token ids
]

-- `hex_val`, where `none` is -1.
unfoldable pub hex_val : ℕ → Option ℕ
hex_val c =
    if leb b'0' c && leb c b'9'
    then some (c - b'0')
    else if leb b'A' c && leb c b'F'
    then some (c - b'A' + 10)
    else if leb b'a' c && leb c b'f'
    then some (c - b'a' + 10)
    else none

-- The byte of a "<0xNN>" at the head of a string.
unfoldable pub byte_at : Bytes → Option ℕ
byte_at (a ∷ b ∷ c ∷ hi ∷ lo ∷ e ∷ s) =
    if a == b'<' && (b == b'0' && (c == b'x' && e == b'>'))
    then elim (hex_val hi) [
      | none ↦ none
      | some h ↦ elim (hex_val lo) [ none ↦ none | some l ↦ some (h * 16 + l) ]
    ]
    else none
byte_at _ = none

unfoldable pub decode_pieces : ℕ → Bytes → Bytes
decode_pieces zero s = []
decode_pieces (suc fuel) [] = []
decode_pieces (suc fuel) (b ∷ s) = elim (starts_with metaspace (b ∷ s)) [
  | true ↦ b' ' ∷ decode_pieces fuel (drop 3 (b ∷ s))
  | false ↦ elim (byte_at (b ∷ s)) [
    | some byte ↦ byte ∷ decode_pieces fuel (drop 6 (b ∷ s))
    | none ↦ b ∷ decode_pieces fuel s
  ]
]

unfoldable pub decode : Tokenizer → List ℕ → Bytes
decode t ids =
    let s = tokens_of t.id_to_token ids in
    if t.use_byte_level_encoding
    then Text.unicode_str_to_bytes t.byte_decoder s
    else decode_pieces (length s) s
