-- ===== src/Tokenizer/Encode.antt =====
-- `decode` takes back what `encode` gives, byte-level.
use mathlib.Core.List.{flatten, append-nil}
use nano_vllm_cpp.Base.{
  ap₂, ℕ, ◌≤◌, ◌<◌, ◌≡◌, refl, sym, ap, ◌∙◌, subst, List, [], ◌∷◌, ◌++◌, true, false, Option, some,
  Bool-cases, inl, inr, arith, length,
}
use nano_vllm_cpp.Base.Maps.{ℕ_key, bytes_key, find}
use nano_vllm_cpp.Text.{
  Bytes, build_byte_encoder, build_byte_decoder, bytes_to_unicode_str, unicode_str_to_bytes,
}
use nano_vllm_cpp.Text.Printable.{
  AreBytes, bytes_to_unicode_str-append, unicode_str_to_bytes-bytes_to_unicode_str,
}
use nano_vllm_cpp.Bpe.{bpe, pair_key}
use nano_vllm_cpp.Tokenizer.{
  Tokenizer, Segment, sorted_specials, segments_loop, ids_of, ids_of_words, ids_of_text,
  ids_of_segment, ids_of_segments, pre_tokenize, encode, tokens_of, decode,
}
use nano_vllm_cpp.Tokenizer.Words.{flatten-pre_tokenize, pre_tokenize-whole}
use nano_vllm_cpp.Tokenizer.Segments.{
  AllSpecial, AllGood, GoodSegment, texts, AllSpecial-sorted_specials, segments_loop_lem,
}
use nano_vllm_cpp.Tokenizer.Vocabulary.{
  Known, tokens_of-append, tokens_of-cons, ids_of-cons, tokens_of_word,
}

-- What is asked of a special token: it has an id that leads back to it, and its bytes print as
-- themselves.
pub record Special (t : Tokenizer) (tok : Bytes) : Type 0 where
  pub known : Known t.special_tokens t.id_to_token tok
  pub plain : bytes_to_unicode_str build_byte_encoder tok ≡ tok

-- A byte-level tokenizer whose vocabulary is complete.
pub record Complete (t : Tokenizer) : Type 0 where
  pub byte_level : t.use_byte_level_encoding ≡ true
  pub encoder : t.byte_encoder ≡ build_byte_encoder
  pub decoder : t.byte_decoder ≡ build_byte_decoder build_byte_encoder
  pub bytes_known :
      (b : ℕ) (u : Bytes)
      → b < 256
      → find build_byte_encoder b ≡ some u
      → Known t.token_to_id t.id_to_token u
  pub merges_known :
      (x y : Bytes) (r : ℕ)
      → find t.merge_ranks (pair_key x y) ≡ some r
      → Known t.token_to_id t.id_to_token (x ++ y)
  pub specials : AllSpecial (λ tok. Special t tok × (1 ≤ length tok)) t.special_tokens

AreBytes-append : (s t : Bytes) → AreBytes (s ++ t) → AreBytes s × AreBytes t
AreBytes-append [] t v = (tt, v)
AreBytes-append (b ∷ s) t (l, v) = let (a, c) = AreBytes-append s t v in ((l, a), c)

-- The texts of the ordinary segments.
abbrev pub AllPlain : (Bytes → Type 0) → List Segment → Type 0
AllPlain P [] = Unit
AllPlain P (g ∷ gs) = (g.is_special ≡ false → P g.text) × AllPlain P gs

-- `Matchable text offset` stands for an offset at a character of a valid UTF-8 text; there the
-- pattern matches at the offset itself, since its alternatives cover all characters.
module _ (match_at : Bytes → ℕ → Option (ℕ × ℕ)) (Matchable : Bytes → ℕ → Type 0)
    (covers : (text : Bytes) (offset : ℕ)
      → Matchable text offset
      → offset < length text
      → (end : ℕ) × (match_at text offset ≡ some (offset, end))
        × (offset < end)
        × (end ≤ length text)
        × Matchable text end) where
  ids_of_segment-special :
      (t : Tokenizer) (g : Segment)
      → g.is_special ≡ true
      → ids_of_segment match_at t g ≡ ids_of t.special_tokens (g.text ∷ [])
  unfolding ids_of_segment
  ids_of_segment-special t g h = rw h refl

  ids_of_segment-plain :
      (t : Tokenizer) (g : Segment)
      → g.is_special ≡ false
      → t.use_byte_level_encoding ≡ true
      → ids_of_segment match_at t g ≡ ids_of_words match_at t (pre_tokenize match_at g.text)
  unfolding ids_of_segment ids_of_text
  ids_of_segment-plain t g h byte_level = rw (h, byte_level) refl

  no_more :
      (t : Tokenizer) (s : Bytes) → s ++ tokens_of t.id_to_token (ids_of t.special_tokens []) ≡ s
  unfolding tokens_of ids_of
  no_more t s = append-nil s

  encode-segments :
      (t : Tokenizer) (text : Bytes) (segments : List Segment)
      → segments_loop (sorted_specials t.special_tokens) (length text) text [] ≡ some segments
      → encode match_at t text ≡ some (ids_of_segments match_at t segments)
  unfolding encode
  encode-segments t text segments h = ground arith

  decode-byte_level :
      (t : Tokenizer) (ids : List ℕ)
      → t.use_byte_level_encoding ≡ true
      → decode t ids ≡ unicode_str_to_bytes t.byte_decoder (tokens_of t.id_to_token ids)
  unfolding decode
  decode-byte_level t ids h = rw h refl

  module _ (t : Tokenizer) (c : Complete t) where
    tokens_of_words :
        (ws : List Bytes)
        → AreBytes (flatten ws)
        → tokens_of t.id_to_token (ids_of_words match_at t ws)
          ≡ bytes_to_unicode_str build_byte_encoder (flatten ws)
    unfolding ids_of_words flatten
    tokens_of_words [] v = unfold tokens_of bytes_to_unicode_str in refl
    tokens_of_words (w ∷ ws) v =
        let (first, rest) = AreBytes-append w (flatten ws) v in
        let ids : Bytes → List ℕ = λ u. ids_of t.token_to_id (bpe t.merge_ranks u) in
        tokens_of-append t.id_to_token (ids (bytes_to_unicode_str t.byte_encoder w))
          (ids_of_words match_at t ws)
        ∙ ap
            (λ e.
              tokens_of t.id_to_token (ids (bytes_to_unicode_str e w))
              ++ tokens_of t.id_to_token (ids_of_words match_at t ws))
            c.encoder
        ∙ ap₂ (λ x y. x ++ y)
            (tokens_of_word t.merge_ranks t.token_to_id t.id_to_token c.bytes_known c.merges_known w
              first)
            (tokens_of_words ws rest)
        ∙ sym (bytes_to_unicode_str-append build_byte_encoder w (flatten ws))

    tokens_of_segment :
        (g : Segment)
        → GoodSegment (Special t) g
        → (g.is_special ≡ false → Matchable g.text 0)
        → AreBytes g.text
        → tokens_of t.id_to_token (ids_of_segment match_at t g)
          ≡ bytes_to_unicode_str build_byte_encoder g.text
    tokens_of_segment g good plain v = elim (Bool-cases g.is_special) [
      | inl special ↦
          let s = good special in
          ap (λ x. tokens_of t.id_to_token x)
            (ids_of_segment-special t g special
              ∙ ids_of-cons t.special_tokens g.text [] s.known.id s.known.has_id)
          ∙ tokens_of-cons t.id_to_token s.known.id (ids_of t.special_tokens []) g.text
              s.known.has_token
          ∙ no_more t g.text
          ∙ sym s.plain
      | inr ordinary ↦
          let whole =
            flatten-pre_tokenize match_at Matchable covers (length g.text) g.text 0 (plain ordinary)
              (omega arith) in
          ap (λ x. tokens_of t.id_to_token x) (ids_of_segment-plain t g ordinary c.byte_level)
          ∙ tokens_of_words (pre_tokenize match_at g.text)
              (subst AreBytes (sym (pre_tokenize-whole match_at Matchable covers g.text whole)) v)
          ∙ ap (λ x. bytes_to_unicode_str build_byte_encoder x)
              (pre_tokenize-whole match_at Matchable covers g.text whole)
    ]

    tokens_of_segments :
        (gs : List Segment)
        → AllGood (Special t) gs
        → AllPlain (λ s. Matchable s 0) gs
        → AreBytes (texts gs)
        → tokens_of t.id_to_token (ids_of_segments match_at t gs)
          ≡ bytes_to_unicode_str build_byte_encoder (texts gs)
    unfolding ids_of_segments
    tokens_of_segments [] good plain v = unfold tokens_of bytes_to_unicode_str in refl
    tokens_of_segments (g ∷ gs) good plain v =
        let (before, last) = AreBytes-append (texts gs) g.text v in
        tokens_of-append t.id_to_token (ids_of_segments match_at t gs) (ids_of_segment match_at t g)
        ∙ ap₂ (λ x y. x ++ y) (tokens_of_segments gs good.1 plain.1 before)
            (tokens_of_segment g good.0 plain.0 last)
        ∙ sym (bytes_to_unicode_str-append build_byte_encoder (texts gs) g.text)

    -- Under a complete byte-level tokenizer, for a text of bytes whose parts between the special
    -- tokens are matchable from their start, `encode` returns ids, and `decode` of them is the text.
    pub decode-encode :
        (text : Bytes)
        → AreBytes text
        → ((segments : List Segment)
            → segments_loop (sorted_specials t.special_tokens) (length text) text [] ≡ some segments
            → AllPlain (λ s. Matchable s 0) segments)
        → (ids : List ℕ) × (encode match_at t text ≡ some ids) × (decode t ids ≡ text)
    decode-encode text v plain =
        let (segments, run, good, same) =
          segments_loop_lem (Special t) (sorted_specials t.special_tokens)
            (AllSpecial-sorted_specials (λ tok. Special t tok × (1 ≤ length tok)) t.special_tokens
              c.specials)
            (length text) text [] (omega arith) tt in
        (
          ids_of_segments match_at t segments,
          encode-segments t text segments run,
          decode-byte_level t (ids_of_segments match_at t segments) c.byte_level
              ∙ ap₂ (λ d s. unicode_str_to_bytes d s) c.decoder
                  (tokens_of_segments segments good (plain segments run)
                      (subst AreBytes (sym same) v)
                    ∙ ap (λ s. bytes_to_unicode_str build_byte_encoder s) same)
              ∙ unicode_str_to_bytes-bytes_to_unicode_str text v,
        )
