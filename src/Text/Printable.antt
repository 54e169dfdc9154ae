-- ===== src/Text/Printable.antt =====
-- The round trip through printable characters.
use mathlib.Core.List.{append_assoc}
use nano_vllm_cpp.Base.{
  ℕ, ◌<◌, ◌≡◌, refl, ap, ◌∙◌, sym, List, [], ◌∷◌, ◌++◌, true, none, some, Option-cases, inl, inr,
  take, drop, arith,
}
use nano_vllm_cpp.Base.Maps.{ℕ_key, bytes_key, find}
use nano_vllm_cpp.Text.{
  Bytes, decode_utf8_codepoint, char_length, characters, characters_from, build_byte_encoder,
  build_byte_decoder, bytes_to_unicode_str, unicode_str_to_bytes, chars_to_bytes, char_to_bytes,
}
use nano_vllm_cpp.Text.Characters.{characters-cons}
use nano_vllm_cpp.Text.Encoder.{one_char, byte_encoder_lem}

-- All bytes of a string are below 256.
abbrev pub AreBytes : Bytes → Type 0
AreBytes [] = Unit
AreBytes (b ∷ s) = (b < 256) × AreBytes s

-- A character of one or two bytes is cut off whole.
pub one_char-cut :
    (u rest : Bytes) → one_char u ≡ true → characters (u ++ rest) ≡ u ∷ characters rest
unfolding decode_utf8_codepoint
one_char-cut [] rest h = cc
one_char-cut (x ∷ []) rest h =
    let n : char_length (x ∷ rest) ≡ 1 = ground arith in
    characters-cons x rest ∙ ap (λ n. take n (x ∷ rest) ∷ characters (drop n (x ∷ rest))) n
one_char-cut (x ∷ y ∷ []) rest h =
    let n : char_length (x ∷ y ∷ rest) ≡ 2 = ground arith in
    characters-cons x (y ∷ rest)
    ∙ ap (λ n. take n (x ∷ y ∷ rest) ∷ characters (drop n (x ∷ y ∷ rest))) n
one_char-cut (x ∷ y ∷ z ∷ s) rest h = cc

pub bytes_to_unicode_str-some :
    (enc : List (ℕ × Bytes)) (b : ℕ) (s u : Bytes)
    → find enc b ≡ some u
    → bytes_to_unicode_str enc (b ∷ s) ≡ u ++ bytes_to_unicode_str enc s
unfolding bytes_to_unicode_str
bytes_to_unicode_str-some enc b s u h = ground arith

bytes_to_unicode_str-none :
    (enc : List (ℕ × Bytes)) (b : ℕ) (s : Bytes)
    → find enc b ≡ none
    → bytes_to_unicode_str enc (b ∷ s) ≡ bytes_to_unicode_str enc s
unfolding bytes_to_unicode_str
bytes_to_unicode_str-none enc b s h = ground arith

pub bytes_to_unicode_str-append :
    (enc : List (ℕ × Bytes)) (s t : Bytes)
    → bytes_to_unicode_str enc (s ++ t) ≡ bytes_to_unicode_str enc s ++ bytes_to_unicode_str enc t
bytes_to_unicode_str-append enc [] t = unfold bytes_to_unicode_str in refl
bytes_to_unicode_str-append enc (b ∷ s) t = elim (Option-cases (find enc b)) [
  | inl absent ↦
      rw (bytes_to_unicode_str-none enc b (s ++ t) absent, bytes_to_unicode_str-none enc b s absent)
        (bytes_to_unicode_str-append enc s t)
  | inr (u, there) ↦
      rw
        (
          bytes_to_unicode_str-some enc b (s ++ t) u there,
          bytes_to_unicode_str-some enc b s u there,
        )
        (ap (λ r. u ++ r) (bytes_to_unicode_str-append enc s t)
          ∙ sym (append_assoc u (bytes_to_unicode_str enc s) (bytes_to_unicode_str enc t)))
]

chars_to_bytes-cons :
    (dec : List (Bytes × ℕ)) (c : Bytes) (cs : List Bytes) (b : ℕ)
    → find dec c ≡ some b
    → chars_to_bytes dec (c ∷ cs) ≡ b ∷ chars_to_bytes dec cs
unfolding chars_to_bytes char_to_bytes
chars_to_bytes-cons dec c cs b h = ground arith

-- Printing the bytes of a string and reading them back gives the string, for every string of bytes.
pub unicode_str_to_bytes-bytes_to_unicode_str :
    (s : Bytes)
    → AreBytes s
    → unicode_str_to_bytes
        (build_byte_decoder build_byte_encoder)
        (bytes_to_unicode_str build_byte_encoder s)
      ≡ s
unfolding unicode_str_to_bytes
unicode_str_to_bytes-bytes_to_unicode_str [] v =
    unfold bytes_to_unicode_str characters characters_from chars_to_bytes in refl
unicode_str_to_bytes-bytes_to_unicode_str (b ∷ s) (l, v) =
    let (u, e, o, d) = byte_encoder_lem b l in
    let dec = build_byte_decoder build_byte_encoder in
    let rest = bytes_to_unicode_str build_byte_encoder s in
    ap (λ x. chars_to_bytes dec (characters x))
      (bytes_to_unicode_str-some build_byte_encoder b s u e)
    ∙ ap (λ cs. chars_to_bytes dec cs) (one_char-cut u rest o)
    ∙ chars_to_bytes-cons dec u (characters rest) b d
    ∙ ap (λ t. b ∷ t) (unicode_str_to_bytes-bytes_to_unicode_str s v)
