-- ===== src/Tests/Words.antt =====
-- A byte-level tokenizer with one merge and one special token, and a text for it.
use nano_vllm_cpp.Base.{
  ℕ, ◌<◌, ◌≤◌, ◌≡◌, refl, sym, subst, List, [], ◌∷◌, ◌++◌, true, false, Option, none, some, arith,
  length, Bool-cases, inl, inr, vec_eq, vec_eq→eq, ◌==◌,
}
use nano_vllm_cpp.Base.Maps.{ℕ_key, bytes_key, find}
use nano_vllm_cpp.Config.{codes}
use nano_vllm_cpp.Text.{
  Bytes, characters, build_byte_encoder, build_byte_decoder, bytes_to_unicode_str,
  unicode_str_to_bytes,
}
use nano_vllm_cpp.Text.Encoder.{one_char, byte_encoder_lem}
use nano_vllm_cpp.Text.Printable.{AreBytes, unicode_str_to_bytes-bytes_to_unicode_str}
use nano_vllm_cpp.Bpe.{bpe, pair_key}
use nano_vllm_cpp.Bpe.Reduction.{Reduces, Normal, bpe-Reduces}
use nano_vllm_cpp.Tokenizer.{Tokenizer, Segment, segments_loop, encode, decode}
use nano_vllm_cpp.Tokenizer.Segments.{AllGood, texts, segments_loop_lem}
use nano_vllm_cpp.Tokenizer.Vocabulary.{Known}
use nano_vllm_cpp.Tokenizer.Encode.{Special, Complete, AllPlain, decode-encode}
use mathlib.Core.List.{flatten}

abbrev h_i : List (Bytes × ℕ)
h_i = (codes "h i", 0) ∷ []

abbrev tiny : Tokenizer
tiny = record {
  token_to_id = (codes "hi", 256) ∷ build_byte_decoder build_byte_encoder;
  id_to_token = (257, codes "<s>") ∷ (256, codes "hi") ∷ build_byte_encoder;
  special_tokens = (codes "<s>", 257) ∷ [];
  merge_ranks = h_i;
  byte_encoder = build_byte_encoder;
  byte_decoder = build_byte_decoder build_byte_encoder;
  eos_token_id = 257;
  use_byte_level_encoding = true;
}

-- A pattern that matches all the rest of a text.
abbrev whole_rest : Bytes → ℕ → Option (ℕ × ℕ)
whole_rest text offset = some (offset, length text)

abbrev greeting : Bytes
greeting = codes "hi<s>oh"

greeting-AreBytes : AreBytes greeting
greeting-AreBytes = (
  omega arith,
  (omega arith, (omega arith, (omega arith, (omega arith, (omega arith, (omega arith, tt)))))),
)

not_hi : (u : Bytes) → one_char u ≡ true → vec_eq (codes "hi") u ≡ false
unfolding vec_eq
not_hi [] o = refl
not_hi (x ∷ []) o = ground arith
not_hi (x ∷ y ∷ []) o = ground arith
not_hi (x ∷ y ∷ z ∷ s) o = cc

not_byte : (n b : ℕ) → b < 256 → 256 ≤ n → (n == b) ≡ false
not_byte n b l h = ground arith

tiny-bytes :
    (b : ℕ) (u : Bytes)
    → b < 256
    → find build_byte_encoder b ≡ some u
    → Known tiny.token_to_id tiny.id_to_token u
unfolding find
tiny-bytes b u l e =
    let (u', there, one, back) = byte_encoder_lem b l in
    let same : u' ≡ u = cc (there, e) in
    let apart = not_hi u (subst (λ x. one_char x ≡ true) same one) in
    record {
      id = b;
      has_id =
          rw apart (subst (λ x. find (build_byte_decoder build_byte_encoder) x ≡ some b) same back);
      has_token = rw (not_byte 257 b l (omega arith), not_byte 256 b l (omega arith)) e;
    }

joined : (x y : Bytes) → codes "h i" ≡ pair_key x y → x ++ y ≡ codes "hi"
joined [] y h = cc
joined (a ∷ []) y h = cc
joined (a ∷ b ∷ []) y h = cc
joined (a ∷ b ∷ c ∷ []) y h = cc
joined (a ∷ b ∷ c ∷ d ∷ x) y h = cc

find-h_i :
    (x y : Bytes) → vec_eq (codes "h i") (pair_key x y) ≡ false → find h_i (pair_key x y) ≡ none
unfolding find
find-h_i x y h = rw h refl

never :
    (x y : Bytes) (r : ℕ)
    → find h_i (pair_key x y) ≡ some r
    → vec_eq (codes "h i") (pair_key x y) ≡ false
    → ⊥
unfolding find
never x y r e other = ground (arith, find-h_i x y other, e)

tiny-hi : Known tiny.token_to_id tiny.id_to_token (codes "hi")
unfolding find vec_eq
tiny-hi = record { id = 256; has_id = refl; has_token = refl }

tiny-merges :
    (x y : Bytes) (r : ℕ)
    → find h_i (pair_key x y) ≡ some r
    → Known tiny.token_to_id tiny.id_to_token (x ++ y)
tiny-merges x y r e = elim (Bool-cases (vec_eq (codes "h i") (pair_key x y))) [
  | inl pair ↦
      subst (λ s. Known tiny.token_to_id tiny.id_to_token s)
        (sym (joined x y (vec_eq→eq (codes "h i") (pair_key x y) pair))) tiny-hi
  | inr other ↦ absurd (never x y r e other)
]

tiny-Special : Special tiny (codes "<s>")
unfolding find vec_eq build_byte_encoder bytes_to_unicode_str
tiny-Special = record { known = record { id = 257; has_id = refl; has_token = refl }; plain = refl }

tiny-Complete : Complete tiny
tiny-Complete = record {
  byte_level = refl;
  encoder = refl;
  decoder = refl;
  bytes_known = tiny-bytes;
  merges_known = tiny-merges;
  specials = ((tiny-Special, omega arith), tt);
}

all_plain : (segments : List Segment) → AllPlain (λ s. Unit) segments
all_plain [] = tt
all_plain (g ∷ gs) = ((λ h. tt), all_plain gs)

decode-encode_example :
    (ids : List ℕ) × (encode whole_rest tiny greeting ≡ some ids) × (decode tiny ids ≡ greeting)
decode-encode_example =
    decode-encode whole_rest (λ text offset. Unit)
      (λ text offset m h. (length text, refl, h, omega arith, tt)) tiny tiny-Complete greeting
      greeting-AreBytes (λ segments run. all_plain segments)

bpe-Reduces_example :
    Reduces h_i (characters (codes "hih")) (bpe h_i (codes "hih"))
    × Normal h_i (bpe h_i (codes "hih"))
    × (flatten (bpe h_i (codes "hih")) ≡ codes "hih")
bpe-Reduces_example = bpe-Reduces h_i (codes "hih")

unicode_str_to_bytes-bytes_to_unicode_str_example :
    unicode_str_to_bytes
      (build_byte_decoder build_byte_encoder)
      (bytes_to_unicode_str build_byte_encoder (0 ∷ 32 ∷ 200 ∷ 255 ∷ []))
    ≡ 0 ∷ 32 ∷ 200 ∷ 255 ∷ []
unicode_str_to_bytes-bytes_to_unicode_str_example =
    unicode_str_to_bytes-bytes_to_unicode_str (0 ∷ 32 ∷ 200 ∷ 255 ∷ [])
      (omega arith, (omega arith, (omega arith, (omega arith, tt))))

segments_loop_lem_example :
    (out : List Segment) × (segments_loop tiny.special_tokens 7 greeting [] ≡ some out)
    × AllGood (λ tok. tok ≡ codes "<s>") out
    × (texts out ≡ [] ++ greeting)
segments_loop_lem_example =
    segments_loop_lem (λ tok. tok ≡ codes "<s>") tiny.special_tokens ((refl, omega arith), tt) 7
      greeting [] (omega arith) tt
