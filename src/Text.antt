-- ===== src/Text.antt =====
-- src/utils/tokenizer.cpp: UTF-8 characters and the map between bytes and printable characters.
-- A string is the list of its bytes. `pos` stands at the head of the list, so that "past the end"
-- is the end of the list. `|` and `&` are the native bit operations.
pub mod Characters
pub mod Encoder
pub mod Printable
use Prim.Native.Nat.{bit_and, bit_or}
use nano_vllm_cpp.Base.{
  ℕ, zero, suc, ◌+◌, ◌-◌, ◌*◌, ◌/◌, ◌^◌, List, [], ◌∷◌, ◌++◌, Bool, true, false, Option, none, some,
  length, take, drop, ltb, leb, ◌==◌, if◌then◌else◌, get_or,
}
use nano_vllm_cpp.Base.Maps.{ℕ_key, bytes_key, find, assign}

abbrev pub Bytes : Type 0
Bytes = List ℕ

-- `byte & 0x3F` shifted to its place.
abbrev low_six : ℕ → ℕ
low_six b = bit_and b 0x3F

-- `decode_utf8_codepoint` at the head of a string that is not empty: the code point and the number
-- of bytes.
unfoldable pub decode_utf8_codepoint : Bytes → ℕ × ℕ
decode_utf8_codepoint s =
    let byte = get_or s 0 0 in
    if ltb byte 0x80
    then (byte, 1)
    else if bit_and byte 0xE0 == 0xC0
    then (if leb (length s) 1
        then (0xFFFD, 1)
        else (bit_or (bit_and byte 0x1F * 2 ^ 6) (low_six (get_or s 1 0)), 2))
    else if bit_and byte 0xF0 == 0xE0
    then (if leb (length s) 2 then (0xFFFD, 1) else (
      bit_or (bit_or (bit_and byte 0x0F * 2 ^ 12) (low_six (get_or s 1 0) * 2 ^ 6))
          (low_six (get_or s 2 0)),
      3,
    ))
    else if bit_and byte 0xF8 == 0xF0
    then (if leb (length s) 3 then (0xFFFD, 1) else (
      bit_or
          (bit_or (bit_or (bit_and byte 0x07 * 2 ^ 18) (low_six (get_or s 1 0) * 2 ^ 12))
            (low_six (get_or s 2 0) * 2 ^ 6))
          (low_six (get_or s 3 0)),
      4,
    ))
    else (0xFFFD, 1)

-- The length of the first character, and the loops that cut a string into characters: the fuel is
-- the length of the string.
abbrev pub char_length : Bytes → ℕ
char_length s = (decode_utf8_codepoint s).1

unfoldable pub characters_from : ℕ → Bytes → List Bytes
characters_from zero s = []
characters_from (suc fuel) [] = []
characters_from (suc fuel) (b ∷ s) =
    take (char_length (b ∷ s)) (b ∷ s) ∷ characters_from fuel (drop (char_length (b ∷ s)) (b ∷ s))

unfoldable pub characters : Bytes → List Bytes
unfolding characters_from
characters s = characters_from (length s) s

-- A code point as UTF-8 in `build_byte_encoder`, for the sizes that occur there.
unfoldable pub utf8_small : ℕ → Bytes
utf8_small cp =
    if ltb cp 0x80
    then cp ∷ []
    else if ltb cp 0x800
    then bit_or 0xC0 (cp / 2 ^ 6) ∷ bit_or 0x80 (bit_and cp 0x3F) ∷ []
    else []

unfoldable pub utf8_offset : ℕ → Bytes
utf8_offset cp =
    if ltb cp 0x800
    then bit_or 0xC0 (cp / 2 ^ 6) ∷ bit_or 0x80 (bit_and cp 0x3F) ∷ []
    else if ltb cp 0x10000
    then bit_or 0xE0 (cp / 2 ^ 12)
      ∷ bit_or 0x80 (bit_and (cp / 2 ^ 6) 0x3F)
      ∷ bit_or 0x80 (bit_and cp 0x3F)
      ∷ []
    else []

-- `add_range(lo, hi)`, for `n` bytes from `lo` on.
unfoldable pub add_range : ℕ → ℕ → List (ℕ × Bytes) → List (ℕ × Bytes)
unfolding utf8_small assign
add_range zero lo enc = enc
add_range (suc n) lo enc = add_range n (lo + 1) (assign enc lo (utf8_small lo))

-- The second loop, for `n` bytes from `b` on; `k` counts the bytes that it has added.
unfoldable pub add_rest : ℕ → ℕ → ℕ → List (ℕ × Bytes) → List (ℕ × Bytes)
unfolding utf8_offset assign find
add_rest zero b k enc = enc
add_rest (suc n) b k enc = elim (find enc b) [
  | none ↦ add_rest n (b + 1) (k + 1) (assign enc b (utf8_offset (256 + k)))
  | some s ↦ add_rest n (b + 1) k enc
]

unfoldable pub build_byte_encoder : List (ℕ × Bytes)
unfolding add_range add_rest
build_byte_encoder = add_rest 256 0 0 (
    add_range (0xFF - 0xAE + 1) 0xAE
      (add_range (0xAC - 0xA1 + 1) 0xA1 (add_range (0x7E - 0x21 + 1) 0x21 [])))

-- `dec[s] = b` for each entry of the encoder.
unfoldable pub build_byte_decoder : List (ℕ × Bytes) → List (Bytes × ℕ)
unfolding assign
build_byte_decoder [] = []
build_byte_decoder ((b, s) ∷ enc) = assign (build_byte_decoder enc) s b

-- `bytes_to_unicode_str`.
unfoldable pub bytes_to_unicode_str : List (ℕ × Bytes) → Bytes → Bytes
unfolding find
bytes_to_unicode_str enc [] = []
bytes_to_unicode_str enc (b ∷ s) =
    let rest = bytes_to_unicode_str enc s in elim (find enc b) [ none ↦ rest | some u ↦ u ++ rest ]

-- `unicode_str_to_bytes`: character by character.
unfoldable pub char_to_bytes : List (Bytes × ℕ) → Bytes → Bytes
unfolding find
char_to_bytes dec c = elim (find dec c) [ none ↦ c | some b ↦ b ∷ [] ]

unfoldable pub chars_to_bytes : List (Bytes × ℕ) → List Bytes → Bytes
chars_to_bytes dec [] = []
chars_to_bytes dec (c ∷ cs) = char_to_bytes dec c ++ chars_to_bytes dec cs

unfoldable pub unicode_str_to_bytes : List (Bytes × ℕ) → Bytes → Bytes
unicode_str_to_bytes dec s = chars_to_bytes dec (characters s)
