-- ===== src/Text/Characters.antt =====
-- How a string is cut into characters.
use mathlib.Core.List.{flatten}
use nano_vllm_cpp.Base.{
  ℕ, zero, suc, ◌≤◌, ◌≡◌, refl, ap, ◌∙◌, [], ◌∷◌, ◌++◌, length, take, drop, arith, take-append-drop,
  length-drop,
}
use nano_vllm_cpp.Text.{Bytes, decode_utf8_codepoint, char_length, characters_from, characters}

char_length-bounds : (s : Bytes) → 1 ≤ length s → (1 ≤ char_length s) × (char_length s ≤ length s)
unfolding decode_utf8_codepoint
char_length-bounds s h = ground arith

-- What is left behind the first character is shorter.
pub shorter : (b : ℕ) (s : Bytes) → length (drop (char_length (b ∷ s)) (b ∷ s)) ≤ length s
shorter b s =
    omega
      (arith, char_length-bounds (b ∷ s) (omega arith), length-drop (char_length (b ∷ s)) (b ∷ s))

characters_from-flatten :
    (fuel : ℕ) (s : Bytes) → length s ≤ fuel → flatten (characters_from fuel s) ≡ s
unfolding characters_from flatten
characters_from-flatten zero [] h = refl
characters_from-flatten zero (b ∷ s) h = absurd (omega arith)
characters_from-flatten (suc fuel) [] h = refl
characters_from-flatten (suc fuel) (b ∷ s) h =
    let n = char_length (b ∷ s) in
    ap (λ r. take n (b ∷ s) ++ r)
      (characters_from-flatten fuel (drop n (b ∷ s)) (omega (arith, shorter b s)))
    ∙ take-append-drop n (b ∷ s)

-- The characters of a string, one behind the other, are the string.
pub flatten-characters : (s : Bytes) → flatten (characters s) ≡ s
unfolding characters
flatten-characters s = characters_from-flatten (length s) s (omega arith)

characters_from-fuel :
    (m n : ℕ) (s : Bytes) → length s ≤ m → length s ≤ n → characters_from m s ≡ characters_from n s
unfolding characters_from
characters_from-fuel zero zero s h k = refl
characters_from-fuel zero (suc n) [] h k = refl
characters_from-fuel zero (suc n) (b ∷ s) h k = absurd (omega arith)
characters_from-fuel (suc m) zero [] h k = refl
characters_from-fuel (suc m) zero (b ∷ s) h k = absurd (omega arith)
characters_from-fuel (suc m) (suc n) [] h k = refl
characters_from-fuel (suc m) (suc n) (b ∷ s) h k =
    ap (λ r. take (char_length (b ∷ s)) (b ∷ s) ∷ r)
      (characters_from-fuel m n (drop (char_length (b ∷ s)) (b ∷ s)) (omega (arith, shorter b s))
        (omega (arith, shorter b s)))

pub characters-cons :
    (b : ℕ) (s : Bytes)
    → characters (b ∷ s)
      ≡ take (char_length (b ∷ s)) (b ∷ s) ∷ characters (drop (char_length (b ∷ s)) (b ∷ s))
unfolding characters characters_from
characters-cons b s =
    ap (λ r. take (char_length (b ∷ s)) (b ∷ s) ∷ r)
      (characters_from-fuel (length s) (length (drop (char_length (b ∷ s)) (b ∷ s)))
        (drop (char_length (b ∷ s)) (b ∷ s)) (shorter b s) (omega arith))
