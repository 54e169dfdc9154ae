-- ===== src/Tokenizer/Words.antt =====
-- The pre-tokenizer cuts a text into words.
use mathlib.Core.List.{flatten}
use nano_vllm_cpp.Base.{
  ℕ, zero, suc, ◌+◌, ◌-◌, ◌≤◌, ◌<◌, ◌≡◌, refl, sym, ap, ◌∙◌, [], ◌∷◌, ◌++◌, Option, some,
  Bool-cases, inl, inr, ltb, arith, length, take, drop, take-append-drop,
}
use nano_vllm_cpp.Base.Maps.{ℕ_key, bytes_key}
use nano_vllm_cpp.Text.{Bytes}
use nano_vllm_cpp.Tokenizer.{pre_tokenize_from, pre_tokenize}

drop_past : (n : ℕ) (s : Bytes) → length s ≤ n → drop n s ≡ []
drop_past zero [] h = refl
drop_past zero (b ∷ s) h = absurd (omega arith)
drop_past (suc n) [] h = refl
drop_past (suc n) (b ∷ s) h = drop_past n s (omega arith)

take_more : (m : ℕ) (s r : Bytes) → take m s ++ drop m s ≡ r → take (m - 0) s ++ drop m s ≡ r
take_more m s r h = ap (λ n. take n s ++ drop m s) (omega arith) ∙ h

abbrev nothing : Bytes
nothing = []

take-none : (k : ℕ) → take k nothing ++ nothing ≡ nothing
take-none zero = refl
take-none (suc k) = refl

take-drop : (n m : ℕ) (s : Bytes) → n ≤ m → take (m - n) (drop n s) ++ drop m s ≡ drop n s
take-drop zero m s h = take_more m s s (take-append-drop m s)
take-drop (suc n) zero s h = absurd (omega arith)
take-drop (suc n) (suc m) [] h = take-none (suc m - suc n)
take-drop (suc n) (suc m) (b ∷ s) h =
    ap (λ k. take k (drop n s) ++ drop m s) (omega arith) ∙ take-drop n m s (omega arith)

-- `Matchable text offset` stands for an offset at a character of a valid UTF-8 text; there the
-- pattern matches at the offset itself, since its alternatives cover all characters.
module _ (match_at : Bytes → ℕ → Option (ℕ × ℕ)) (Matchable : Bytes → ℕ → Type 0)
    (covers : (text : Bytes) (offset : ℕ)
      → Matchable text offset
      → offset < length text
      → (end : ℕ) × (match_at text offset ≡ some (offset, end))
        × (offset < end)
        × (end ≤ length text)
        × Matchable text end) where
  pre_tokenize-match :
      (fuel : ℕ) (text : Bytes) (offset end : ℕ)
      → offset < length text
      → match_at text offset ≡ some (offset, end)
      → offset < end
      → pre_tokenize_from match_at (suc fuel) text offset
        ≡ take (end - offset) (drop offset text) ∷ pre_tokenize_from match_at fuel text end
  unfolding pre_tokenize_from
  pre_tokenize-match fuel text offset end within at long = ground arith

  pre_tokenize-end :
      (fuel : ℕ) (text : Bytes) (offset : ℕ)
      → length text ≤ offset
      → pre_tokenize_from match_at fuel text offset ≡ []
  unfolding pre_tokenize_from
  pre_tokenize-end zero text offset h = refl
  pre_tokenize-end (suc fuel) text offset h = ground arith

  finished :
      (fuel : ℕ) (text : Bytes) (offset : ℕ)
      → length text ≤ offset
      → flatten (pre_tokenize_from match_at fuel text offset) ≡ drop offset text
  unfolding flatten
  finished fuel text offset h =
      ap (λ ws. flatten ws) (pre_tokenize-end fuel text offset h) ∙ sym (drop_past offset text h)

  -- The words are the text, cut.
  pub flatten-pre_tokenize :
      (fuel : ℕ) (text : Bytes) (offset : ℕ)
      → Matchable text offset
      → length text ≤ fuel + offset
      → flatten (pre_tokenize_from match_at fuel text offset) ≡ drop offset text
  unfolding flatten
  flatten-pre_tokenize zero text offset m h = finished zero text offset (omega arith)
  flatten-pre_tokenize (suc fuel) text offset m h = elim (Bool-cases (ltb offset (length text))) [
    | inl more ↦
        let within : offset < length text = ground arith in
        let (end, at, long, short, next) = covers text offset m within in
        ap (λ ws. flatten ws) (pre_tokenize-match fuel text offset end within at long)
        ∙ ap (λ s. take (end - offset) (drop offset text) ++ s)
            (flatten-pre_tokenize fuel text end next (omega arith))
        ∙ take-drop offset end text (omega arith)
    | inr over ↦ finished (suc fuel) text offset (ground arith)
  ]

  pub pre_tokenize-whole :
      (text : Bytes)
      → flatten (pre_tokenize_from match_at (length text) text 0) ≡ drop 0 text
      → flatten (pre_tokenize match_at text) ≡ text
  unfolding pre_tokenize
  pre_tokenize-whole text h = h
