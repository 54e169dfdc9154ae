-- ===== src/Tokenizer/Segments.antt =====
-- How `encode` splits a text around the special tokens.
use mathlib.Core.List.{append_assoc, append-nil}
use nano_vllm_cpp.Base.{
  ℕ, zero, suc, ◌≤◌, ◌≡◌, refl, sym, ap, ◌∙◌, subst, List, [], ◌∷◌, ◌++◌, true, false, not, ◌&&◌,
  none, some, Option-cases, Bool-cases, inl, inr, ◌==◌, ltb, arith, length, take, drop,
  take-append-drop, length-drop,
}
use nano_vllm_cpp.Text
use nano_vllm_cpp.Text.{Bytes}
use nano_vllm_cpp.Text.Characters.{shorter}
use nano_vllm_cpp.Tokenizer.{
  Segment, insert_special, sorted_specials, starts_with, special_at, push_special, push_char,
  segments_loop,
}

-- A property of the texts of all special tokens, and of the special ones among segments.
abbrev pub AllSpecial {κ} : (Bytes → Type κ) → List (Bytes × ℕ) → Type κ
AllSpecial P [] = Unit
AllSpecial P ((tok, id) ∷ ts) = P tok × AllSpecial P ts

abbrev pub GoodSegment {κ} : (Bytes → Type κ) → Segment → Type κ
GoodSegment P g = g.is_special ≡ true → P g.text

abbrev pub AllGood {κ} : (Bytes → Type κ) → List Segment → Type κ
AllGood P [] = Unit
AllGood P (g ∷ gs) = GoodSegment P g × AllGood P gs

-- The texts of the segments, where the back comes first.
abbrev pub texts : List Segment → Bytes
texts [] = []
texts (g ∷ gs) = texts gs ++ g.text

pub starts_with-append : (tok s : Bytes) → starts_with tok s ≡ true → tok ++ drop (length tok) s ≡ s
unfolding starts_with
starts_with-append [] s h = refl
starts_with-append (x ∷ xs) [] h = cc
starts_with-append (x ∷ xs) (y ∷ ys) h =
    let first : x ≡ y = ground arith in
    let rest = starts_with-append xs ys (ground arith) in cc (first, rest)

no_bytes : (s : Bytes) → length s ≡ 0 → s ≡ []
no_bytes [] h = refl
no_bytes (b ∷ s) h = absurd (omega arith)

abbrev special_segment : Bytes → Segment
special_segment tok = record { text = tok; is_special = true }

push_special-empty :
    (tok : Bytes) (g : Segment) (gs : List Segment)
    → (not g.is_special && length g.text == 0) ≡ true
    → push_special tok (g ∷ gs) ≡ special_segment tok ∷ gs
unfolding push_special
push_special-empty tok g gs h = ground arith

push_special-kept :
    (tok : Bytes) (g : Segment) (gs : List Segment)
    → (not g.is_special && length g.text == 0) ≡ false
    → push_special tok (g ∷ gs) ≡ special_segment tok ∷ g ∷ gs
unfolding push_special
push_special-kept tok g gs h = ground arith

segments_loop-special :
    (specials : List (Bytes × ℕ)) (fuel b : ℕ) (s tok : Bytes) (gs : List Segment)
    → special_at specials (b ∷ s) ≡ some tok
    → segments_loop specials (suc fuel) (b ∷ s) gs
      ≡ segments_loop specials fuel (drop (length tok) (b ∷ s)) (push_special tok gs)
unfolding segments_loop
segments_loop-special specials fuel b s tok gs h = ground arith

segments_loop-char :
    (specials : List (Bytes × ℕ)) (fuel b : ℕ) (s : Bytes) (gs : List Segment)
    → special_at specials (b ∷ s) ≡ none
    → segments_loop specials (suc fuel) (b ∷ s) gs
      ≡ segments_loop specials fuel
          (drop (Text.char_length (b ∷ s)) (b ∷ s))
          (push_char (take (Text.char_length (b ∷ s)) (b ∷ s)) gs)
unfolding segments_loop
segments_loop-char specials fuel b s gs h = ground arith

regroup :
    (gs hs : List Segment) (c rest s : Bytes)
    → texts hs ≡ texts gs ++ c
    → c ++ rest ≡ s
    → texts hs ++ rest ≡ texts gs ++ s
regroup gs hs c rest s same e =
    ap (λ x. x ++ rest) same ∙ append_assoc (texts gs) c rest ∙ ap (λ x. texts gs ++ x) e

special_at-AllSpecial {κ} :
    (P : Bytes → Type κ) (ts : List (Bytes × ℕ)) (s tok : Bytes)
    → AllSpecial P ts
    → special_at ts s ≡ some tok
    → P tok × (starts_with tok s ≡ true)
unfolding special_at
special_at-AllSpecial P [] s tok v h = cc
special_at-AllSpecial P ((t, id) ∷ ts) s tok v h = elim (Bool-cases (starts_with t s)) [
  | inl here ↦
      let same : t ≡ tok = ground arith in
      (subst P same v.0, subst (λ x. starts_with x s ≡ true) same here)
  | inr other ↦ special_at-AllSpecial P ts s tok v.1 (ground arith)
]

module _ {κ} (P : Bytes → Type κ) where
  AllSpecial-insert_special :
      (t : Bytes × ℕ) (ts : List (Bytes × ℕ))
      → P t.0
      → AllSpecial P ts
      → AllSpecial P (insert_special t ts)
  unfolding insert_special
  AllSpecial-insert_special t [] p v = (p, tt)
  AllSpecial-insert_special t (u ∷ us) p v = elim (Bool-cases (ltb (length t.0) (length u.0))) [
    | inl longer ↦ rw longer (v.0, AllSpecial-insert_special t us p v.1)
    | inr here ↦ rw here (p, v)
  ]

  pub AllSpecial-sorted_specials :
      (ts : List (Bytes × ℕ)) → AllSpecial P ts → AllSpecial P (sorted_specials ts)
  unfolding sorted_specials
  AllSpecial-sorted_specials [] v = tt
  AllSpecial-sorted_specials (t ∷ ts) v =
      AllSpecial-insert_special t (sorted_specials ts) v.0 (AllSpecial-sorted_specials ts v.1)

  push_special-AllGood :
      (tok : Bytes) (gs : List Segment)
      → P tok
      → AllGood P gs
      → AllGood P (push_special tok gs) × (texts (push_special tok gs) ≡ texts gs ++ tok)
  push_special-AllGood tok [] p v = unfold push_special in (((λ h. p), tt), refl)
  push_special-AllGood tok (g ∷ gs) p v =
      elim (Bool-cases (not g.is_special && length g.text == 0)) [
        | inl empty ↦
            let none_yet : g.text ≡ [] = no_bytes g.text (ground arith) in
            rw (push_special-empty tok g gs empty) (
              ((λ h. p), v.1),
              ap (λ x. x ++ tok)
                  (sym (append-nil (texts gs)) ∙ ap (λ x. texts gs ++ x) (sym none_yet)),
            )
        | inr kept ↦ rw (push_special-kept tok g gs kept) (((λ h. p), v), refl)
      ]

  push_char-AllGood :
      (c : Bytes) (gs : List Segment)
      → AllGood P gs
      → AllGood P (push_char c gs) × (texts (push_char c gs) ≡ texts gs ++ c)
  unfolding push_char
  push_char-AllGood c [] v = ((λ h. cc, tt), refl)
  push_char-AllGood c (g ∷ gs) v = elim (Bool-cases (g.is_special)) [
    | inl special ↦ rw special (((λ h. cc), v), refl)
    | inr plain ↦ rw plain (((λ h. cc (h, plain)), v.1), sym (append_assoc (texts gs) g.text c))
  ]

  -- For special tokens of at least one byte that have the property `P`, the loop ends, its segments
  -- one behind the other are the text, and the special ones among them have `P`.
  pub segments_loop_lem :
      (specials : List (Bytes × ℕ))
      → AllSpecial (λ tok. P tok × (1 ≤ length tok)) specials
      → (fuel : ℕ) (s : Bytes) (gs : List Segment) → length s ≤ fuel
      → AllGood P gs
      → (out : List Segment) × (segments_loop specials fuel s gs ≡ some out)
        × AllGood P out
        × (texts out ≡ texts gs ++ s)
  segments_loop_lem specials all zero [] gs h v =
      (gs, unfold segments_loop in refl, v, sym (append-nil (texts gs)))
  segments_loop_lem specials all zero (b ∷ s) gs h v = absurd (omega arith)
  segments_loop_lem specials all (suc fuel) [] gs h v =
      (gs, unfold segments_loop in refl, v, sym (append-nil (texts gs)))
  segments_loop_lem specials all (suc fuel) (b ∷ s) gs h v =
      elim (Option-cases (special_at specials (b ∷ s))) [
        | inl ordinary ↦
            let n = Text.char_length (b ∷ s) in
            let (good, same) = push_char-AllGood (take n (b ∷ s)) gs v in
            let (out, run, w, e) =
              segments_loop_lem specials all fuel (drop n (b ∷ s)) (push_char (take n (b ∷ s)) gs)
                (omega (arith, shorter b s)) good in
            (
              out,
              segments_loop-char specials fuel b s gs ordinary ∙ run,
              w,
              e
                  ∙ regroup gs (push_char (take n (b ∷ s)) gs) (take n (b ∷ s)) (drop n (b ∷ s))
                      (b ∷ s) same (take-append-drop n (b ∷ s)),
            )
        | inr (tok, special) ↦
            let ((p, long), here) =
              special_at-AllSpecial (λ tok. P tok × (1 ≤ length tok)) specials (b ∷ s) tok all
                special in
            let (good, same) = push_special-AllGood tok gs p v in
            let (out, run, w, e) =
              segments_loop_lem specials all fuel (drop (length tok) (b ∷ s)) (push_special tok gs)
                (omega (arith, length-drop (length tok) (b ∷ s))) good in
            (
              out,
              segments_loop-special specials fuel b s tok gs special ∙ run,
              w,
              e
                  ∙ regroup gs (push_special tok gs) tok (drop (length tok) (b ∷ s)) (b ∷ s) same
                      (starts_with-append tok (b ∷ s) here),
            )
      ]
