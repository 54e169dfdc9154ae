-- ===== src/Tokenizer/Vocabulary.antt =====
-- The tokens of a byte-level vocabulary.
use mathlib.Core.List.{flatten, append_assoc}
use nano_vllm_cpp.Base.{
  ℕ, zero, suc, ◌<◌, ◌≡◌, refl, sym, ap, ◌∙◌, subst, List, [], ◌∷◌, ◌++◌, none, some, Option-cases,
  inl, inr, arith,
}
use nano_vllm_cpp.Base.Maps.{ℕ_key, bytes_key, find}
use nano_vllm_cpp.Text.{
  Bytes, characters, characters_from, build_byte_encoder, bytes_to_unicode_str,
}
use nano_vllm_cpp.Text.Encoder.{byte_encoder_lem}
use nano_vllm_cpp.Text.Printable.{AreBytes, one_char-cut, bytes_to_unicode_str-some}
use nano_vllm_cpp.Bpe.{bpe, merge_at, pair_key}
use nano_vllm_cpp.Bpe.Search.{rank_at}
use nano_vllm_cpp.Bpe.Reduction.{Reduces, bpe-Reduces}
use nano_vllm_cpp.Tokenizer.{ids_of, tokens_of}

-- A token with an id that leads back to it.
pub record Known (token_to_id : List (Bytes × ℕ)) (id_to_token : List (ℕ × Bytes)) (tok : Bytes)
    : Type 0 where
  pub id : ℕ
  pub has_id : find token_to_id tok ≡ some id
  pub has_token : find id_to_token id ≡ some tok

abbrev AllKnown : List (Bytes × ℕ) → List (ℕ × Bytes) → List Bytes → Type 0
AllKnown ids tokens [] = Unit
AllKnown ids tokens (t ∷ ts) = Known ids tokens t × AllKnown ids tokens ts

pub ids_of-cons :
    (ids : List (Bytes × ℕ)) (t : Bytes) (ts : List Bytes) (id : ℕ)
    → find ids t ≡ some id
    → ids_of ids (t ∷ ts) ≡ id ∷ ids_of ids ts
unfolding ids_of
ids_of-cons ids t ts id h = ground arith

pub tokens_of-cons :
    (tokens : List (ℕ × Bytes)) (id : ℕ) (ids : List ℕ) (t : Bytes)
    → find tokens id ≡ some t
    → tokens_of tokens (id ∷ ids) ≡ t ++ tokens_of tokens ids
unfolding tokens_of
tokens_of-cons tokens id ids t h = ground arith

tokens_of-none :
    (tokens : List (ℕ × Bytes)) (id : ℕ) (ids : List ℕ)
    → find tokens id ≡ none
    → tokens_of tokens (id ∷ ids) ≡ tokens_of tokens ids
unfolding tokens_of
tokens_of-none tokens id ids h = ground arith

pub tokens_of-append :
    (tokens : List (ℕ × Bytes)) (xs ys : List ℕ)
    → tokens_of tokens (xs ++ ys) ≡ tokens_of tokens xs ++ tokens_of tokens ys
tokens_of-append tokens [] ys = unfold tokens_of in refl
tokens_of-append tokens (x ∷ xs) ys = elim (Option-cases (find tokens x)) [
  | inl absent ↦
      rw (tokens_of-none tokens x (xs ++ ys) absent, tokens_of-none tokens x xs absent)
        (tokens_of-append tokens xs ys)
  | inr (t, there) ↦
      rw (tokens_of-cons tokens x (xs ++ ys) t there, tokens_of-cons tokens x xs t there)
        (ap (λ s. t ++ s) (tokens_of-append tokens xs ys)
          ∙ sym (append_assoc t (tokens_of tokens xs) (tokens_of tokens ys)))
]

tokens_of-ids_of :
    (ids : List (Bytes × ℕ)) (tokens : List (ℕ × Bytes)) (ts : List Bytes)
    → AllKnown ids tokens ts
    → tokens_of tokens (ids_of ids ts) ≡ flatten ts
unfolding flatten
tokens_of-ids_of ids tokens [] v = unfold ids_of tokens_of in refl
tokens_of-ids_of ids tokens (t ∷ ts) (k, v) =
    ap (λ x. tokens_of tokens x) (ids_of-cons ids t ts k.id k.has_id)
    ∙ tokens_of-cons tokens k.id (ids_of ids ts) t k.has_token
    ∙ ap (λ s. t ++ s) (tokens_of-ids_of ids tokens ts v)

-- The vocabulary of a byte-level tokenizer has the characters of all bytes and what the merges make.
module _ (ranks : List (Bytes × ℕ)) (ids : List (Bytes × ℕ)) (tokens : List (ℕ × Bytes))
    (bytes_known : (b : ℕ) (u : Bytes)
      → b < 256
      → find build_byte_encoder b ≡ some u
      → Known ids tokens u)
    (merges_known : (x y : Bytes) (r : ℕ)
      → find ranks (pair_key x y) ≡ some r
      → Known ids tokens (x ++ y)) where
  characters-AllKnown :
      (s : Bytes)
      → AreBytes s
      → AllKnown ids tokens (characters (bytes_to_unicode_str build_byte_encoder s))
  characters-AllKnown [] v = unfold bytes_to_unicode_str characters characters_from in tt
  characters-AllKnown (b ∷ s) (l, v) =
      let (u, e, o, d) = byte_encoder_lem b l in
      subst (λ cs. AllKnown ids tokens cs)
        (sym (
          ap (λ x. characters x) (bytes_to_unicode_str-some build_byte_encoder b s u e)
          ∙ one_char-cut u (bytes_to_unicode_str build_byte_encoder s) o))
        (bytes_known b u l e, characters-AllKnown s v)

  merge_at-AllKnown :
      (i r : ℕ) (symbols : List Bytes)
      → rank_at ranks symbols i ≡ some r
      → AllKnown ids tokens symbols
      → AllKnown ids tokens (merge_at i symbols)
  unfolding merge_at rank_at
  merge_at-AllKnown i r [] h v = tt
  merge_at-AllKnown i r (x ∷ []) h v = v
  merge_at-AllKnown zero r (x ∷ y ∷ symbols) h (k, (l, v)) = (merges_known x y r h, v)
  merge_at-AllKnown (suc i) r (x ∷ y ∷ symbols) h (k, v) =
      (k, merge_at-AllKnown i r (y ∷ symbols) h v)

  Reduces-AllKnown :
      {symbols result : List Bytes}
      → Reduces ranks symbols result
      → AllKnown ids tokens symbols
      → AllKnown ids tokens result
  Reduces-AllKnown Reduces.done v = v
  Reduces-AllKnown (Reduces.merged {symbols} {result} {i} {r} l red) v =
      Reduces-AllKnown red (merge_at-AllKnown i r symbols l.ranked v)

  -- The tokens of one word, one behind the other, are its printed form.
  pub tokens_of_word :
      (s : Bytes)
      → AreBytes s
      → tokens_of tokens (ids_of ids (bpe ranks (bytes_to_unicode_str build_byte_encoder s)))
        ≡ bytes_to_unicode_str build_byte_encoder s
  tokens_of_word s v =
      let u = bytes_to_unicode_str build_byte_encoder s in
      let (red, normal, whole) = bpe-Reduces ranks u in
      tokens_of-ids_of ids tokens (bpe ranks u) (Reduces-AllKnown red (characters-AllKnown s v))
      ∙ whole
