-- ===== src/Runner/Samples.antt =====
-- src/engine/model_runner.cpp, `prepare_sample`: the sampling parameters of the sequences, and the
-- padded matrix of their tokens for the repetition penalty. A `float` is its bit pattern.
use nano_vllm_cpp.Base.{
  ℕ, zero, suc, ◌*◌, ◌≤◌, ◌≡◌, refl, sym, subst, ◌∙◌, ap, List, [], ◌∷◌, ◌++◌, Bool, true, false,
  not, ◌&&◌, ◌||◌, Option, none, some, arith, length, get_elem?, take, drop, ltb, ◌==◌,
  if◌then◌else◌, min, max, drop-append,
}
use native.Mathlib.Nat.{suc-mul}
use nano_vllm_cpp.Sequence.{Sequence, minus_one}

-- `1.0f`.
abbrev pub float_one : ℕ
float_one = 0x3F800000

pub record Penalty : Type 0 where
  pub token_ids : List ℕ
  pub token_counts : List ℕ
  pub penalties : List ℕ

pub record SampleInputs : Type 0 where
  pub temperatures : List ℕ
  pub top_ks : List ℕ
  pub top_ps : List ℕ
  pub penalty : Option Penalty

-- `repetition_penalty != 1.0f`.
unfoldable pub has_penalty : Sequence → Bool
has_penalty q = not (q.repetition_penalty == float_one)

unfoldable pub any_penalty : List Sequence → Bool
any_penalty [] = false
any_penalty (q ∷ qs) = has_penalty q || any_penalty qs

unfoldable pub longest_penalized : List Sequence → ℕ
longest_penalized [] = 0
longest_penalized (q ∷ qs) =
    let rest = longest_penalized qs in if has_penalty q then max (length q.token_ids) rest else rest

-- A row of `width` numbers: the tokens, as many as fit, and -1.
unfoldable pub penalty_row : ℕ → List ℕ → List ℕ
penalty_row zero tids = []
penalty_row (suc width) [] = minus_one ∷ penalty_row width []
penalty_row (suc width) (t ∷ tids) = t ∷ penalty_row width tids

unfoldable pub penalty_rows : ℕ → List Sequence → List ℕ
penalty_rows width [] = []
penalty_rows width (q ∷ qs) = penalty_row width q.token_ids ++ penalty_rows width qs

unfoldable pub penalty_counts : ℕ → List Sequence → List ℕ
penalty_counts width [] = []
penalty_counts width (q ∷ qs) = min (length q.token_ids) width ∷ penalty_counts width qs

unfoldable pub temperatures_of : List Sequence → List ℕ
temperatures_of [] = []
temperatures_of (q ∷ qs) = q.temperature ∷ temperatures_of qs

unfoldable pub top_ks_of : List Sequence → List ℕ
top_ks_of [] = []
top_ks_of (q ∷ qs) = q.top_k ∷ top_ks_of qs

unfoldable pub top_ps_of : List Sequence → List ℕ
top_ps_of [] = []
top_ps_of (q ∷ qs) = q.top_p ∷ top_ps_of qs

unfoldable pub penalties_of : List Sequence → List ℕ
penalties_of [] = []
penalties_of (q ∷ qs) = q.repetition_penalty ∷ penalties_of qs

unfoldable pub prepare_sample : List Sequence → SampleInputs
prepare_sample qs =
    let width = longest_penalized qs in
    record {
      temperatures = temperatures_of qs;
      top_ks = top_ks_of qs;
      top_ps = top_ps_of qs;
      penalty =
          if any_penalty qs && ltb 0 width
          then some (record {
            token_ids = penalty_rows width qs;
            token_counts = penalty_counts width qs;
            penalties = penalties_of qs;
          })
          else none;
    }

length-penalty_row : (width : ℕ) (tids : List ℕ) → length (penalty_row width tids) ≡ width
unfolding penalty_row
length-penalty_row zero tids = refl
length-penalty_row (suc width) [] = ap suc (length-penalty_row width [])
length-penalty_row (suc width) (t ∷ tids) = ap suc (length-penalty_row width tids)

take-penalty_row :
    (width : ℕ) (tids rest : List ℕ) (n : ℕ)
    → n ≡ min (length tids) width
    → take n (penalty_row width tids ++ rest) ≡ take width tids
unfolding penalty_row
take-penalty_row zero tids rest zero e = refl
take-penalty_row zero tids rest (suc n) e = absurd (omega arith)
take-penalty_row (suc width) [] rest zero e = refl
take-penalty_row (suc width) [] rest (suc n) e = absurd (omega arith)
take-penalty_row (suc width) (t ∷ tids) rest zero e = absurd (omega arith)
take-penalty_row (suc width) (t ∷ tids) rest (suc n) e =
    ap (λ xs. t ∷ xs) (take-penalty_row width tids rest n (omega arith))

take-all : (n : ℕ) (xs : List ℕ) → length xs ≤ n → take n xs ≡ xs
take-all zero [] h = refl
take-all zero (x ∷ xs) h = absurd (omega arith)
take-all (suc n) [] h = refl
take-all (suc n) (x ∷ xs) h = ap (λ ys. x ∷ ys) (take-all n xs (omega arith))

longest_lem :
    (qs : List Sequence) (i : ℕ) (q : Sequence)
    → get_elem? qs i ≡ some q
    → has_penalty q ≡ true
    → (any_penalty qs ≡ true) × (length q.token_ids ≤ longest_penalized qs)
unfolding any_penalty longest_penalized
longest_lem [] i q at h = cc
longest_lem (x ∷ qs) zero q at h = ground arith
longest_lem (x ∷ qs) (suc i) q at h = ground (arith, longest_lem qs i q at h)

-- Row `i` of the matrix holds the tokens of the sequence, and the other arrays its numbers.
abbrev pub RowOf : ℕ → Penalty → ℕ → Sequence → Type 0
RowOf width m i q =
    (take (min (length q.token_ids) width) (drop (i * width) m.token_ids) ≡ take width q.token_ids)
    × (get_elem? m.token_counts i ≡ some (min (length q.token_ids) width))
    × (get_elem? m.penalties i ≡ some q.repetition_penalty)

abbrev matrix : ℕ → List Sequence → Penalty
matrix width qs = record {
  token_ids = penalty_rows width qs;
  token_counts = penalty_counts width qs;
  penalties = penalties_of qs;
}

row_lem :
    (width : ℕ) (qs : List Sequence) (i : ℕ) (q : Sequence)
    → get_elem? qs i ≡ some q
    → RowOf width (matrix width qs) i q
unfolding penalty_rows penalty_counts penalties_of
row_lem width [] i q at = cc
row_lem width (x ∷ qs) zero q at =
    let same : x ≡ q = ground arith in
    let row = penalty_row width x.token_ids ++ penalty_rows width qs in
    let n = min (length x.token_ids) width in
    let start : 0 * width ≡ 0 = omega arith in
    subst (λ y. RowOf width (matrix width (x ∷ qs)) 0 y) same
      (
        ap (λ m. take n (drop m row)) start
            ∙ take-penalty_row width x.token_ids (penalty_rows width qs) n refl,
        refl,
        refl,
      )
row_lem width (x ∷ qs) (suc i) q at =
    let (a, b, c) = row_lem width qs i q at in
    (
      ap (λ xs. take (min (length q.token_ids) width) xs)
            (drop-append (penalty_row width x.token_ids) (penalty_rows width qs) (suc i * width)
              (i * width) (omega (arith, suc-mul i width, length-penalty_row width x.token_ids)))
          ∙ a,
      b,
      c,
    )

-- For any sequences, where the i-th has a repetition penalty other than 1 and at least one token,
-- the inputs have a penalty matrix, and its i-th row holds all tokens of that sequence in order, with
-- every repetition, although the comments there ask for each token once; its count is their number,
-- and its penalty is that of the sequence.
pub prepare_sample-penalized :
    (qs : List Sequence) (i : ℕ) (q : Sequence)
    → get_elem? qs i ≡ some q
    → has_penalty q ≡ true
    → 1 ≤ length q.token_ids
    → (m : Penalty) × ((prepare_sample qs).penalty ≡ some m)
      × (take (length q.token_ids) (drop (i * longest_penalized qs) m.token_ids) ≡ q.token_ids)
      × (get_elem? m.token_counts i ≡ some (length q.token_ids))
      × (get_elem? m.penalties i ≡ some q.repetition_penalty)
unfolding prepare_sample
prepare_sample-penalized qs i q at h some_tokens =
    let (any, fits) = longest_lem qs i q at h in
    let width = longest_penalized qs in
    let (a, b, c) = row_lem width qs i q at in
    let whole : min (length q.token_ids) width ≡ length q.token_ids = ground (arith, fits) in
    (
      matrix width qs,
      ground (arith, any, fits),
      ap (λ n. take n (drop (i * width) (penalty_rows width qs))) (sym whole)
          ∙ a
          ∙ take-all width q.token_ids fits,
      b ∙ ap some whole,
      c,
    )
