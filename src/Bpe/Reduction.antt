-- ===== src/Bpe/Reduction.antt =====
-- `bpe` carries out the reduction that byte-pair encoding is defined by.
use mathlib.Core.List.{flatten, append_assoc}
use nano_vllm_cpp.Base.{
  ℕ, zero, suc, ◌+◌, ◌-◌, ◌^◌, ◌≤◌, ◌≡◌, refl, sym, ap, ◌∙◌, subst, List, [], ◌∷◌, ◌++◌, true,
  false, none, some, inl, inr, Bool-cases, leb, leb→le, arith, length,
}
use nano_vllm_cpp.Base.Maps.{bytes_key}
use nano_vllm_cpp.Text.{Bytes, characters, characters_from}
use nano_vllm_cpp.Text.Characters.{flatten-characters}
use nano_vllm_cpp.Bpe.{best_from, no_best, merge_at, bpe_loop, bpe}
use nano_vllm_cpp.Bpe.Search.{rank_at, Leftmost, best_pair}

-- The reduction: merging the first pair of least rank, any number of times.
pub data Reduces (ranks : List (Bytes × ℕ)) : List Bytes → List Bytes → Type 0 where
  done : {symbols : List Bytes} → Reduces ranks symbols symbols
  merged :
      {symbols result : List Bytes} {i r : ℕ}
      → Leftmost ranks symbols i r
      → Reduces ranks (merge_at i symbols) result
      → Reduces ranks symbols result

-- No pair has a rank below the largest `int`.
abbrev pub Normal : List (Bytes × ℕ) → List Bytes → Type 0
Normal ranks symbols = (k s : ℕ) → rank_at ranks symbols k ≡ some s → 2 ^ 31 - 1 ≤ s

flatten-merge_at : (i : ℕ) (symbols : List Bytes) → flatten (merge_at i symbols) ≡ flatten symbols
unfolding merge_at flatten
flatten-merge_at i [] = refl
flatten-merge_at i (x ∷ []) = refl
flatten-merge_at zero (x ∷ y ∷ symbols) = append_assoc x y (flatten symbols)
flatten-merge_at (suc i) (x ∷ y ∷ symbols) = ap (λ t. x ++ t) (flatten-merge_at i (y ∷ symbols))

pub flatten-Reduces :
    {ranks : List (Bytes × ℕ)} {symbols result : List Bytes}
    → Reduces ranks symbols result
    → flatten result ≡ flatten symbols
flatten-Reduces done = refl
flatten-Reduces (merged {symbols} {result} {i} l r) = flatten-Reduces r ∙ flatten-merge_at i symbols

length-merge_at :
    (ranks : List (Bytes × ℕ)) (i r : ℕ) (symbols : List Bytes)
    → rank_at ranks symbols i ≡ some r
    → length (merge_at i symbols) + 1 ≡ length symbols
unfolding rank_at merge_at
length-merge_at ranks i r [] h = cc
length-merge_at ranks i r (x ∷ []) h = cc
length-merge_at ranks zero r (x ∷ y ∷ symbols) h = omega arith
length-merge_at ranks (suc i) r (x ∷ y ∷ symbols) h =
    omega (arith, length-merge_at ranks i r (y ∷ symbols) h)

short-Normal :
    (ranks : List (Bytes × ℕ)) (symbols : List Bytes) → length symbols ≤ 1 → Normal ranks symbols
unfolding rank_at
short-Normal ranks [] h k s e = cc
short-Normal ranks (x ∷ []) h k s e = cc
short-Normal ranks (x ∷ y ∷ symbols) h k s e = absurd (omega arith)

-- What the loop gives: a normal form of the reduction.
abbrev Finished : List (Bytes × ℕ) → List Bytes → List Bytes → Type 0
Finished ranks symbols result = Reduces ranks symbols result × Normal ranks result

module _ (ranks : List (Bytes × ℕ)) (fuel : ℕ) (symbols : List Bytes) where
  bpe_loop-stops :
      (best_from ranks 0 no_best symbols).idx ≡ none → bpe_loop ranks (suc fuel) symbols ≡ symbols
  unfolding bpe_loop
  bpe_loop-stops e = ground arith

  bpe_loop-last :
      (i : ℕ)
      → (best_from ranks 0 no_best symbols).idx ≡ some i
      → leb (length (merge_at i symbols)) 1 ≡ true
      → bpe_loop ranks (suc fuel) symbols ≡ merge_at i symbols
  unfolding bpe_loop
  bpe_loop-last i e h = ground arith

  bpe_loop-again :
      (i : ℕ)
      → (best_from ranks 0 no_best symbols).idx ≡ some i
      → leb (length (merge_at i symbols)) 1 ≡ false
      → bpe_loop ranks (suc fuel) symbols ≡ bpe_loop ranks fuel (merge_at i symbols)
  unfolding bpe_loop
  bpe_loop-again i e h = ground arith

bpe_loop-Finished :
    (ranks : List (Bytes × ℕ)) (fuel : ℕ) (symbols : List Bytes)
    → length symbols ≤ fuel
    → Finished ranks symbols (bpe_loop ranks fuel symbols)
bpe_loop-Finished ranks zero symbols h =
    unfold bpe_loop in (Reduces.done, short-Normal ranks symbols (omega arith))
bpe_loop-Finished ranks (suc fuel) symbols h = elim (best_pair ranks symbols) [
  | inl (e, all) ↦
      subst (Finished ranks symbols) (sym (bpe_loop-stops ranks fuel symbols e)) (Reduces.done, all)
  | inr (i, r, e, l) ↦
      let shorter = length-merge_at ranks i r symbols l.ranked in
      elim (Bool-cases (leb (length (merge_at i symbols)) 1)) [
        | inl last ↦
            subst (Finished ranks symbols) (sym (bpe_loop-last ranks fuel symbols i e last)) (
              Reduces.merged l Reduces.done,
              short-Normal ranks (merge_at i symbols) (leb→le (length (merge_at i symbols)) 1 last),
            )
        | inr more ↦
            let (r, n) =
              bpe_loop-Finished ranks fuel (merge_at i symbols) (omega (arith, shorter)) in
            subst (Finished ranks symbols) (sym (bpe_loop-again ranks fuel symbols i e more))
              (Reduces.merged l r, n)
      ]
]

bpe_short :
    (ranks : List (Bytes × ℕ)) (b : ℕ) (word : Bytes)
    → leb (length (characters (b ∷ word))) 1 ≡ true
    → bpe ranks (b ∷ word) ≡ characters (b ∷ word)
unfolding bpe
bpe_short ranks b word h = rw h refl

bpe_long :
    (ranks : List (Bytes × ℕ)) (b : ℕ) (word : Bytes)
    → leb (length (characters (b ∷ word))) 1 ≡ false
    → bpe ranks (b ∷ word) ≡ bpe_loop ranks (length (characters (b ∷ word))) (characters (b ∷ word))
unfolding bpe
bpe_long ranks b word h = rw h refl

bpe-Finished :
    (ranks : List (Bytes × ℕ)) (word : Bytes) → Finished ranks (characters word) (bpe ranks word)
bpe-Finished ranks [] = unfold bpe characters characters_from rank_at in (Reduces.done, λ k s h. cc)
bpe-Finished ranks (b ∷ word) =
    let symbols = characters (b ∷ word) in
    elim (Bool-cases (leb (length symbols) 1)) [
      | inl short ↦
          subst (Finished ranks symbols) (sym (bpe_short ranks b word short))
            (Reduces.done, short-Normal ranks symbols (leb→le (length symbols) 1 short))
      | inr long ↦
          subst (Finished ranks symbols) (sym (bpe_long ranks b word long))
            (bpe_loop-Finished ranks (length symbols) symbols (omega arith))
    ]

-- For any ranks and any word, `bpe` gives a normal form of the reduction of the word's characters:
-- the first pair of least rank is merged again and again, until no pair has a rank below the
-- largest `int`. The symbols of the result, one behind the other, are the word.
pub bpe-Reduces :
    (ranks : List (Bytes × ℕ)) (word : Bytes)
    → Reduces ranks (characters word) (bpe ranks word)
      × Normal ranks (bpe ranks word)
      × (flatten (bpe ranks word) ≡ word)
bpe-Reduces ranks word =
    let (r, n) = bpe-Finished ranks word in (r, n, flatten-Reduces r ∙ flatten-characters word)
