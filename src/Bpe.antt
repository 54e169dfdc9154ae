-- ===== src/Bpe.antt =====
-- src/utils/tokenizer.cpp, `Tokenizer::bpe`: byte-pair encoding of one word.
-- `merge_ranks_` is a map from "a b" to a rank, an `int` that is not negative; a pair whose rank is
-- the largest `int` is never chosen, as in the code.
pub mod Search
pub mod Reduction
use nano_vllm_cpp.Base.{
  ℕ, zero, suc, ◌+◌, ◌-◌, ◌^◌, List, [], ◌∷◌, ◌++◌, Bool, true, false, Option, none, some, length,
  ltb, leb, if◌then◌else◌,
}
use nano_vllm_cpp.Base.Maps.{bytes_key, find}
use nano_vllm_cpp.Text.{Bytes, characters}

-- The key of a pair: the two symbols with a space between them.
abbrev pub pair_key : Bytes → Bytes → Bytes
pair_key x y = x ++ b' ' ∷ y

-- `best_rank` and `best_idx`, where `none` is -1.
pub record Best : Type 0 where
  pub rank : ℕ
  pub idx : Option ℕ

abbrev pub no_best : Best
no_best = record { rank = 2 ^ 31 - 1; idx = none }

-- One round of the search, for the pair at `i`.
unfoldable pub better : List (Bytes × ℕ) → ℕ → Best → Bytes → Bytes → Best
better ranks i best x y = elim (find ranks (pair_key x y)) [
  | none ↦ best
  | some r ↦ if ltb r best.rank then record { rank = r; idx = some i } else best
]

-- The search from the pair at `i` on.
unfoldable pub best_from : List (Bytes × ℕ) → ℕ → Best → List Bytes → Best
best_from ranks i best [] = best
best_from ranks i best (x ∷ []) = best
best_from ranks i best (x ∷ y ∷ symbols) =
    best_from ranks (i + 1) (better ranks i best x y) (y ∷ symbols)

-- The symbols at `best_idx` and behind it become one.
unfoldable pub merge_at : ℕ → List Bytes → List Bytes
merge_at i [] = []
merge_at i (x ∷ []) = x ∷ []
merge_at zero (x ∷ y ∷ symbols) = (x ++ y) ∷ symbols
merge_at (suc i) (x ∷ y ∷ symbols) = x ∷ merge_at i (y ∷ symbols)

-- The loop. Each round takes one symbol away, so the number of symbols is fuel enough.
unfoldable pub bpe_loop : List (Bytes × ℕ) → ℕ → List Bytes → List Bytes
bpe_loop ranks zero symbols = symbols
bpe_loop ranks (suc fuel) symbols = elim ((best_from ranks 0 no_best symbols).idx) [
  | none ↦ symbols
  | some i ↦ elim (leb (length (merge_at i symbols)) 1) [
    | true ↦ merge_at i symbols
    | false ↦ bpe_loop ranks fuel (merge_at i symbols)
  ]
]

unfoldable pub bpe : List (Bytes × ℕ) → Bytes → List Bytes
bpe ranks [] = []
bpe ranks (b ∷ word) =
    let symbols = characters (b ∷ word) in
    if leb (length symbols) 1 then symbols else bpe_loop ranks (length symbols) symbols
