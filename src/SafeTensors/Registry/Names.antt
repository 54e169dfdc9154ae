-- ===== src/SafeTensors/Registry/Names.antt =====
-- Which mapping `resolve_packed_parameter_name` applies, and where.
use nano_vllm_cpp.Base.{
  ℕ, suc, ◌+◌, ◌-◌, ◌≡◌, refl, ap, ◌∙◌, inl, inr, ◌⊎◌, List, [], ◌∷◌, ◌++◌, true, none, some, arith,
  length, take, drop, take-append-drop, Option-cases, Bool-cases, ◌==◌,
}
use nano_vllm_cpp.SafeTensors.Registry.{
  PackedModuleMapping, find_from, dot_at, matches_parameter_segment, segment_at, replaced,
  resolve_packed_parameter_name,
}
use nano_vllm_cpp.Tokenizer.{starts_with}
use nano_vllm_cpp.Tokenizer.Segments.{starts_with-append}

-- A mapping's source stands in a name at a place, between dots or the ends of the name.
pub record Stands (m : PackedModuleMapping) (name : List ℕ) (pos : ℕ) : Type 0 where
  pub split : take pos name ++ (m.source_name ++ drop (length m.source_name) (drop pos name)) ≡ name
  pub left : (pos ≡ 0) ⊎ (dot_at name (pos - 1) ≡ true)
  pub right :
      (pos + length m.source_name ≡ length name) ⊎ (dot_at name (pos + length m.source_name) ≡ true)

find_from-starts_with :
    (start : ℕ) (part s : List ℕ) (pos : ℕ)
    → find_from start part s ≡ some pos
    → (k : ℕ) × (pos ≡ start + k) × (starts_with part (drop k s) ≡ true)
unfolding find_from
find_from-starts_with start part [] pos h = (0, ground arith, ground arith)
find_from-starts_with start part (c ∷ s) pos h = elim (Bool-cases (starts_with part (c ∷ s))) [
  | inl here ↦ (0, ground arith, here)
  | inr later ↦
      let (k, at, there) = find_from-starts_with (suc start) part s pos (ground arith) in
      (suc k, omega (arith, at), there)
]

pub segment_at-found :
    (m : PackedModuleMapping) (name : List ℕ) (pos : ℕ)
    → segment_at m name ≡ some pos
    → (find_from 0 m.source_name name ≡ some pos)
      × (matches_parameter_segment name pos m.source_name ≡ true)
unfolding segment_at
segment_at-found m name pos h = ground arith

segment_at-Stands :
    (m : PackedModuleMapping) (name : List ℕ) (pos : ℕ)
    → segment_at m name ≡ some pos
    → Stands m name pos
unfolding matches_parameter_segment
segment_at-Stands m name pos h =
    let (found, match) = segment_at-found m name pos h in
    let (k, at, there) = find_from-starts_with 0 m.source_name name pos found in
    let here : starts_with m.source_name (drop pos name) ≡ true =
      ap (λ i. starts_with m.source_name (drop i name)) (omega (arith, at)) ∙ there in
    record {
      split =
          ap (λ s. take pos name ++ s) (starts_with-append m.source_name (drop pos name) here)
          ∙ take-append-drop pos name;
      left = elim (Bool-cases (pos == 0)) [
        | inl front ↦ inl (ground arith)
        | inr inside ↦ inr (ground arith)
      ];
      right = elim (Bool-cases (pos + length m.source_name == length name)) [
        | inl back ↦ inl (ground arith)
        | inr inside ↦ inr (ground arith)
      ];
    }

abbrev pub NoneApply : List ℕ → List PackedModuleMapping → Type 0
NoneApply name [] = Unit
NoneApply name (m ∷ ms) = (segment_at m name ≡ none) × NoneApply name ms

pub resolve-none :
    (name : List ℕ) (m : PackedModuleMapping) (ms : List PackedModuleMapping)
    → segment_at m name ≡ none
    → resolve_packed_parameter_name name (m ∷ ms) ≡ resolve_packed_parameter_name name ms
unfolding resolve_packed_parameter_name
resolve-none name m ms h = ground arith

pub resolve-some :
    (name : List ℕ) (m : PackedModuleMapping) (ms : List PackedModuleMapping) (pos : ℕ)
    → segment_at m name ≡ some pos
    → resolve_packed_parameter_name name (m ∷ ms) ≡ (replaced m name pos, some m.shard_id)
unfolding resolve_packed_parameter_name
resolve-some name m ms pos h = ground arith

-- The first mapping that applies, with those before it.
pub record Applied (name : List ℕ) (ms : List PackedModuleMapping) : Type 0 where
  pub before : List PackedModuleMapping
  pub mapping : PackedModuleMapping
  pub after : List PackedModuleMapping
  pub place : before ++ mapping ∷ after ≡ ms
  pub skipped : NoneApply name before
  pub pos : ℕ
  pub stands : Stands mapping name pos
  pub result :
      resolve_packed_parameter_name name ms ≡ (replaced mapping name pos, some mapping.shard_id)

-- For any name and mappings: either no mapping applies, and the name is kept without a shard, or
-- the first mapping that applies stands in the name between dots or ends, and the result is the
-- name with its source replaced by its target there, with the mapping's shard.
pub resolve_packed_parameter_name_lem :
    (name : List ℕ) (ms : List PackedModuleMapping)
    → (NoneApply name ms × (resolve_packed_parameter_name name ms ≡ (name, none))) ⊎ Applied name ms
resolve_packed_parameter_name_lem name [] = inl (tt, unfold resolve_packed_parameter_name in refl)
resolve_packed_parameter_name_lem name (m ∷ ms) = elim (Option-cases (segment_at m name)) [
  | inl skip ↦ elim (resolve_packed_parameter_name_lem name ms) [
    | inl (all, kept) ↦ inl ((skip, all), resolve-none name m ms skip ∙ kept)
    | inr a ↦ inr (record {
      before = m ∷ a.before;
      mapping = a.mapping;
      after = a.after;
      place = ap (λ xs. m ∷ xs) a.place;
      skipped = (skip, a.skipped);
      pos = a.pos;
      stands = a.stands;
      result = resolve-none name m ms skip ∙ a.result;
    })
  ]
  | inr (pos, found) ↦ inr (record {
    before = [];
    mapping = m;
    after = ms;
    place = refl;
    skipped = tt;
    pos = pos;
    stands = segment_at-Stands m name pos found;
    result = resolve-some name m ms pos found;
  })
]
