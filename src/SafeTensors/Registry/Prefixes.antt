-- ===== src/SafeTensors/Registry/Prefixes.antt =====
-- `resolve_packed_parameter_name` of a name behind a prefix that no mapping can touch.
use nano_vllm_cpp.Base.{
  ℕ, zero, suc, ◌+◌, ◌-◌, ◌≡◌, ◌≤◌, refl, sym, ap, ◌∙◌, subst, inl, inr, List, [], ◌∷◌, ◌++◌, Bool,
  true, false, Option, none, some, arith, length, take, drop, get_elem?, length-append,
  Option-cases, Bool-cases, ◌==◌, ◌&&◌, ◌||◌, if◌then◌else◌, eq→==, ne→==, ap₂, drop-append,
}
use nano_vllm_cpp.Base.Counting.{count}
use nano_vllm_cpp.SafeTensors.Registry.{
  PackedModuleMapping, find_from, dot_at, matches_parameter_segment, segment_at, replaced,
  resolve_packed_parameter_name,
}
use nano_vllm_cpp.SafeTensors.Registry.Names.{resolve-none, resolve-some}
use nano_vllm_cpp.Tokenizer.{starts_with}
use mathlib.Core.List.{append_assoc}

get_elem?-behind :
    (xs ys : List ℕ) (m j : ℕ) → m ≡ length xs + j → get_elem? (xs ++ ys) m ≡ get_elem? ys j
get_elem?-behind [] ys m j h = ap (get_elem? ys) (omega arith)
get_elem?-behind (x ∷ xs) ys zero j h = absurd (omega arith)
get_elem?-behind (x ∷ xs) ys (suc m) j h = get_elem?-behind xs ys m j (omega arith)

take-behind : (xs ys : List ℕ) (m j : ℕ) → m ≡ length xs + j → take m (xs ++ ys) ≡ xs ++ take j ys
take-behind [] ys m j h = ap (λ n. take n ys) (omega arith)
take-behind (x ∷ xs) ys zero j h = absurd (omega arith)
take-behind (x ∷ xs) ys (suc m) j h = ap (λ zs. x ∷ zs) (take-behind xs ys m j (omega arith))

-- A part that starts with a character that the prefix lacks stands nowhere in it.
find_from-behind :
    (pos c : ℕ) (part prefix name : List ℕ)
    → count c prefix ≡ 0
    → find_from pos (c ∷ part) (prefix ++ name) ≡ find_from (pos + length prefix) (c ∷ part) name
unfolding count
find_from-behind pos c part [] name h = ap (λ n. find_from n (c ∷ part) name) (omega arith)
find_from-behind pos c part (x ∷ prefix) name h =
    let apart : (c == x) ≡ false = ne→== c x (λ e. absurd (ground (arith, eq→== x c (sym e)))) in
    steps apart
    ∙ find_from-behind (suc pos) c part prefix name (ground arith)
    ∙ ap (λ n. find_from n (c ∷ part) name) (omega arith)
  where
    steps :
        (c == x) ≡ false
        → find_from pos (c ∷ part) (x ∷ (prefix ++ name))
          ≡ find_from (suc pos) (c ∷ part) (prefix ++ name)
    steps apart = unfold find_from in (unfold starts_with in (ground (arith, apart)))

-- Counting the places from another start.
abbrev later : ℕ → Option ℕ → Option ℕ
later n none = none
later n (some pos) = some (n + pos)

find_from-later :
    (n pos : ℕ) (part name : List ℕ)
    → find_from (pos + n) part name ≡ later n (find_from pos part name)
unfolding find_from
find_from-later n pos part [] = elim (Bool-cases (starts_with part [])) [
  | inl here ↦ rw here (ap some (omega arith))
  | inr nowhere ↦ rw nowhere refl
]
find_from-later n pos part (c ∷ name) = elim (Bool-cases (starts_with part (c ∷ name))) [
  | inl here ↦ rw here (ap some (omega arith))
  | inr nowhere ↦
      rw nowhere
        (ap (λ m. find_from m part name) (omega arith) ∙ find_from-later n (suc pos) part name)
]

abbrev dot_of : Option ℕ → Bool
dot_of none = false
dot_of (some c) = c == b'.'

-- A match that does not start at the head of the name is a match behind a prefix.
matches-behind :
    (prefix name segment : List ℕ) (k : ℕ)
    → matches_parameter_segment (prefix ++ name) (length prefix + suc k) segment
      ≡ matches_parameter_segment name (suc k) segment
unfolding matches_parameter_segment dot_at
matches-behind prefix name segment k =
    let before =
      ap dot_of
        (get_elem?-behind prefix name (length prefix + suc k - 1) (suc k - 1) (omega arith)) in
    let behind = ap dot_of (
      get_elem?-behind prefix name (length prefix + suc k + length segment) (suc k + length segment)
        (omega arith)) in
    let not_first : (length prefix + suc k == 0) ≡ (suc k == 0) = ground arith in
    let ends : (length prefix + suc k + length segment == length (prefix ++ name))
        ≡ (suc k + length segment == length name) =
      ground (arith, length-append prefix name) in
    ap₂ (λ x y. x && y) (ap₂ (λ x y. x || y) not_first before) (ap₂ (λ x y. x || y) ends behind)

module _ (m : PackedModuleMapping) where
  nowhere : (name : List ℕ) → find_from 0 m.source_name name ≡ none → segment_at m name ≡ none
  unfolding segment_at
  nowhere name h = ground (arith, h)

  at_place :
      (name : List ℕ) (pos : ℕ)
      → find_from 0 m.source_name name ≡ some pos
      → segment_at m name
        ≡ (if matches_parameter_segment name pos m.source_name then some pos else none)
  unfolding segment_at
  at_place name pos h = ground (arith, h)

module _ (prefix name : List ℕ) (m : PackedModuleMapping) (c : ℕ) (part : List ℕ)
    (starts : m.source_name ≡ c ∷ part) (absent : count c prefix ≡ 0) where
  found_later :
      find_from 0 m.source_name (prefix ++ name)
      ≡ later (length prefix) (find_from 0 m.source_name name)
  found_later =
      subst (λ s. find_from 0 s (prefix ++ name) ≡ later (length prefix) (find_from 0 s name))
        (sym starts)
        (find_from-behind 0 c part prefix name absent
          ∙ find_from-later (length prefix) 0 (c ∷ part) name)

  segment_at-later :
      ((pos : ℕ) → find_from 0 m.source_name name ≡ some pos → 1 ≤ pos)
      → segment_at m (prefix ++ name) ≡ later (length prefix) (segment_at m name)
  segment_at-later inside = by (find_from 0 m.source_name name) refl
    where
      by :
          (o : Option ℕ)
          → find_from 0 m.source_name name ≡ o
          → segment_at m (prefix ++ name) ≡ later (length prefix) (segment_at m name)
      by none e =
          nowhere m (prefix ++ name) (found_later ∙ ap (later (length prefix)) e)
          ∙ ap (later (length prefix)) (sym (nowhere m name e))
      by (some zero) e = absurd (omega (arith, inside zero e))
      by (some (suc k)) e =
          at_place m (prefix ++ name) (length prefix + suc k)
            (found_later ∙ ap (later (length prefix)) e)
          ∙ tested (matches-behind prefix name m.source_name k)
          ∙ ap (later (length prefix)) (sym (at_place m name (suc k) e))
        where
          tested :
              {a b : Bool}
              → a ≡ b
              → (if a then some (length prefix + suc k) else none)
                ≡ later (length prefix) (if b then some (suc k) else none)
          tested {b = true} h = ap (λ x. if x then some (length prefix + suc k) else none) h
          tested {b = false} h = ap (λ x. if x then some (length prefix + suc k) else none) h

-- The first character of a source stands nowhere in a prefix, and is no dot.
abbrev pub IsForeign : List ℕ → List ℕ → Type 0
IsForeign prefix [] = ⊥
IsForeign prefix (c ∷ part) = (count c prefix ≡ 0) × ((c == b'.') ≡ false)

abbrev pub AllForeign : List ℕ → List PackedModuleMapping → Type 0
AllForeign prefix [] = Unit
AllForeign prefix (m ∷ ms) = IsForeign prefix m.source_name × AllForeign prefix ms

not_at_dot :
    (c : ℕ) (part rest : List ℕ)
    → (c == b'.') ≡ false
    → (pos : ℕ) → find_from 0 (c ∷ part) (b'.' ∷ rest) ≡ some pos
    → 1 ≤ pos
unfolding find_from starts_with
not_at_dot c part rest apart pos h =
    by (find_from 0 (c ∷ part) rest) (sym (find_from-later 1 0 (c ∷ part) rest) ∙ one apart h)
  where
    one :
        (c == b'.') ≡ false
        → find_from 0 (c ∷ part) (b'.' ∷ rest) ≡ some pos
        → find_from (0 + 1) (c ∷ part) rest ≡ some pos
    one a k = ground (arith, a, k)

    by : (o : Option ℕ) → later 1 o ≡ some pos → 1 ≤ pos
    by none k = cc
    by (some j) k = ground (arith, k)

segment_at-behind :
    (prefix rest : List ℕ) (m : PackedModuleMapping)
    → IsForeign prefix m.source_name
    → segment_at m (prefix ++ b'.' ∷ rest) ≡ later (length prefix) (segment_at m (b'.' ∷ rest))
segment_at-behind prefix rest m f = by m.source_name refl f
  where
    by :
        (s : List ℕ)
        → m.source_name ≡ s
        → IsForeign prefix s
        → segment_at m (prefix ++ b'.' ∷ rest) ≡ later (length prefix) (segment_at m (b'.' ∷ rest))
    by [] e g = absurd g
    by (c ∷ part) e g = segment_at-later prefix (b'.' ∷ rest) m c part e g.0 (
        subst (λ s. (pos : ℕ) → find_from 0 s (b'.' ∷ rest) ≡ some pos → 1 ≤ pos) (sym e)
          (not_at_dot c part rest g.1))

replaced-behind :
    (prefix name : List ℕ) (m : PackedModuleMapping) (pos : ℕ)
    → replaced m (prefix ++ name) (length prefix + pos) ≡ prefix ++ replaced m name pos
replaced-behind prefix name m pos =
    ap₂ (λ x y. x ++ m.target_name ++ drop (length m.source_name) y)
      (take-behind prefix name (length prefix + pos) pos refl)
      (drop-append prefix name (length prefix + pos) pos refl)
    ∙ ap (λ x. x ++ drop (length m.source_name) (drop pos name))
        (append_assoc prefix (take pos name) m.target_name)
    ∙ append_assoc prefix (take pos name ++ m.target_name)
        (drop (length m.source_name) (drop pos name))

-- What a name resolves to behind a prefix whose characters start no source: the prefix stays.
abbrev pub behind : List ℕ → List ℕ × Option ℕ → List ℕ × Option ℕ
behind prefix r = (prefix ++ r.0, r.1)

pub resolve-behind :
    (prefix rest : List ℕ) (ms : List PackedModuleMapping)
    → AllForeign prefix ms
    → resolve_packed_parameter_name (prefix ++ b'.' ∷ rest) ms
      ≡ behind prefix (resolve_packed_parameter_name (b'.' ∷ rest) ms)
resolve-behind prefix rest [] f = unfold resolve_packed_parameter_name in refl
resolve-behind prefix rest (m ∷ ms) f = elim (Option-cases (segment_at m (b'.' ∷ rest))) [
  | inl e ↦
      resolve-none (prefix ++ b'.' ∷ rest) m ms
        (segment_at-behind prefix rest m f.0 ∙ ap (later (length prefix)) e)
      ∙ resolve-behind prefix rest ms f.1
      ∙ ap (behind prefix) (sym (resolve-none (b'.' ∷ rest) m ms e))
  | inr (pos, e) ↦
      resolve-some (prefix ++ b'.' ∷ rest) m ms (length prefix + pos)
        (segment_at-behind prefix rest m f.0 ∙ ap (later (length prefix)) e)
      ∙ ap (λ x. (x, some m.shard_id)) (replaced-behind prefix (b'.' ∷ rest) m pos)
      ∙ ap (behind prefix) (sym (resolve-some (b'.' ∷ rest) m ms pos e))
]
