-- ===== src/Text/Encoder.antt =====
-- `build_byte_encoder`: every byte has a character, and no two bytes share one.
use Prim.Native.Nat.{bit_and}
use nano_vllm_cpp.Base.{
  ℕ, zero, suc, ◌+◌, ◌-◌, ◌≤◌, ◌<◌, ◌≡◌, ◌≢◌, refl, sym, subst, ap, ◌∙◌, List, [], ◌∷◌, Bool, true,
  false, not, ◌&&◌, none, some, arith, ltb, ◌==◌, vec_eq, vec_eq→eq, ==→eq, Bool-cases,
  Option-cases, inl, inr, ◌⊎◌,
}
use nano_vllm_cpp.Base.Maps.{ℕ_key, bytes_key, find, assign, find-assign_self, find-assign_other}
use nano_vllm_cpp.Text.{
  Bytes, decode_utf8_codepoint, build_byte_encoder, build_byte_decoder, utf8_small, utf8_offset,
  add_range, add_rest,
}

-- A test of every number below a bound.
every_below : ℕ → (ℕ → Bool) → Bool
every_below zero p = true
every_below (suc n) p = p n && every_below n p

every_below-true : (n : ℕ) (p : ℕ → Bool) (x : ℕ) → every_below n p ≡ true → x < n → p x ≡ true
unfolding every_below
every_below-true zero p x h l = absurd (omega arith)
every_below-true (suc n) p x h l = ground (arith, every_below-true n p x)

-- A character of one byte below 0x80, or of two with the lead byte of two.
abbrev pub one_char : Bytes → Bool
one_char [] = false
one_char (x ∷ []) = ltb x 0x80
one_char (x ∷ y ∷ []) = not (ltb x 0x80) && bit_and x 0xE0 == 0xC0
one_char (x ∷ y ∷ z ∷ s) = false

abbrev code : Bytes → ℕ
code u = (decode_utf8_codepoint u).0

small_table : every_below 256 (λ b. code (utf8_small b) == b && one_char (utf8_small b)) ≡ true
unfolding every_below utf8_small decode_utf8_codepoint
small_table = refl

offset_table :
    every_below 256
      (λ k. code (utf8_offset (256 + k)) == 256 + k && one_char (utf8_offset (256 + k)))
    ≡ true
unfolding every_below utf8_offset decode_utf8_codepoint
offset_table = refl

small_code : (b : ℕ) → b < 256 → (code (utf8_small b) ≡ b) × (one_char (utf8_small b) ≡ true)
small_code b h = ground (
  arith,
  every_below-true 256 (λ b. code (utf8_small b) == b && one_char (utf8_small b)) b small_table h,
)

offset_code :
    (k : ℕ)
    → k < 256
    → (code (utf8_offset (256 + k)) ≡ 256 + k) × (one_char (utf8_offset (256 + k)) ≡ true)
offset_code k h = ground (
  arith,
  every_below-true 256
      (λ k. code (utf8_offset (256 + k)) == 256 + k && one_char (utf8_offset (256 + k))) k
      offset_table h,
)

-- The characters of an encoder have distinct code points, all below a bound.
abbrev Below : ℕ → List (ℕ × Bytes) → Type 0
Below m [] = Unit
Below m ((b, u) ∷ enc) = (code u < m) × (one_char u ≡ true) × Below m enc

abbrev Apart : ℕ → List (ℕ × Bytes) → Type 0
Apart c [] = Unit
Apart c ((b, u) ∷ enc) = (code u ≢ c) × Apart c enc

abbrev Distinct : List (ℕ × Bytes) → Type 0
Distinct [] = Unit
Distinct ((b, u) ∷ enc) = Apart (code u) enc × Distinct enc

Below-Apart : (m c : ℕ) (enc : List (ℕ × Bytes)) → m ≤ c → Below m enc → Apart c enc
Below-Apart m c [] h v = tt
Below-Apart m c ((b, u) ∷ enc) h (l, o, v) = (omega arith, Below-Apart m c enc h v)

module _ (b m : ℕ) (u : Bytes) where
  Below-assign :
      (enc : List (ℕ × Bytes)) (n : ℕ)
      → m ≤ n
      → code u < n
      → one_char u ≡ true
      → Below m enc
      → Below n (assign enc b u)
  unfolding assign
  Below-assign [] n h c o v = (c, o, tt)
  Below-assign ((a, w) ∷ enc) n h c o (l, p, v) = elim (Bool-cases (a == b)) [
    | inl same ↦ rw same (c, o, grow enc v)
    | inr other ↦ rw other (omega arith, p, Below-assign enc n h c o v)
  ]
    where
      grow : (enc : List (ℕ × Bytes)) → Below m enc → Below n enc
      grow [] v = tt
      grow ((a, w) ∷ enc) (l, p, v) = (omega arith, p, grow enc v)

  Apart-assign :
      (enc : List (ℕ × Bytes)) (c : ℕ) → code u ≢ c → Apart c enc → Apart c (assign enc b u)
  unfolding assign
  Apart-assign [] c h v = (h, tt)
  Apart-assign ((a, w) ∷ enc) c h (l, v) = elim (Bool-cases (a == b)) [
    | inl same ↦ rw same (h, v)
    | inr other ↦ rw other (l, Apart-assign enc c h v)
  ]

  Distinct-assign :
      (enc : List (ℕ × Bytes))
      → find enc b ≡ none
      → m ≤ code u
      → Below m enc
      → Distinct enc
      → Distinct (assign enc b u)
  unfolding assign find
  Distinct-assign [] none_there h v d = (tt, tt)
  Distinct-assign ((a, w) ∷ enc) none_there h (l, o, v) (p, d) = elim (Bool-cases (a == b)) [
    | inl same ↦ ground arith
    | inr other ↦
        rw other
          (Apart-assign enc (code w) (omega arith) p, Distinct-assign enc (ground arith) h v d)
  ]

-- An encoder whose characters have distinct code points below `m`.
record Coded (enc : List (ℕ × Bytes)) (m : ℕ) : Type 0 where
  below : Below m enc
  distinct : Distinct enc

Coded-assign :
    (enc : List (ℕ × Bytes)) (b m n : ℕ) (u : Bytes)
    → find enc b ≡ none
    → m ≤ code u
    → code u < n
    → one_char u ≡ true
    → Coded enc m
    → Coded (assign enc b u) n
Coded-assign enc b m n u absent low high o v = record {
  below = Below-assign b m u enc n (omega arith) high o v.below;
  distinct = Distinct-assign b m u enc absent low v.below v.distinct;
}

Coded-weaken : (enc : List (ℕ × Bytes)) (m n : ℕ) → m ≤ n → Coded enc m → Coded enc n
Coded-weaken enc m n h v = record { below = weaken enc v.below; distinct = v.distinct }
  where
    weaken : (enc : List (ℕ × Bytes)) → Below m enc → Below n enc
    weaken [] v = tt
    weaken ((b, u) ∷ enc) (l, o, v) = (omega arith, o, weaken enc v)

-- No byte from `lo` on has a character yet.
abbrev FreeFrom : ℕ → List (ℕ × Bytes) → Type 0
FreeFrom lo enc = (c : ℕ) → lo ≤ c → find enc c ≡ none

add_range-Coded :
    (n lo : ℕ) (enc : List (ℕ × Bytes))
    → lo + n ≤ 256
    → Coded enc lo
    → FreeFrom lo enc
    → Coded (add_range n lo enc) (lo + n) × FreeFrom (lo + n) (add_range n lo enc)
unfolding add_range
add_range-Coded zero lo enc h v f =
    (Coded-weaken enc lo (lo + 0) (omega arith) v, λ c l. f c (omega arith))
add_range-Coded (suc n) lo enc h v f =
    let (same, one) = small_code lo (omega arith) in
    let (w, g) =
      add_range-Coded n (lo + 1) (assign enc lo (utf8_small lo)) (omega arith)
        (Coded-assign enc lo lo (lo + 1) (utf8_small lo) (f lo (omega arith)) (omega (arith, same))
          (omega (arith, same)) one v)
        (λ c l. find-assign_other enc lo c (utf8_small lo) (ground arith) ∙ f c (omega arith)) in
    (
      Coded-weaken (add_range n (lo + 1) (assign enc lo (utf8_small lo))) (lo + 1 + n) (lo + suc n)
          (omega arith) w,
      λ c l. g c (omega arith),
    )

add_rest-none :
    (n b k : ℕ) (enc : List (ℕ × Bytes))
    → find enc b ≡ none
    → add_rest (suc n) b k enc ≡ add_rest n (b + 1) (k + 1) (assign enc b (utf8_offset (256 + k)))
unfolding add_rest
add_rest-none n b k enc h = ground arith

add_rest-some :
    (n b k : ℕ) (enc : List (ℕ × Bytes)) (u : Bytes)
    → find enc b ≡ some u
    → add_rest (suc n) b k enc ≡ add_rest n (b + 1) k enc
unfolding add_rest
add_rest-some n b k enc u h = ground arith

add_rest-Coded :
    (n b k : ℕ) (enc : List (ℕ × Bytes))
    → k ≤ b
    → b + n ≤ 256
    → Coded enc (256 + k)
    → Coded (add_rest n b k enc) 512
add_rest-Coded zero b k enc h l v =
    unfold add_rest in Coded-weaken enc (256 + k) 512 (omega arith) v
add_rest-Coded (suc n) b k enc h l v = elim (Option-cases (find enc b)) [
  | inl absent ↦
      let (same, one) = offset_code k (omega arith) in
      subst (λ e. Coded e 512) (sym (add_rest-none n b k enc absent))
        (add_rest-Coded n (b + 1) (k + 1) (assign enc b (utf8_offset (256 + k))) (omega arith)
          (omega arith)
          (Coded-assign enc b (256 + k) (256 + (k + 1)) (utf8_offset (256 + k)) absent
            (omega (arith, same)) (omega (arith, same)) one v))
  | inr (u, there) ↦
      subst (λ e. Coded e 512) (sym (add_rest-some n b k enc u there))
        (add_rest-Coded n (b + 1) k enc (omega arith) (omega arith) v)
]

-- A byte that has a character keeps having one, and the second loop reaches the others.
abbrev Has : List (ℕ × Bytes) → ℕ → Type 0
Has enc c = (u : Bytes) × (find enc c ≡ some u)

Has-assign : (enc : List (ℕ × Bytes)) (b c : ℕ) (u : Bytes) → Has enc c → Has (assign enc b u) c
Has-assign enc b c u (w, h) = elim (Bool-cases (b == c)) [
  | inl same ↦
      (u, subst (λ x. find (assign enc b u) x ≡ some u) (==→eq b c same) (find-assign_self enc b u))
  | inr other ↦ (w, find-assign_other enc b c u other ∙ h)
]

add_rest-Has :
    (n b k c : ℕ) (enc : List (ℕ × Bytes))
    → Has enc c ⊎ ((b ≤ c) × (c < b + n))
    → Has (add_rest n b k enc) c
add_rest-Has zero b k c enc (inl h) = unfold add_rest in h
add_rest-Has zero b k c enc (inr h) = absurd (omega arith)
add_rest-Has (suc n) b k c enc h = elim (Option-cases (find enc b)) [
  | inl absent ↦
      let u = utf8_offset (256 + k) in
      subst (λ e. Has e c) (sym (add_rest-none n b k enc absent))
        (add_rest-Has n (b + 1) (k + 1) c (assign enc b u) (elim h [
          | inl old ↦ inl (Has-assign enc b c u old)
          | inr (l, r) ↦ elim (Bool-cases (b == c)) [
            | inl same ↦ inl (
              u,
              subst (λ x. find (assign enc b u) x ≡ some u) (==→eq b c same)
                  (find-assign_self enc b u),
            )
            | inr other ↦ inr (ground arith, omega arith)
          ]
        ]))
  | inr (u, there) ↦
      subst (λ e. Has e c) (sym (add_rest-some n b k enc u there))
        (add_rest-Has n (b + 1) k c enc (elim h [
          | inl old ↦ inl old
          | inr (l, r) ↦ elim (Bool-cases (b == c)) [
            | inl same ↦ inl (u, subst (λ x. find enc x ≡ some u) (==→eq b c same) there)
            | inr other ↦ inr (ground arith, omega arith)
          ]
        ]))
]

build_byte_encoder-Coded : Coded build_byte_encoder 512
unfolding build_byte_encoder
build_byte_encoder-Coded =
    let (v₁, f₁) =
      add_range-Coded (0x7E - 0x21 + 1) 0x21 [] (omega arith) (record { below = tt; distinct = tt })
        (λ c l. refl) in
    let e₁ = add_range (0x7E - 0x21 + 1) 0x21 [] in
    let (v₂, f₂) =
      add_range-Coded (0xAC - 0xA1 + 1) 0xA1 e₁ (omega arith)
        (Coded-weaken e₁ 0x7F 0xA1 (omega arith) v₁) (λ c l. f₁ c (omega arith)) in
    let e₂ = add_range (0xAC - 0xA1 + 1) 0xA1 e₁ in
    let (v₃, f₃) =
      add_range-Coded (0xFF - 0xAE + 1) 0xAE e₂ (omega arith)
        (Coded-weaken e₂ 0xAD 0xAE (omega arith) v₂) (λ c l. f₂ c (omega arith)) in
    add_rest-Coded 256 0 0 (add_range (0xFF - 0xAE + 1) 0xAE e₂) (omega arith) (omega arith) v₃

build_byte_encoder-Has : (b : ℕ) → b < 256 → Has build_byte_encoder b
unfolding build_byte_encoder
build_byte_encoder-Has b h =
    add_rest-Has 256 0 0 b
      (add_range (0xFF - 0xAE + 1) 0xAE
        (add_range (0xAC - 0xA1 + 1) 0xA1 (add_range (0x7E - 0x21 + 1) 0x21 [])))
      (inr (omega arith, omega arith))

-- What the decoder finds for a character of the encoder.
module _ (b : ℕ) (u : Bytes) where
  one_char-find :
      (enc : List (ℕ × Bytes)) (m : ℕ) → Below m enc → find enc b ≡ some u → one_char u ≡ true
  unfolding find
  one_char-find [] m v h = cc
  one_char-find ((a, w) ∷ enc) m (l, o, v) h = elim (Bool-cases (a == b)) [
    | inl same ↦ let e : w ≡ u = ground arith in subst (λ x. one_char x ≡ true) e o
    | inr other ↦ one_char-find enc m v (ground arith)
  ]

  Apart-find : (enc : List (ℕ × Bytes)) (c : ℕ) → Apart c enc → find enc b ≡ some u → code u ≢ c
  unfolding find
  Apart-find [] c v h = cc
  Apart-find ((a, w) ∷ enc) c (p, v) h = elim (Bool-cases (a == b)) [
    | inl same ↦ let e : w ≡ u = ground arith in subst (λ x. code x ≢ c) e p
    | inr other ↦ Apart-find enc c v (ground arith)
  ]

  find-build_byte_decoder :
      (enc : List (ℕ × Bytes))
      → Distinct enc
      → find enc b ≡ some u
      → find (build_byte_decoder enc) u ≡ some b
  unfolding find build_byte_decoder
  find-build_byte_decoder [] d h = cc
  find-build_byte_decoder ((a, w) ∷ enc) (p, d) h = elim (Bool-cases (a == b)) [
    | inl same ↦
        let e : w ≡ u = ground arith in
        subst (λ x. find (assign (build_byte_decoder enc) x a) u ≡ some b) (sym e)
          (subst (λ y. find (assign (build_byte_decoder enc) u y) u ≡ some b) (sym (==→eq a b same))
            (find-assign_self (build_byte_decoder enc) u b))
    | inr other ↦
        let h' : find enc b ≡ some u = ground arith in
        find-assign_other (build_byte_decoder enc) w u a
          (apart_codes w u (Apart-find enc (code w) p h'))
        ∙ find-build_byte_decoder enc d h'
  ]
    where
      apart_codes : (w u : Bytes) → code u ≢ code w → vec_eq w u ≡ false
      apart_codes w u ne = elim (Bool-cases (vec_eq w u)) [
        | inl same ↦ absurd (ne (ap (λ x. code x) (sym (vec_eq→eq w u same))))
        | inr other ↦ other
      ]

-- Every byte has a character in the encoder, which the decoder takes back to the byte.
pub byte_encoder_lem :
    (b : ℕ)
    → b < 256
    → (u : Bytes) × (find build_byte_encoder b ≡ some u)
      × (one_char u ≡ true)
      × (find (build_byte_decoder build_byte_encoder) u ≡ some b)
byte_encoder_lem b h =
    let v = build_byte_encoder-Coded in
    let (u, there) = build_byte_encoder-Has b h in
    (
      u,
      there,
      one_char-find b u build_byte_encoder 512 v.below there,
      find-build_byte_decoder b u build_byte_encoder v.distinct there,
    )
