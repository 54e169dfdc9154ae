-- ===== src/SafeTensors/Registry/Load.antt =====
-- Registering parameters.
use nano_vllm_cpp.Base.{
  ℕ, ◌≡◌, refl, ◌∙◌, sym, List, [], ◌∷◌, ◌++◌, true, false, none, some, arith, Option-cases,
  Bool-cases, ok, err, invalid, ◌⊎◌, inl, inr,
}
use nano_vllm_cpp.Base.Maps.{bytes_key, find}
use nano_vllm_cpp.SafeTensors.Registry.{ParameterLoadFn, contains, register_parameter}

module _ {V : Type 0} where
  find-hit :
      (j : List ℕ) (w : V) (m : List (List ℕ × V)) (k : List ℕ)
      → bytes_key.same j k ≡ true
      → find ((j, w) ∷ m) k ≡ some w
  unfolding find
  find-hit j w m k h = rw h refl

  find-miss :
      (j : List ℕ) (w : V) (m : List (List ℕ × V)) (k : List ℕ)
      → bytes_key.same j k ≡ false
      → find ((j, w) ∷ m) k ≡ find m k
  unfolding find
  find-miss j w m k h = rw h refl

  find-append_new :
      (m : List (List ℕ × V)) (k : List ℕ) (v : V)
      → find m k ≡ none
      → find (m ++ (k, v) ∷ []) k ≡ some v
  unfolding find
  find-append_new [] k v h = rw (bytes_key.same_refl k) refl
  find-append_new ((j, w) ∷ m) k v h = elim (Bool-cases (bytes_key.same j k)) [
    | inl old ↦ cc (find-hit j w m k old, h)
    | inr other ↦ rw other (find-append_new m k v (sym (find-miss j w m k other) ∙ h))
  ]

  find-append_old :
      (m : List (List ℕ × V)) (k j : List ℕ) (v : V)
      → bytes_key.same k j ≡ false
      → find (m ++ (k, v) ∷ []) j ≡ find m j
  unfolding find
  find-append_old [] k j v h = rw h refl
  find-append_old ((i, w) ∷ m) k j v h = elim (Bool-cases (bytes_key.same i j)) [
    | inl old ↦ rw old refl
    | inr other ↦ rw other (find-append_old m k j v h)
  ]

module _ (Weights : Type 0) where
  contains-none :
      (parameters : List (List ℕ × ParameterLoadFn Weights)) (name : List ℕ)
      → find parameters name ≡ none
      → contains Weights parameters name ≡ false
  unfolding contains
  contains-none parameters name h = ground arith

  contains-some :
      (parameters : List (List ℕ × ParameterLoadFn Weights)) (name : List ℕ)
      (load : ParameterLoadFn Weights)
      → find parameters name ≡ some load
      → contains Weights parameters name ≡ true
  unfolding contains
  contains-some parameters name load h = ground arith

  -- For any registry, name and loader: a name that is registered already is an `invalid_argument`;
  -- any other is added, is then found with its loader, and what other names find is unchanged.
  pub register_parameter_lem :
      (parameters : List (List ℕ × ParameterLoadFn Weights)) (name : List ℕ)
      (load : ParameterLoadFn Weights)
      → ((contains Weights parameters name ≡ true)
          × (register_parameter Weights parameters name load ≡ err invalid))
        ⊎ ((parameters' : List (List ℕ × ParameterLoadFn Weights)) × (register_parameter Weights
                parameters name load
              ≡ ok parameters')
            × (find parameters' name ≡ some load)
            × ((other : List ℕ)
                → bytes_key.same name other ≡ false
                → find parameters' other ≡ find parameters other))
  unfolding register_parameter
  register_parameter_lem parameters name load = elim (Option-cases (find parameters name)) [
    | inl fresh ↦
        let absent = contains-none parameters name fresh in
        rw absent (
          inr (
            parameters ++ (name, load) ∷ [],
            refl,
            find-append_new parameters name load fresh,
            λ other apart. find-append_old parameters name other load apart,
          ))
    | inr (f, old) ↦ let there = contains-some parameters name f old in rw there (inl (refl, refl))
  ]
