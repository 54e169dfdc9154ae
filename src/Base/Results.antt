-- ===== src/Base/Results.antt =====
-- Results of code that may stop: a failed `assert`, an access out of range, a thrown exception.
use mathlib.Core.Path.{◌≡◌, refl, subst}
use native.Mathlib.Omega.{arith}
use mathlib.Core.Bool.{Bool, true, false}
use mathlib.Core.Option.{Option, none, some}

-- `assertion`: an `assert` of a debug build fails. `out_of_range`: a container is read outside its
-- elements. `underflow`: a count would fall below 0. `invalid`: `std::invalid_argument` or
-- `std::runtime_error` is thrown. `division`: an integer is divided by 0 or the quotient is too large.
pub data Fault : Type 0 where
  assertion out_of_range underflow invalid division out_of_fuel : Fault

-- A call that has stopped has no state to go on with.
pub data Result {ℓ} (Value : Type ℓ) : Type ℓ where
  err : Fault → Result Value
  ok : Value → Result Value

-- Reading past the end of a container, or through a missing entry of a map.
abbrev pub or_fail {ℓ} : {Value : Type ℓ} → Option Value → Fault → Result Value
or_fail (some found) fault = ok found
or_fail none fault = err fault

-- `assert(test)`, or `if (!test) throw`.
abbrev pub guard : Bool → Fault → Result (Unit {0})
guard false fault = err fault
guard true fault = ok tt

-- One statement behind another: what follows runs where the first has returned.
infixl 5 ◌>>=◌ ◌>>◌
abbrev pub ◌>>=◌ {ℓ κ} :
    {Value : Type ℓ} {Next : Type κ} → Result Value → (Value → Result Next) → Result Next
err fault >>= rest = err fault
ok value >>= rest = rest value

abbrev pub ◌>>◌ {ℓ} : {Next : Type ℓ} → Result (Unit {0}) → Result Next → Result Next
first >> rest = first >>= λ _. rest

-- The code meets no fault but a failed `assert`, and where it returns, `P` holds of the result.
abbrev pub Safe {ℓ} : {A : Type ℓ} → Result A → (A → Type 0) → Type 0
Safe (ok a) P = P a
Safe (err assertion) P = Unit
Safe (err _) P = ⊥

pub Safe-bind {ℓ κ} :
    {A : Type ℓ} {B : Type κ} (m : Result A) (f : A → Result B) (P : A → Type 0) (Q : B → Type 0)
    → Safe m P
    → ((a : A) → P a → Safe (f a) Q)
    → Safe (m >>= f) Q
Safe-bind (ok a) f P Q h k = k a h
Safe-bind (err assertion) f P Q h k = tt
Safe-bind (err out_of_range) f P Q h k = h
Safe-bind (err underflow) f P Q h k = h
Safe-bind (err invalid) f P Q h k = h
Safe-bind (err division) f P Q h k = h
Safe-bind (err out_of_fuel) f P Q h k = h

pub Safe-guard : (b : Bool) → Safe (guard b assertion) (λ _. b ≡ true)
Safe-guard true = refl
Safe-guard false = tt

pub Safe-map {ℓ} :
    {A : Type ℓ} (m : Result A) {P Q : A → Type 0} → Safe m P → ((a : A) → P a → Q a) → Safe m Q
Safe-map (ok a) h k = k a h
Safe-map (err assertion) h k = tt
Safe-map (err out_of_range) h k = h
Safe-map (err underflow) h k = h
Safe-map (err invalid) h k = h
Safe-map (err division) h k = h
Safe-map (err out_of_fuel) h k = h

pub bind-ok {ℓ κ} :
    {A : Type ℓ} {B : Type κ} (m : Result A) (f : A → Result B) (b : B)
    → m >>= f ≡ ok b
    → (a : A) × (m ≡ ok a) × (f a ≡ ok b)
bind-ok (ok a) f b h = (a, refl, h)
bind-ok (err e) f b h = cc

pub guard-ok : (b : Bool) (fault : Fault) (u : Unit {0}) → guard b fault ≡ ok u → b ≡ true
guard-ok true fault u h = refl
guard-ok false fault u h = cc

-- Where the code returns, `P` holds of the result.
abbrev pub IfOk {ℓ} : {A : Type ℓ} → Result A → (A → Type 0) → Type 0
IfOk (ok a) P = P a
IfOk (err e) P = Unit

pub IfOk-bind {ℓ κ} :
    {A : Type ℓ} {B : Type κ} (m : Result A) (f : A → Result B) (Q : B → Type 0)
    → ((a : A) → m ≡ ok a → IfOk (f a) Q)
    → IfOk (m >>= f) Q
IfOk-bind (ok a) f Q k = k a refl
IfOk-bind (err e) f Q k = tt

pub IfOk-ok {ℓ} : {A : Type ℓ} (m : Result A) (P : A → Type 0) (a : A) → IfOk m P → m ≡ ok a → P a
IfOk-ok (ok b) P a h e = subst P (ground arith) h
IfOk-ok (err f) P a h e = cc

pub Safe-IfOk {ℓ} : {A : Type ℓ} (m : Result A) (P : A → Type 0) → Safe m P → IfOk m P
Safe-IfOk (ok a) P h = h
Safe-IfOk (err e) P h = tt

pub IfOk-map {ℓ} :
    {A : Type ℓ} (m : Result A) {P Q : A → Type 0} → IfOk m P → ((a : A) → P a → Q a) → IfOk m Q
IfOk-map (ok a) h k = k a h
IfOk-map (err e) h k = tt

pub IfOk-both {ℓ} :
    {A : Type ℓ} (m : Result A) (P Q : A → Type 0) {R : A → Type 0}
    → IfOk m P
    → IfOk m Q
    → ((a : A) → P a → Q a → R a)
    → IfOk m R
IfOk-both (ok a) P Q p q k = k a p q
IfOk-both (err e) P Q p q k = tt

pub Safe-both {ℓ} :
    {A : Type ℓ} (m : Result A) (P Q : A → Type 0) → Safe m P → IfOk m Q → Safe m (λ a. P a × Q a)
Safe-both (ok a) P Q p q = (p, q)
Safe-both (err assertion) P Q p q = tt
Safe-both (err out_of_range) P Q p q = p
Safe-both (err underflow) P Q p q = p
Safe-both (err invalid) P Q p q = p
Safe-both (err division) P Q p q = p
Safe-both (err out_of_fuel) P Q p q = p

pub ok-same {ℓ} : {A : Type ℓ} (r : Result A) (a b : A) → r ≡ ok a → r ≡ ok b → a ≡ b
ok-same r a b h k = ground arith
