-- ===== src/Prelude/Exception.antt =====
-- A call that may throw. No handler of the program catches what is thrown by the calls modelled
-- here, so an exception carries no state with it.
use mathlib.Core.Path.{◌≡◌, refl, subst}
use mathlib.Core.Bool.{Bool, true, false}
use native.Mathlib.Omega.{arith}
use pointer_force.Prelude.Tests.{if◌then◌else◌}
use mathlib.Core.Logic.{◌⊎◌, inl, inr}

pub data Outcome {ℓ} (A : Type ℓ) : Type ℓ where
  returns : A → Outcome A
  throws : Outcome A

infixl 5 ◌>>=◌ ◌>>◌
abbrev pub ◌>>=◌ {ℓ κ} : {A : Type ℓ} {B : Type κ} → Outcome A → (A → Outcome B) → Outcome B
returns a >>= f = f a
throws >>= f = throws

abbrev pub ◌>>◌ {ℓ} : {B : Type ℓ} → Outcome (Unit {0}) → Outcome B → Outcome B
m >> k = m >>= λ _. k

pub Outcome-cases {ℓ} : {A : Type ℓ} (m : Outcome A) → ((a : A) × (m ≡ returns a)) ⊎ (m ≡ throws)
Outcome-cases (returns a) = inl (a, refl)
Outcome-cases throws = inr refl

pub returns_inj {ℓ} : {A : Type ℓ} {a b : A} → returns a ≡ returns b → a ≡ b
returns_inj h = ground (arith, h)

-- Inversion of a chain that returned.
pub >>=-eq-returns {ℓ κ} :
    {A : Type ℓ} {B : Type κ} (m : Outcome A) (f : A → Outcome B) {b : B}
    → (m >>= f) ≡ returns b
    → (a : A) × (m ≡ returns a) × (f a ≡ returns b)
>>=-eq-returns (returns a) f h = (a, refl, h)
>>=-eq-returns throws f h = cc

-- What a call returns, if it returns, satisfies `P`.
pub record Ensures {ℓ κ} {A : Type ℓ} (P : A → Type κ) (m : Outcome A) : Type (ℓ ⊔ κ) where
  pub at_return : (a : A) → m ≡ returns a → P a

module _ {ℓ κ} {A : Type ℓ} {P : A → Type κ} where
  pub Ensures-returns : (a : A) → P a → Ensures P (returns a)
  Ensures-returns a h = record { at_return = λ b e. subst P (ground arith) h }

  pub Ensures-if :
      (b : Bool) (m n : Outcome A)
      → (b ≡ true → Ensures P m)
      → (b ≡ false → Ensures P n)
      → Ensures P (if b then m else n)
  Ensures-if true m n hm hn = hm refl
  Ensures-if false m n hm hn = hn refl

pub Ensures-bind {ℓ κ μ} :
    {A : Type ℓ} {B : Type κ} {P : B → Type μ} (m : Outcome A) (f : A → Outcome B)
    → ((a : A) → m ≡ returns a → Ensures P (f a))
    → Ensures P (m >>= f)
Ensures-bind m f h = record {
  at_return = λ b e. let (a, p, q) = >>=-eq-returns m f e in (h a p).at_return b q;
}

-- The call does not throw.
abbrev pub Returns {ℓ} : {A : Type ℓ} → Outcome A → Type ℓ
Returns {A} m = (a : A) × (m ≡ returns a)

pub Returns-bind {ℓ κ} :
    {A : Type ℓ} {B : Type κ} (m : Outcome A) (f : A → Outcome B)
    → Returns m
    → ((a : A) → m ≡ returns a → Returns (f a))
    → Returns (m >>= f)
Returns-bind m f (a, e) h = let (b, g) = h a e in (b, rw e g)

pub Returns-if {ℓ} :
    {A : Type ℓ} (b : Bool) (m n : Outcome A)
    → (b ≡ true → Returns m)
    → (b ≡ false → Returns n)
    → Returns (if b then m else n)
Returns-if true m n hm hn = hm refl
Returns-if false m n hm hn = hn refl

pub Returns-after {ℓ κ} :
    {A : Type ℓ} {B : Type κ} (m : Outcome A) (f : A → Outcome B) {a : A}
    → m ≡ returns a
    → Returns (f a)
    → Returns (m >>= f)
Returns-after m f {a} e h =
    Returns-bind m f (a, e) λ b g. subst (λ c. Returns (f c)) (ground arith) h
