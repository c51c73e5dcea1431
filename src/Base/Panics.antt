-- ===== src/Base/Panics.antt =====
-- Code that may panic: `assert!`, `expect`, an index out of bounds, `unreachable!`.
use mathlib.Core.Path.{◌≡◌, refl, ap}
use mathlib.Core.Bool.{Bool, true, false}
use mathlib.Core.Option.{Option, none, some}
use mathlib.Core.Logic.{◌⊎◌, inl, inr}

pub data Exec {ℓ} (A : Type ℓ) : Type ℓ where
  ret : A → Exec A
  panic : Exec A

infixl 5 ◌>>=◌ ◌>>◌
abbrev pub ◌>>=◌ {ℓ κ} : {A : Type ℓ} {B : Type κ} → Exec A → (A → Exec B) → Exec B
ret a >>= f = f a
panic >>= f = panic

abbrev pub ◌>>◌ {ℓ} : {B : Type ℓ} → Exec (Unit {0}) → Exec B → Exec B
m >> k = m >>= λ _. k

-- `assert!(b)`.
abbrev pub assert : Bool → Exec (Unit {0})
assert true = ret tt
assert false = panic

-- `Option::expect`, and a checked index.
abbrev pub expect {ℓ} : {A : Type ℓ} → Option A → Exec A
expect none = panic
expect (some a) = ret a

-- Inversion of a bind that returns, for proofs where the parts stay shut.
pub >>=-eq-ret {ℓ κ} :
    {A : Type ℓ} {B : Type κ} (m : Exec A) (f : A → Exec B) {b : B}
    → (m >>= f) ≡ ret b
    → (a : A) × (m ≡ ret a) × (f a ≡ ret b)
>>=-eq-ret (ret a) f h = (a, refl, h)
>>=-eq-ret panic f h = cc

pub ret_inj {ℓ} : {A : Type ℓ} {a b : A} → ret a ≡ ret b → a ≡ b
ret_inj e = cc

pub expect-eq-ret {ℓ} : {A : Type ℓ} (o : Option A) {a : A} → expect o ≡ ret a → o ≡ some a
expect-eq-ret none e = cc
expect-eq-ret (some a') e = ap some (cc)

pub Exec-cases {ℓ} : {A : Type ℓ} (m : Exec A) → (m ≡ panic) ⊎ ((a : A) × (m ≡ ret a))
Exec-cases (ret a) = inr (a, refl)
Exec-cases panic = inl refl
