-- ===== src/Base/Faults.antt =====
-- What a piece of C code comes to: a value, or a fault (undefined behaviour: an array or a pointer
-- used outside its object).
use mathlib.Core.Path.{◌≡◌, refl, subst}
use mathlib.Core.Option.{Option, none, some}
use mathlib.Core.List.{List}
use Prim.Native.Nat.{ℕ}
use native.Mathlib.Omega.{arith}
use mathlib.Core.Bool.{Bool, true, false}
use cse.Base.Lists.{get_elem?}
use cse.Base.Tests.{if◌then◌else◌}

pub data Outcome {ℓ} (A : Type ℓ) : Type ℓ where
  ok : A → Outcome A
  fault : Outcome A

infixl 5 ◌>>=◌
abbrev pub ◌>>=◌ {ℓ κ} : {A : Type ℓ} {B : Type κ} → Outcome A → (A → Outcome B) → Outcome B
fault >>= rest_of = fault
ok a >>= rest_of = rest_of a

-- `xs[i]` of an array.
abbrev pub index_of_array {ℓ} : {A : Type ℓ} → Option A → Outcome A
index_of_array none = fault
index_of_array (some a) = ok a

infix 40 ◌‼◌
abbrev pub ◌‼◌ {ℓ} : {A : Type ℓ} → List A → ℕ → Outcome A
xs ‼ i = index_of_array (get_elem? xs i)

-- A chain with a fault in its second step is a fault, whatever the first comes to.
pub >>=-fault {ℓ κ} :
    {A : Type ℓ} {B : Type κ} (m : Outcome A) (f : A → Outcome B)
    → ((a : A) → f a ≡ fault)
    → (m >>= f) ≡ fault
>>=-fault (ok a) f h = h a
>>=-fault fault f h = refl

pub ok_inj {ℓ} : {A : Type ℓ} {a b : A} → ok a ≡ ok b → a ≡ b
ok_inj h = cc

-- Inversion of a chain that ends without a fault.
pub >>=-eq-ok {ℓ κ} :
    {A : Type ℓ} {B : Type κ} (step : Outcome A) (rest_of : A → Outcome B) {end : B}
    → (step >>= rest_of) ≡ ok end
    → (mid : A) × (step ≡ ok mid) × (rest_of mid ≡ ok end)
>>=-eq-ok fault rest_of e = absurd (cc)
>>=-eq-ok (ok mid) rest_of e = (mid, refl, e)

-- A postcondition of an outcome that is no fault, with a rule for each way to build an outcome.
pub record Sound {ℓ κ} {A : Type ℓ} (P : A → Type κ) (m : Outcome A) : Type (ℓ ⊔ κ) where
  pub at : (a : A) → m ≡ ok a → P a

module _ {ℓ κ} {A : Type ℓ} {P : A → Type κ} where
  pub Sound-ok : (a : A) → P a → Sound P (ok a)
  Sound-ok a p = record { at = λ b e. subst P (cc) p }

  pub Sound-known : {m : Outcome A} {a : A} → m ≡ ok a → P a → Sound P m
  Sound-known e p = record { at = λ b f. subst P (cc) p }

  pub Sound-fault : Sound P fault
  Sound-fault = record { at = λ b e. absurd (cc) }

  pub Sound-if :
      (b : Bool) (m n : Outcome A)
      → (b ≡ true → Sound P m)
      → (b ≡ false → Sound P n)
      → Sound P (if b then m else n)
  Sound-if true m n h k = h refl
  Sound-if false m n h k = k refl

module _ {ℓ κ μ} {A : Type ℓ} {B : Type κ} {P : B → Type μ} where
  pub Sound-bind :
      (m : Outcome A) (f : A → Outcome B) → ((a : A) → m ≡ ok a → Sound P (f a)) → Sound P (m >>= f)
  Sound-bind (ok a) f h = h a refl
  Sound-bind fault f h = Sound-fault

pub ruleset sound_rules = (Sound-ok, Sound-fault, Sound-if, Sound-bind)

pub at-eq-ok {ℓ} :
    {A : Type ℓ} (xs : List A) (i : ℕ) {a : A} → (xs ‼ i) ≡ ok a → get_elem? xs i ≡ some a
at-eq-ok {A} xs i h = go (get_elem? xs i) h
  where
    go : (o : Option A) {a : A} → index_of_array o ≡ ok a → o ≡ some a
    go none h = absurd (ground arith)
    go (some b) h = ground arith
