-- ===== src/Common/Outcomes.antt =====
-- How a call ends. Exceptions are values, and so is undefined behaviour: a dereference of a null
-- view, a read behind the end of a buffer or an erase of a past-the-end iterator.
use mathlib.Core.Path.{◌≡◌, refl}

-- The classes of `<stdexcept>` that the program meets.
pub data Error : Type 0 where
  runtime_error invalid_argument out_of_range : Error

-- `diverges` is the result of a loop whose fuel runs out.
pub data Outcome {ℓ} (A : Type ℓ) : Type ℓ where
  returns : A → Outcome A
  throws : Error → Outcome A
  undefined : Outcome A
  diverges : Outcome A

infixl 5 ◌>>=◌
abbrev pub ◌>>=◌ {ℓ κ} : {A : Type ℓ} {B : Type κ} → Outcome A → (A → Outcome B) → Outcome B
returns a >>= f = f a
throws e >>= f = throws e
undefined >>= f = undefined
diverges >>= f = diverges

abbrev pub map_outcome {ℓ κ} : {A : Type ℓ} {B : Type κ} → (A → B) → Outcome A → Outcome B
map_outcome f (returns a) = returns (f a)
map_outcome f (throws e) = throws e
map_outcome f undefined = undefined
map_outcome f diverges = diverges

pub >>=-eq-returns {ℓ κ} :
    {A : Type ℓ} {B : Type κ} (m : Outcome A) (f : A → Outcome B) {b : B}
    → (m >>= f) ≡ returns b
    → (a : A) × (m ≡ returns a) × (f a ≡ returns b)
>>=-eq-returns (returns a) f h = (a, refl, h)
>>=-eq-returns (throws e) f h = cc
>>=-eq-returns undefined f h = cc
>>=-eq-returns diverges f h = cc

-- A result that is only computed on does not make a call undefined.
pub >>=-eq-undefined {ℓ κ} :
    {A : Type ℓ} {B : Type κ} (m : Outcome A) (f : A → B)
    → (m >>= λ a. returns (f a)) ≡ undefined
    → m ≡ undefined
>>=-eq-undefined (returns a) f h = cc h
>>=-eq-undefined (throws e) f h = cc h
>>=-eq-undefined undefined f h = refl
>>=-eq-undefined diverges f h = cc h

pub returns-injective {ℓ} : {A : Type ℓ} {a b : A} → returns a ≡ returns b → a ≡ b
returns-injective h = cc h
