-- ===== src/Common/Settles.antt =====
-- What holds of the result of a call that is known to end.
use giblet.Common.Outcomes.{Outcome, returns, throws, undefined, diverges, ◌>>=◌, returns-injective}
use giblet.Common.Tests.{if◌then◌else◌}
use mathlib.Core.Bool.{Bool, true, false}
use mathlib.Core.Path.{◌≡◌, refl, subst}
use mathlib.Core.Logic.{◌≢◌}

-- The call does not diverge, and `P` holds of its result, if it returns one.
abbrev pub Settles {ℓ} : {A : Type ℓ} → (A → Type 0) → Outcome A → Type 0
Settles P (returns a) = P a
Settles P (throws e) = Unit
Settles P undefined = Unit
Settles P diverges = ⊥

module _ {ℓ κ} {A : Type ℓ} {B : Type κ} (P : A → Type 0) (Q : B → Type 0) where
  pub Settles-bind :
      (r : Outcome A) (f : A → Outcome B)
      → Settles P r
      → ((a : A) → r ≡ returns a → P a → Settles Q (f a))
      → Settles Q (r >>= f)
  Settles-bind (returns a) f p h = h a refl p
  Settles-bind (throws e) f p h = tt
  Settles-bind undefined f p h = tt
  Settles-bind diverges f p h = elim p [ ]

module _ {ℓ} {A : Type ℓ} (P : A → Type 0) where
  pub Settles-if :
      (b : Bool) (x y : Outcome A)
      → (b ≡ true → Settles P x)
      → (b ≡ false → Settles P y)
      → Settles P (if b then x else y)
  Settles-if true x y hx hy = hx refl
  Settles-if false x y hx hy = hy refl

  pub Settles-ends : (r : Outcome A) → Settles P r → r ≢ diverges
  Settles-ends (returns a) p e = cc e
  Settles-ends (throws x) p e = cc e
  Settles-ends undefined p e = cc e
  Settles-ends diverges p e = elim p [ ]

  pub Settles-result : (r : Outcome A) {a : A} → Settles P r → r ≡ returns a → P a
  Settles-result (returns b) p e = subst P (returns-injective e) p
  Settles-result (throws x) p e = cc e
  Settles-result undefined p e = cc e
  Settles-result diverges p e = elim p [ ]
