-- ===== src/Common/OnReturn.antt =====
-- What holds of the result of a call, if it returns one.
use giblet.Common.Outcomes.{Outcome, returns, throws, undefined, diverges, map_outcome, ◌>>=◌}

-- `P` holds of the result of a call that returns.
abbrev pub OnReturn {ℓ κ} : {A : Type ℓ} → (A → Type κ) → Outcome A → Type κ
OnReturn P (returns a) = P a
OnReturn P (throws e) = Unit
OnReturn P undefined = Unit
OnReturn P diverges = Unit

module _ {ℓ κ} {A B : Type ℓ} (P : A → Type κ) (Q : B → Type κ) where
  pub OnReturn-bind :
      (r : Outcome A) (f : A → Outcome B)
      → OnReturn P r
      → ((a : A) → P a → OnReturn Q (f a))
      → OnReturn Q (r >>= f)
  OnReturn-bind (returns a) f p h = h a p
  OnReturn-bind (throws e) f p h = tt
  OnReturn-bind undefined f p h = tt
  OnReturn-bind diverges f p h = tt

  pub OnReturn-map :
      (r : Outcome A) (f : A → B)
      → OnReturn P r
      → ((a : A) → P a → Q (f a))
      → OnReturn Q (map_outcome f r)
  OnReturn-map (returns a) f p h = h a p
  OnReturn-map (throws e) f p h = tt
  OnReturn-map undefined f p h = tt
  OnReturn-map diverges f p h = tt
