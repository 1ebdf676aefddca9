-- ===== src/Common/Exec.antt =====
-- Member functions that change shared objects and may throw. What was written before an exception
-- stays written, so the state comes back beside every outcome.
pub mod Keeps
use giblet.Common.Outcomes.{Error, Outcome, returns, throws, undefined, diverges}

abbrev pub Exec {ℓ} : Type ℓ → Type ℓ → Type ℓ
Exec S A = S → Outcome A × S

module _ {ℓ} {S A : Type ℓ} where
  abbrev pub pure : A → Exec S A
  pure a s = (returns a, s)

  abbrev pub throw : Error → Exec S A
  throw e s = (throws e, s)

  abbrev pub lift : Outcome A → Exec S A
  lift r s = (r, s)

  abbrev pub gets : (S → A) → Exec S A
  gets f s = (returns (f s), s)

module _ {ℓ} {S A B : Type ℓ} where
  abbrev pub continue : Outcome A → (A → Exec S B) → Exec S B
  continue (returns a) f s = f a s
  continue (throws e) f s = (throws e, s)
  continue undefined f s = (undefined, s)
  continue diverges f s = (diverges, s)

  infixl 5 ◌>>=◌ ◌>>◌
  abbrev pub ◌>>=◌ : Exec S A → (A → Exec S B) → Exec S B
  ◌>>=◌ m f s = continue (m s).0 f (m s).1

  abbrev pub ◌>>◌ : Exec S A → Exec S B → Exec S B
  m >> n = m >>= λ _. n

abbrev pub modify {ℓ} : {S : Type ℓ} → (S → S) → Exec S (Unit {ℓ})
modify f s = (returns tt, f s)

-- The state behind a call that ends in one, or the state before it.
abbrev pub settle {ℓ} : {S : Type ℓ} → Outcome S → S → Outcome (Unit {ℓ}) × S
settle (returns s') s = (returns tt, s')
settle (throws e) s = (throws e, s)
settle undefined s = (undefined, s)
settle diverges s = (diverges, s)

abbrev pub change {ℓ} : {S : Type ℓ} → (S → Outcome S) → Exec S (Unit {ℓ})
change f s = settle (f s) s
