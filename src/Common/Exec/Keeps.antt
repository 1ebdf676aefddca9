-- ===== src/Common/Exec/Keeps.antt =====
-- Invariants of actions: a rule for each way in which an action is built.
use mathlib.Core.Bool.{Bool, true, false}
use giblet.Common.Tests.{if◌then◌else◌}
use giblet.Common.Outcomes.{Outcome, returns, throws, undefined, diverges}
pub use giblet.Common.OnReturn.{OnReturn, OnReturn-bind, OnReturn-map}
use giblet.Common.Exec.{Exec, continue, settle, change, modify, lift, ◌>>=◌, ◌>>◌}

-- `P` holds behind the action, however it ends.
pub record Keeps {ℓ κ} {S A : Type ℓ} (P : S → Type κ) (m : Exec S A) : Type (ℓ ⊔ κ) where
  pub holds : (s : S) → P s → P (m s).1

module _ {ℓ κ} {S : Type ℓ} {P : S → Type κ} where
  Keeps-continue :
      {A B : Type ℓ} (r : Outcome A) (f : A → Exec S B)
      → ((a : A) → Keeps P (f a))
      → (s : S) → P s
      → P (continue r f s).1
  Keeps-continue (returns a) f h s p = (h a).holds s p
  Keeps-continue (throws e) f h s p = p
  Keeps-continue undefined f h s p = p
  Keeps-continue diverges f h s p = p

  pub Keeps-bind :
      {A B : Type ℓ} {m : Exec S A} {f : A → Exec S B}
      → Keeps P m
      → ((a : A) → Keeps P (f a))
      → Keeps P (m >>= f)
  Keeps-bind {m = m} {f} km kf = record {
    holds = λ s p. Keeps-continue (m s).0 f kf (m s).1 (km.holds s p);
  }

  pub Keeps-then :
      {A B : Type ℓ} {m : Exec S A} {n : Exec S B} → Keeps P m → Keeps P n → Keeps P (m >> n)
  Keeps-then km kn = Keeps-bind km (λ _. kn)

  pub Keeps-lift : {A : Type ℓ} (r : Outcome A) → Keeps P (lift r)
  Keeps-lift r = record { holds = λ s p. p }

  pub Keeps-modify : {f : S → S} → ((s : S) → P s → P (f s)) → Keeps P (modify f)
  Keeps-modify h = record { holds = h }

  pub Keeps-change : (f : S → Outcome S) → ((s : S) → P s → OnReturn P (f s)) → Keeps P (change f)
  Keeps-change f h = record { holds = λ s p. settled (f s) s p (h s p) }
    where
      settled : (r : Outcome S) (s : S) → P s → OnReturn P r → P (settle r s).1
      settled (returns s') s p q = q
      settled (throws e) s p q = p
      settled undefined s p q = p
      settled diverges s p q = p

  pub Keeps-if :
      {A : Type ℓ} (b : Bool) {m n : Exec S A}
      → Keeps P m
      → Keeps P n
      → Keeps P (if b then m else n)
  Keeps-if true km kn = km
  Keeps-if false km kn = kn

  -- A branch that is chosen by looking at the state.
  pub Keeps-if_at :
      {A : Type ℓ} (b : S → Bool) {m n : Exec S A}
      → Keeps P m
      → Keeps P n
      → Keeps P (λ s. if b s then m s else n s)
  Keeps-if_at b {m} {n} km kn = record { holds = λ s p. branch (b s) s p }
    where
      branch : (c : Bool) (s : S) → P s → P (if c then m s else n s).1
      branch true s p = km.holds s p
      branch false s p = kn.holds s p
