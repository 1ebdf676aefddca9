-- ===== src/Parser/Total.antt =====
-- `PacketParser::Parse` ends on every payload.
use giblet.Common.{
  ℕ, zero, suc, ◌<◌, ◌≢◌, refl, [], ◌∷◌, ◌++◌, arith, Bytes, is_empty, ◌==◌, length, Bool-cases,
  inl, inr, ℤ, Outcome, returns, throws, undefined, diverges, ◌>>=◌,
}
use giblet.Runtime.{StringView, strtol}
use giblet.Parser.{OnKeyPair, find_terminator, value_view, parse_loop, parse}
use giblet.Parser.Terminator.{length-next, length-next_lt}

-- The payload object's own handler ends.
abbrev pub Ends : {P : Type 0} → OnKeyPair P → Type 0
Ends {P} on_key_pair = (p : P) (k : ℤ) (v : StringView) → on_key_pair p k v ≢ diverges

>>=-ne-diverges {ℓ κ} :
    {A : Type ℓ} {B : Type κ} (m : Outcome A) (f : A → Outcome B)
    → m ≢ diverges
    → ((a : A) → f a ≢ diverges)
    → (m >>= f) ≢ diverges
>>=-ne-diverges (returns a) f hm hf = hf a
>>=-ne-diverges (throws e) f hm hf = λ e. cc
>>=-ne-diverges undefined f hm hf = λ e. cc
>>=-ne-diverges diverges f hm hf = λ e. hm refl

module _ {P : Type 0} (on_key_pair : OnKeyPair P) (ends : Ends on_key_pair) (behind : Bytes) where
  parse_loop-ne-diverges :
      (fuel : ℕ) (p : P) (start : Bytes)
      → length start < fuel
      → parse_loop on_key_pair behind fuel p start ≢ diverges
  unfolding parse_loop
  parse_loop-ne-diverges zero p start h = elim h [ ]
  parse_loop-ne-diverges (suc fuel) p [] h = λ e. cc
  parse_loop-ne-diverges (suc fuel) p (c ∷ s) h =
      let key = find_terminator (c ∷ s) in
      let value = find_terminator key.next in
      let rest =
        >>=-ne-diverges
          (on_key_pair p (strtol key.token) (value_view value.token (value.stop ++ behind)))
          (λ r. parse_loop on_key_pair behind fuel r.0 value.next) (ends p _ _)
          (λ r.
            parse_loop-ne-diverges fuel r.0 value.next
              (omega (arith, length-next key.next, length-next_lt c s))) in
      elim (Bool-cases (c == 0)) [
        | inl stop ↦ rw stop (λ e. cc)
        | inr more ↦ rw more (elim (Bool-cases (is_empty key.token)) [
          | inl empty ↦ rw empty (λ e. cc)
          | inr some_key ↦ rw some_key rest
        ])
      ]

-- Whatever bytes a payload holds, the parser ends on it, if the handler of the payload object does:
-- it returns the object, throws, or runs into undefined behaviour, and never loops.
pub parse-ne-diverges :
    {P : Type 0} (on_key_pair : OnKeyPair P) (ends : Ends on_key_pair) (p : P)
    (payload behind : Bytes)
    → parse on_key_pair p payload behind ≢ diverges
unfolding parse
parse-ne-diverges on_key_pair ends p payload behind =
    parse_loop-ne-diverges on_key_pair ends behind (suc (length payload)) p payload (omega arith)
