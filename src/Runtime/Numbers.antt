-- ===== src/Runtime/Numbers.antt =====
-- Reading back what was printed: `strtol` after `to_string`, with anything but a digit behind.
use giblet.Common.{
  All, ℕ, zero, suc, ◌+◌, ◌/◌, ◌%◌, ◌≤◌, ◌<◌, ◌≡◌, refl, sym, ap, ◌∙◌, true, false, [], ◌∷◌, ◌++◌,
  arith, Bytes, pos,
}
use giblet.Runtime.{
  digits, decimal, to_string, is_digit, scan_value, saturate, strtol, long_max, starts_with_digit,
}

-- What stands behind a number does not continue it.
abbrev pub EndsNumber : Bytes → Type 0
EndsNumber [] = Unit
EndsNumber (c ∷ s) = is_digit c ≡ false

digits-append : (k n : ℕ) (out t : Bytes) → digits k n (out ++ t) ≡ digits k n out ++ t
unfolding digits
digits-append zero n out t = refl
digits-append (suc k) n out t = ground (arith, digits-append k (n / 10) ((b'0' + n % 10) ∷ out) t)

scan_value-digits :
    (k n : ℕ) (out : Bytes) → n < k → scan_value 0 (digits k n out) ≡ scan_value n out
unfolding digits scan_value
scan_value-digits zero n out h = elim h [ ]
scan_value-digits (suc k) n out h =
    ground (arith, scan_value-digits k (n / 10) ((b'0' + n % 10) ∷ out))

scan_value_end : (n : ℕ) (t : Bytes) → EndsNumber t → scan_value n t ≡ n
unfolding scan_value
scan_value_end n [] e = refl
scan_value_end n (c ∷ t) e = rw e

-- The number in front of a text that does not continue it is read as printed.
pub scan_value-decimal : (n : ℕ) (t : Bytes) → EndsNumber t → scan_value 0 (decimal n ++ t) ≡ n
unfolding decimal
scan_value-decimal n t e =
    ap (scan_value 0) (sym (digits-append (suc n) n [] t))
    ∙ scan_value-digits (suc n) n t (omega arith)
    ∙ scan_value_end n t e

starts-digits :
    (k n c : ℕ) (out : Bytes) → is_digit c ≡ true → starts_with_digit (digits k n (c ∷ out)) ≡ true
unfolding digits starts_with_digit
starts-digits zero n c out h = h
starts-digits (suc k) n c out h = ground (arith, starts-digits k (n / 10) (b'0' + n % 10) (c ∷ out))

starts-decimal : (n : ℕ) (t : Bytes) → starts_with_digit (decimal n ++ t) ≡ true
unfolding decimal digits starts_with_digit
starts-decimal n t = ground (
  arith,
  digits-append n (n / 10) ((b'0' + n % 10) ∷ []) t,
  starts-digits n (n / 10) (b'0' + n % 10) t,
)

-- At a digit `strtol` skips neither spaces nor a sign.
strtol_at_digit :
    (s : Bytes) → starts_with_digit s ≡ true → strtol s ≡ saturate false (scan_value 0 s)
unfolding strtol starts_with_digit
strtol_at_digit [] h = cc
strtol_at_digit (c ∷ s) h = ground arith

-- A printed number within `long` is read back, whatever stands behind it that is not a digit.
pub strtol-to_string :
    (n : ℕ) (t : Bytes) → n ≤ long_max → EndsNumber t → strtol (to_string (pos n) ++ t) ≡ pos n
unfolding to_string saturate
strtol-to_string n t h e =
    strtol_at_digit (decimal n ++ t) (starts-decimal n t)
    ∙ ap (saturate false) (scan_value-decimal n t e)
    ∙ ground arith

-- A printed number is one digit or more.
All-digits :
    (k n : ℕ) (out : Bytes)
    → All (λ c. is_digit c ≡ true) out
    → All (λ c. is_digit c ≡ true) (digits k n out)
unfolding digits
All-digits zero n out h = h
All-digits (suc k) n out h = ground (arith, All-digits k (n / 10) ((b'0' + n % 10) ∷ out))

pub decimal_shape :
    (n : ℕ) → (c : ℕ) × (s : Bytes) × (decimal n ≡ c ∷ s) × All (λ c. is_digit c ≡ true) (c ∷ s)
decimal_shape n =
    go (decimal n) (starts-decimal n []) (unfold decimal in All-digits (suc n) n [] tt)
  where
    go :
        (t : Bytes)
        → starts_with_digit (t ++ []) ≡ true
        → All (λ c. is_digit c ≡ true) t
        → (c : ℕ) × (s : Bytes) × (t ≡ c ∷ s) × All (λ c. is_digit c ≡ true) (c ∷ s)
    go [] h all = unfold starts_with_digit in cc
    go (c ∷ s) h all = (c, s, refl, all)
