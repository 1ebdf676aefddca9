-- ===== src/Runtime.antt =====
-- The conversions of the C and C++ runtime that the program calls: `std::to_string`, `strtol`,
-- `atoi` and `std::stol`, with `int` and `long` of 32 bits, and `std::string_view`. A view knows the
-- bytes behind its end, because `atoi(value.data())` and `std::stol(value.data())` read on there.
pub mod Numbers
use giblet.Common.{
  ℕ, zero, suc, ◌+◌, ◌-◌, ◌*◌, ◌/◌, ◌%◌, ◌^◌, ◌≡◌, refl, Bool, true, false, not, ◌&&◌, ◌||◌, [],
  ◌∷◌, ◌++◌, Bytes, codes, is_empty, ltb, leb, ◌==◌, if◌then◌else◌, ℤ, pos, negsuc, Outcome,
  returns, throws, undefined, ◌>>=◌, invalid_argument, out_of_range,
}

-- `none` is the view that no bytes back: its `data()` is a null pointer. `rest` is what the buffer
-- holds behind the view's last character, up to the end of the buffer.
pub data StringView : Type 0 where
  null : StringView
  view : Bytes → Bytes → StringView

-- The characters of a view.
abbrev pub chars : StringView → Bytes
chars null = []
chars (view s rest) = s

-- A view of a string that ends in a zero byte, such as a literal or a `std::string`.
abbrev pub view_of : Bytes → StringView
view_of s = view s (0 ∷ [])

digits : ℕ → ℕ → Bytes → Bytes
digits zero n out = out
digits (suc k) n out =
    let c = b'0' + n % 10 in
    let rest = digits k (n / 10) (c ∷ out) in if ltb n 10 then c ∷ out else rest

-- The decimal digits of a number.
unfoldable pub decimal : ℕ → Bytes
unfolding digits
decimal n = digits (suc n) n []

unfoldable pub to_string : ℤ → Bytes
unfolding decimal
to_string (pos n) = decimal n
to_string (negsuc n) = b'-' ∷ decimal (suc n)

abbrev pub is_digit : ℕ → Bool
is_digit c = leb b'0' c && leb c b'9'

abbrev pub is_space : ℕ → Bool
is_space c = c == b' ' || (leb 9 c && leb c 13)

unfoldable pub skip_spaces : Bytes → Bytes
skip_spaces [] = []
skip_spaces (c ∷ s) = if is_space c then skip_spaces s else c ∷ s

-- The number that the digits at the front spell behind `n`.
unfoldable pub scan_value : ℕ → Bytes → ℕ
scan_value n [] = n
scan_value n (c ∷ s) = if is_digit c then scan_value (n * 10 + (c - b'0')) s else n

unfoldable pub after_digits : Bytes → Bytes
after_digits [] = []
after_digits (c ∷ s) = if is_digit c then after_digits s else c ∷ s

-- The sign at the front, and what follows it.
unfoldable pub has_minus : Bytes → Bool
has_minus [] = false
has_minus (c ∷ s) = c == b'-'

unfoldable pub skip_sign : Bytes → Bytes
skip_sign [] = []
skip_sign (c ∷ s) = if c == b'-' || c == b'+' then s else c ∷ s

abbrev pub long_max : ℕ
long_max = 2 ^ 31 - 1

-- A value outside `long` is replaced by the nearest one inside.
unfoldable pub saturate : Bool → ℕ → ℤ
saturate false n = if ltb long_max n then pos long_max else pos n
saturate true zero = pos 0
saturate true (suc n) = if ltb long_max n then negsuc long_max else negsuc n

-- `strtol(s, nullptr, 10)` on a string that ends behind `s`.
unfoldable pub strtol : Bytes → ℤ
unfolding skip_spaces skip_sign has_minus scan_value saturate
strtol s = let t = skip_spaces s in saturate (has_minus t) (scan_value 0 (skip_sign t))

-- The number at the front of `m` ends before `m` does.
unfoldable pub is_terminated : Bytes → Bool
unfolding after_digits skip_sign skip_spaces
is_terminated m = not (is_empty (after_digits (skip_sign (skip_spaces m))))

-- `atoi(value.data())`: undefined at a null pointer and where the number reaches the buffer's end.
unfoldable pub atoi : StringView → Outcome ℤ
unfolding strtol is_terminated
atoi null = undefined
atoi (view s rest) = if is_terminated (s ++ rest) then returns (strtol (s ++ rest)) else undefined

-- The C string at the front of `m`: undefined if no zero byte ends it.
unfoldable pub c_string : Bytes → Outcome Bytes
c_string [] = undefined
c_string (c ∷ m) =
    let rest = c_string m in if c == 0 then returns [] else (rest >>= λ s. returns (c ∷ s))

starts_with_digit : Bytes → Bool
starts_with_digit [] = false
starts_with_digit (c ∷ s) = is_digit c

in_range : Bool → ℕ → Bool
in_range false n = leb n long_max
in_range true n = leb n (suc long_max)

stol_string : Bytes → Outcome ℤ
unfolding skip_spaces skip_sign has_minus scan_value saturate starts_with_digit in_range
stol_string s =
    let t = skip_spaces s in
    let n = scan_value 0 (skip_sign t) in
    if not (starts_with_digit (skip_sign t))
    then throws invalid_argument
    else if not (in_range (has_minus t) n)
    then throws out_of_range
    else returns (saturate (has_minus t) n)

-- `std::stol(value.data())`: the pointer is first copied into a `std::string`.
unfoldable pub stol : StringView → Outcome ℤ
unfolding c_string stol_string
stol null = undefined
stol (view s rest) = c_string (s ++ rest) >>= stol_string

print_negative : to_string (negsuc 41) ≡ codes "-42"
unfolding to_string
print_negative = refl

read_saturates : strtol (codes " 99999999999x") ≡ pos long_max
unfolding strtol
read_saturates = refl

read_on : atoi (view (codes "1") (codes "2;")) ≡ returns (pos 12)
unfolding atoi
read_on = refl
