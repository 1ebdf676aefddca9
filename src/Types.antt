-- ===== src/Types.antt =====
-- Protocols/YMsg/include/Protocols/YMsg/Types.h. A variable of one of these enums holds any `int`,
-- since `to_enum` converts without a test: it is modelled by its number.
pub mod AddStatus
use giblet.Common.{ℤ, pos, negsuc, Outcome, returns, ◌>>=◌}
use giblet.Runtime.{StringView, atoi}

abbrev pub Availability : Type 0
Availability = ℤ

abbrev pub offline : Availability
offline = negsuc 0

abbrev pub available : Availability
available = pos 0

abbrev pub busy : Availability
busy = pos 2

abbrev pub invisible : Availability
invisible = pos 12

abbrev pub custom : Availability
custom = pos 99

abbrev pub idle : Availability
idle = pos 999

-- `AuthenticationMethod::None` and `InApp`.
abbrev pub method_none : ℤ
method_none = pos 0

abbrev pub method_in_app : ℤ
method_in_app = pos 1

-- `TextEncoding::None`.
abbrev pub encoding_none : ℤ
encoding_none = pos 1

-- `ContactBlockedStatus`.
abbrev pub status_blocked : ℤ
status_blocked = pos 1

abbrev pub status_unblocked : ℤ
status_unblocked = pos 2

-- `ContactBlockedFailedReason::None`.
abbrev pub reason_none : ℤ
reason_none = negsuc 0

-- `RemoveContactStatus`.
abbrev pub remove_success : ℤ
remove_success = pos 0

abbrev pub remove_general_failure : ℤ
remove_general_failure = pos 1

-- The test of an enum's values, which lets every number pass.
validate_enum_conversion : ℤ → ℤ
validate_enum_conversion value = value

-- `to_enum`: `atoi` on the view's pointer.
unfoldable pub to_enum : StringView → Outcome ℤ
unfolding atoi validate_enum_conversion
to_enum value = atoi value >>= λ n. returns (validate_enum_conversion n)
