-- ===== src/Types/AddStatus.antt =====
-- Protocols/YMsg/include/Protocols/YMsg/Types.h: `AddContactRequestResultStatus`.
use giblet.Common.{ℤ, pos}

abbrev pub add_pending : ℤ
add_pending = pos 0

abbrev pub general_failure : ℤ
general_failure = pos 1

abbrev pub duplicate_contact : ℤ
duplicate_contact = pos 2

abbrev pub contact_does_not_exist : ℤ
contact_does_not_exist = pos 3

abbrev pub group_already_exists : ℤ
group_already_exists = pos 8
