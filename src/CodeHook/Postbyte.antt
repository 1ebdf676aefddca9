-- ===== src/CodeHook/Postbyte.antt =====
-- src/CodeHook/cpuIA32_Postbyte.h, cpuIA32_Postbyte.cpp and cpu_PostByte.h: the ModRM byte that follows
-- an opcode and the SIB byte that may follow it, read as bit fields with the lowest bits first.
use giblet.Common.{ℕ, ◌+◌, ◌/◌, ◌%◌, Bool, true, false, not, ◌&&◌, ◌==◌, if◌then◌else◌}
use giblet.CodeHook.Memory.{Memory}

-- `PostByteT`
pub record PostByteT : Type 0 where
  pub has_data : Bool
  pub data_value : ℕ

abbrev pub no_data : PostByteT
no_data = record { has_data = false; data_value = 0 }

abbrev pub set_data_value : ℕ → PostByteT
set_data_value d = record { has_data = true; data_value = d }

pub record PostByte : Type 0 where
  pub mod_rm : PostByteT
  pub sib : PostByteT

-- `PostByte()` and `Reset`
abbrev pub no_postbyte : PostByte
no_postbyte = record { mod_rm = no_data; sib = no_data }

-- The three bit fields of a byte.
abbrev low3 : ℕ → ℕ
low3 d = d % 8

abbrev middle3 : ℕ → ℕ
middle3 d = d / 8 % 8

abbrev high2 : ℕ → ℕ
high2 d = d / 64 % 4

abbrev pub get_mode : PostByte → ℕ
get_mode p = high2 p.mod_rm.data_value

abbrev pub get_register_or_opcode : PostByte → ℕ
get_register_or_opcode p = middle3 p.mod_rm.data_value

abbrev pub get_register_or_mode : PostByte → ℕ
get_register_or_mode p = low3 p.mod_rm.data_value

abbrev pub get_base : PostByte → ℕ
get_base p = low3 p.sib.data_value

abbrev pub get_index : PostByte → ℕ
get_index p = middle3 p.sib.data_value

abbrev pub get_scale : PostByte → ℕ
get_scale p = high2 p.sib.data_value

-- `MODE`
abbrev pub reg_ind : ℕ
reg_ind = 0

abbrev pub reg_ind_disp8 : ℕ
reg_ind_disp8 = 1

abbrev pub reg_ind_disp : ℕ
reg_ind_disp = 2

abbrev pub reg : ℕ
reg = 3

-- `REGS`
abbrev pub pbyte_sib : ℕ
pbyte_sib = 4

abbrev pub pbyte_disp : ℕ
pbyte_disp = 5

abbrev pub sibbase_disp : ℕ
sibbase_disp = 5

abbrev pub sibindex_none : ℕ
sibindex_none = 4

unfoldable pub get_has_base : PostByte → Bool
get_has_base p = not ((sibbase_disp == get_base p) && (reg_ind == get_mode p))

unfoldable pub get_has_index : PostByte → Bool
get_has_index p = not (sibindex_none == get_index p)

unfoldable pub is_indirect : PostByte → Bool
is_indirect p = not (get_mode p == reg)

-- `assign`: the postbytes, the number of bytes that they take and the iterator.
unfoldable pub assign : Memory → ℕ → Bool → PostByte → PostByte × ℕ × ℕ
assign m iter auto_inc p =
    let with_mod_rm = record p { mod_rm = set_data_value (m iter) } in
    let has_sib =
      not (get_mode with_mod_rm == reg) && (get_register_or_mode with_mod_rm == pbyte_sib) in
    let read =
      if has_sib then record with_mod_rm { sib = set_data_value (m (iter + 1)) } else with_mod_rm in
    (
      read,
      if has_sib then 2 else 1,
      if auto_inc then (if read.sib.has_data then iter + 2 else iter + 1) else iter,
    )
