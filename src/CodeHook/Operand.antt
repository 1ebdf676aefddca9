-- ===== src/CodeHook/Operand.antt =====
-- src/CodeHook/cpuIA32_Operand.h, with the tests of cpuIA32_Tables.cpp and the sizes of
-- cpuIA32_Translator.cpp: the operands of an instruction. The assertions are those of a debug build and
-- are left out, as in a release build; so are the floating-point values, which nothing sets.
use giblet.Common.{ℕ, ◌*◌, ◌%◌, ◌^◌, Bool, true, false}

pub data OperandType : Type 0 where
  ot_gpreg ot_gpreg8 ot_sreg : OperandType
  ot_mrmr ot_mrmsr ot_mrmr8 ot_mrm ot_mrm8 : OperandType
  ot_imm ot_imm8 ot_imm16 ot_imm32 ot_imm64 : OperandType
  ot_rel ot_rel8 ot_rel16 ot_rel32 ot_rel64 : OperandType
  ot_none ot_pend : OperandType

unfoldable pub is_register : OperandType → Bool
is_register ot_gpreg = true
is_register ot_gpreg8 = true
is_register ot_sreg = true
is_register _ = false

unfoldable pub is_modrm : OperandType → Bool
is_modrm ot_mrmr = true
is_modrm ot_mrmsr = true
is_modrm ot_mrmr8 = true
is_modrm ot_mrm = true
is_modrm ot_mrm8 = true
is_modrm _ = false

unfoldable pub is_relative : OperandType → Bool
is_relative ot_rel = true
is_relative ot_rel8 = true
is_relative ot_rel16 = true
is_relative ot_rel32 = true
is_relative ot_rel64 = true
is_relative _ = false

unfoldable pub is_immediate : OperandType → Bool
is_immediate ot_imm = true
is_immediate ot_imm8 = true
is_immediate ot_imm16 = true
is_immediate ot_imm32 = true
is_immediate ot_imm64 = true
is_immediate _ = false

-- `MACHINE_SIZE`
abbrev pub machine_size : ℕ
machine_size = 4

unfoldable pub size_of_operand_by_type : OperandType → ℕ
size_of_operand_by_type ot_mrm = machine_size
size_of_operand_by_type ot_mrm8 = 1
size_of_operand_by_type ot_imm = machine_size
size_of_operand_by_type ot_imm8 = 1
size_of_operand_by_type ot_imm16 = 2
size_of_operand_by_type ot_imm32 = 4
size_of_operand_by_type ot_imm64 = 8
size_of_operand_by_type ot_rel = machine_size
size_of_operand_by_type ot_rel8 = 1
size_of_operand_by_type ot_rel16 = 2
size_of_operand_by_type ot_rel32 = 4
size_of_operand_by_type ot_rel64 = 8
size_of_operand_by_type _ = 0

pub record Operand : Type 0 where
  pub type : OperandType
  pub size : ℕ
  pub int_value : ℕ

-- `Operand()`
abbrev pub no_operand : Operand
no_operand = record { type = ot_none; size = 0; int_value = 0 }

abbrev pub create_operand : OperandType → Operand
create_operand t = record { type = t; size = 0; int_value = 0 }

-- `setValue<T>` for an unsigned `T` of `n` bytes: the value is converted to a `T`.
abbrev pub set_value : ℕ → OperandType → ℕ → Operand
set_value n t v = record { type = t; size = n; int_value = v % 2 ^ (8 * n) }
