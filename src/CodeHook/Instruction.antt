-- ===== src/CodeHook/Instruction.antt =====
-- src/CodeHook/cpuIA32_Instruction.h: one decoded instruction. The members that print it are compiled
-- for testing only.
pub mod Decode
pub mod Emit
pub mod Reading
pub mod Sizes
pub mod RoundTrip
pub mod Relocation
pub mod Reach
pub mod Octets
pub mod Ends
pub mod Failure
pub mod First
use giblet.Common.{
  ℕ, zero, suc, ◌+◌, ◌-◌, ◌%◌, ◌^◌, Bool, true, false, not, ◌&&◌, ◌||◌, ◌==◌, if◌then◌else◌, Option,
  none, some, List, [], ◌∷◌, ◌++◌, length, Bytes, Outcome, returns, throws, undefined, ◌>>=◌,
  runtime_error,
}
use giblet.CodeHook.Memory.{Memory, store, next_int, int_bytes}
use giblet.CodeHook.Operand.{
  OperandType, ot_gpreg, ot_gpreg8, ot_sreg, ot_mrmr, ot_mrmsr, ot_mrmr8, ot_mrm, ot_mrm8, ot_imm,
  ot_imm8, ot_imm16, ot_imm32, ot_imm64, ot_rel, ot_rel8, ot_rel16, ot_rel32, ot_rel64, ot_none,
  ot_pend, Operand, no_operand, create_operand, set_value, is_relative, is_register, is_modrm,
  size_of_operand_by_type,
}
use giblet.CodeHook.Postbyte.{
  PostByte, no_postbyte, assign, get_mode, get_register_or_opcode, get_register_or_mode, get_base,
  reg_ind, reg_ind_disp, reg_ind_disp8, pbyte_disp, sibbase_disp,
}
use giblet.CodeHook.Opcode.{OpcodeInfo, po_none, po_register}
use giblet.CodeHook.Tables.{opcodes32_table}

-- `prefix_bytes` is the used part of the array, and its length is `m_PrefixByteCount`.
pub record Instruction : Type 0 where
  pub info : Option OpcodeInfo
  pub address : ℕ
  pub code_size : ℕ
  pub prefix_bytes : Bytes
  pub postbyte : PostByte
  pub displacement : Operand
  pub operand_dst : Operand
  pub operand_src1 : Operand
  pub operand_src2 : Operand

-- `Reset`: the operands are left as they are.
unfoldable pub reset : Instruction → Instruction
reset i = record i {
  info = none;
  address = 0;
  code_size = 0;
  prefix_bytes = [];
  postbyte = no_postbyte;
}

-- `Instruction()`
abbrev pub new_instruction : Instruction
new_instruction = record {
  info = none;
  address = 0;
  code_size = 0;
  prefix_bytes = [];
  postbyte = no_postbyte;
  displacement = no_operand;
  operand_dst = no_operand;
  operand_src1 = no_operand;
  operand_src2 = no_operand;
}
