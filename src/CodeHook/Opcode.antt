-- ===== src/CodeHook/Opcode.antt =====
-- src/CodeHook/cpuIA32_Opcode.h: what a row of the opcode tables says of an instruction.
use giblet.Common.{ℕ, Bool, true, false, Option}
use giblet.CodeHook.Registers.{Register}
use giblet.CodeHook.Operand.{OperandType}

pub data AddrMode : Type 0 where
  am_inv am_inh am_dir am_ext am_rel am_imm am_enh : AddrMode

-- `postbyte` is `po_none`, `po_register` or the opcode's extension in the ModRM byte.
pub record OpcodeInfo : Type 0 where
  pub prefix : ℕ
  pub opcode : ℕ
  pub addressing_mode : AddrMode
  pub postbyte : ℕ
  pub explicit_register : Option Register
  pub operand_type_dst : OperandType
  pub operand_type_src1 : OperandType
  pub operand_type_src2 : OperandType
  pub operand_size : ℕ
  pub is_terminator : Bool

-- `PO::REGISTER`
abbrev pub po_register : ℕ
po_register = 254

-- `PO::NONE`
abbrev pub po_none : ℕ
po_none = 255

-- The rows that `OTE_` and `OTET_` write.
abbrev pub ote :
    ℕ
    → ℕ
    → AddrMode
    → ℕ
    → Option Register
    → OperandType
    → OperandType
    → OperandType
    → ℕ
    → OpcodeInfo
ote ext inst mode po explicit dst src1 src2 size = record {
  prefix = ext;
  opcode = inst;
  addressing_mode = mode;
  postbyte = po;
  explicit_register = explicit;
  operand_type_dst = dst;
  operand_type_src1 = src1;
  operand_type_src2 = src2;
  operand_size = size;
  is_terminator = false;
}

abbrev pub otet :
    ℕ
    → ℕ
    → AddrMode
    → ℕ
    → Option Register
    → OperandType
    → OperandType
    → OperandType
    → ℕ
    → OpcodeInfo
otet ext inst mode po explicit dst src1 src2 size =
    record (ote ext inst mode po explicit dst src1 src2 size) { is_terminator = true }
