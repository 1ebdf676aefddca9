-- ===== src/CodeHook/Tables/Check.antt =====
-- src/CodeHook/cpuIA32_Tables.cpp, `CheckOpcodes`: what a debug build asserts of every row when it starts.
use giblet.Common.{Bool, true, false, not, ◌&&◌, ◌||◌, ◌==◌, List, [], ◌∷◌}
use giblet.CodeHook.Operand.{
  OperandType, ot_none, ot_imm, ot_imm16, is_register, is_modrm, is_relative, is_immediate,
}
use giblet.CodeHook.Opcode.{
  AddrMode, am_inv, am_inh, am_dir, am_ext, am_rel, am_imm, am_enh, OpcodeInfo, po_register,
  po_none,
}

unfoldable pub is_none : OperandType → Bool
is_none ot_none = true
is_none _ = false

unfoldable pub is_imm : OperandType → Bool
is_imm ot_imm = true
is_imm _ = false

unfoldable pub is_imm16 : OperandType → Bool
is_imm16 ot_imm16 = true
is_imm16 _ = false

-- Whether one of the operands is in the ModRM byte.
abbrev any_modrm : OpcodeInfo → Bool
any_modrm i =
    is_modrm i.operand_type_dst || is_modrm i.operand_type_src1 || is_modrm i.operand_type_src2

abbrev has_postbyte : OpcodeInfo → Bool
has_postbyte i = not (i.postbyte == po_none)

-- The assertion of the switch on the addressing mode.
unfoldable pub check_mode : AddrMode → OpcodeInfo → Bool
check_mode am_rel i =
    not (is_relative i.operand_type_dst)
    && is_relative i.operand_type_src1
    && not (is_relative i.operand_type_src2)
check_mode am_enh i = has_postbyte i && any_modrm i
check_mode am_ext i =
    is_none i.operand_type_dst && is_imm i.operand_type_src1 && is_imm16 i.operand_type_src2
check_mode am_dir i =
    (is_modrm i.operand_type_dst && is_modrm i.operand_type_src1 && is_none i.operand_type_src2)
    || (is_none i.operand_type_dst && is_modrm i.operand_type_src1 && is_none i.operand_type_src2)
check_mode am_imm i =
    (is_none i.operand_type_dst && is_immediate i.operand_type_src1 && is_none i.operand_type_src2)
    || (is_register i.operand_type_dst
        && is_immediate i.operand_type_src1
        && is_none i.operand_type_src2)
    || (is_modrm i.operand_type_dst
        && is_immediate i.operand_type_src1
        && is_none i.operand_type_src2)
    || ((i.postbyte == po_register)
        && is_modrm i.operand_type_dst
        && is_modrm i.operand_type_src1
        && is_immediate i.operand_type_src2)
check_mode am_inh i =
    (is_none i.operand_type_dst && is_none i.operand_type_src1 && is_none i.operand_type_src2)
    || (is_none i.operand_type_dst
        && is_register i.operand_type_src1
        && is_none i.operand_type_src2)
    || (is_register i.operand_type_dst
        && is_none i.operand_type_src1
        && is_none i.operand_type_src2)
check_mode am_inv i = true

-- Every assertion on a row.
unfoldable pub check_row : OpcodeInfo → Bool
check_row i =
    (not (any_modrm i) || has_postbyte i)
    && (not (has_postbyte i) || any_modrm i)
    && check_mode i.addressing_mode i

unfoldable pub check_table : List OpcodeInfo → Bool
check_table [] = true
check_table (i ∷ is) = check_row i && check_table is

-- Whether no assertion fails.
unfoldable pub check_opcodes : List (List OpcodeInfo) → Bool
check_opcodes [] = true
check_opcodes (t ∷ ts) = check_table t && check_opcodes ts
