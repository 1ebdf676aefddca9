-- ===== src/CodeHook/Tables/Arithmetic.antt =====
-- The opcode tables of src/CodeHook/cpuIA32_Tables.cpp for ADC, ADD, IMUL, IDIV and SUB, without the rows of
-- zeros that end them.
use giblet.Common.{none, some, List, [], ◌∷◌}
use giblet.CodeHook.Registers.{al, eax}
use giblet.CodeHook.Operand.{
  ot_gpreg, ot_gpreg8, ot_imm, ot_imm8, ot_mrm, ot_mrm8, ot_mrmr, ot_mrmr8, ot_none,
}
use giblet.CodeHook.Opcode.{OpcodeInfo, am_dir, am_enh, am_imm, po_none, po_register, ote}
use giblet.CodeHook.Extensions.{
  adc8i8, adci, adci8, add8i8, addi, addi8, idiv, idiv8, imul, imul8, sub8i8, subi, subi8,
}

unfoldable pub opcodes_adc : List OpcodeInfo
opcodes_adc =
    ote 0 20 am_imm po_none (some al) ot_gpreg8 ot_imm8 ot_none 1
    ∷ ote 0 21 am_imm po_none (some eax) ot_gpreg ot_imm ot_none 4
    ∷ ote 0 128 am_imm adc8i8 none ot_mrm8 ot_imm8 ot_none 1
    ∷ ote 0 129 am_imm adci none ot_mrm ot_imm ot_none 4
    ∷ ote 0 131 am_imm adci8 none ot_mrm ot_imm8 ot_none 1
    ∷ ote 0 16 am_dir po_register none ot_mrm8 ot_mrmr8 ot_none 1
    ∷ ote 0 17 am_dir po_register none ot_mrm ot_mrmr ot_none 4
    ∷ ote 0 18 am_dir po_register none ot_mrmr8 ot_mrm8 ot_none 1
    ∷ ote 0 19 am_dir po_register none ot_mrmr ot_mrm ot_none 4
    ∷ []

unfoldable pub opcodes_add : List OpcodeInfo
opcodes_add =
    ote 0 4 am_imm po_none (some al) ot_gpreg8 ot_imm8 ot_none 1
    ∷ ote 0 5 am_imm po_none (some eax) ot_gpreg ot_imm ot_none 4
    ∷ ote 0 128 am_imm add8i8 none ot_mrm8 ot_imm8 ot_none 1
    ∷ ote 0 129 am_imm addi none ot_mrm ot_imm ot_none 4
    ∷ ote 0 131 am_imm addi8 none ot_mrm ot_imm8 ot_none 1
    ∷ ote 0 0 am_dir po_register none ot_mrm8 ot_mrmr8 ot_none 1
    ∷ ote 0 1 am_dir po_register none ot_mrm ot_mrmr ot_none 4
    ∷ ote 0 2 am_dir po_register none ot_mrmr8 ot_mrm8 ot_none 1
    ∷ ote 0 3 am_dir po_register none ot_mrmr ot_mrm ot_none 4
    ∷ []

unfoldable pub opcodes_mul : List OpcodeInfo
opcodes_mul =
    ote 0 246 am_enh imul8 (some al) ot_mrm8 ot_imm8 ot_none 1
    ∷ ote 0 247 am_enh imul (some eax) ot_mrm ot_imm ot_none 4
    ∷ ote 15 175 am_enh po_register none ot_mrmr ot_mrm ot_none 4
    ∷ ote 0 107 am_enh po_register none ot_mrmr ot_mrm ot_imm8 1
    ∷ ote 0 107 am_imm po_register none ot_mrmr ot_imm8 ot_none 1
    ∷ ote 0 105 am_imm po_register none ot_mrmr ot_mrm ot_imm 4
    ∷ []

unfoldable pub opcodes_div : List OpcodeInfo
opcodes_div =
    ote 0 246 am_enh idiv8 none ot_none ot_mrm8 ot_none 1
    ∷ ote 0 247 am_enh idiv none ot_none ot_mrm ot_none 4
    ∷ []

unfoldable pub opcodes_sub : List OpcodeInfo
opcodes_sub =
    ote 0 44 am_imm po_none (some al) ot_gpreg8 ot_imm8 ot_none 1
    ∷ ote 0 45 am_imm po_none (some eax) ot_gpreg ot_imm ot_none 4
    ∷ ote 0 128 am_imm sub8i8 none ot_mrm8 ot_imm8 ot_none 1
    ∷ ote 0 129 am_imm subi none ot_mrm ot_imm ot_none 4
    ∷ ote 0 131 am_imm subi8 none ot_mrm ot_imm8 ot_none 1
    ∷ ote 0 40 am_dir po_register none ot_mrm8 ot_mrmr8 ot_none 1
    ∷ ote 0 41 am_dir po_register none ot_mrm ot_mrmr ot_none 4
    ∷ ote 0 42 am_dir po_register none ot_mrmr8 ot_mrm8 ot_none 1
    ∷ ote 0 43 am_dir po_register none ot_mrmr ot_mrm ot_none 4
    ∷ []
