-- ===== src/CodeHook/Tables/Logic.antt =====
-- The opcode tables of src/CodeHook/cpuIA32_Tables.cpp for AND, BT, BTC, CMP and XOR, without the rows of
-- zeros that end them.
use giblet.Common.{none, some, List, [], ◌∷◌}
use giblet.CodeHook.Registers.{al, eax}
use giblet.CodeHook.Operand.{
  ot_gpreg, ot_gpreg8, ot_imm, ot_imm8, ot_mrm, ot_mrm8, ot_mrmr, ot_mrmr8, ot_none,
}
use giblet.CodeHook.Opcode.{OpcodeInfo, am_dir, am_enh, am_imm, am_inh, po_none, po_register, ote}
use giblet.CodeHook.Extensions.{and8i8, andi8, btci8, bti8, cmp8i8, cmpi, cmpi8, xor8i8, xori8}

unfoldable pub opcodes_and : List OpcodeInfo
opcodes_and =
    ote 0 36 am_imm po_none (some al) ot_gpreg8 ot_imm8 ot_none 1
    ∷ ote 0 37 am_imm po_none (some eax) ot_gpreg ot_imm ot_none 4
    ∷ ote 0 128 am_imm and8i8 none ot_mrm8 ot_imm8 ot_none 1
    ∷ ote 0 129 am_imm andi8 none ot_mrm ot_imm8 ot_none 1
    ∷ ote 0 131 am_imm andi8 none ot_mrm ot_imm8 ot_none 1
    ∷ ote 0 32 am_dir po_register none ot_mrm8 ot_mrmr8 ot_none 1
    ∷ ote 0 33 am_dir po_register none ot_mrm ot_mrmr ot_none 4
    ∷ ote 0 34 am_dir po_register none ot_mrmr8 ot_mrm8 ot_none 1
    ∷ ote 0 35 am_dir po_register none ot_mrmr ot_mrm ot_none 4
    ∷ []

unfoldable pub opcodes_bt : List OpcodeInfo
opcodes_bt =
    ote 15 163 am_enh po_register none ot_mrm ot_mrmr ot_none 4
    ∷ ote 15 186 am_imm bti8 none ot_mrm ot_imm8 ot_none 1
    ∷ []

unfoldable pub opcodes_btc : List OpcodeInfo
opcodes_btc =
    ote 15 187 am_enh po_register none ot_mrm ot_mrmr ot_none 4
    ∷ ote 15 186 am_imm btci8 none ot_mrm ot_imm8 ot_none 1
    ∷ []

unfoldable pub opcodes_cmp : List OpcodeInfo
opcodes_cmp =
    ote 0 60 am_imm po_none (some al) ot_gpreg8 ot_imm8 ot_none 1
    ∷ ote 0 61 am_imm po_none (some eax) ot_gpreg ot_imm ot_none 4
    ∷ ote 0 128 am_imm cmp8i8 none ot_mrm8 ot_imm8 ot_none 1
    ∷ ote 0 129 am_imm cmpi none ot_mrm ot_imm ot_none 4
    ∷ ote 0 131 am_imm cmpi8 none ot_mrm ot_imm8 ot_none 1
    ∷ ote 0 56 am_dir po_register none ot_mrm8 ot_mrmr8 ot_none 1
    ∷ ote 0 57 am_dir po_register none ot_mrm ot_mrmr ot_none 4
    ∷ ote 0 58 am_dir po_register none ot_mrmr8 ot_mrm8 ot_none 1
    ∷ ote 0 59 am_dir po_register none ot_mrmr ot_mrm ot_none 4
    ∷ ote 0 166 am_inh po_none none ot_none ot_none ot_none 1
    ∷ ote 0 167 am_inh po_none none ot_none ot_none ot_none 4
    ∷ []

unfoldable pub opcodes_xor : List OpcodeInfo
opcodes_xor =
    ote 0 52 am_imm po_none (some al) ot_gpreg8 ot_imm8 ot_none 1
    ∷ ote 0 53 am_imm po_none (some eax) ot_gpreg ot_imm ot_none 4
    ∷ ote 0 128 am_imm xor8i8 none ot_mrm8 ot_imm8 ot_none 1
    ∷ ote 0 129 am_imm xori8 none ot_mrm ot_imm8 ot_none 1
    ∷ ote 0 131 am_imm xori8 none ot_mrm ot_imm8 ot_none 1
    ∷ ote 0 48 am_dir po_register none ot_mrm8 ot_mrmr8 ot_none 1
    ∷ ote 0 49 am_dir po_register none ot_mrm ot_mrmr ot_none 4
    ∷ ote 0 50 am_dir po_register none ot_mrmr8 ot_mrm8 ot_none 1
    ∷ ote 0 51 am_dir po_register none ot_mrmr ot_mrm ot_none 4
    ∷ []
