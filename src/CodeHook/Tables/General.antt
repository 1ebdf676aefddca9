-- ===== src/CodeHook/Tables/General.antt =====
-- The opcode tables of src/CodeHook/cpuIA32_Tables.cpp for RET, LOOP, the adjustments, LEA, INT3 and STOS, without the rows of
-- zeros that end them.
use giblet.Common.{none, some, List, [], ◌∷◌}
use giblet.CodeHook.Registers.{edi}
use giblet.CodeHook.Operand.{ot_imm16, ot_imm8, ot_mrm, ot_mrmr, ot_none, ot_rel8}
use giblet.CodeHook.Opcode.{
  OpcodeInfo, am_enh, am_imm, am_inh, am_rel, po_none, po_register, ote, otet,
}

unfoldable pub opcodes_general : List OpcodeInfo
opcodes_general =
    ote 0 195 am_inh po_none none ot_none ot_none ot_none 4
    ∷ ote 0 203 am_inh po_none none ot_none ot_none ot_none 4
    ∷ ote 0 194 am_imm po_none none ot_none ot_imm16 ot_none 2
    ∷ ote 0 202 am_imm po_none none ot_none ot_imm16 ot_none 2
    ∷ ote 0 226 am_rel po_none none ot_none ot_rel8 ot_none 1
    ∷ ote 0 225 am_rel po_none none ot_none ot_rel8 ot_none 1
    ∷ ote 0 224 am_rel po_none none ot_none ot_rel8 ot_none 1
    ∷ ote 0 153 am_inh po_none none ot_none ot_none ot_none 4
    ∷ ote 0 55 am_inh po_none none ot_none ot_none ot_none 4
    ∷ ote 0 213 am_imm po_none none ot_none ot_imm8 ot_none 1
    ∷ ote 0 212 am_imm po_none none ot_none ot_imm8 ot_none 1
    ∷ ote 0 63 am_inh po_none none ot_none ot_none ot_none 4
    ∷ ote 0 141 am_enh po_register none ot_mrmr ot_mrm ot_none 4
    ∷ otet 0 204 am_inh po_none none ot_none ot_none ot_none 0
    ∷ []

unfoldable pub opcodes_stos : List OpcodeInfo
opcodes_stos =
    ote 0 170 am_inh po_none (some edi) ot_none ot_none ot_none 1
    ∷ ote 0 171 am_inh po_none (some edi) ot_none ot_none ot_none 4
    ∷ ote 0 170 am_inh po_none (some edi) ot_none ot_none ot_none 1
    ∷ ote 0 171 am_inh po_none (some edi) ot_none ot_none ot_none 4
    ∷ []
