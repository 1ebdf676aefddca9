-- ===== src/CodeHook/Tables/Jumps.antt =====
-- The opcode tables of src/CodeHook/cpuIA32_Tables.cpp for CALL, the conditional jumps and JMP, without the rows of
-- zeros that end them.
use giblet.Common.{none, List, [], ◌∷◌}
use giblet.CodeHook.Operand.{ot_imm, ot_imm16, ot_mrm, ot_none, ot_rel, ot_rel8}
use giblet.CodeHook.Opcode.{OpcodeInfo, am_dir, am_enh, am_ext, am_rel, po_none, ote}
use giblet.CodeHook.Extensions.{fcall, jumpf, jumpn, ncall}

unfoldable pub opcodes_call : List OpcodeInfo
opcodes_call =
    ote 0 232 am_rel po_none none ot_none ot_rel ot_none 4
    ∷ ote 0 255 am_enh ncall none ot_none ot_mrm ot_none 4
    ∷ ote 0 154 am_ext po_none none ot_none ot_imm ot_imm16 4
    ∷ ote 0 255 am_enh fcall none ot_none ot_mrm ot_none 4
    ∷ []

unfoldable pub opcodes_jcc : List OpcodeInfo
opcodes_jcc =
    ote 0 112 am_rel po_none none ot_none ot_rel8 ot_none 1
    ∷ ote 0 113 am_rel po_none none ot_none ot_rel8 ot_none 1
    ∷ ote 0 114 am_rel po_none none ot_none ot_rel8 ot_none 1
    ∷ ote 0 115 am_rel po_none none ot_none ot_rel8 ot_none 1
    ∷ ote 0 116 am_rel po_none none ot_none ot_rel8 ot_none 1
    ∷ ote 0 117 am_rel po_none none ot_none ot_rel8 ot_none 1
    ∷ ote 0 118 am_rel po_none none ot_none ot_rel8 ot_none 1
    ∷ ote 0 119 am_rel po_none none ot_none ot_rel8 ot_none 1
    ∷ ote 0 120 am_rel po_none none ot_none ot_rel8 ot_none 1
    ∷ ote 0 121 am_rel po_none none ot_none ot_rel8 ot_none 1
    ∷ ote 0 122 am_rel po_none none ot_none ot_rel8 ot_none 1
    ∷ ote 0 123 am_rel po_none none ot_none ot_rel8 ot_none 1
    ∷ ote 0 124 am_rel po_none none ot_none ot_rel8 ot_none 1
    ∷ ote 0 125 am_rel po_none none ot_none ot_rel8 ot_none 1
    ∷ ote 0 126 am_rel po_none none ot_none ot_rel8 ot_none 1
    ∷ ote 0 127 am_rel po_none none ot_none ot_rel8 ot_none 1
    ∷ ote 0 227 am_rel po_none none ot_none ot_rel8 ot_none 1
    ∷ ote 15 128 am_rel po_none none ot_none ot_rel ot_none 4
    ∷ ote 15 129 am_rel po_none none ot_none ot_rel ot_none 4
    ∷ ote 15 130 am_rel po_none none ot_none ot_rel ot_none 4
    ∷ ote 15 131 am_rel po_none none ot_none ot_rel ot_none 4
    ∷ ote 15 132 am_rel po_none none ot_none ot_rel ot_none 4
    ∷ ote 15 133 am_rel po_none none ot_none ot_rel ot_none 4
    ∷ ote 15 134 am_rel po_none none ot_none ot_rel ot_none 4
    ∷ ote 15 135 am_rel po_none none ot_none ot_rel ot_none 4
    ∷ ote 15 136 am_rel po_none none ot_none ot_rel ot_none 4
    ∷ ote 15 137 am_rel po_none none ot_none ot_rel ot_none 4
    ∷ ote 15 138 am_rel po_none none ot_none ot_rel ot_none 4
    ∷ ote 15 139 am_rel po_none none ot_none ot_rel ot_none 4
    ∷ ote 15 140 am_rel po_none none ot_none ot_rel ot_none 4
    ∷ ote 15 141 am_rel po_none none ot_none ot_rel ot_none 4
    ∷ ote 15 142 am_rel po_none none ot_none ot_rel ot_none 4
    ∷ ote 15 143 am_rel po_none none ot_none ot_rel ot_none 4
    ∷ []

unfoldable pub opcodes_jmp : List OpcodeInfo
opcodes_jmp =
    ote 0 235 am_rel po_none none ot_none ot_rel8 ot_none 1
    ∷ ote 0 233 am_rel po_none none ot_none ot_rel ot_none 4
    ∷ ote 0 255 am_enh jumpn none ot_none ot_mrm ot_none 4
    ∷ ote 0 234 am_ext po_none none ot_none ot_imm ot_imm16 4
    ∷ ote 0 255 am_dir jumpf none ot_none ot_mrm ot_none 4
    ∷ []
