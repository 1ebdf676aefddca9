-- ===== src/CodeHook/Tables/Moves.antt =====
-- The opcode tables of src/CodeHook/cpuIA32_Tables.cpp for MOV, PUSH and POP, without the rows of
-- zeros that end them.
use giblet.Common.{none, some, List, [], ◌∷◌}
use giblet.CodeHook.Registers.{
  ah, al, bh, bl, ch, cl, cs, dh, dl, ds, eax, ebp, ebx, ecx, edi, edx, es, esi, esp, fs, gs, ss,
}
use giblet.CodeHook.Operand.{
  ot_gpreg, ot_gpreg8, ot_imm, ot_imm8, ot_mrm, ot_mrm8, ot_mrmr, ot_mrmr8, ot_mrmsr, ot_none,
  ot_sreg,
}
use giblet.CodeHook.Opcode.{OpcodeInfo, am_enh, am_imm, am_inh, po_none, po_register, ote}
use giblet.CodeHook.Extensions.{pop, push}

unfoldable pub opcodes_mov : List OpcodeInfo
opcodes_mov =
    ote 0 136 am_enh po_register none ot_mrm8 ot_mrmr8 ot_none 1
    ∷ ote 0 137 am_enh po_register none ot_mrm ot_mrmr ot_none 4
    ∷ ote 0 138 am_enh po_register none ot_mrmr8 ot_mrm8 ot_none 1
    ∷ ote 0 139 am_enh po_register none ot_mrmr ot_mrm ot_none 4
    ∷ ote 0 140 am_enh po_register none ot_mrm ot_mrmsr ot_none 0
    ∷ ote 0 142 am_enh po_register none ot_mrmsr ot_mrm ot_none 0
    ∷ ote 0 160 am_imm po_none (some al) ot_gpreg8 ot_imm ot_none 4
    ∷ ote 0 161 am_imm po_none (some eax) ot_gpreg ot_imm ot_none 4
    ∷ ote 0 162 am_imm po_none (some al) ot_gpreg8 ot_imm ot_none 0
    ∷ ote 0 163 am_imm po_none (some eax) ot_gpreg ot_imm ot_none 0
    ∷ ote 0 176 am_imm po_none (some al) ot_gpreg8 ot_imm8 ot_none 0
    ∷ ote 0 177 am_imm po_none (some cl) ot_gpreg8 ot_imm8 ot_none 0
    ∷ ote 0 178 am_imm po_none (some dl) ot_gpreg8 ot_imm8 ot_none 0
    ∷ ote 0 179 am_imm po_none (some bl) ot_gpreg8 ot_imm8 ot_none 0
    ∷ ote 0 180 am_imm po_none (some ah) ot_gpreg8 ot_imm8 ot_none 0
    ∷ ote 0 181 am_imm po_none (some ch) ot_gpreg8 ot_imm8 ot_none 0
    ∷ ote 0 182 am_imm po_none (some dh) ot_gpreg8 ot_imm8 ot_none 0
    ∷ ote 0 183 am_imm po_none (some bh) ot_gpreg8 ot_imm8 ot_none 0
    ∷ ote 0 184 am_imm po_none (some eax) ot_gpreg8 ot_imm ot_none 0
    ∷ ote 0 185 am_imm po_none (some ecx) ot_gpreg8 ot_imm ot_none 0
    ∷ ote 0 186 am_imm po_none (some edx) ot_gpreg8 ot_imm ot_none 0
    ∷ ote 0 187 am_imm po_none (some ebx) ot_gpreg8 ot_imm ot_none 0
    ∷ ote 0 188 am_imm po_none (some esp) ot_gpreg8 ot_imm ot_none 0
    ∷ ote 0 189 am_imm po_none (some ebp) ot_gpreg8 ot_imm ot_none 0
    ∷ ote 0 190 am_imm po_none (some esi) ot_gpreg8 ot_imm ot_none 0
    ∷ ote 0 191 am_imm po_none (some edi) ot_gpreg8 ot_imm ot_none 0
    ∷ []

unfoldable pub opcodes_push : List OpcodeInfo
opcodes_push =
    ote 0 255 am_enh push none ot_none ot_mrm ot_none 4
    ∷ ote 0 80 am_inh po_none (some eax) ot_none ot_gpreg ot_none 4
    ∷ ote 0 81 am_inh po_none (some ecx) ot_none ot_gpreg ot_none 4
    ∷ ote 0 82 am_inh po_none (some edx) ot_none ot_gpreg ot_none 4
    ∷ ote 0 83 am_inh po_none (some ebx) ot_none ot_gpreg ot_none 4
    ∷ ote 0 84 am_inh po_none (some esp) ot_none ot_gpreg ot_none 4
    ∷ ote 0 85 am_inh po_none (some ebp) ot_none ot_gpreg ot_none 4
    ∷ ote 0 86 am_inh po_none (some esi) ot_none ot_gpreg ot_none 4
    ∷ ote 0 87 am_inh po_none (some edi) ot_none ot_gpreg ot_none 4
    ∷ ote 0 106 am_imm po_none none ot_none ot_imm8 ot_none 1
    ∷ ote 0 104 am_imm po_none none ot_none ot_imm ot_none 4
    ∷ ote 0 14 am_inh po_none (some cs) ot_none ot_sreg ot_none 2
    ∷ ote 0 22 am_inh po_none (some ss) ot_none ot_sreg ot_none 2
    ∷ ote 0 30 am_inh po_none (some ds) ot_none ot_sreg ot_none 2
    ∷ ote 0 6 am_inh po_none (some es) ot_none ot_sreg ot_none 2
    ∷ ote 15 160 am_inh po_none (some fs) ot_none ot_sreg ot_none 2
    ∷ ote 15 168 am_inh po_none (some gs) ot_none ot_sreg ot_none 2
    ∷ []

unfoldable pub opcodes_pop : List OpcodeInfo
opcodes_pop =
    ote 0 143 am_enh pop none ot_mrm ot_none ot_none 4
    ∷ ote 0 88 am_inh po_none (some eax) ot_gpreg ot_none ot_none 4
    ∷ ote 0 89 am_inh po_none (some ecx) ot_gpreg ot_none ot_none 4
    ∷ ote 0 90 am_inh po_none (some edx) ot_gpreg ot_none ot_none 4
    ∷ ote 0 91 am_inh po_none (some ebx) ot_gpreg ot_none ot_none 4
    ∷ ote 0 92 am_inh po_none (some esp) ot_gpreg ot_none ot_none 4
    ∷ ote 0 93 am_inh po_none (some ebp) ot_gpreg ot_none ot_none 4
    ∷ ote 0 94 am_inh po_none (some esi) ot_gpreg ot_none ot_none 4
    ∷ ote 0 95 am_inh po_none (some edi) ot_gpreg ot_none ot_none 4
    ∷ ote 0 31 am_inh po_none (some ds) ot_sreg ot_none ot_none 2
    ∷ ote 0 7 am_inh po_none (some es) ot_sreg ot_none ot_none 2
    ∷ ote 0 23 am_inh po_none (some ss) ot_sreg ot_none ot_none 2
    ∷ ote 15 161 am_inh po_none (some fs) ot_sreg ot_none ot_none 2
    ∷ ote 15 169 am_inh po_none (some gs) ot_sreg ot_none ot_none 2
    ∷ []
