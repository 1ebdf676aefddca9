-- ===== src/CodeHook/Tables.antt =====
-- src/CodeHook/cpuIA32_Tables.cpp, `opcodes32Table`: the tables in the order in which they are searched.
-- The tables for ADC, BT and BTC are not among them.
pub mod General
pub mod Arithmetic
pub mod Logic
pub mod Jumps
pub mod Moves
pub mod Check
use giblet.Common.{List, [], ◌∷◌}
use giblet.CodeHook.Opcode.{OpcodeInfo}
use General.{opcodes_general, opcodes_stos}
use Arithmetic.{opcodes_add, opcodes_div, opcodes_mul, opcodes_sub}
use Logic.{opcodes_and, opcodes_cmp, opcodes_xor}
use Jumps.{opcodes_call, opcodes_jcc, opcodes_jmp}
use Moves.{opcodes_mov, opcodes_pop, opcodes_push}

unfoldable pub opcodes32_table : List (List OpcodeInfo)
opcodes32_table =
    opcodes_general ∷ opcodes_add ∷ opcodes_and ∷ opcodes_cmp ∷ opcodes_call ∷ opcodes_div
    ∷ opcodes_jcc ∷ opcodes_jmp ∷ opcodes_mov ∷ opcodes_mul ∷ opcodes_pop ∷ opcodes_push
    ∷ opcodes_sub ∷ opcodes_xor ∷ opcodes_stos ∷ []
