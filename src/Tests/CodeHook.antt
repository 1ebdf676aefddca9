-- ===== src/Tests/CodeHook.antt =====
-- The code hooks at work: a function at 4096 that starts with PUSH EBP, MOV EBP,ESP and a CALL, a buffer
-- at 65536, and a system with one page whose protection is its state.
use giblet.Common.{
  ℕ, ◌+◌, ◌*◌, ◌%◌, ◌^◌, ◌≤◌, ◌<◌, ◌≡◌, ◌≢◌, ◌⊎◌, ◌↔◌, refl, inl, inr, Bool, true, false, ◌&&◌,
  ◌==◌, ltb, if◌then◌else◌, none, some, [], ◌∷◌, flatten, Outcome, returns, undefined, diverges,
  arith,
}
use giblet.CodeHook.Memory.{Memory, IsMemory, store, slice, next_int, int_bytes}
use giblet.CodeHook.Memory.Laws.{store-IsMemory}
use giblet.CodeHook.Operand.{Operand, ot_rel, ot_rel8, is_relative}
use giblet.CodeHook.Tables.{opcodes32_table}
use giblet.CodeHook.Instruction.{Instruction, reset, new_instruction}
use giblet.CodeHook.Instruction.Decode.{find_opcode, decode}
use giblet.CodeHook.Instruction.Failure.{IsFailure, decode-fails, ArePrefixes, decode_undefined_iff}
use giblet.CodeHook.Instruction.First.{IsFirstMatch, find_opcode-IsFirstMatch}
use giblet.CodeHook.Instruction.Emit.{relocate_operand, emit}
use giblet.CodeHook.Instruction.RoundTrip.{emit-decode}
use giblet.CodeHook.Instruction.Relocation.{relocate_operand_lem}
use giblet.CodeHook.Instruction.Reach.{short_target, IsNear, relocate_operand_short}
use giblet.CodeHook.Relocate.{relocate_code}
use giblet.CodeHook.Relocate.Copy.{IsCopy}
use giblet.CodeHook.Relocate.Loop.{relocate_code-ends, relocate_code-IsCopy}
use giblet.CodeHook.MemoryBlock.{Region, Pages, MemoryBlock, memory_block, lock, unlock}
use giblet.CodeHook.MemoryBlock.Restore.{IsPaging, unlock-lock}
use giblet.CodeHook.Hook.{Windows, HookEnd, installed, install_hook}
use giblet.CodeHook.Hook.Installed.{IsEnd, install_hook-IsEnd}
use giblet.CodeHook.Hook.Ends.{install_hook-ends}

abbrev cells : Memory
cells = store 4096 (85 ∷ 139 ∷ 236 ∷ 232 ∷ 16 ∷ 0 ∷ 0 ∷ 0 ∷ 195 ∷ []) λ _. 0

cells-IsMemory : IsMemory cells
cells-IsMemory =
    store-IsMemory 4096 (85 ∷ 139 ∷ 236 ∷ 232 ∷ 16 ∷ 0 ∷ 0 ∷ 0 ∷ 195 ∷ []) (λ _. 0) λ a. omega arith

-- The CALL, and the short jump that a relocation by 100 bytes breaks.
abbrev instruction_of : Outcome (Bool × Instruction × ℕ) → Instruction
instruction_of (returns (ok, i, next)) = i
instruction_of _ = new_instruction

abbrev call_at_4099 : Instruction
unfolding decode
call_at_4099 = instruction_of (decode cells 4099 new_instruction)

emit-decode_example :
    (4104 ≡ 4099 + 5)
    × (emit call_at_4099 70000 cells ≡ returns (store 70000 (slice cells 4099 5) cells, 70000 + 5))
unfolding decode giblet.CodeHook.Instruction.Decode.process_prefix
    giblet.CodeHook.Instruction.Decode.prefix_loop giblet.CodeHook.Instruction.Decode.is_prefix
    giblet.CodeHook.Instruction.Decode.decode_at giblet.CodeHook.Instruction.Decode.find_opcode
    giblet.CodeHook.Instruction.Decode.find_in_table giblet.CodeHook.Instruction.Decode.match_row
    giblet.CodeHook.Instruction.Decode.match_extension
    giblet.CodeHook.Instruction.Decode.match_opcode
    giblet.CodeHook.Instruction.Decode.match_postbyte
    giblet.CodeHook.Instruction.Decode.decode_found
    giblet.CodeHook.Instruction.Decode.displacement_type
    giblet.CodeHook.Instruction.Decode.immediate_size
    giblet.CodeHook.Instruction.Decode.process_operand
    giblet.CodeHook.Instruction.Decode.process_operands
    giblet.CodeHook.Instruction.Decode.process_postfix store slice
    giblet.CodeHook.Tables.opcodes32_table giblet.CodeHook.Tables.Arithmetic.opcodes_add
    giblet.CodeHook.Tables.Arithmetic.opcodes_div giblet.CodeHook.Tables.Arithmetic.opcodes_mul
    giblet.CodeHook.Tables.Arithmetic.opcodes_sub giblet.CodeHook.Tables.General.opcodes_general
    giblet.CodeHook.Tables.General.opcodes_stos giblet.CodeHook.Tables.Jumps.opcodes_call
    giblet.CodeHook.Tables.Jumps.opcodes_jcc giblet.CodeHook.Tables.Jumps.opcodes_jmp
    giblet.CodeHook.Tables.Logic.opcodes_and giblet.CodeHook.Tables.Logic.opcodes_cmp
    giblet.CodeHook.Tables.Logic.opcodes_xor giblet.CodeHook.Tables.Moves.opcodes_mov
    giblet.CodeHook.Tables.Moves.opcodes_pop giblet.CodeHook.Tables.Moves.opcodes_push
    giblet.CodeHook.Instruction.reset next_int giblet.CodeHook.Operand.is_modrm
    giblet.CodeHook.Operand.is_register giblet.CodeHook.Operand.size_of_operand_by_type
    giblet.CodeHook.Postbyte.assign
emit-decode_example = emit-decode cells cells 4099 70000 cells-IsMemory refl

-- The operand of that call, and one that jumps back by two bytes.
abbrev far : Operand
far = record { type = ot_rel; size = 4; int_value = 16 }

abbrev short : Operand
short = record { type = ot_rel8; size = 1; int_value = 254 }

relocate_operand_lem_example :
    (70000 + 5 + (relocate_operand 4099 5 70000 far).int_value) % 2 ^ (8 * 4)
    ≡ (4099 + 5 + 16) % 2 ^ (8 * 4)
unfolding is_relative
relocate_operand_lem_example = relocate_operand_lem 4099 5 70000 far refl (inr (inr (inl refl)))

relocate_operand_short_example :
    (short_target (70000 + 2) (relocate_operand 4096 2 70000 short).int_value
      ≡ short_target (4096 + 2) 254)
    ↔ IsNear (70000 + 2) (short_target (4096 + 2) 254)
unfolding is_relative
relocate_operand_short_example = relocate_operand_short 4096 2 70000 short refl refl (omega arith)

-- This jump is lost.
short_lost :
    short_target (70000 + 2) (relocate_operand 4096 2 70000 short).int_value
    ≢ short_target (4096 + 2) 254
unfolding relocate_operand is_relative
short_lost e = omega (arith, e)

abbrev copy_of : Outcome (ℕ × Memory) → Memory
copy_of (returns (t, m)) = m
copy_of _ = cells

abbrev copied : Memory
unfolding relocate_code
copied = copy_of (relocate_code cells 65552 4096 6 256)

relocate_code-ends_example : relocate_code cells 65552 4096 6 256 ≢ diverges
relocate_code-ends_example =
    relocate_code-ends cells 4096 65552 6 256 (omega arith) cells-IsMemory (omega arith)

relocate_code-IsCopy_example :
    ((x : ℕ) → (x < 65552) ⊎ ((65552 + 256 ≤ x) ⊎ (65552 + (6 + 35) ≤ x)) → copied x ≡ cells x)
    × ((◌≡◌ {A = ℕ} 8 0) ⊎ ((6 ≤ 8) × (8 < 256) × (8 ≤ 6 + 35) × IsCopy cells 4096 65552 8 copied))
unfolding relocate_code giblet.CodeHook.Relocate.relocate_loop giblet.CodeHook.Relocate.relocate_one
    giblet.CodeHook.Relocate.copy_one emit relocate_operand
    giblet.CodeHook.Instruction.Emit.emit_row giblet.CodeHook.Instruction.Emit.emit_bytes
    giblet.CodeHook.Instruction.Emit.opcode_bytes giblet.CodeHook.Instruction.Emit.postbyte_bytes
    giblet.CodeHook.Instruction.Emit.relocate int_bytes is_relative decode
    giblet.CodeHook.Instruction.Decode.process_prefix giblet.CodeHook.Instruction.Decode.prefix_loop
    giblet.CodeHook.Instruction.Decode.is_prefix giblet.CodeHook.Instruction.Decode.decode_at
    giblet.CodeHook.Instruction.Decode.find_opcode giblet.CodeHook.Instruction.Decode.find_in_table
    giblet.CodeHook.Instruction.Decode.match_row giblet.CodeHook.Instruction.Decode.match_extension
    giblet.CodeHook.Instruction.Decode.match_opcode
    giblet.CodeHook.Instruction.Decode.match_postbyte
    giblet.CodeHook.Instruction.Decode.decode_found
    giblet.CodeHook.Instruction.Decode.displacement_type
    giblet.CodeHook.Instruction.Decode.immediate_size
    giblet.CodeHook.Instruction.Decode.process_operand
    giblet.CodeHook.Instruction.Decode.process_operands
    giblet.CodeHook.Instruction.Decode.process_postfix store slice
    giblet.CodeHook.Tables.opcodes32_table giblet.CodeHook.Tables.Arithmetic.opcodes_add
    giblet.CodeHook.Tables.Arithmetic.opcodes_div giblet.CodeHook.Tables.Arithmetic.opcodes_mul
    giblet.CodeHook.Tables.Arithmetic.opcodes_sub giblet.CodeHook.Tables.General.opcodes_general
    giblet.CodeHook.Tables.General.opcodes_stos giblet.CodeHook.Tables.Jumps.opcodes_call
    giblet.CodeHook.Tables.Jumps.opcodes_jcc giblet.CodeHook.Tables.Jumps.opcodes_jmp
    giblet.CodeHook.Tables.Logic.opcodes_and giblet.CodeHook.Tables.Logic.opcodes_cmp
    giblet.CodeHook.Tables.Logic.opcodes_xor giblet.CodeHook.Tables.Moves.opcodes_mov
    giblet.CodeHook.Tables.Moves.opcodes_pop giblet.CodeHook.Tables.Moves.opcodes_push
    giblet.CodeHook.Instruction.reset next_int giblet.CodeHook.Operand.is_modrm
    giblet.CodeHook.Operand.is_register giblet.CodeHook.Operand.size_of_operand_by_type
    giblet.CodeHook.Postbyte.assign
relocate_code-IsCopy_example =
    relocate_code-IsCopy cells copied 4096 65552 6 256 8 (omega arith) cells-IsMemory (omega arith)
      refl

-- One page at the address 0, and its protection.
abbrev one_page : Pages ℕ
one_page = record {
  virtual_query = λ a w.
      if ltb a 1048576 then some (record { base = 0; size = 1048576; protect = w }) else none;
  virtual_protect =
      λ b n prot old w. if (b == 0) && (n == 1048576) then (true, w, prot) else (false, old, w);
}

abbrev protection_in : ℕ → ℕ → ℕ
protection_in w x = if ltb x 1048576 then w else 1

one_page-IsPaging : IsPaging one_page protection_in
one_page-IsPaging = record {
  query = λ a w r e. ground arith;
  changed = λ r prot old w e x h. ground arith;
}

abbrev locked_block : ℕ → MemoryBlock
locked_block prot = record { memory = 4096; locked_protection = prot }

unlock-lock_example :
    (protection_in 4 4096 ≡ 4) × (protection_in 32 4096 ≡ protection_in 32 4096) × (◌≡◌ {A = ℕ} 0 0)
unfolding lock unlock giblet.CodeHook.MemoryBlock.lock_region
    giblet.CodeHook.MemoryBlock.unlock_region
unlock-lock_example =
    unlock-lock one_page protection_in one_page-IsPaging 4 4096 (locked_block 32) (locked_block 0)
      32 4 32 refl refl

abbrev system : Windows ℕ
system = record {
  pages = one_page;
  virtual_alloc = λ address size prot w. (65536, prot);
  get_module_handle = λ name w. 1;
  get_proc_address = λ handle name w. 4096;
}

abbrev end_of : Outcome (HookEnd × Memory × ℕ) → Memory
end_of (returns (end, m, w)) = m
end_of _ = cells

abbrev hooked : Memory
unfolding install_hook
hooked = end_of (install_hook system 4096 8192 cells 32)

install_hook-IsEnd_example : IsEnd cells 65536 4096 8192 (installed 65552) hooked
unfolding install_hook lock unlock giblet.CodeHook.Hook.lock_and_write
    giblet.CodeHook.Hook.write_thunk giblet.CodeHook.Hook.finish_hook
    giblet.CodeHook.Hook.lock_and_redirect giblet.CodeHook.Hook.redirect
    giblet.CodeHook.MemoryBlock.lock_region giblet.CodeHook.MemoryBlock.unlock_region
    giblet.CodeHook.MemoryBlock.destroy giblet.CodeHook.Assembler.absolute32
    giblet.CodeHook.Assembler.jump giblet.CodeHook.Assembler.jump_indirect
    giblet.CodeHook.Assembler.relative32 relocate_code giblet.CodeHook.Relocate.relocate_loop
    giblet.CodeHook.Relocate.relocate_one giblet.CodeHook.Relocate.copy_one emit relocate_operand
    giblet.CodeHook.Instruction.Emit.emit_row giblet.CodeHook.Instruction.Emit.emit_bytes
    giblet.CodeHook.Instruction.Emit.opcode_bytes giblet.CodeHook.Instruction.Emit.postbyte_bytes
    giblet.CodeHook.Instruction.Emit.relocate int_bytes is_relative decode
    giblet.CodeHook.Instruction.Decode.process_prefix giblet.CodeHook.Instruction.Decode.prefix_loop
    giblet.CodeHook.Instruction.Decode.is_prefix giblet.CodeHook.Instruction.Decode.decode_at
    giblet.CodeHook.Instruction.Decode.find_opcode giblet.CodeHook.Instruction.Decode.find_in_table
    giblet.CodeHook.Instruction.Decode.match_row giblet.CodeHook.Instruction.Decode.match_extension
    giblet.CodeHook.Instruction.Decode.match_opcode
    giblet.CodeHook.Instruction.Decode.match_postbyte
    giblet.CodeHook.Instruction.Decode.decode_found
    giblet.CodeHook.Instruction.Decode.displacement_type
    giblet.CodeHook.Instruction.Decode.immediate_size
    giblet.CodeHook.Instruction.Decode.process_operand
    giblet.CodeHook.Instruction.Decode.process_operands
    giblet.CodeHook.Instruction.Decode.process_postfix store slice
    giblet.CodeHook.Tables.opcodes32_table giblet.CodeHook.Tables.Arithmetic.opcodes_add
    giblet.CodeHook.Tables.Arithmetic.opcodes_div giblet.CodeHook.Tables.Arithmetic.opcodes_mul
    giblet.CodeHook.Tables.Arithmetic.opcodes_sub giblet.CodeHook.Tables.General.opcodes_general
    giblet.CodeHook.Tables.General.opcodes_stos giblet.CodeHook.Tables.Jumps.opcodes_call
    giblet.CodeHook.Tables.Jumps.opcodes_jcc giblet.CodeHook.Tables.Jumps.opcodes_jmp
    giblet.CodeHook.Tables.Logic.opcodes_and giblet.CodeHook.Tables.Logic.opcodes_cmp
    giblet.CodeHook.Tables.Logic.opcodes_xor giblet.CodeHook.Tables.Moves.opcodes_mov
    giblet.CodeHook.Tables.Moves.opcodes_pop giblet.CodeHook.Tables.Moves.opcodes_push
    giblet.CodeHook.Instruction.reset next_int giblet.CodeHook.Operand.is_modrm
    giblet.CodeHook.Operand.is_register giblet.CodeHook.Operand.size_of_operand_by_type
    giblet.CodeHook.Postbyte.assign
install_hook-IsEnd_example =
    install_hook-IsEnd system 4096 8192 cells hooked 32 32 (installed 65552) (omega arith)
      cells-IsMemory refl

install_hook-ends_example : install_hook system 4096 8192 cells 32 ≢ diverges
install_hook-ends_example = install_hook-ends system 4096 8192 cells 32 (omega arith) cells-IsMemory

find_opcode-IsFirstMatch_example :
    IsFirstMatch cells 4097 (flatten opcodes32_table) (find_opcode cells 4097 opcodes32_table)
find_opcode-IsFirstMatch_example = find_opcode-IsFirstMatch cells 4097 opcodes32_table

-- No instruction starts with a zero byte behind 15.
abbrev unknown : Memory
unknown = store 4096 (15 ∷ 0 ∷ []) λ _. 0

decode-fails_example : IsFailure unknown 4096 new_instruction (reset new_instruction) 4096
unfolding decode giblet.CodeHook.Instruction.Decode.process_prefix
    giblet.CodeHook.Instruction.Decode.prefix_loop giblet.CodeHook.Instruction.Decode.is_prefix
    giblet.CodeHook.Instruction.Decode.decode_at giblet.CodeHook.Instruction.Decode.find_opcode
    giblet.CodeHook.Instruction.Decode.find_in_table giblet.CodeHook.Instruction.Decode.match_row
    giblet.CodeHook.Instruction.Decode.match_extension
    giblet.CodeHook.Instruction.Decode.match_opcode
    giblet.CodeHook.Instruction.Decode.match_postbyte
    giblet.CodeHook.Instruction.Decode.decode_found
    giblet.CodeHook.Instruction.Decode.displacement_type
    giblet.CodeHook.Instruction.Decode.immediate_size
    giblet.CodeHook.Instruction.Decode.process_operand
    giblet.CodeHook.Instruction.Decode.process_operands
    giblet.CodeHook.Instruction.Decode.process_postfix store slice
    giblet.CodeHook.Tables.opcodes32_table giblet.CodeHook.Tables.Arithmetic.opcodes_add
    giblet.CodeHook.Tables.Arithmetic.opcodes_div giblet.CodeHook.Tables.Arithmetic.opcodes_mul
    giblet.CodeHook.Tables.Arithmetic.opcodes_sub giblet.CodeHook.Tables.General.opcodes_general
    giblet.CodeHook.Tables.General.opcodes_stos giblet.CodeHook.Tables.Jumps.opcodes_call
    giblet.CodeHook.Tables.Jumps.opcodes_jcc giblet.CodeHook.Tables.Jumps.opcodes_jmp
    giblet.CodeHook.Tables.Logic.opcodes_and giblet.CodeHook.Tables.Logic.opcodes_cmp
    giblet.CodeHook.Tables.Logic.opcodes_xor giblet.CodeHook.Tables.Moves.opcodes_mov
    giblet.CodeHook.Tables.Moves.opcodes_pop giblet.CodeHook.Tables.Moves.opcodes_push
    giblet.CodeHook.Instruction.reset next_int giblet.CodeHook.Operand.is_modrm
    giblet.CodeHook.Operand.is_register giblet.CodeHook.Operand.size_of_operand_by_type
    giblet.CodeHook.Postbyte.assign
decode-fails_example = decode-fails unknown 4096 new_instruction (reset new_instruction) 4096 refl

-- Five locks.
abbrev locks : Memory
locks = store 4096 (240 ∷ 240 ∷ 240 ∷ 240 ∷ 240 ∷ []) λ _. 0

decode_undefined_iff_example :
    (decode locks 4096 new_instruction ≡ undefined) ↔ ArePrefixes locks 4096 5
decode_undefined_iff_example = decode_undefined_iff locks 4096 new_instruction λ e. omega (arith, e)
