-- ===== src/CodeHook/Instruction/Emit.antt =====
-- src/CodeHook/cpuIA32_Instruction.cpp: an instruction that moves, and its bytes.
use giblet.Common.{
  ℕ, ◌+◌, ◌-◌, ◌%◌, ◌^◌, ◌==◌, if◌then◌else◌, Option, none, some, [], ◌∷◌, ◌++◌, length, Bytes,
  Outcome, returns, undefined,
}
use giblet.CodeHook.Memory.{Memory, store, int_bytes}
use giblet.CodeHook.Operand.{Operand, set_value, is_relative}
use giblet.CodeHook.Postbyte.{PostByte}
use giblet.CodeHook.Opcode.{OpcodeInfo}
use giblet.CodeHook.Instruction.{Instruction}

-- The relative operand `o` of code of `size` bytes that moves from one address to another: the 64-bit
-- sum, converted to the type of the operand.
unfoldable pub relocate_operand : ℕ → ℕ → ℕ → Operand → Operand
relocate_operand old_address size address o =
    let target = (old_address + size + o.int_value) % 2 ^ 64 in
    let value = (target + (2 ^ 64 - (address + size) % 2 ^ 64)) % 2 ^ 64 in
    if is_relative o.type then set_value o.size o.type value else o

-- `Relocate`
unfoldable pub relocate : ℕ → Instruction → Instruction
relocate address i =
    let move = relocate_operand i.address i.code_size address in
    record i {
      operand_dst = move i.operand_dst;
      operand_src1 = move i.operand_src1;
      operand_src2 = move i.operand_src2;
      address = address;
    }

-- `AppendOperand`
abbrev pub operand_bytes : Operand → Bytes
operand_bytes o = int_bytes o.size o.int_value

-- The opcode of a row, with its prefix.
unfoldable pub opcode_bytes : OpcodeInfo → Bytes
opcode_bytes i = if i.prefix == 0 then i.opcode ∷ [] else i.prefix ∷ i.opcode ∷ []

unfoldable pub postbyte_bytes : PostByte → Bytes
postbyte_bytes p =
    (if p.mod_rm.has_data then p.mod_rm.data_value ∷ [] else [])
    ++ (if p.sib.has_data then p.sib.data_value ∷ [] else [])

abbrev pub postfix_bytes : Instruction → Bytes
postfix_bytes i = postbyte_bytes i.postbyte ++ operand_bytes i.displacement

abbrev pub operands_bytes : Instruction → Bytes
operands_bytes i =
    operand_bytes i.operand_dst ++ operand_bytes i.operand_src1 ++ operand_bytes i.operand_src2

-- The bytes that `Emit` writes for an instruction of the given row.
unfoldable pub emit_bytes : OpcodeInfo → Instruction → Bytes
emit_bytes info i = i.prefix_bytes ++ opcode_bytes info ++ postfix_bytes i ++ operands_bytes i

-- `Emit` by means of a row: a null one is dereferenced.
unfoldable pub emit_row : Option OpcodeInfo → Instruction → ℕ → Memory → Outcome (Memory × ℕ)
emit_row none i ptr m = undefined
emit_row (some info) i ptr m =
    returns (store ptr (emit_bytes info i) m, ptr + length (emit_bytes info i))

-- `Emit`: the memory and the pointer behind the bytes. An instruction that was not decoded has no row.
unfoldable pub emit : Instruction → ℕ → Memory → Outcome (Memory × ℕ)
emit i ptr m = emit_row i.info i ptr m
