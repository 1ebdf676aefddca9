-- ===== src/CodeHook/Instruction/Relocation.antt =====
-- What `Relocate` keeps: the size of the code, and the target of a jump as far as the operand reaches.
use giblet.Common.{
  ℕ, ◌+◌, ◌-◌, ◌*◌, ◌%◌, ◌^◌, ◌≡◌, ◌⊎◌, true, inl, inr, ◌++◌, length, length-append, arith,
}
use giblet.CodeHook.Memory.Laws.{length-int_bytes}
use giblet.CodeHook.Operand.{Operand, is_relative}
use giblet.CodeHook.Opcode.{OpcodeInfo}
use giblet.CodeHook.Instruction.{Instruction}
use giblet.CodeHook.Instruction.Emit.{
  relocate_operand, relocate, operand_bytes, opcode_bytes, postfix_bytes, operands_bytes,
  emit_bytes,
}

relocate_operand_size :
    (old size address : ℕ) (o : Operand) → (relocate_operand old size address o).size ≡ o.size
unfolding relocate_operand
relocate_operand_size old size address o = ground arith

length-operands_bytes :
    (i : Instruction)
    → length (operands_bytes i) ≡ i.operand_dst.size + i.operand_src1.size + i.operand_src2.size
length-operands_bytes i = omega (
  arith,
  length-append {0} (operand_bytes i.operand_dst ++ operand_bytes i.operand_src1)
      (operand_bytes i.operand_src2),
  length-append {0} (operand_bytes i.operand_dst) (operand_bytes i.operand_src1),
  length-int_bytes i.operand_dst.size i.operand_dst.int_value,
  length-int_bytes i.operand_src1.size i.operand_src1.int_value,
  length-int_bytes i.operand_src2.size i.operand_src2.int_value,
)

-- A relocated instruction takes as many bytes as before.
pub length-emit_bytes-relocate :
    (row : OpcodeInfo) (p : ℕ) (i : Instruction)
    → length (emit_bytes row (relocate p i)) ≡ length (emit_bytes row i)
unfolding emit_bytes relocate
length-emit_bytes-relocate row p i =
    let moved = relocate p i in
    let front = i.prefix_bytes ++ opcode_bytes row ++ postfix_bytes i in
    omega (
      arith,
      length-append {0} front (operands_bytes moved),
      length-append {0} front (operands_bytes i),
      length-operands_bytes i,
      length-operands_bytes moved,
      relocate_operand_size i.address i.code_size p i.operand_dst,
      relocate_operand_size i.address i.code_size p i.operand_src1,
      relocate_operand_size i.address i.code_size p i.operand_src2,
    )

-- The difference of two sums, in 64 bits and then in fewer, leads from the one sum to the other.
wrap_8 : (x y : ℕ) → (y + (x % 2 ^ 64 + (2 ^ 64 - y % 2 ^ 64)) % 2 ^ 64 % 2 ^ 8) % 2 ^ 8 ≡ x % 2 ^ 8
wrap_8 x y = omega arith

wrap_16 :
    (x y : ℕ) → (y + (x % 2 ^ 64 + (2 ^ 64 - y % 2 ^ 64)) % 2 ^ 64 % 2 ^ 16) % 2 ^ 16 ≡ x % 2 ^ 16
wrap_16 x y = omega arith

wrap_32 :
    (x y : ℕ) → (y + (x % 2 ^ 64 + (2 ^ 64 - y % 2 ^ 64)) % 2 ^ 64 % 2 ^ 32) % 2 ^ 32 ≡ x % 2 ^ 32
wrap_32 x y = omega arith

wrap_64 :
    (x y : ℕ) → (y + (x % 2 ^ 64 + (2 ^ 64 - y % 2 ^ 64)) % 2 ^ 64 % 2 ^ 64) % 2 ^ 64 ≡ x % 2 ^ 64
wrap_64 x y = omega arith

-- A relative operand of one, two, four or eight bytes leads from the new address to the old target, as
-- far as the operand's width counts.
pub relocate_operand_lem :
    (old size address : ℕ) (o : Operand)
    → is_relative o.type ≡ true
    → (o.size ≡ 1) ⊎ ((o.size ≡ 2) ⊎ ((o.size ≡ 4) ⊎ (o.size ≡ 8)))
    → (address + size + (relocate_operand old size address o).int_value) % 2 ^ (8 * o.size)
      ≡ (old + size + o.int_value) % 2 ^ (8 * o.size)
unfolding relocate_operand
relocate_operand_lem old size address o r (inl e) =
    rw r (rw e (wrap_8 (old + size + o.int_value) (address + size)))
relocate_operand_lem old size address o r (inr (inl e)) =
    rw r (rw e (wrap_16 (old + size + o.int_value) (address + size)))
relocate_operand_lem old size address o r (inr (inr (inl e))) =
    rw r (rw e (wrap_32 (old + size + o.int_value) (address + size)))
relocate_operand_lem old size address o r (inr (inr (inr e))) =
    rw r (rw e (wrap_64 (old + size + o.int_value) (address + size)))
