-- ===== src/CodeHook/Instruction/Sizes.antt =====
-- How many bytes the parts of an instruction take.
use giblet.Common.{
  ℕ, zero, suc, ◌+◌, ◌≤◌, ◌≡◌, true, Bool-cases, inl, inr, ◌∷◌, ◌++◌, length, length-append, Bytes,
  returns, >>=-eq-returns, arith,
}
use giblet.CodeHook.Memory.{Memory}
use giblet.CodeHook.Memory.Laws.{length-int_bytes}
use giblet.CodeHook.Operand.{OperandType, Operand, size_of_operand_by_type}
use giblet.CodeHook.Postbyte.{PostByte, assign}
use giblet.CodeHook.Opcode.{OpcodeInfo}
use giblet.CodeHook.Instruction.{Instruction}
use giblet.CodeHook.Instruction.Decode.{
  is_prefix, prefix_loop, immediate_size, process_operand, displacement_type, process_postfix,
  process_operands,
}
use giblet.CodeHook.Instruction.Emit.{
  operand_bytes, opcode_bytes, postbyte_bytes, postfix_bytes, operands_bytes,
}

pub prefix_loop_size :
    (room : ℕ) (m : Memory) (a : ℕ) {bs : Bytes} {b : ℕ}
    → prefix_loop room m a ≡ returns (bs, b)
    → length bs ≤ room
unfolding prefix_loop
prefix_loop_size zero m a h = ground arith
prefix_loop_size (suc room) m a {bs} {b} h = elim (Bool-cases (is_prefix (m a))) [
  | inl e ↦
      let ((rest, next), ih, end) =
        >>=-eq-returns (prefix_loop room m (a + 1)) (λ (r, n). returns (m a ∷ r, n))
          (simp e at h) in
      ground (arith, end, prefix_loop_size room m (a + 1) ih)
  | inr e ↦ ground (arith, e)
]

pub opcode_size : (i : OpcodeInfo) → (1 ≤ length (opcode_bytes i)) × (length (opcode_bytes i) ≤ 2)
unfolding opcode_bytes
opcode_size i = ground arith

immediate_size_bound : (t : OperandType) → immediate_size t ≤ 8
unfolding immediate_size size_of_operand_by_type
immediate_size_bound t = ground arith

displacement_size : (p : PostByte) → immediate_size (displacement_type p) ≤ 4
unfolding immediate_size size_of_operand_by_type displacement_type
displacement_size p = ground arith

process_operand_size :
    (m : Memory) (a : ℕ) (o : Operand) (t : OperandType)
    → o.size ≡ 0
    → (process_operand m a o t).0.size ≤ immediate_size t
unfolding process_operand
process_operand_size m a o t z = ground arith

pub postbyte_size : (p : PostByte) → length (postbyte_bytes p) ≤ 2
unfolding postbyte_bytes
postbyte_size p = ground arith

pub postfix_size :
    (m : Memory) (a : ℕ) (i : Instruction)
    → i.displacement.size ≡ 0
    → length (postfix_bytes (process_postfix m a i).0) ≤ 6
unfolding process_postfix
postfix_size m a i z =
    let read = assign m a true i.postbyte in
    let o = process_operand m read.2 i.displacement (displacement_type read.0) in
    omega (
      arith,
      length-append {0} (postbyte_bytes read.0) (operand_bytes o.0),
      postbyte_size read.0,
      length-int_bytes o.0.size o.0.int_value,
      process_operand_size m read.2 i.displacement (displacement_type read.0) z,
      displacement_size read.0,
    )

pub operands_size :
    (m : Memory) (a : ℕ) (info : OpcodeInfo) (i : Instruction)
    → i.operand_dst.size ≡ 0
    → i.operand_src1.size ≡ 0
    → i.operand_src2.size ≡ 0
    → length (operands_bytes (process_operands m a info i).0) ≤ 24
unfolding process_operands
operands_size m a info i z z1 z2 =
    let dst = process_operand m a i.operand_dst info.operand_type_dst in
    let src1 = process_operand m dst.1 i.operand_src1 info.operand_type_src1 in
    let src2 = process_operand m src1.1 i.operand_src2 info.operand_type_src2 in
    omega (
      arith,
      length-append {0} (operand_bytes dst.0 ++ operand_bytes src1.0) (operand_bytes src2.0),
      length-append {0} (operand_bytes dst.0) (operand_bytes src1.0),
      length-int_bytes dst.0.size dst.0.int_value,
      length-int_bytes src1.0.size src1.0.int_value,
      length-int_bytes src2.0.size src2.0.int_value,
      process_operand_size m a i.operand_dst info.operand_type_dst z,
      process_operand_size m dst.1 i.operand_src1 info.operand_type_src1 z1,
      process_operand_size m src1.1 i.operand_src2 info.operand_type_src2 z2,
      immediate_size_bound info.operand_type_dst,
      immediate_size_bound info.operand_type_src1,
      immediate_size_bound info.operand_type_src2,
    )
