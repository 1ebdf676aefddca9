-- ===== src/CodeHook/Instruction/Reading.antt =====
-- The parts of an instruction are read one behind the other: each part's bytes are those between the
-- address that its reader is given and the one that it returns.
use native.Mathlib.Nat.{mod-eq_of_lt}
use giblet.Common.{
  ℕ, zero, suc, ◌/◌, ◌+◌, ◌%◌, ◌≡◌, refl, ap, ◌∙◌, true, not, ◌&&◌, ◌||◌, ◌==◌, Bool-cases,
  Option-cases, some, inl, inr, List, [], ◌∷◌, ◌++◌, Bytes, returns, >>=-eq-returns, arith,
}
use giblet.CodeHook.Memory.{Memory, IsMemory, slice, int_bytes}
use giblet.CodeHook.Memory.Laws.{
  next_int_bound, Reads, Reads-append, Reads-nil, Reads-slice, int_bytes-next_int,
}
use giblet.CodeHook.Operand.{OperandType, Operand, is_register, is_modrm}
use giblet.CodeHook.Postbyte.{no_postbyte, assign}
use giblet.CodeHook.Opcode.{OpcodeInfo}
use giblet.CodeHook.Instruction.{Instruction}
use giblet.CodeHook.Instruction.Decode.{
  match_opcode, match_extension, match_row, find_in_table, find_opcode, is_prefix, prefix_loop,
  immediate_size, process_operand, displacement_type, process_postfix, process_operands,
}
use giblet.CodeHook.Instruction.Emit.{
  operand_bytes, opcode_bytes, postbyte_bytes, postfix_bytes, operands_bytes,
}

pub Reads-match_opcode :
    (m : Memory) (a : ℕ) (i : OpcodeInfo) {b : ℕ}
    → match_opcode m a i ≡ some b
    → Reads m a b (opcode_bytes i)
unfolding match_opcode opcode_bytes slice
Reads-match_opcode m a i h = ground arith

Reads-match_row :
    (m : Memory) (a : ℕ) (i : OpcodeInfo) {info : OpcodeInfo} {b : ℕ}
    → match_row m a i ≡ some (info, b)
    → Reads m a b (opcode_bytes info)
unfolding match_row match_extension
Reads-match_row m a i h = elim (Option-cases (match_opcode m a i)) [
  | inl e ↦ cc (simp e at h)
  | inr (next, e) ↦ ground (arith, e, Reads-match_opcode m a i e)
]

pub Reads-find_in_table :
    (m : Memory) (a : ℕ) (t : List OpcodeInfo) {info : OpcodeInfo} {b : ℕ}
    → find_in_table m a t ≡ some (info, b)
    → Reads m a b (opcode_bytes info)
unfolding find_in_table
Reads-find_in_table m a [] h = cc
Reads-find_in_table m a (i ∷ t) h = elim (Option-cases (match_row m a i)) [
  | inl e ↦ Reads-find_in_table m a t (simp e at h)
  | inr (found, e) ↦ Reads-match_row m a i (e ∙ simp e at h)
]

pub Reads-find_opcode :
    (m : Memory) (a : ℕ) (ts : List (List OpcodeInfo)) {info : OpcodeInfo} {b : ℕ}
    → find_opcode m a ts ≡ some (info, b)
    → Reads m a b (opcode_bytes info)
unfolding find_opcode
Reads-find_opcode m a [] h = cc
Reads-find_opcode m a (t ∷ ts) h = elim (Option-cases (find_in_table m a t)) [
  | inl e ↦ Reads-find_opcode m a ts (simp e at h)
  | inr (found, e) ↦ Reads-find_in_table m a t (e ∙ simp e at h)
]

pub Reads-prefix_loop :
    (room : ℕ) (m : Memory) (a : ℕ) {bs : Bytes} {b : ℕ}
    → prefix_loop room m a ≡ returns (bs, b)
    → Reads m a b bs
unfolding prefix_loop slice
Reads-prefix_loop zero m a h = ground (arith, Reads-nil m a)
Reads-prefix_loop (suc room) m a {bs} {b} h = elim (Bool-cases (is_prefix (m a))) [
  | inl e ↦
      let ((rest, next), ih, end) =
        >>=-eq-returns (prefix_loop room m (a + 1)) (λ (r, n). returns (m a ∷ r, n))
          (simp e at h) in
      ground (
        arith,
        end,
        Reads-append (m a ∷ []) rest (Reads-slice m a 1) (Reads-prefix_loop room m (a + 1) ih),
      )
  | inr e ↦ ground (arith, e, Reads-nil m a)
]

pub Reads-process_operand :
    (m : Memory) (a : ℕ) (o : Operand) (t : OperandType)
    → IsMemory m
    → o.size ≡ 0
    → let r = process_operand m a o t in Reads m a r.1 (operand_bytes r.0)
unfolding process_operand int_bytes
Reads-process_operand m a o t h z =
    let n = immediate_size t in
    elim (Bool-cases (is_register t || is_modrm t)) [
      | inl e ↦ rw e (Reads-nil m a)
      | inr e ↦ elim (Bool-cases (n == 0)) [
        | inl e' ↦ rw (e, e', z) (Reads-nil m a)
        | inr e' ↦
            let value = mod-eq_of_lt (next_int_bound m a n h) in
            rw (e, e', value, int_bytes-next_int m a n h) (Reads-slice m a n)
      ]
    ]

pub Reads-assign :
    (m : Memory) (a : ℕ) → let r = assign m a true no_postbyte in Reads m a r.2 (postbyte_bytes r.0)
unfolding assign postbyte_bytes slice
Reads-assign m a = elim (Bool-cases (not (m a / 64 % 4 == 3) && (m a % 8 == 4))) [
  | inl e ↦ rw e (record { end = refl; bytes = ap (λ x. m a ∷ m x ∷ []) (omega arith) })
  | inr e ↦ rw e (Reads-slice m a 1)
]

pub Reads-process_postfix :
    (m : Memory) (a : ℕ) (i : Instruction)
    → IsMemory m
    → i.postbyte ≡ no_postbyte
    → i.displacement.size ≡ 0
    → let r = process_postfix m a i in Reads m a r.1 (postfix_bytes r.0)
unfolding process_postfix
Reads-process_postfix m a i h p z =
    let read = assign m a true no_postbyte in
    rw p (
      Reads-append (postbyte_bytes read.0) _ (Reads-assign m a)
        (Reads-process_operand m read.2 i.displacement (displacement_type read.0) h z))

pub Reads-process_operands :
    (m : Memory) (a : ℕ) (info : OpcodeInfo) (i : Instruction)
    → IsMemory m
    → i.operand_dst.size ≡ 0
    → i.operand_src1.size ≡ 0
    → i.operand_src2.size ≡ 0
    → let r = process_operands m a info i in Reads m a r.1 (operands_bytes r.0)
unfolding process_operands
Reads-process_operands m a info i h z z1 z2 =
    let dst = process_operand m a i.operand_dst info.operand_type_dst in
    let src1 = process_operand m dst.1 i.operand_src1 info.operand_type_src1 in
    Reads-append (operand_bytes dst.0 ++ operand_bytes src1.0) _
      (Reads-append (operand_bytes dst.0) _
        (Reads-process_operand m a i.operand_dst info.operand_type_dst h z)
        (Reads-process_operand m dst.1 i.operand_src1 info.operand_type_src1 h z1))
      (Reads-process_operand m src1.1 i.operand_src2 info.operand_type_src2 h z2)
