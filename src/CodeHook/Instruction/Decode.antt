-- ===== src/CodeHook/Instruction/Decode.antt =====
-- src/CodeHook/cpuIA32_Instruction.cpp: from bytes to an instruction.
use giblet.Common.{
  ℕ, zero, suc, ◌+◌, ◌-◌, Bool, true, false, not, ◌&&◌, ◌||◌, ◌==◌, if◌then◌else◌, Option, none,
  some, List, [], ◌∷◌, Bytes, Outcome, returns, throws, undefined, ◌>>=◌, runtime_error,
}
use giblet.CodeHook.Memory.{Memory, next_int}
use giblet.CodeHook.Operand.{
  OperandType, ot_gpreg, ot_gpreg8, ot_sreg, ot_mrmr, ot_mrmsr, ot_mrmr8, ot_mrm, ot_mrm8, ot_imm,
  ot_imm8, ot_none, ot_pend, Operand, create_operand, set_value, is_register, is_modrm,
  size_of_operand_by_type,
}
use giblet.CodeHook.Postbyte.{
  PostByte, no_postbyte, assign, get_mode, get_register_or_opcode, get_register_or_mode, get_base,
  reg_ind, reg_ind_disp, reg_ind_disp8, pbyte_disp, sibbase_disp,
}
use giblet.CodeHook.Opcode.{OpcodeInfo, po_none, po_register}
use giblet.CodeHook.Tables.{opcodes32_table}
use giblet.CodeHook.Instruction.{Instruction, reset}

-- Whether the opcode bytes at an address are those of a row: the address behind them if they are.
unfoldable pub match_opcode : Memory → ℕ → OpcodeInfo → Option ℕ
match_opcode m iter i =
    if not (i.prefix == 0) && (i.prefix == m iter) && (i.opcode == m (iter + 1))
    then some (iter + 2)
    else if (i.prefix == 0) && (i.opcode == m iter)
    then some (iter + 1)
    else none

-- Whether the row's opcode extension, if it has one, is the one in the ModRM byte at an address.
unfoldable pub match_postbyte : Memory → ℕ → OpcodeInfo → Bool
match_postbyte m iter i =
    let read = (assign m iter false no_postbyte).0 in
    (i.postbyte == po_none)
    || (i.postbyte == po_register)
    || (i.postbyte == get_register_or_opcode read)

-- A row that matches the opcode, with the address behind the opcode, if it matches the ModRM byte too.
unfoldable pub match_extension : Memory → OpcodeInfo → Option ℕ → Option (OpcodeInfo × ℕ)
match_extension m i none = none
match_extension m i (some next) = if match_postbyte m next i then some (i, next) else none

unfoldable pub match_row : Memory → ℕ → OpcodeInfo → Option (OpcodeInfo × ℕ)
match_row m iter i = match_extension m i (match_opcode m iter i)

abbrev pub first_of : Option (OpcodeInfo × ℕ) → Option (OpcodeInfo × ℕ) → Option (OpcodeInfo × ℕ)
first_of (some found) rest = some found
first_of none rest = rest

-- The first row of a table that matches.
unfoldable pub find_in_table : Memory → ℕ → List OpcodeInfo → Option (OpcodeInfo × ℕ)
find_in_table m iter [] = none
find_in_table m iter (i ∷ is) = first_of (match_row m iter i) (find_in_table m iter is)

-- `FindOpcode`
unfoldable pub find_opcode : Memory → ℕ → List (List OpcodeInfo) → Option (OpcodeInfo × ℕ)
find_opcode m iter [] = none
find_opcode m iter (t ∷ ts) = first_of (find_in_table m iter t) (find_opcode m iter ts)

-- The bytes of the `INST_PREFIX_` constants.
unfoldable pub is_prefix : ℕ → Bool
is_prefix c =
    (c == 240)
    || (c == 242)
    || (c == 243)
    || (c == 102)
    || (c == 103)
    || (c == 38)
    || (c == 46)
    || (c == 54)
    || (c == 62)
    || (c == 100)
    || (c == 101)

-- `MAX_PREFIX_BYTES`
abbrev pub max_prefix_bytes : ℕ
max_prefix_bytes = 4

-- The loop of `ProcessPrefix` with room for so many more bytes. It does not look at the room: one
-- prefix byte more is written behind the array.
unfoldable pub prefix_loop : ℕ → Memory → ℕ → Outcome (Bytes × ℕ)
prefix_loop zero m iter = if is_prefix (m iter) then undefined else returns ([], iter)
prefix_loop (suc room) m iter =
    let rest = prefix_loop room m (iter + 1) in
    if is_prefix (m iter)
    then (rest >>= λ (bytes, next). returns (m iter ∷ bytes, next))
    else returns ([], iter)

-- `ProcessPrefix`: the prefix bytes and the address behind them. A null iterator throws.
unfoldable pub process_prefix : Memory → ℕ → Outcome (Bytes × ℕ)
process_prefix m iter =
    if iter == 0 then throws runtime_error else prefix_loop max_prefix_bytes m iter

-- What `ProcessOperand` reads for a type: nothing for a register, a ModRM or no operand.
unfoldable pub immediate_size : OperandType → ℕ
immediate_size ot_gpreg = 0
immediate_size ot_gpreg8 = 0
immediate_size ot_sreg = 0
immediate_size ot_mrmr = 0
immediate_size ot_mrmsr = 0
immediate_size ot_mrmr8 = 0
immediate_size ot_mrm = 0
immediate_size ot_mrm8 = 0
immediate_size ot_none = 0
immediate_size ot_pend = 0
immediate_size t = size_of_operand_by_type t

-- `ProcessOperand` of the operand `o`: the operand and the iterator behind it.
unfoldable pub process_operand : Memory → ℕ → Operand → OperandType → Operand × ℕ
process_operand m iter o t =
    if is_register t || is_modrm t
    then (create_operand t, iter)
    else if immediate_size t == 0
    then (o, iter)
    else (
      set_value (immediate_size t) t (next_int m iter (immediate_size t)),
      iter + immediate_size t,
    )

-- The type of the displacement that a postbyte asks for.
unfoldable pub displacement_type : PostByte → OperandType
displacement_type p =
    if get_mode p == reg_ind
    then (if (get_register_or_mode p == pbyte_disp)
          || (p.sib.has_data && (get_base p == sibbase_disp))
        then ot_imm
        else ot_none)
    else if get_mode p == reg_ind_disp
    then ot_imm
    else if get_mode p == reg_ind_disp8
    then ot_imm8
    else ot_none

-- `ProcessPostfix`, for an instruction that has no postbyte yet.
unfoldable pub process_postfix : Memory → ℕ → Instruction → Instruction × ℕ
process_postfix m iter i =
    let read = assign m iter true i.postbyte in
    let shifted = process_operand m read.2 i.displacement (displacement_type read.0) in
    (record i { postbyte = read.0; displacement = shifted.0 }, shifted.1)

-- The operands of a row, in the order in which they are encoded.
unfoldable pub process_operands : Memory → ℕ → OpcodeInfo → Instruction → Instruction × ℕ
process_operands m iter info i =
    let dst = process_operand m iter i.operand_dst info.operand_type_dst in
    let src1 = process_operand m dst.1 i.operand_src1 info.operand_type_src1 in
    let src2 = process_operand m src1.1 i.operand_src2 info.operand_type_src2 in
    (record i { operand_dst = dst.0; operand_src1 = src1.0; operand_src2 = src2.0 }, src2.1)

-- The part of `Decode` behind a row that was found, which starts at `start` in the memory.
unfoldable pub decode_found : Memory → ℕ → Instruction → OpcodeInfo × ℕ → Bool × Instruction × ℕ
decode_found m start i (info, next) =
    let known = record i { info = some info } in
    let postfix =
      if info.postbyte == po_none then (known, next) else process_postfix m next known in
    let full = process_operands m postfix.1 info postfix.0 in
    if info.is_terminator
    then (false, reset i, start)
    else (true, record full.0 { code_size = full.1 - start }, full.1)

-- The part of `Decode` behind the prefixes.
unfoldable pub decode_at :
    Memory → ℕ → Instruction → Option (OpcodeInfo × ℕ) → Bool × Instruction × ℕ
decode_at m start i none = (false, reset i, start)
decode_at m start i (some found) = decode_found m start i found

-- `Decode`: whether an instruction was decoded, the instruction and the iterator.
unfoldable pub decode : Memory → ℕ → Instruction → Outcome (Bool × Instruction × ℕ)
decode m iter old = process_prefix m iter >>= λ (prefixes, next). returns (
    decode_at m iter (record (reset old) { address = iter; prefix_bytes = prefixes })
      (find_opcode m next opcodes32_table))
