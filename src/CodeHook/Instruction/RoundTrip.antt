-- ===== src/CodeHook/Instruction/RoundTrip.antt =====
-- Decoding an instruction and emitting it again gives the bytes that it was decoded from.
use giblet.Common.{
  ℕ, ◌+◌, ◌-◌, ◌≤◌, ◌≡◌, refl, sym, ap, subst, ◌∙◌, true, ◌==◌, if◌then◌else◌, Bool-cases,
  Option-cases, some, inl, inr, [], ◌++◌, length, length-append, Bytes, returns, returns-injective,
  >>=-eq-returns, arith,
}
use giblet.CodeHook.Memory.{Memory, IsMemory, store, slice, int_bytes}
use giblet.CodeHook.Memory.Laws.{Reads, Reads-append, Reads-nil}
use giblet.CodeHook.Opcode.{OpcodeInfo, po_none}
use giblet.CodeHook.Tables.{opcodes32_table}
use giblet.CodeHook.Instruction.{Instruction, reset, new_instruction}
use giblet.CodeHook.Instruction.Decode.{
  find_opcode, process_prefix, max_prefix_bytes, process_postfix, process_operands, decode_found,
  decode_at, decode,
}
use giblet.CodeHook.Instruction.Emit.{
  opcode_bytes, postbyte_bytes, postfix_bytes, operands_bytes, emit_bytes, emit_row, emit,
}
use giblet.CodeHook.Instruction.Reading.{
  Reads-find_opcode, Reads-prefix_loop, Reads-process_postfix, Reads-process_operands,
}
use giblet.CodeHook.Instruction.Sizes.{prefix_loop_size, opcode_size, postfix_size, operands_size}

-- The instruction was decoded at one address, and the iterator is left at another.
pub record IsDecoded (m : Memory) (a b : ℕ) (i : Instruction) : Type 0 where
  pub row : OpcodeInfo
  pub info : i.info ≡ some row
  pub address : i.address ≡ a
  pub reads : Reads m a b (emit_bytes row i)
  pub size : i.code_size ≡ length (emit_bytes row i)
  pub least : 1 ≤ i.code_size
  pub most : i.code_size ≤ 36

-- The instruction before its operands are read.
record HasPostfix (m : Memory) (a b : ℕ) (row : OpcodeInfo) (i : Instruction) : Type 0 where
  info : i.info ≡ some row
  address : i.address ≡ a
  reads : Reads m a b (i.prefix_bytes ++ opcode_bytes row ++ postfix_bytes i)
  few : length i.prefix_bytes ≤ 4
  short : length (postfix_bytes i) ≤ 6
  dst : i.operand_dst.size ≡ 0
  src1 : i.operand_src1.size ≡ 0
  src2 : i.operand_src2.size ≡ 0

abbrev prefixed : ℕ → Bytes → Instruction
prefixed a prefixes = record (reset new_instruction) { address = a; prefix_bytes = prefixes }

-- The instruction behind `ProcessPrefix` and `FindOpcode`.
abbrev started : ℕ → Bytes → OpcodeInfo → Instruction
started a prefixes row = record (prefixed a prefixes) { info = some row }

-- The postfix that `Decode` reads, if the row asks for one.
abbrev postfix_of : Memory → ℕ → OpcodeInfo → Instruction → Instruction × ℕ
postfix_of m next row i = if row.postbyte == po_none then (i, next) else process_postfix m next i

HasPostfix-postfix_of :
    (m : Memory) (a b c : ℕ) (prefixes : Bytes) (row : OpcodeInfo)
    → IsMemory m
    → Reads m a b prefixes
    → length prefixes ≤ 4
    → Reads m b c (opcode_bytes row)
    → let r = postfix_of m c row (started a prefixes row) in HasPostfix m a r.1 row r.0
unfolding reset process_postfix postbyte_bytes int_bytes
HasPostfix-postfix_of m a b c prefixes row h p few o =
    let i = started a prefixes row in
    let front = Reads-append prefixes (opcode_bytes row) p o in
    elim (Bool-cases (row.postbyte == po_none)) [
      | inl e ↦ rw e (record {
        info = refl;
        address = refl;
        reads = Reads-append (prefixes ++ opcode_bytes row) [] front (Reads-nil m c);
        few = few;
        short = omega arith;
        dst = refl;
        src1 = refl;
        src2 = refl;
      })
      | inr e ↦ rw e (record {
        info = refl;
        address = refl;
        reads =
            Reads-append (prefixes ++ opcode_bytes row) _ front
              (Reads-process_postfix m c i h refl refl);
        few = few;
        short = postfix_size m c i refl;
        dst = refl;
        src1 = refl;
        src2 = refl;
      })
    ]

-- The lengths of the four parts of an instruction add up.
length-emit_bytes :
    (row : OpcodeInfo) (i : Instruction)
    → length (emit_bytes row i)
      ≡ length i.prefix_bytes
        + length (opcode_bytes row)
        + length (postfix_bytes i)
        + length (operands_bytes i)
unfolding emit_bytes
length-emit_bytes row i = omega (
  arith,
  length-append {0} (i.prefix_bytes ++ opcode_bytes row ++ postfix_bytes i) (operands_bytes i),
  length-append {0} (i.prefix_bytes ++ opcode_bytes row) (postfix_bytes i),
  length-append {0} i.prefix_bytes (opcode_bytes row),
)

IsDecoded-operands :
    (m : Memory) (a b : ℕ) (row : OpcodeInfo) (i : Instruction)
    → IsMemory m
    → HasPostfix m a b row i
    → let full = process_operands m b row i in
      IsDecoded m a full.1 (record full.0 { code_size = full.1 - a })
unfolding process_operands emit_bytes
IsDecoded-operands m a b row i h p =
    let full = process_operands m b row i in
    let reads =
      Reads-append (i.prefix_bytes ++ opcode_bytes row ++ postfix_bytes i) (operands_bytes full.0)
        p.reads (Reads-process_operands m b row i h p.dst p.src1 p.src2) in
    let total = length-emit_bytes row full.0 in
    let operands = operands_size m b row i p.dst p.src1 p.src2 in
    let code = opcode_size row in
    record {
      row = row;
      info = p.info;
      address = p.address;
      reads = reads;
      size = omega (arith, reads.end);
      least = omega (arith, reads.end, total, code.0);
      most = omega (arith, reads.end, total, code.1, operands, p.few, p.short);
    }

IsDecoded-decode_found :
    (m : Memory) (a b c : ℕ) (prefixes : Bytes) (row : OpcodeInfo) {i : Instruction} {d : ℕ}
    → IsMemory m
    → Reads m a b prefixes
    → length prefixes ≤ 4
    → Reads m b c (opcode_bytes row)
    → decode_found m a (prefixed a prefixes) (row, c) ≡ (true, i, d)
    → IsDecoded m a d i
unfolding decode_found
IsDecoded-decode_found m a b c prefixes row h p few o e =
    let f = postfix_of m c row (started a prefixes row) in
    let decoded =
      IsDecoded-operands m a f.1 row f.0 h (HasPostfix-postfix_of m a b c prefixes row h p few o) in
    elim (Bool-cases row.is_terminator) [
      | inl t ↦ cc (simp t at e)
      | inr t ↦ subst (λ x. IsDecoded m a x.2 x.1) (simp t at e) decoded
    ]

-- The prefixes that `ProcessPrefix` returns, at most four, are those in the memory.
Reads-process_prefix :
    (m : Memory) (a : ℕ) {bs : Bytes} {b : ℕ}
    → process_prefix m a ≡ returns (bs, b)
    → Reads m a b bs × (length bs ≤ 4)
unfolding process_prefix
Reads-process_prefix m a e = elim (Bool-cases (a == 0)) [
  | inl z ↦ cc (simp z at e)
  | inr z ↦
      let loop = simp z at e in
      (Reads-prefix_loop max_prefix_bytes m a loop, prefix_loop_size max_prefix_bytes m a loop)
]

-- What a call of `Decode` that returns true has read.
pub IsDecoded-decode :
    (m : Memory) (a : ℕ) {i : Instruction} {b : ℕ}
    → IsMemory m
    → decode m a new_instruction ≡ returns (true, i, b)
    → IsDecoded m a b i
unfolding decode decode_at
IsDecoded-decode m a {i} {b} h e =
    let ((bs, next), prefix, behind) =
      >>=-eq-returns (process_prefix m a)
        (λ (bs, next). returns (decode_at m a (prefixed a bs) (find_opcode m next opcodes32_table)))
        e in
    let (p, few) = Reads-process_prefix m a prefix in
    elim (Option-cases (find_opcode m next opcodes32_table)) [
      | inl n ↦ cc (simp n at behind)
      | inr ((row, c), f) ↦
          let found = simp f at behind in
          IsDecoded-decode_found m a next c bs row h p few
            (Reads-find_opcode m next opcodes32_table f) (returns-injective found)
    ]

pub emit_lem :
    (row : OpcodeInfo) (i : Instruction) (p : ℕ) (m : Memory)
    → i.info ≡ some row
    → emit i p m ≡ returns (store p (emit_bytes row i) m, p + length (emit_bytes row i))
unfolding emit emit_row
emit_lem row i p m e = simp e

-- `Decode` of a fresh instruction moves the iterator over as many bytes as the instruction counts, and
-- `Emit` then writes exactly those bytes, to whatever place.
pub emit-decode :
    (m m' : Memory) (a p : ℕ) {i : Instruction} {b : ℕ}
    → IsMemory m
    → decode m a new_instruction ≡ returns (true, i, b)
    → (b ≡ a + i.code_size)
      × (emit i p m' ≡ returns (store p (slice m a i.code_size) m', p + i.code_size))
emit-decode m m' a p {i} h e =
    let d = IsDecoded-decode m a h e in
    (
      d.reads.end ∙ ap (◌+◌ a) (sym d.size),
      cc (emit_lem d.row i p m' d.info, d.size, d.reads.bytes),
    )
