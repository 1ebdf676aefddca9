-- ===== src/CodeHook/Instruction/Octets.antt =====
-- What `Emit` writes is bytes, so that nothing of it is lost in the memory.
use giblet.Common.{
  ℕ, zero, suc, ◌/◌, ◌<◌, ◌≡◌, sym, ap, ◌∙◌, subst, ◌++◌, All, All-append, All-front, Bytes, arith,
}
use giblet.CodeHook.Memory.{Memory, IsMemory, store, slice, int_bytes}
use giblet.CodeHook.Memory.Laws.{slice-store, length-int_bytes}
use giblet.CodeHook.Instruction.{Instruction}
use giblet.CodeHook.Instruction.Emit.{
  relocate, operand_bytes, opcode_bytes, postfix_bytes, operands_bytes, emit_bytes,
}
use giblet.CodeHook.Instruction.RoundTrip.{IsDecoded}

abbrev pub AreOctets : Bytes → Type 0
AreOctets = All λ c. c < 256

AreOctets-slice : (m : Memory) (a n : ℕ) → IsMemory m → AreOctets (slice m a n)
unfolding slice
AreOctets-slice m a zero h = tt
AreOctets-slice m a (suc n) h = (h a, AreOctets-slice m (suc a) n h)

pub AreOctets-int_bytes : (n v : ℕ) → AreOctets (int_bytes n v)
unfolding int_bytes
AreOctets-int_bytes zero v = tt
AreOctets-int_bytes (suc n) v = (omega arith, AreOctets-int_bytes n (v / 256))

AreOctets-operands_bytes : (i : Instruction) → AreOctets (operands_bytes i)
AreOctets-operands_bytes i =
    let octet = λ (c : ℕ). c < 256 in
    All-append octet (operand_bytes i.operand_dst ++ operand_bytes i.operand_src1)
      (operand_bytes i.operand_src2)
      (All-append octet (operand_bytes i.operand_dst) (operand_bytes i.operand_src1)
        (AreOctets-int_bytes i.operand_dst.size i.operand_dst.int_value)
        (AreOctets-int_bytes i.operand_src1.size i.operand_src1.int_value))
      (AreOctets-int_bytes i.operand_src2.size i.operand_src2.int_value)

-- So are the bytes of an instruction that was decoded and relocated.
pub AreOctets-emit_bytes :
    (m : Memory) (a b p : ℕ) (i : Instruction)
    → IsMemory m
    → (d : IsDecoded m a b i) → AreOctets (emit_bytes d.row (relocate p i))
unfolding emit_bytes relocate
AreOctets-emit_bytes m a b p i h d =
    let octet = λ (c : ℕ). c < 256 in
    let front = i.prefix_bytes ++ opcode_bytes d.row ++ postfix_bytes i in
    let all = subst AreOctets d.reads.bytes (AreOctets-slice m a _ h) in
    All-append octet front (operands_bytes (relocate p i))
      (All-front octet front (operands_bytes i) all) (AreOctets-operands_bytes (relocate p i))

pub slice-store-int_bytes :
    (p n v : ℕ) (m : Memory) → slice (store p (int_bytes n v) m) p n ≡ int_bytes n v
slice-store-int_bytes p n v m =
    ap (slice (store p (int_bytes n v) m) p) (sym (length-int_bytes n v))
    ∙ slice-store p (int_bytes n v) m (AreOctets-int_bytes n v)
