-- ===== src/CodeHook/Relocate.antt =====
-- src/CodeHook/cpuIA32_HookSystem.cpp, `RelocateCode`: copies whole instructions until they make up a
-- number of bytes, each one relocated to its new place. The code is read from the memory as the copy
-- leaves it.
pub mod Copy
pub mod Loop
use giblet.Common.{
  ℕ, zero, suc, ◌+◌, Bool, true, false, ltb, leb, if◌then◌else◌, Option, none, some, Outcome,
  returns, diverges, ◌>>=◌,
}
use giblet.CodeHook.Memory.{Memory}
use giblet.CodeHook.Instruction.{Instruction, new_instruction}
use giblet.CodeHook.Instruction.Decode.{decode}
use giblet.CodeHook.Instruction.Emit.{relocate, emit}

-- The variables of the loop.
pub record Progress : Type 0 where
  pub memory : Memory
  pub dst_ptr : ℕ
  pub op_iter : ℕ
  pub address : ℕ
  pub total_bytes : ℕ

-- One round behind a `Decode`: `none` where the loop is left with no bytes.
unfoldable pub copy_one : ℕ → Progress → Bool × Instruction × ℕ → Outcome (Option Progress)
copy_one max s (false, opcode, next) = returns none
copy_one max s (true, opcode, next) =
    if leb max (s.total_bytes + opcode.code_size)
    then returns none
    else (emit (relocate s.address opcode) s.dst_ptr s.memory >>= λ (memory, dst). returns (
        some (record {
          memory = memory;
          dst_ptr = dst;
          op_iter = next;
          address = s.address + opcode.code_size;
          total_bytes = s.total_bytes + opcode.code_size;
        })))

-- One round of the loop.
unfoldable pub relocate_one : ℕ → Progress → Outcome (Option Progress)
relocate_one max s = decode s.memory s.op_iter new_instruction >>= copy_one max s

-- The end of a loop that was left, or what the loop goes on with.
abbrev pub continue_with :
    Memory → (Progress → Outcome (ℕ × Memory)) → Option Progress → Outcome (ℕ × Memory)
continue_with memory loop none = returns (0, memory)
continue_with memory loop (some s) = loop s

-- The loop, for at most so many rounds.
unfoldable pub relocate_loop : ℕ → ℕ → ℕ → Progress → Outcome (ℕ × Memory)
relocate_loop zero min max s =
    if ltb s.total_bytes min then diverges else returns (s.total_bytes, s.memory)
relocate_loop (suc fuel) min max s =
    if ltb s.total_bytes min
    then (relocate_one max s >>= continue_with s.memory (relocate_loop fuel min max))
    else returns (s.total_bytes, s.memory)

-- `RelocateCode`. Each round copies a byte at least, so that `min` rounds are enough.
unfoldable pub relocate_code : Memory → ℕ → ℕ → ℕ → ℕ → Outcome (ℕ × Memory)
relocate_code m dst src min max =
    relocate_loop min min max
      (record { memory = m; dst_ptr = dst; op_iter = src; address = dst; total_bytes = 0 })
