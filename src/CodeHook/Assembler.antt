-- ===== src/CodeHook/Assembler.antt =====
-- src/CodeHook/cpuIA32_Assembler.cpp: instructions that are written at a pointer. The state is the memory
-- and the pointer, and addresses have 32 bits.
pub mod Jumps
use giblet.Common.{ℕ, ◌+◌, ◌-◌, ◌%◌, ◌^◌, length, [], ◌∷◌, Bytes}
use giblet.CodeHook.Memory.{Memory, store, int_bytes}

-- The bytes behind the pointer, which moves over them.
abbrev append_bytes : Bytes → Memory × ℕ → Memory × ℕ
append_bytes bytes (m, p) = (store p bytes m, p + length bytes)

-- The distance that `Relative32` writes for an operand that stands at `place`: the value is computed
-- before the pointer moves, as of C++17.
abbrev pub distance32 : ℕ → ℕ → ℕ
distance32 address place = (address + (2 ^ 32 - (place + 4) % 2 ^ 32)) % 2 ^ 32

unfoldable pub relative32 : ℕ → ℕ → Memory × ℕ → Memory × ℕ
relative32 opcode address s =
    let with_opcode = append_bytes (opcode ∷ []) s in
    append_bytes (int_bytes 4 (distance32 address with_opcode.1)) with_opcode

unfoldable pub absolute32 : ℕ → ℕ → Memory × ℕ → Memory × ℕ
absolute32 opcode address s = append_bytes (int_bytes 4 address) (append_bytes (opcode ∷ []) s)

unfoldable pub immediate32 : ℕ → ℕ → Memory × ℕ → Memory × ℕ
immediate32 opcode value s = append_bytes (int_bytes 4 value) (append_bytes (opcode ∷ []) s)

unfoldable pub jump : ℕ → Memory × ℕ → Memory × ℕ
jump = relative32 233

unfoldable pub jump_indirect : ℕ → Memory × ℕ → Memory × ℕ
jump_indirect address s = absolute32 37 address (append_bytes (255 ∷ []) s)

unfoldable pub call : ℕ → Memory × ℕ → Memory × ℕ
call = relative32 232

unfoldable pub push : ℕ → Memory × ℕ → Memory × ℕ
push = absolute32 104

unfoldable pub add_esp : ℕ → Memory × ℕ → Memory × ℕ
add_esp count s = immediate32 196 count (append_bytes (129 ∷ []) s)

-- `Return`
unfoldable pub return_near : Memory × ℕ → Memory × ℕ
return_near = append_bytes (195 ∷ [])
