-- ===== src/CodeHook.antt =====
-- src/CodeHook: the code hooks. A function of a loaded module is patched with a jump to a proxy; the
-- instructions that the patch overwrites are decoded, relocated and kept in a thunk.
pub mod Memory
pub mod Operand
pub mod Registers
pub mod Postbyte
pub mod Opcode
pub mod Extensions
pub mod Tables
pub mod Instruction
pub mod Relocate
pub mod Assembler
pub mod MemoryBlock
pub mod Hook
