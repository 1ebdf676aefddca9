-- ===== src/CodeHook/Instruction/Reach.antt =====
-- Where short jumps lead before and after they are relocated.
use giblet.Common.{
  ℕ, ◌+◌, ◌-◌, ◌%◌, ◌^◌, ◌≤◌, ◌<◌, ◌≡◌, ◌⊎◌, ◌↔◌, true, ltb, if◌then◌else◌, inl, inr, arith,
}
use giblet.CodeHook.Operand.{Operand, is_relative}
use giblet.CodeHook.Instruction.Emit.{relocate_operand}

-- Where a short jump leads that ends at an address: its operand is a signed byte, and addresses have
-- 32 bits.
abbrev pub short_target : ℕ → ℕ → ℕ
short_target end v = (end + (if ltb v 128 then v else v + (2 ^ 32 - 256))) % 2 ^ 32

-- A short jump that ends at one address can lead to another.
abbrev pub IsNear : ℕ → ℕ → Type 0
IsNear end target =
    let distance = (target + (2 ^ 32 - end % 2 ^ 32)) % 2 ^ 32 in
    (distance < 128) ⊎ (2 ^ 32 - 128 ≤ distance)

-- The bytes that a relocation leaves of the distance from an address to a target.
abbrev low_byte : ℕ → ℕ → ℕ
low_byte x y = (x % 2 ^ 64 + (2 ^ 64 - y % 2 ^ 64)) % 2 ^ 64 % 2 ^ 8

IsNear-if :
    (x y v : ℕ)
    → v < 256
    → IsNear y (short_target x v)
    → short_target y (low_byte (x + v) y) ≡ short_target x v
IsNear-if x y v h (inl n) = ground arith
IsNear-if x y v h (inr n) = ground arith

IsNear-only_if :
    (x y v : ℕ)
    → v < 256
    → short_target y (low_byte (x + v) y) ≡ short_target x v
    → IsNear y (short_target x v)
IsNear-only_if x y v h e = ground arith

-- A relocated short jump leads where it led exactly if the old target is near the new place.
pub relocate_operand_short :
    (old size address : ℕ) (o : Operand)
    → is_relative o.type ≡ true
    → o.size ≡ 1
    → o.int_value < 256
    → let target = short_target (old + size) o.int_value in
      (short_target (address + size) (relocate_operand old size address o).int_value ≡ target)
      ↔ IsNear (address + size) target
unfolding relocate_operand
relocate_operand_short old size address o r one small =
    let x = old + size in
    let y = address + size in
    rw r (rw one (IsNear-only_if x y o.int_value small, IsNear-if x y o.int_value small))
