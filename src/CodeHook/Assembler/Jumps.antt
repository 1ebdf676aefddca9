-- ===== src/CodeHook/Assembler/Jumps.antt =====
-- The jumps that the hooks write: their bytes, and where they lead.
use giblet.Common.{ℕ, ◌+◌, ◌%◌, ◌^◌, ◌≡◌, sym, ◌∙◌, [], ◌∷◌, arith}
use giblet.CodeHook.Memory.{Memory, store, int_bytes}
use giblet.CodeHook.Memory.Laws.{store-append}
use giblet.CodeHook.Assembler.{distance32, relative32, absolute32, jump, jump_indirect}

pub jump_lem :
    (address : ℕ) (m : Memory) (p : ℕ)
    → (jump address (m, p)).0 ≡ store p (233 ∷ int_bytes 4 (distance32 address (p + 1))) m
unfolding jump relative32
jump_lem address m p = sym (store-append p (233 ∷ []) (int_bytes 4 (distance32 address (p + 1))) m)

pub jump_indirect_lem :
    (address : ℕ) (m : Memory) (p : ℕ)
    → (jump_indirect address (m, p)).0 ≡ store p (255 ∷ 37 ∷ int_bytes 4 address) m
unfolding jump_indirect absolute32
jump_indirect_lem address m p = sym (
    store-append p (255 ∷ []) (37 ∷ int_bytes 4 address) m
    ∙ store-append (p + 1) (37 ∷ []) (int_bytes 4 address) (store p (255 ∷ []) m))

-- The jump leads to the address, in 32 bits.
pub distance32_lem :
    (address place : ℕ) → (place + 4 + distance32 address place) % 2 ^ 32 ≡ address % 2 ^ 32
distance32_lem address place = omega arith
