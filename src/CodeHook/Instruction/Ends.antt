-- ===== src/CodeHook/Instruction/Ends.antt =====
-- No part of `Decode` loops for ever.
use giblet.Common.{ℕ, zero, suc, ◌+◌, ◌==◌, ◌∷◌, Outcome, returns}
use giblet.Common.Settles.{Settles, Settles-bind, Settles-if}
use giblet.CodeHook.Memory.{Memory}
use giblet.CodeHook.Instruction.{Instruction, reset}
use giblet.CodeHook.Tables.{opcodes32_table}
use giblet.CodeHook.Instruction.Decode.{
  is_prefix, prefix_loop, process_prefix, max_prefix_bytes, find_opcode, decode_at, decode,
}

-- The call ends.
abbrev pub DoesEnd {ℓ} : {A : Type ℓ} → Outcome A → Type 0
DoesEnd = Settles λ _. Unit

abbrev Settled {ℓ} : {A : Type ℓ} → A → Type 0
Settled _ = Unit

DoesEnd-prefix_loop : (room : ℕ) (m : Memory) (a : ℕ) → DoesEnd (prefix_loop room m a)
unfolding prefix_loop
DoesEnd-prefix_loop zero m a = Settles-if Settled (is_prefix (m a)) _ _ (λ _. tt) (λ _. tt)
DoesEnd-prefix_loop (suc room) m a =
    Settles-if Settled (is_prefix (m a)) _ _
      (λ _.
        Settles-bind Settled Settled (prefix_loop room m (a + 1))
          (λ (bytes, next). returns (m a ∷ bytes, next)) (DoesEnd-prefix_loop room m (a + 1))
          (λ _ _ _. tt))
      (λ _. tt)

pub DoesEnd-decode : (m : Memory) (a : ℕ) (i : Instruction) → DoesEnd (decode m a i)
unfolding decode process_prefix
DoesEnd-decode m a i =
    Settles-bind Settled Settled (process_prefix m a)
      (λ (prefixes, next). returns (
        decode_at m a (record (reset i) { address = a; prefix_bytes = prefixes })
          (find_opcode m next opcodes32_table)))
      (Settles-if Settled (a == 0) _ _ (λ _. tt) (λ _. DoesEnd-prefix_loop max_prefix_bytes m a))
      (λ _ _ _. tt)
