-- ===== src/CodeHook/Relocate/Copy.antt =====
-- The specification of `RelocateCode`, and the round of its loop that copies an instruction.
use giblet.Common.{
  ℕ, ◌+◌, ◌<◌, ◌≤◌, ◌≡◌, ◌⊎◌, inl, sym, ap, ◌∙◌, some, true, returns, [], ◌++◌, length, Bytes,
  arith,
}
use giblet.CodeHook.Memory.{Memory, IsMemory, store, slice}
use giblet.CodeHook.Memory.Laws.{
  store_outside, slice-store, slice_agree, slice-append, length-slice, store-append,
}
use giblet.CodeHook.Opcode.{OpcodeInfo}
use giblet.CodeHook.Instruction.{Instruction, new_instruction}
use giblet.CodeHook.Instruction.Decode.{decode}
use giblet.CodeHook.Instruction.Emit.{relocate, emit_bytes}
use giblet.CodeHook.Instruction.RoundTrip.{IsDecoded}
use giblet.CodeHook.Instruction.Relocation.{length-emit_bytes-relocate}
use giblet.CodeHook.Instruction.Octets.{AreOctets-emit_bytes}
use giblet.CodeHook.Relocate.{Progress}

-- Code of so many bytes is a row of whole instructions that starts at `src`: each one is what `Decode` gives
-- there, in the memory with the instructions in front of it copied. `old` is their encoding, and
-- `new` is that of the same instructions, each one relocated to where it comes to stand behind `dst`.
pub data IsCopied (m : Memory) (src dst : ℕ) : ℕ → Bytes → Bytes → Type 0 where
  none : IsCopied m src dst 0 [] []
  one_more :
      {t : ℕ} {old new : Bytes}
      → IsCopied m src dst t old new
      → (row : OpcodeInfo) (i : Instruction)
      → decode (store dst new m) (src + t) new_instruction
        ≡ returns (true, i, src + t + i.code_size)
      → i.info ≡ some row
      → i.address ≡ src + t
      → i.code_size ≡ length (emit_bytes row i)
      → IsCopied m src dst
          (t + i.code_size)
          (old ++ emit_bytes row i)
          (new ++ emit_bytes row (relocate (dst + t) i))

-- The memory `m'` is `m` with a relocated copy of `t` bytes of code at `dst`, and no other change.
pub record IsCopy (m : Memory) (src dst t : ℕ) (m' : Memory) : Type 0 where
  pub old : Bytes
  pub new : Bytes
  pub copied : IsCopied m src dst t old new
  pub written : m' ≡ store dst new m
  pub source : slice m src t ≡ old
  pub copy : slice m' dst t ≡ new
  pub outside : (x : ℕ) → (x < dst) ⊎ (dst + t ≤ x) → m' x ≡ m x

-- The buffer at `dst` does not overlap the code that may be read.
abbrev pub AreApart : ℕ → ℕ → ℕ → ℕ → Type 0
AreApart src dst min max = (src + min + 35 ≤ dst) ⊎ (dst + max ≤ src)

-- The loop's invariant.
pub record IsCopying (m : Memory) (src dst min max : ℕ) (s : Progress) : Type 0 where
  pub cells : IsMemory s.memory
  pub ptr : s.dst_ptr ≡ dst + s.total_bytes
  pub iter : s.op_iter ≡ src + s.total_bytes
  pub place : s.address ≡ dst + s.total_bytes
  pub fits : s.total_bytes < max
  pub short : s.total_bytes ≤ min + 35
  pub copy : IsCopy m src dst s.total_bytes s.memory

module _ (m : Memory) (src dst t : ℕ) (m' : Memory) (i : Instruction) {b : ℕ} where
  -- Writing one more relocated instruction behind a copy makes the copy longer.
  pub IsCopy-store :
      IsMemory m'
      → IsCopy m src dst t m'
      → (d : IsDecoded m' (src + t) b i)
      → decode m' (src + t) new_instruction ≡ returns (true, i, b)
      → (src + t + i.code_size ≤ dst) ⊎ (dst + t ≤ src + t)
      → IsCopy m src dst
          (t + i.code_size)
          (store (dst + t) (emit_bytes d.row (relocate (dst + t) i)) m')
  IsCopy-store h c d e apart =
      let bytes = emit_bytes d.row (relocate (dst + t) i) in
      let m'' = store (dst + t) bytes m' in
      let n = i.code_size in
      let size : length bytes ≡ n = length-emit_bytes-relocate d.row (dst + t) i ∙ sym d.size in
      let unchanged : slice m (src + t) n ≡ emit_bytes d.row i =
        sym (slice_agree m m' (src + t) n λ x l u. c.outside x (omega arith))
        ∙ ap (slice m' (src + t)) d.size
        ∙ d.reads.bytes in
      let kept : slice m'' dst t ≡ c.new =
        slice_agree m' m'' dst t (λ x l u. store_outside (dst + t) bytes m' x (inl u)) ∙ c.copy in
      let added : slice m'' (dst + t) n ≡ bytes =
        ap (slice m'' (dst + t)) (sym size)
        ∙ slice-store (dst + t) bytes m' (AreOctets-emit_bytes m' (src + t) b (dst + t) i h d) in
      let end : b ≡ src + t + n = omega (arith, d.reads.end, d.size) in
      let here : decode (store dst c.new m) (src + t) new_instruction
          ≡ returns (true, i, src + t + n) =
        ap (λ k. decode k (src + t) new_instruction) (sym c.written)
        ∙ e
        ∙ ap (λ k. returns (true, i, k)) end in
      let place : dst + length c.new ≡ dst + t =
        ap (λ k. dst + length k) (sym c.copy) ∙ ap (λ k. dst + k) (length-slice m' dst t) in
      record {
        old = c.old ++ emit_bytes d.row i;
        new = c.new ++ bytes;
        copied = one_more c.copied d.row i here d.info d.address d.size;
        written =
            ap (store (dst + t) bytes) c.written
            ∙ ap (λ k. store k bytes (store dst c.new m)) (sym place)
            ∙ sym (store-append dst c.new bytes m);
        source = sym (slice-append m src t n) ∙ rw (c.source, unchanged);
        copy = sym (slice-append m'' dst t n) ∙ rw (kept, added);
        outside =
            λ x away. store_outside (dst + t) bytes m' x (omega arith) ∙ c.outside x (omega arith);
      }
