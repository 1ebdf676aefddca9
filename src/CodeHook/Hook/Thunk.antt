-- ===== src/CodeHook/Hook/Thunk.antt =====
-- What `InstallHook` writes into the thunk's buffer.
use giblet.Common.{
  ℕ, ◌+◌, ◌%◌, ◌^◌, ◌<◌, ◌≤◌, ◌≡◌, ◌⊎◌, inl, inr, refl, sym, subst, ◌∙◌, Bool-cases, ◌==◌, ◌∷◌,
  Bytes, returns, >>=-eq-returns, returns-injective, arith,
}
use giblet.CodeHook.Memory.{Memory, IsMemory, store, slice, int_bytes}
use giblet.CodeHook.Memory.Laws.{
  store_outside, slice-store, store-IsMemory, slice_agree, slice-store_apart, length-int_bytes,
}
use giblet.CodeHook.Instruction.Octets.{AreOctets-int_bytes, slice-store-int_bytes}
use giblet.CodeHook.Relocate.{relocate_code}
use giblet.CodeHook.Relocate.Copy.{IsCopied, IsCopy}
use giblet.CodeHook.Relocate.Loop.{relocate_code-IsCopy}
use giblet.CodeHook.Assembler.{distance32, jump}
use giblet.CodeHook.Assembler.Jumps.{jump_lem, distance32_lem}
use giblet.CodeHook.Hook.{write_pointers, close_thunk, write_thunk}

-- The page of the buffer, which `VirtualAlloc` rounds it up to, holds none of the code that is read.
abbrev pub IsFresh : ℕ → ℕ → Type 0
IsFresh buffer proc = (proc + 41 ≤ buffer) ⊎ (buffer + 4096 ≤ proc)

-- No byte outside the buffer has changed.
abbrev pub KeepsOutside : ℕ → Memory → Memory → Type 0
KeepsOutside buffer m m' = (x : ℕ) → (x < buffer) ⊎ (buffer + 256 ≤ x) → m' x ≡ m x

-- The bytes of a near jump that stands at `place` and leads to `target`.
pub record IsJump (place target : ℕ) (bytes : Bytes) : Type 0 where
  pub distance : ℕ
  pub code : bytes ≡ 233 ∷ int_bytes 4 distance
  pub leads : (place + 5 + distance) % 2 ^ 32 ≡ target % 2 ^ 32

-- A finished thunk: a pointer to the proxy and one to the thunk's function, which has the instructions of
-- the first `t` bytes of the hooked function, as they are decoded in the memory `code` and relocated,
-- and a jump to the byte behind them.
pub record IsThunk (m code : Memory) (buffer proc proxy t : ℕ) (m' : Memory) : Type 0 where
  pub enough : 6 ≤ t
  pub few : t ≤ 41
  pub old : Bytes
  pub new : Bytes
  pub copied : IsCopied code proc (buffer + 16) t old new
  pub source : slice m proc t ≡ old
  pub function : slice m' (buffer + 16) t ≡ new
  pub back : IsJump (buffer + 16 + t) (proc + t) (slice m' (buffer + 16 + t) 5)
  pub to_proxy : slice m' buffer 4 ≡ int_bytes 4 proxy
  pub to_function : slice m' (buffer + 4) 4 ≡ int_bytes 4 (buffer + 16)

module _ (m : Memory) (buffer proxy : ℕ) where
  pub write_pointers-KeepsOutside : KeepsOutside buffer m (write_pointers buffer proxy m)
  write_pointers-KeepsOutside x away =
      store_outside (buffer + 4) (int_bytes 4 (buffer + 16)) (store buffer (int_bytes 4 proxy) m) x
        (omega (arith, length-int_bytes 4 (buffer + 16), away))
      ∙ store_outside buffer (int_bytes 4 proxy) m x (omega (arith, length-int_bytes 4 proxy, away))

  slice-proxy : slice (write_pointers buffer proxy m) buffer 4 ≡ int_bytes 4 proxy
  slice-proxy =
      slice-store_apart (buffer + 4) (int_bytes 4 (buffer + 16))
        (store buffer (int_bytes 4 proxy) m) buffer 4 (omega arith)
      ∙ slice-store-int_bytes buffer 4 proxy m

  slice-function : slice (write_pointers buffer proxy m) (buffer + 4) 4 ≡ int_bytes 4 (buffer + 16)
  slice-function =
      slice-store-int_bytes (buffer + 4) 4 (buffer + 16) (store buffer (int_bytes 4 proxy) m)

  pub write_pointers-IsMemory : IsMemory m → IsMemory (write_pointers buffer proxy m)
  write_pointers-IsMemory h =
      store-IsMemory (buffer + 4) (int_bytes 4 (buffer + 16)) (store buffer (int_bytes 4 proxy) m)
        (store-IsMemory buffer (int_bytes 4 proxy) m h)

module _ (m : Memory) (buffer proc proxy : ℕ) (fresh : IsFresh buffer proc) where
  -- The relocated code with the jump behind it is a thunk.
  IsThunk-jump :
      (t : ℕ) (m' : Memory)
      → 6 ≤ t
      → t ≤ 41
      → IsCopy (write_pointers buffer proxy m) proc (buffer + 16) t m'
      → let m'' = (jump (proc + t) (m', buffer + 16 + t)).0 in
        IsThunk m (write_pointers buffer proxy m) buffer proc proxy t m''
        × KeepsOutside buffer m m''
  unfolding int_bytes
  IsThunk-jump t m' enough few c =
      let place = buffer + 16 + t in
      let distance = distance32 (proc + t) (place + 1) in
      let code = 233 ∷ int_bytes 4 distance in
      let written = jump_lem (proc + t) m' place in
      let pointers = write_pointers buffer proxy m in
      let size = length-int_bytes 4 distance in
      let unmoved = λ (a : ℕ) (ends : a + 4 ≤ buffer + 8).
        slice-store_apart place code m' a 4 (inl (omega arith))
        ∙ slice_agree pointers m' a 4 λ x l u. c.outside x (inl (omega arith)) in
      rw written (
        record {
          enough = enough;
          few = few;
          old = c.old;
          new = c.new;
          copied = c.copied;
          source =
              sym (
                slice_agree m pointers proc t
                  λ x l u. write_pointers-KeepsOutside m buffer proxy x (omega (arith, fresh)))
              ∙ c.source;
          function = slice-store_apart place code m' (buffer + 16) t (inl (omega arith)) ∙ c.copy;
          back = record {
            distance = distance;
            code = slice-store place code m' (omega arith, AreOctets-int_bytes 4 distance);
            leads = omega (arith, distance32_lem (proc + t) (place + 1));
          };
          to_proxy = unmoved buffer (omega arith) ∙ slice-proxy m buffer proxy;
          to_function = unmoved (buffer + 4) (omega arith) ∙ slice-function m buffer proxy;
        },
        λ x away.
            store_outside place code m' x (omega (arith, size, away))
            ∙ c.outside x (omega (arith, away))
            ∙ write_pointers-KeepsOutside m buffer proxy x away,
      )

  -- What `write_thunk` returns.
  abbrev pub IsWritten : ℕ × Memory → Type 0
  IsWritten (used, m') =
      KeepsOutside buffer m m'
      × ((used ≡ 0)
          ⊎ ((t : ℕ) × (used ≡ t + 5)
              × IsThunk m (write_pointers buffer proxy m) buffer proc proxy t m'))

  IsWritten-close_thunk :
      (t : ℕ) (m' : Memory)
      → relocate_code (write_pointers buffer proxy m) (buffer + 16) proc 6 256 ≡ returns (t, m')
      → IsMemory m
      → IsWritten (close_thunk buffer proc (t, m'))
  IsWritten-close_thunk t m' e h =
      let pointers = write_pointers buffer proxy m in
      let (outside, copy) =
        relocate_code-IsCopy pointers m' proc (buffer + 16) 6 256 t (omega (arith, fresh))
          (write_pointers-IsMemory m buffer proxy h) (omega arith) e in
      elim (Bool-cases (t == 0)) [
        | inl z ↦ rw z (
          λ x away.
              outside x (omega (arith, away)) ∙ write_pointers-KeepsOutside m buffer proxy x away,
          inl refl,
        )
        | inr z ↦ elim copy [
          | inl none ↦ ground arith
          | inr (enough, _, few, c) ↦
              let (thunk, kept) = IsThunk-jump t m' enough few c in
              rw z (kept, inr (t, refl, thunk))
        ]
      ]

  pub write_thunk-IsWritten :
      {r : ℕ × Memory} → IsMemory m → write_thunk buffer proc proxy m ≡ returns r → IsWritten r
  unfolding write_thunk
  write_thunk-IsWritten h e =
      let ((t, m'), relocated, closed) =
        >>=-eq-returns (relocate_code (write_pointers buffer proxy m) (buffer + 16) proc 6 256)
          (λ r. returns (close_thunk buffer proc r)) e in
      subst IsWritten (returns-injective closed) (IsWritten-close_thunk t m' relocated h)
