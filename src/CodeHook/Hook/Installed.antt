-- ===== src/CodeHook/Hook/Installed.antt =====
-- What a hook that is installed has done, and what one that fails has left alone.
use giblet.Common.{
  ℕ, ◌+◌, ◌<◌, ◌≤◌, ◌≡◌, ◌⊎◌, inl, inr, refl, sym, subst, ◌∙◌, Bool-cases, ◌==◌, if◌then◌else◌, ◌∷◌,
  replicate, length-replicate, returns, >>=-eq-returns, returns-injective, arith,
}
use giblet.CodeHook.Memory.{Memory, IsMemory, store, slice, int_bytes}
use giblet.CodeHook.Memory.Laws.{
  store_outside, slice-store, store-IsMemory, slice_agree, slice-store_apart,
}
use giblet.CodeHook.Instruction.Octets.{AreOctets-int_bytes}
use giblet.CodeHook.Assembler.Jumps.{jump_indirect_lem}
use giblet.CodeHook.MemoryBlock.{memory_block, page_readwrite, lock, destroy}
use giblet.CodeHook.Hook.{
  HookError, hook_success, hook_norelocate, HookEnd, installed, exits, Windows, redirect,
  write_pointers, write_thunk, lock_and_write, lock_and_redirect, finish_hook, install_hook,
}
use giblet.CodeHook.Hook.Thunk.{IsFresh, KeepsOutside, IsThunk, write_thunk-IsWritten}

-- The memory that the code is copied in: the new buffer is cleared, and holds the pointers.
abbrev pub with_pointers : Memory → ℕ → ℕ → Memory
with_pointers m buffer proxy = write_pointers buffer proxy (store buffer (replicate 256 0) m)

-- The function at `proc` starts with an indirect jump through the thunk's first pointer, the thunk is
-- finished, and no byte outside the two has changed.
pub record IsHooked (m code : Memory) (buffer proc proxy : ℕ) (m' : Memory) : Type 0 where
  pub size : ℕ
  pub thunk : IsThunk m code buffer proc proxy size m'
  pub jump : slice m' proc 6 ≡ 255 ∷ 37 ∷ int_bytes 4 buffer
  pub outside :
      (x : ℕ) → (x < buffer) ⊎ (buffer + 256 ≤ x) → (x < proc) ⊎ (proc + 6 ≤ x) → m' x ≡ m x

-- How an installation may end: it has hooked the function; or it ends the process, and no byte outside
-- the buffer has changed.
abbrev pub IsEnd : Memory → ℕ → ℕ → ℕ → HookEnd → Memory → Type 0
IsEnd m buffer proc proxy end m' =
    ((end ≡ installed (buffer + 16))
      × IsHooked m (with_pointers m buffer proxy) buffer proc proxy m')
    ⊎ ((e : HookError) × (end ≡ exits e) × KeepsOutside buffer m m')

module _ (m : Memory) (buffer proc proxy : ℕ) (fresh : IsFresh buffer proc) where
  -- Redirecting the function behind a finished thunk hooks it.
  IsHooked-redirect :
      (code : Memory) (t : ℕ) (m' : Memory)
      → IsThunk m code buffer proc proxy t m'
      → KeepsOutside buffer m m'
      → IsHooked m code buffer proc proxy (redirect buffer proc m')
  unfolding redirect int_bytes
  IsHooked-redirect code t m' h kept =
      let jump = 255 ∷ 37 ∷ int_bytes 4 buffer in
      let still = λ (a n : ℕ) (l : buffer ≤ a) (u : a + n ≤ buffer + 62).
        slice-store_apart proc jump m' a n (omega (arith, fresh)) in
      rw (jump_indirect_lem buffer m' proc) (record {
        size = t;
        thunk = record {
          enough = h.enough;
          few = h.few;
          old = h.old;
          new = h.new;
          copied = h.copied;
          source = h.source;
          function = still (buffer + 16) t (omega arith) (omega (arith, h.few)) ∙ h.function;
          back = rw (still (buffer + 16 + t) 5 (omega arith) (omega (arith, h.few))) h.back;
          to_proxy = still buffer 4 (omega arith) (omega arith) ∙ h.to_proxy;
          to_function = still (buffer + 4) 4 (omega arith) (omega arith) ∙ h.to_function;
        };
        jump = slice-store proc jump m' (omega arith, (omega arith, AreOctets-int_bytes 4 buffer));
        outside = λ x away apart. store_outside proc jump m' x (omega (arith, apart)) ∙ kept x away;
      })

  module _ {W : Type 0} (windows : Windows W) where
    -- What is known behind the block that writes the thunk.
    abbrev IsPrepared : Memory → HookError × Memory × W → Type 0
    IsPrepared code (status, m', w) =
        KeepsOutside buffer m m'
        × (status ≡ hook_success → (t : ℕ) × IsThunk m code buffer proc proxy t m')

    IsEnd-finish_hook :
        (status : HookError) (m' : Memory) (w : W)
        → IsPrepared (with_pointers m buffer proxy) (status, m', w)
        → let r = finish_hook windows proc proxy buffer (status, m', w) in
          IsEnd m buffer proc proxy r.0 r.1
    unfolding finish_hook lock_and_redirect
    IsEnd-finish_hook hook_success m' w (kept, thunk) =
        let (t, h) = thunk refl in
        elim (Bool-cases (lock windows.pages page_readwrite (memory_block proc) w).0) [
          | inl e ↦ rw e (inl (refl, IsHooked-redirect (with_pointers m buffer proxy) t m' h kept))
          | inr e ↦ rw e (inr (_, refl, kept))
        ]
    IsEnd-finish_hook _ m' w (kept, thunk) = inr (_, refl, kept)

    -- The thunk of a function is one for the memory before the buffer was cleared, too.
    IsThunk-before :
        (code : Memory) (t : ℕ) (m' m'' : Memory)
        → KeepsOutside buffer m m'
        → IsThunk m' code buffer proc proxy t m''
        → IsThunk m code buffer proc proxy t m''
    IsThunk-before code t m' m'' kept h = record {
      enough = h.enough;
      few = h.few;
      old = h.old;
      new = h.new;
      copied = h.copied;
      source =
          sym (slice_agree m m' proc t λ x l u. kept x (omega (arith, fresh, h.few))) ∙ h.source;
      function = h.function;
      back = h.back;
      to_proxy = h.to_proxy;
      to_function = h.to_function;
    }

    IsPrepared-lock_and_write :
        (m' : Memory) (w : W) {r : HookError × Memory × W}
        → KeepsOutside buffer m m'
        → IsMemory m'
        → lock_and_write windows proc proxy buffer m' w ≡ returns r
        → IsPrepared (write_pointers buffer proxy m') r
    unfolding lock_and_write
    IsPrepared-lock_and_write m' w kept h e =
        let block = lock windows.pages page_readwrite (memory_block buffer) w in
        elim (Bool-cases block.0) [
          | inl locked ↦
              let ((used, m''), thunk, rest) =
                >>=-eq-returns (write_thunk buffer proc proxy m')
                  (λ (used, m''). returns (
                    if used == 0 then hook_norelocate else hook_success,
                    m'',
                    destroy windows.pages block.1 block.2,
                  ))
                  (simp locked at e) in
              let (kept', written) = write_thunk-IsWritten m' buffer proc proxy fresh h thunk in
              subst (IsPrepared (write_pointers buffer proxy m')) (returns-injective rest) (
                λ x away. kept' x away ∙ kept x away,
                λ ok. elim written [
                  | inl z ↦ cc (simp z at ok)
                  | inr (t, _, finished) ↦
                      (t, IsThunk-before (write_pointers buffer proxy m') t m' m'' kept finished)
                ],
              )
          | inr locked ↦
              subst (IsPrepared (write_pointers buffer proxy m'))
                (returns-injective (simp locked at e)) (kept, λ ok. cc ok)
        ]

clear-KeepsOutside :
    (m : Memory) (buffer : ℕ) → KeepsOutside buffer m (store buffer (replicate 256 0) m)
clear-KeepsOutside m buffer x away =
    store_outside buffer (replicate 256 0) m x (omega (arith, length-replicate {A = ℕ} 256 0, away))

-- An `InstallHook` that comes to its end has hooked the function: it starts with a jump to the proxy, and
-- the thunk holds what `Relocate` makes of the instructions at its start, which take at least the six
-- bytes of the jump, each as it is decoded there, and a jump to what follows them; or it ends the process.
-- No byte outside the buffer and the six of the jump has changed, and without a hook none outside the
-- buffer. The pages that `VirtualAlloc` returns do not hold the function.
pub install_hook-IsEnd :
    {W : Type 0} (windows : Windows W) (proc proxy : ℕ) (m m' : Memory) (w w' : W) (end : HookEnd)
    → IsFresh (windows.virtual_alloc 0 256 64 w).0 proc
    → IsMemory m
    → install_hook windows proc proxy m w ≡ returns (end, m', w')
    → IsEnd m (windows.virtual_alloc 0 256 64 w).0 proc proxy end m'
unfolding install_hook
install_hook-IsEnd windows proc proxy m m' w w' end fresh h e =
    let (buffer, w1) = windows.virtual_alloc 0 256 64 w in
    let cleared = store buffer (replicate 256 0) m in
    elim (Bool-cases (buffer == 0)) [
      | inl null ↦
          subst (λ r. IsEnd m buffer proc proxy r.0 r.1) (returns-injective (simp null at e))
            (inr (_, refl, λ x away. refl))
      | inr found ↦
          let ((status, m1, w2), written, rest) =
            >>=-eq-returns (lock_and_write windows proc proxy buffer cleared w1)
              (λ written. returns (finish_hook windows proc proxy buffer written))
              (simp found at e) in
          let prepared =
            IsPrepared-lock_and_write m buffer proc proxy fresh windows cleared w1
              (clear-KeepsOutside m buffer) (store-IsMemory buffer (replicate 256 0) m h) written in
          subst (λ r. IsEnd m buffer proc proxy r.0 r.1) (returns-injective rest)
            (IsEnd-finish_hook m buffer proc proxy fresh windows status m1 w2 prepared)
    ]
