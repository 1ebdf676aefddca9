-- ===== src/CodeHook/Hook/Ends.antt =====
-- `InstallHook` comes to an end.
use giblet.Common.{ℕ, ◌+◌, ◌≢◌, ◌==◌, if◌then◌else◌, replicate, returns, diverges, arith}
use giblet.Common.Settles.{Settles-bind, Settles-if, Settles-ends}
use giblet.CodeHook.Memory.{Memory, IsMemory, store}
use giblet.CodeHook.Memory.Laws.{store-IsMemory}
use giblet.CodeHook.Instruction.Ends.{DoesEnd}
use giblet.CodeHook.Relocate.{relocate_code}
use giblet.CodeHook.Relocate.Copy.{AreApart}
use giblet.CodeHook.Relocate.Loop.{Settles-relocate_code, IsResult}
use giblet.CodeHook.MemoryBlock.{memory_block, page_readwrite, lock, destroy}
use giblet.CodeHook.Hook.{
  hook_success, hook_norelocate, Windows, write_pointers, close_thunk, write_thunk, lock_and_write,
  finish_hook, install_hook,
}
use giblet.CodeHook.Hook.Thunk.{IsFresh, write_pointers-IsMemory}

abbrev Settled {ℓ} : {A : Type ℓ} → A → Type 0
Settled _ = Unit

module _ (buffer proc proxy : ℕ) (m : Memory) (fresh : IsFresh buffer proc) (h : IsMemory m) where
  DoesEnd-write_thunk : DoesEnd (write_thunk buffer proc proxy m)
  unfolding write_thunk
  DoesEnd-write_thunk =
      let apart : AreApart proc (buffer + 16) 6 256 = omega (arith, fresh) in
      let pointers = write_pointers buffer proxy m in
      Settles-bind (IsResult pointers proc (buffer + 16) 6 256 apart) Settled
        (relocate_code pointers (buffer + 16) proc 6 256) (λ r. returns (close_thunk buffer proc r))
        (Settles-relocate_code pointers proc (buffer + 16) 6 256 apart
          (write_pointers-IsMemory m buffer proxy h) (omega arith))
        (λ _ _ _. tt)

  DoesEnd-lock_and_write :
      {W : Type 0} (windows : Windows W) (w : W)
      → DoesEnd (lock_and_write windows proc proxy buffer m w)
  unfolding lock_and_write
  DoesEnd-lock_and_write windows w =
      let block = lock windows.pages page_readwrite (memory_block buffer) w in
      Settles-if Settled block.0 _ _
        (λ _.
          Settles-bind Settled Settled (write_thunk buffer proc proxy m)
            (λ (used, m'). returns (
              if used == 0 then hook_norelocate else hook_success,
              m',
              destroy windows.pages block.1 block.2,
            ))
            DoesEnd-write_thunk (λ _ _ _. tt))
        (λ _. tt)

-- `InstallHook` ends, where the new buffer does not hold the function.
pub install_hook-ends :
    {W : Type 0} (windows : Windows W) (proc proxy : ℕ) (m : Memory) (w : W)
    → IsFresh (windows.virtual_alloc 0 256 64 w).0 proc
    → IsMemory m
    → install_hook windows proc proxy m w ≢ diverges
unfolding install_hook
install_hook-ends windows proc proxy m w fresh h =
    let (buffer, w1) = windows.virtual_alloc 0 256 64 w in
    let cleared = store buffer (replicate 256 0) m in
    Settles-ends Settled (install_hook windows proc proxy m w) (
      Settles-if Settled (buffer == 0) _ _ (λ _. tt)
        (λ _.
          Settles-bind Settled Settled (lock_and_write windows proc proxy buffer cleared w1)
            (λ written. returns (finish_hook windows proc proxy buffer written))
            (DoesEnd-lock_and_write buffer proc proxy cleared fresh
              (store-IsMemory buffer (replicate 256 0) m h) windows w1)
            (λ _ _ _. tt)))
