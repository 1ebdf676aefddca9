-- ===== src/CodeHook/MemoryBlock.antt =====
-- src/CodeHook/cpu_Win32MemoryBlock.h and cpu_Win32MemoryBlock.cpp: makes the pages of an address
-- writable for a time. `VirtualQuery` and `VirtualProtect` are parameters.
pub mod Restore
use giblet.Common.{ℕ, Bool, true, false, not, ◌==◌, if◌then◌else◌, Option, none, some}

-- The part of `MEMORY_BASIC_INFORMATION` that is used.
pub record Region : Type 0 where
  pub base : ℕ
  pub size : ℕ
  pub protect : ℕ

-- What the system answers: a region, unless the call fails; and whether a change of the protection
-- succeeded, with the value that the call leaves in its last argument, which comes in as it is.
pub record Pages (W : Type 0) : Type 0 where
  pub virtual_query : ℕ → W → Option Region
  pub virtual_protect : ℕ → ℕ → ℕ → ℕ → W → Bool × ℕ × W

pub record MemoryBlock : Type 0 where
  pub memory : ℕ
  pub locked_protection : ℕ

-- `MemoryBlock(memory)`
abbrev pub memory_block : ℕ → MemoryBlock
memory_block memory = record { memory = memory; locked_protection = 0 }

-- `PAGE_READWRITE`
abbrev pub page_readwrite : ℕ
page_readwrite = 4

module _ {W : Type 0} (pages : Pages W) where
  -- `Lock` behind a call of `VirtualQuery`.
  unfoldable pub lock_region : ℕ → MemoryBlock → Option Region → W → Bool × MemoryBlock × W
  lock_region prot b none w = (false, b, w)
  lock_region prot b (some mbi) w =
      let (result, old, w') = pages.virtual_protect mbi.base mbi.size prot b.locked_protection w in
      (result, record b { locked_protection = if result then mbi.protect else old }, w')

  unfoldable pub lock : ℕ → MemoryBlock → W → Bool × MemoryBlock × W
  lock prot b w =
      if not (b.locked_protection == 0)
      then (false, b, w)
      else lock_region prot b (pages.virtual_query b.memory w) w

  -- `Unlock` behind a call of `VirtualQuery`.
  unfoldable pub unlock_region : MemoryBlock → Option Region → W → Bool × MemoryBlock × W
  unlock_region b none w = (false, b, w)
  unlock_region b (some mbi) w =
      let (result, old, w') =
        pages.virtual_protect mbi.base mbi.size b.locked_protection b.locked_protection w in
      (result, record b { locked_protection = 0 }, w')

  unfoldable pub unlock : MemoryBlock → W → Bool × MemoryBlock × W
  unlock b w =
      if b.locked_protection == 0
      then (false, b, w)
      else unlock_region b (pages.virtual_query b.memory w) w

  -- `~MemoryBlock`
  unfoldable pub destroy : MemoryBlock → W → W
  destroy b w = if b.locked_protection == 0 then w else (unlock b w).2
