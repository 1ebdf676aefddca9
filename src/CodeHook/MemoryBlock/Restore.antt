-- ===== src/CodeHook/MemoryBlock/Restore.antt =====
-- A `MemoryBlock` gives the pages of its address their protection back.
use giblet.Common.{
  ℕ, ◌+◌, ◌≤◌, ◌<◌, ◌≡◌, inl, inr, refl, sym, ap, subst, ◌∙◌, true, ◌==◌, Bool-cases, Option-cases,
  some,
}
use giblet.CodeHook.MemoryBlock.{
  Region, Pages, MemoryBlock, memory_block, lock_region, lock, unlock_region, unlock,
}

-- An address is in a region.
abbrev pub Holds : Region → ℕ → Type 0
Holds r x = (r.base ≤ x) × (x < r.base + r.size)

-- What is documented of the two calls, by the protection that each address has: `VirtualQuery` finds a
-- region with the address, all of which has one protection, and a `VirtualProtect` that succeeds gives
-- the region, which is made of whole pages, the protection that it is called with.
pub record IsPaging {W : Type 0} (pages : Pages W) (protection : W → ℕ → ℕ) : Type 0 where
  pub query :
      (a : ℕ) (w : W) (r : Region)
      → pages.virtual_query a w ≡ some r
      → Holds r a × ((x : ℕ) → Holds r x → protection w x ≡ r.protect)
  pub changed :
      (r : Region) (prot old : ℕ) (w : W)
      → (pages.virtual_protect r.base r.size prot old w).0 ≡ true
      → (x : ℕ) → Holds r x
      → protection (pages.virtual_protect r.base r.size prot old w).2 x ≡ prot

module _ {W : Type 0} (pages : Pages W) (protection : W → ℕ → ℕ)
    (paging : IsPaging pages protection) where
  lock_lem :
      (prot a : ℕ) (w : W)
      → (lock pages prot (memory_block a) w).0 ≡ true
      → let r = lock pages prot (memory_block a) w in
        (r.1.memory ≡ a) × (r.1.locked_protection ≡ protection w a) × (protection r.2 a ≡ prot)
  unfolding lock lock_region
  lock_lem prot a w e = elim (Option-cases (pages.virtual_query a w)) [
    | inl n ↦ cc (simp n at e)
    | inr (r, found) ↦
        let (held, same) = paging.query a w r found in
        let done = simp found at e in
        simp found (refl, simp done (sym (same a held)), paging.changed r prot 0 w done a held)
  ]

  unlock_lem :
      (b : MemoryBlock) (w : W)
      → (unlock pages b w).0 ≡ true
      → let r = unlock pages b w in
        (r.1.locked_protection ≡ 0) × (protection r.2 b.memory ≡ b.locked_protection)
  unfolding unlock unlock_region
  unlock_lem b w e = elim (Bool-cases (b.locked_protection == 0)) [
    | inl z ↦ cc (simp z at e)
    | inr z ↦ elim (Option-cases (pages.virtual_query b.memory w)) [
      | inl n ↦ cc (simp (z, n) at e)
      | inr (r, found) ↦
          let (held, same) = paging.query b.memory w r found in
          let done = simp (z, found) at e in
          simp (z, found)
            (refl, paging.changed r b.locked_protection b.locked_protection w done b.memory held)
    ]
  ]

  -- A `Lock` that succeeds gives the address the protection that it asks for, and an `Unlock` behind it
  -- that succeeds gives back the one that the address had before.
  pub unlock-lock :
      (prot a : ℕ) (b b' : MemoryBlock) (w w1 w2 : W)
      → lock pages prot (memory_block a) w ≡ (true, b, w1)
      → unlock pages b w1 ≡ (true, b', w2)
      → (protection w1 a ≡ prot) × (protection w2 a ≡ protection w a) × (b'.locked_protection ≡ 0)
  unlock-lock prot a b b' w w1 w2 e e' =
      let (place, kept, changed) =
        subst
          (λ r.
            (r.1.memory ≡ a) × (r.1.locked_protection ≡ protection w a) × (protection r.2 a ≡ prot))
          e (lock_lem prot a w (ap (λ r. r.0) e)) in
      let (cleared, back) =
        subst (λ r. (r.1.locked_protection ≡ 0) × (protection r.2 b.memory ≡ b.locked_protection))
          e' (unlock_lem b w1 (ap (λ r. r.0) e')) in
      (changed, ap (protection w2) (sym place) ∙ back ∙ kept, cleared)
