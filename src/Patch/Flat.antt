-- ===== src/Patch/Flat.antt =====
-- What a patch of the client's code writes, and how it leaves the page.
use giblet.Common.{
  ℕ, ◌+◌, ◌≡◌, ◌≤◌, ◌<◌, ◌⊎◌, ap, subst, ◌∙◌, inl, inr, Bool, Bool-cases, true, Bytes, length, All,
}
use giblet.CodeHook.Memory.{Memory, store, slice}
use giblet.CodeHook.Memory.Laws.{store_outside, slice-store}
use giblet.CodeHook.MemoryBlock.{Pages, page_readwrite}
use giblet.Patch.{apply_flat_patch}

-- Let `VirtualProtect` give a range the protection that it is called with, where it succeeds, and let it
-- change nothing where the pointer for the old protection is null, which makes it fail. A patch that
-- is applied stands in the memory, every other byte is as before, and its page is left readable and
-- writable.
pub apply_flat_patch_lem :
    {W : Type 0} (pages : Pages W) (protect_null : ℕ → ℕ → ℕ → W → Bool × W)
    (protection : W → ℕ → ℕ)
    → ((a n prot old : ℕ) (w : W)
        → (pages.virtual_protect a n prot old w).0 ≡ true
        → (x : ℕ) → a ≤ x
        → x < a + n
        → protection (pages.virtual_protect a n prot old w).2 x ≡ prot)
    → ((a n prot : ℕ) (w : W) (x : ℕ) → protection (protect_null a n prot w).1 x ≡ protection w x)
    → (address : ℕ) (patch : Bytes) (m m' : Memory) (w w' : W) → All (λ c. c < 256) patch
    → apply_flat_patch pages protect_null address patch m w ≡ (true, m', w')
    → (slice m' address (length patch) ≡ patch)
      × ((x : ℕ) → (x < address) ⊎ (address + length patch ≤ x) → m' x ≡ m x)
      × ((x : ℕ) → address ≤ x → x < address + length patch → protection w' x ≡ page_readwrite)
unfolding apply_flat_patch
apply_flat_patch_lem pages protect_null protection changed kept address patch m m' w w' h e =
    let first = pages.virtual_protect address (length patch) page_readwrite 0 w in
    elim (Bool-cases first.0) [
      | inl done ↦
          let r : (
            true,
            store address patch m,
            (protect_null address (length patch) first.1 first.2).1,
          )
              ≡ (true, m', w') =
            simp done at e in
          let memory : store address patch m ≡ m' = ap (λ t. t.1) r in
          let system : (protect_null address (length patch) first.1 first.2).1 ≡ w' =
            ap (λ t. t.2) r in
          (
            subst (λ k. slice k address (length patch) ≡ patch) memory
                (slice-store address patch m h),
            (λ x out. subst (λ k. k x ≡ m x) memory (store_outside address patch m x out)),
            λ x low high.
                subst (λ k. protection k x ≡ page_readwrite) system
                  (kept address (length patch) first.1 first.2 x
                    ∙ changed address (length patch) page_readwrite 0 w done x low high),
          )
      | inr failed ↦ cc (ap (λ t. t.0) (simp failed at e))
    ]
