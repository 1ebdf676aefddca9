-- ===== src/CodeHook/Relocate/Loop.antt =====
-- `RelocateCode` ends, and what it returns: no bytes, or the size of a relocated copy.
use giblet.Common.{
  ℕ, zero, suc, ◌+◌, ◌<◌, ◌≤◌, ◌≡◌, ◌≢◌, ◌⊎◌, inl, inr, refl, sym, ap, subst, ◌∙◌, Bool, true,
  false, ltb, leb, ltb→lt, Option, none, some, [], Outcome, returns, diverges, arith,
}
use giblet.Common.Settles.{Settles, Settles-bind, Settles-if, Settles-ends, Settles-result}
use giblet.CodeHook.Memory.{Memory, IsMemory, store, slice}
use giblet.CodeHook.Memory.Laws.{store-IsMemory}
use giblet.CodeHook.Instruction.{Instruction, new_instruction}
use giblet.CodeHook.Instruction.Decode.{decode}
use giblet.CodeHook.Instruction.Emit.{relocate, emit_bytes}
use giblet.CodeHook.Instruction.RoundTrip.{IsDecoded, IsDecoded-decode, emit_lem}
use giblet.CodeHook.Instruction.Ends.{DoesEnd-decode}
use giblet.CodeHook.Instruction.Relocation.{length-emit_bytes-relocate}
use giblet.CodeHook.Relocate.{
  Progress, copy_one, relocate_one, continue_with, relocate_loop, relocate_code,
}
use giblet.CodeHook.Relocate.Copy.{IsCopied, IsCopy, IsCopy-store, IsCopying, AreApart}

module _ (m : Memory) (src dst min max : ℕ) (apart : AreApart src dst min max) where
  -- What a round that started with so many bytes copied leaves.
  abbrev IsFurther : ℕ → Option Progress → Type 0
  IsFurther t none = Unit
  IsFurther t (some s) = IsCopying m src dst min max s × (t < s.total_bytes)

  Settles-copy_one :
      (s : Progress) (ok : Bool) (i : Instruction) (next : ℕ)
      → IsCopying m src dst min max s
      → s.total_bytes < min
      → (ok ≡ true
          → IsDecoded s.memory s.op_iter next i
            × (decode s.memory s.op_iter new_instruction ≡ returns (true, i, next)))
      → Settles (IsFurther s.total_bytes) (copy_one max s (ok, i, next))
  unfolding copy_one relocate
  Settles-copy_one s false i next c less decoded = tt
  Settles-copy_one s true i next c less decoded =
      Settles-if (IsFurther s.total_bytes) (leb max (s.total_bytes + i.code_size)) _ _ (λ _. tt)
        λ more.
          let t = s.total_bytes in
          let d : IsDecoded s.memory (src + t) next i =
            subst (λ a. IsDecoded s.memory a next i) c.iter (decoded refl).0 in
          let e = ap (λ a. decode s.memory a new_instruction) (sym c.iter) ∙ (decoded refl).1 in
          let bytes = emit_bytes d.row (relocate s.address i) in
          let size = length-emit_bytes-relocate d.row s.address i in
          let place : store (dst + t) (emit_bytes d.row (relocate (dst + t) i)) s.memory
              ≡ store s.dst_ptr bytes s.memory =
            ap (λ x. store x (emit_bytes d.row (relocate (dst + t) i)) s.memory) (sym c.ptr)
            ∙ ap (λ x. store s.dst_ptr (emit_bytes d.row (relocate x i)) s.memory) (sym c.place) in
          let longer =
            IsCopy-store m src dst t s.memory i c.cells c.copy d e (omega (arith, apart, d.most)) in
          rw (emit_lem d.row (relocate s.address i) s.dst_ptr s.memory d.info) (
            record {
              cells = store-IsMemory s.dst_ptr bytes s.memory c.cells;
              ptr = omega (arith, c.ptr, size, d.size);
              iter = omega (arith, d.reads.end, d.size);
              place = omega (arith, c.place);
              fits = ground arith;
              short = omega (arith, d.most);
              copy = subst (IsCopy m src dst (t + i.code_size)) place longer;
            },
            omega (arith, d.least),
          )

  Settles-relocate_one :
      (s : Progress)
      → IsCopying m src dst min max s
      → s.total_bytes < min
      → Settles (IsFurther s.total_bytes) (relocate_one max s)
  unfolding relocate_one
  Settles-relocate_one s c less =
      Settles-bind (λ _. Unit) (IsFurther s.total_bytes) (decode s.memory s.op_iter new_instruction)
        (copy_one max s) (DoesEnd-decode s.memory s.op_iter new_instruction)
        λ (ok, i, next) e _. Settles-copy_one s ok i next c less λ found.
          let e' = e ∙ ap (λ x. returns (x, i, next)) found in
          (IsDecoded-decode s.memory s.op_iter c.cells e', e')

  -- What the loop returns: the bytes that were copied, unless it was left with none. The memory outside
  -- the buffer, and behind its first `min + 35` bytes, stays as it was.
  abbrev pub IsResult : ℕ × Memory → Type 0
  IsResult (t, m') =
      ((x : ℕ) → (x < dst) ⊎ ((dst + max ≤ x) ⊎ (dst + (min + 35) ≤ x)) → m' x ≡ m x)
      × ((t ≡ 0) ⊎ ((min ≤ t) × (t < max) × (t ≤ min + 35) × IsCopy m src dst t m'))

  Settles-left :
      (s : Progress)
      → IsCopying m src dst min max s
      → (x : ℕ) → (x < dst) ⊎ ((dst + max ≤ x) ⊎ (dst + (min + 35) ≤ x))
      → s.memory x ≡ m x
  Settles-left s c x away = c.copy.outside x (omega (arith, c.fits, c.short, away))

  -- The loop that finds enough bytes copied.
  IsResult-finished :
      (s : Progress)
      → IsCopying m src dst min max s
      → ltb s.total_bytes min ≡ false
      → IsResult (s.total_bytes, s.memory)
  IsResult-finished s c e = (Settles-left s c, inr (ground arith, c.fits, c.short, c.copy))

  -- A round, and a loop behind it that settles wherever more bytes are copied.
  Settles-continue_with :
      (s : Progress) (loop : Progress → Outcome (ℕ × Memory)) (next : Option Progress)
      → IsCopying m src dst min max s
      → IsFurther s.total_bytes next
      → ((s' : Progress)
          → IsCopying m src dst min max s'
          → s.total_bytes < s'.total_bytes
          → Settles IsResult (loop s'))
      → Settles IsResult (continue_with s.memory loop next)
  Settles-continue_with s loop none c f h = (Settles-left s c, inl refl)
  Settles-continue_with s loop (some s') c f h = h s' f.0 f.1

  Settles-relocate_loop :
      (fuel : ℕ) (s : Progress)
      → IsCopying m src dst min max s
      → min ≤ s.total_bytes + fuel
      → Settles IsResult (relocate_loop fuel min max s)
  unfolding relocate_loop
  Settles-relocate_loop zero s c enough =
      Settles-if IsResult (ltb s.total_bytes min) _ _
        (λ e. omega (arith, ltb→lt s.total_bytes min e)) (IsResult-finished s c)
  Settles-relocate_loop (suc fuel) s c enough =
      let loop = relocate_loop fuel min max in
      Settles-if IsResult (ltb s.total_bytes min) _ _
        (λ e.
          Settles-bind (IsFurther s.total_bytes) IsResult (relocate_one max s)
            (continue_with s.memory loop) (Settles-relocate_one s c (ltb→lt s.total_bytes min e))
            λ next _ f.
              Settles-continue_with s loop next c f
                λ s' c' more. Settles-relocate_loop fuel s' c' (omega arith))
        (IsResult-finished s c)

  -- The copy of no bytes.
  IsCopy-none : IsCopy m src dst 0 m
  unfolding slice store
  IsCopy-none = record {
    old = [];
    new = [];
    copied = IsCopied.none;
    written = refl;
    source = refl;
    copy = refl;
    outside = λ x away. refl;
  }

  pub Settles-relocate_code :
      IsMemory m → 0 < max → Settles IsResult (relocate_code m dst src min max)
  unfolding relocate_code
  Settles-relocate_code h room =
      Settles-relocate_loop min _
        (record {
          cells = h;
          ptr = omega arith;
          iter = omega arith;
          place = omega arith;
          fits = room;
          short = omega arith;
          copy = IsCopy-none;
        })
        (omega arith)

-- With code that is apart from a buffer of at least one byte, `RelocateCode` ends.
pub relocate_code-ends :
    (m : Memory) (src dst min max : ℕ)
    → AreApart src dst min max
    → IsMemory m
    → 0 < max
    → relocate_code m dst src min max ≢ diverges
relocate_code-ends m src dst min max apart h room =
    Settles-ends (IsResult m src dst min max apart) (relocate_code m dst src min max)
      (Settles-relocate_code m src dst min max apart h room)

-- With code that is apart from the buffer, `RelocateCode` that returns `t` bytes has changed the first
-- `min + 35` bytes of the buffer only; and either `t` is 0, or it is at least `min`, below `max` and at most `min + 35`, the `t` bytes
-- of code are whole instructions, each one as it is decoded there, and the buffer starts with the same
-- instructions, each one relocated to where it stands there.
pub relocate_code-IsCopy :
    (m m' : Memory) (src dst min max t : ℕ)
    → AreApart src dst min max
    → IsMemory m
    → 0 < max
    → relocate_code m dst src min max ≡ returns (t, m')
    → ((x : ℕ) → (x < dst) ⊎ ((dst + max ≤ x) ⊎ (dst + (min + 35) ≤ x)) → m' x ≡ m x)
      × ((t ≡ 0) ⊎ ((min ≤ t) × (t < max) × (t ≤ min + 35) × IsCopy m src dst t m'))
relocate_code-IsCopy m m' src dst min max t apart h room e =
    Settles-result (IsResult m src dst min max apart) (relocate_code m dst src min max)
      (Settles-relocate_code m src dst min max apart h room) e
