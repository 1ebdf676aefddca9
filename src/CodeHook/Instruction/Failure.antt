-- ===== src/CodeHook/Instruction/Failure.antt =====
-- How `Decode` fails.
use giblet.Common.{
  ℕ, zero, suc, ◌+◌, ◌≡◌, ◌≢◌, ◌↔◌, ◌⊎◌, inl, inr, refl, ◌∙◌, List, [], ◌++◌, flatten, Bytes, false,
  sym, ap, subst, true, false, Bool-cases, ◌==◌, Option, none, some, ◌∷◌, returns,
  returns-injective, undefined, >>=-eq-returns, >>=-eq-undefined, arith,
}
use giblet.CodeHook.Memory.{Memory}
use giblet.CodeHook.Tables.{opcodes32_table}
use giblet.CodeHook.Instruction.{Instruction, reset}
use giblet.CodeHook.Opcode.{OpcodeInfo}
use giblet.CodeHook.Instruction.First.{Matches, HasNoMatch, IsFirstMatch, find_opcode-IsFirstMatch}
use giblet.CodeHook.Instruction.Decode.{
  is_prefix, prefix_loop, process_prefix, max_prefix_bytes, find_opcode, decode_found, decode_at,
  decode,
}

-- The row that was found is marked as a terminator.
abbrev IsTerminator : Option (OpcodeInfo × ℕ) → Type 0
IsTerminator none = ⊥
IsTerminator (some (row, next)) = row.is_terminator ≡ true

decode_at_fails :
    (m : Memory) (a : ℕ) (i : Instruction) (found : Option (OpcodeInfo × ℕ)) {j : Instruction}
    {b : ℕ}
    → decode_at m a i found ≡ (false, j, b)
    → (b ≡ a) × (j ≡ reset i) × ((found ≡ none) ⊎ IsTerminator found)
unfolding decode_at decode_found
decode_at_fails m a i none e = (ap (λ r. r.2) (sym e), ap (λ r. r.1) (sym e), inl refl)
decode_at_fails m a i (some (row, next)) e = elim (Bool-cases row.is_terminator) [
  | inl t ↦ let e' = simp t at e in (ap (λ r. r.2) (sym e'), ap (λ r. r.1) (sym e'), inr t)
  | inr t ↦ cc (simp t at e)
]

-- So many bytes from an address on are prefixes.
abbrev pub ArePrefixes : Memory → ℕ → ℕ → Type 0
ArePrefixes m a zero = Unit
ArePrefixes m a (suc n) = (is_prefix (m a) ≡ true) × ArePrefixes m (a + 1) n

-- The bytes at `a` are `n` prefixes and one that is none.
abbrev pub HasPrefixes : Memory → ℕ → ℕ → Type 0
HasPrefixes m a n = ArePrefixes m a n × (is_prefix (m (a + n)) ≡ false)

HasPrefixes-none : (m : Memory) (a : ℕ) → is_prefix (m a) ≡ false → HasPrefixes m a 0
HasPrefixes-none m a p =
    let here : a + 0 ≡ a = omega arith in (tt, ap (λ x. is_prefix (m x)) here ∙ p)

ends_here : (m : Memory) (a : ℕ) {r : Bytes × ℕ} → returns ([], a) ≡ returns r → r.1 ≡ a + 0
ends_here m a e =
    let here : a + 0 ≡ a = omega arith in ap (λ x. x.1) (sym (returns-injective e)) ∙ sym here

prefix_loop_returns :
    (room : ℕ) (m : Memory) (a : ℕ) {r : Bytes × ℕ}
    → prefix_loop room m a ≡ returns r
    → (n : ℕ) × HasPrefixes m a n × (r.1 ≡ a + n)
unfolding prefix_loop
prefix_loop_returns zero m a e = elim (Bool-cases (is_prefix (m a))) [
  | inl p ↦ cc (simp p at e)
  | inr p ↦ (0, HasPrefixes-none m a p, ends_here m a (simp p at e))
]
prefix_loop_returns (suc room) m a e = elim (Bool-cases (is_prefix (m a))) [
  | inl p ↦
      let ((bytes, next), later, e') =
        >>=-eq-returns (prefix_loop room m (a + 1)) (λ (bytes, next). returns (m a ∷ bytes, next))
          (simp p at e) in
      let (n, (are, stops), place) = prefix_loop_returns room m (a + 1) later in
      let further : a + suc n ≡ a + 1 + n = omega arith in
      (
        suc n,
        ((p, are), ap (λ x. is_prefix (m x)) further ∙ stops),
        ap (λ x. x.1) (sym (returns-injective e')) ∙ place ∙ sym further,
      )
  | inr p ↦ (0, HasPrefixes-none m a p, ends_here m a (simp p at e))
]

process_prefix_returns :
    (m : Memory) (a : ℕ) {r : Bytes × ℕ}
    → process_prefix m a ≡ returns r
    → (n : ℕ) × HasPrefixes m a n × (r.1 ≡ a + n)
unfolding process_prefix
process_prefix_returns m a e = elim (Bool-cases (a == 0)) [
  | inl null ↦ cc (simp null at e)
  | inr there ↦ prefix_loop_returns max_prefix_bytes m a (simp there at e)
]

prefix_loop_undefined :
    (room : ℕ) (m : Memory) (a : ℕ) → prefix_loop room m a ≡ undefined → ArePrefixes m a (suc room)
unfolding prefix_loop
prefix_loop_undefined zero m a e = elim (Bool-cases (is_prefix (m a))) [
  | inl p ↦ (p, tt)
  | inr p ↦ cc (simp p at e)
]
prefix_loop_undefined (suc room) m a e = elim (Bool-cases (is_prefix (m a))) [
  | inl p ↦ (
    p,
    prefix_loop_undefined room m (a + 1) (
        >>=-eq-undefined (prefix_loop room m (a + 1)) (λ (bytes, next). (m a ∷ bytes, next))
          (simp p at e)),
  )
  | inr p ↦ cc (simp p at e)
]

undefined-prefix_loop :
    (room : ℕ) (m : Memory) (a : ℕ) → ArePrefixes m a (suc room) → prefix_loop room m a ≡ undefined
unfolding prefix_loop
undefined-prefix_loop zero m a (p, rest) = rw p
undefined-prefix_loop (suc room) m a (p, rest) = rw (p, undefined-prefix_loop room m (a + 1) rest)

-- `Decode` at an address other than null runs into undefined behaviour exactly if the next five bytes
-- are prefixes: the fifth is written behind the array of four.
pub decode_undefined_iff :
    (m : Memory) (a : ℕ) (old : Instruction)
    → a ≢ 0
    → (decode m a old ≡ undefined) ↔ ArePrefixes m a 5
unfolding decode process_prefix
decode_undefined_iff m a old filled =
    let found : (a == 0) ≡ false = ground arith in
    (
      λ e. prefix_loop_undefined max_prefix_bytes m a (
          >>=-eq-undefined (prefix_loop max_prefix_bytes m a)
            (λ (prefixes, next).
              decode_at m a (record (reset old) { address = a; prefix_bytes = prefixes })
                (find_opcode m next opcodes32_table))
            (simp found at e)),
      λ p. rw (found, undefined-prefix_loop max_prefix_bytes m a p),
    )

-- The opcode tables have no instruction for the bytes at an address, or the first row that they are those
-- of is marked as a terminator.
abbrev pub IsRefused : Memory → ℕ → Type 0
IsRefused m a =
    HasNoMatch m a (flatten opcodes32_table)
    ⊎ ((row : OpcodeInfo) × (next : ℕ) × (before : List OpcodeInfo) × (behind : List OpcodeInfo)
        × (flatten opcodes32_table ≡ before ++ row ∷ behind)
        × HasNoMatch m a before
        × Matches m a row next
        × (row.is_terminator ≡ true))

IsRefused-found :
    (m : Memory) (a : ℕ) (found : Option (OpcodeInfo × ℕ))
    → IsFirstMatch m a (flatten opcodes32_table) found
    → (found ≡ none) ⊎ IsTerminator found
    → IsRefused m a
IsRefused-found m a found (inl (missing, unlike)) t = inl unlike
IsRefused-found m a found (inr (row, next, before, behind, is, split, unlike, matches))
      (inl missing) =
    cc (sym missing ∙ is)
IsRefused-found m a found (inr (row, next, before, behind, is, split, unlike, matches)) (inr t) =
    inr (row, next, before, behind, split, unlike, matches, subst IsTerminator is t)

-- What a `Decode` that fails leaves: the iterator where it was, and the instruction with neither a row nor a
-- size nor prefixes, while its operands and its displacement are those of the call before; and what stands
-- behind the prefixes is refused.
abbrev pub IsFailure : Memory → ℕ → Instruction → Instruction → ℕ → Type 0
IsFailure m a old i b =
    (b ≡ a)
    × ((i.info ≡ none) × (i.code_size ≡ 0) × (i.prefix_bytes ≡ []))
    × ((i.operand_dst ≡ old.operand_dst)
        × (i.operand_src1 ≡ old.operand_src1)
        × (i.operand_src2 ≡ old.operand_src2)
        × (i.displacement ≡ old.displacement))
    × ((n : ℕ) × HasPrefixes m a n × IsRefused m (a + n))

-- A `Decode` that returns false leaves the iterator where it was, and the instruction with neither a row nor
-- a size nor prefixes, while its operands and its displacement are those of the call before; and
-- behind the prefixes that stand there, there are the bytes of no row of the opcode tables, or those of
-- a row that is marked as a terminator, with no row in front of it that they match.
pub decode-fails :
    (m : Memory) (a : ℕ) (old i : Instruction) (b : ℕ)
    → decode m a old ≡ returns (false, i, b)
    → IsFailure m a old i b
unfolding decode reset
decode-fails m a old i b e =
    let ((prefixes, next), read, behind) =
      >>=-eq-returns (process_prefix m a)
        (λ (prefixes, next). returns (
          decode_at m a (record (reset old) { address = a; prefix_bytes = prefixes })
            (find_opcode m next opcodes32_table)))
        e in
    let found = find_opcode m next opcodes32_table in
    let (back, cleared, why) =
      decode_at_fails m a (record (reset old) { address = a; prefix_bytes = prefixes }) found
        (returns-injective behind) in
    let (n, has, place) = process_prefix_returns m a read in
    (
      back,
      (ap (λ x. x.info) cleared, ap (λ x. x.code_size) cleared, ap (λ x. x.prefix_bytes) cleared),
      (
        ap (λ x. x.operand_dst) cleared,
        ap (λ x. x.operand_src1) cleared,
        ap (λ x. x.operand_src2) cleared,
        ap (λ x. x.displacement) cleared,
      ),
      (
        n,
        has,
        subst (IsRefused m) place
            (IsRefused-found m next found (find_opcode-IsFirstMatch m next opcodes32_table) why),
      ),
    )
