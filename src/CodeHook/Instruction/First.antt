-- ===== src/CodeHook/Instruction/First.antt =====
-- `FindOpcode` finds the first row of all tables that matches.
use giblet.Common.{
  ℕ, ◌+◌, ◌/◌, ◌%◌, ◌≡◌, ◌≢◌, ◌⊎◌, subst, true, false, Bool-cases, inl, inr, refl, sym, ap, ◌∙◌,
  Option, Option-cases, none, some, List, [], ◌∷◌, ◌++◌, append_assoc, flatten, All, All-append,
  arith,
}
use giblet.CodeHook.Memory.{Memory}
use giblet.CodeHook.Opcode.{OpcodeInfo}
use giblet.CodeHook.Postbyte.{no_postbyte, assign}
use giblet.CodeHook.Instruction.Decode.{
  match_opcode, match_postbyte, match_extension, match_row, first_of, find_in_table, find_opcode,
}

-- The opcode of a row stands at `a`, with its prefix byte if it has one, and `b` is the address behind it.
abbrev pub IsOpcodeAt : Memory → ℕ → OpcodeInfo → ℕ → Type 0
IsOpcodeAt m a row b =
    ((row.prefix ≢ 0) × (m a ≡ row.prefix) × (m (a + 1) ≡ row.opcode) × (b ≡ a + 2))
    ⊎ ((row.prefix ≡ 0) × (m a ≡ row.opcode) × (b ≡ a + 1))

-- The row has no opcode extension, or it is the middle three bits of the byte behind the opcode.
abbrev pub IsExtendedAt : Memory → ℕ → OpcodeInfo → Type 0
IsExtendedAt m b row = (row.postbyte ≡ 255) ⊎ ((row.postbyte ≡ 254) ⊎ (row.postbyte ≡ m b / 8 % 8))

-- The bytes at `a` are those of a row, and its opcode ends at `b`.
abbrev pub Matches : Memory → ℕ → OpcodeInfo → ℕ → Type 0
Matches m a row b = IsOpcodeAt m a row b × IsExtendedAt m b row

-- The bytes at `a` are those of no row of a list.
abbrev pub HasNoMatch : Memory → ℕ → List OpcodeInfo → Type 0
HasNoMatch m a = All λ i. (b : ℕ) → ¬ (Matches m a i b)

-- What a search gives is the first match in a list.
abbrev pub IsFirstMatch : Memory → ℕ → List OpcodeInfo → Option (OpcodeInfo × ℕ) → Type 0
IsFirstMatch m a rows found =
    ((found ≡ none) × HasNoMatch m a rows)
    ⊎ ((i : OpcodeInfo) × (b : ℕ) × (before : List OpcodeInfo) × (behind : List OpcodeInfo) × (found
          ≡ some (i, b))
        × (rows ≡ before ++ i ∷ behind)
        × HasNoMatch m a before
        × Matches m a i b)

match_opcode-none :
    (m : Memory) (a : ℕ) (i : OpcodeInfo) (b : ℕ)
    → match_opcode m a i ≡ none
    → ¬ (IsOpcodeAt m a i b)
unfolding match_opcode
match_opcode-none m a i b e = ground arith

match_opcode-some :
    (m : Memory) (a : ℕ) (i : OpcodeInfo) (b : ℕ) → match_opcode m a i ≡ some b → IsOpcodeAt m a i b
unfolding match_opcode
match_opcode-some m a i b e = ground arith

IsOpcodeAt-unique :
    (m : Memory) (a : ℕ) (i : OpcodeInfo) (b c : ℕ)
    → IsOpcodeAt m a i b
    → IsOpcodeAt m a i c
    → b ≡ c
IsOpcodeAt-unique m a i b c x y = ground arith

data_value-assign : (m : Memory) (b : ℕ) → (assign m b false no_postbyte).0.mod_rm.data_value ≡ m b
unfolding assign
data_value-assign m b = ground arith

match_postbyte-true :
    (m : Memory) (b : ℕ) (i : OpcodeInfo) → match_postbyte m b i ≡ true → IsExtendedAt m b i
unfolding match_postbyte
match_postbyte-true m b i e = ground (arith, data_value-assign m b)

match_postbyte-false :
    (m : Memory) (b : ℕ) (i : OpcodeInfo) → match_postbyte m b i ≡ false → ¬ (IsExtendedAt m b i)
unfolding match_postbyte
match_postbyte-false m b i e = ground (arith, data_value-assign m b)

-- A search in one row.
abbrev IsRowMatch : Memory → ℕ → OpcodeInfo → Option (OpcodeInfo × ℕ) → Type 0
IsRowMatch m a i found =
    ((found ≡ none) × ((b : ℕ) → ¬ (Matches m a i b)))
    ⊎ ((b : ℕ) × (found ≡ some (i, b)) × Matches m a i b)

match_row_lem : (m : Memory) (a : ℕ) (i : OpcodeInfo) → IsRowMatch m a i (match_row m a i)
unfolding match_row match_extension
match_row_lem m a i = elim (Option-cases (match_opcode m a i)) [
  | inl missing ↦
      inl (
        ap (match_extension m i) missing,
        λ b (opcode, _). match_opcode-none m a i b missing opcode,
      )
  | inr (b, found) ↦
      let opcode = match_opcode-some m a i b found in
      elim (Bool-cases (match_postbyte m b i)) [
        | inl same ↦ rw found (rw same (inr (b, refl, (opcode, match_postbyte-true m b i same))))
        | inr other ↦ rw found (
            rw other (
              inl (
                refl,
                λ c (opcode', extended). match_postbyte-false m b i other (
                    subst (λ x. IsExtendedAt m x i) (IsOpcodeAt-unique m a i c b opcode' opcode)
                      extended),
              )))
      ]
]

module _ (m : Memory) (a : ℕ) where
  -- A match in the first of two lists, or in the second behind a first without one.
  IsFirstMatch-append :
      (xs ys : List OpcodeInfo) (o p : Option (OpcodeInfo × ℕ))
      → IsFirstMatch m a xs o
      → IsFirstMatch m a ys p
      → IsFirstMatch m a (xs ++ ys) (first_of o p)
  IsFirstMatch-append xs ys o p (inl (missing, all)) (inl (missing', all')) = inl (
    ap (λ r. first_of r p) missing ∙ missing',
    All-append (λ i. (b : ℕ) → ¬ (Matches m a i b)) xs ys all all',
  )
  IsFirstMatch-append xs ys o p (inl (missing, all))
        (inr (i, b, before, behind, found, split, all', is)) =
      inr (
        i,
        b,
        xs ++ before,
        behind,
        ap (λ r. first_of r p) missing ∙ found,
        ap (λ r. xs ++ r) split ∙ sym (append_assoc xs before (i ∷ behind)),
        All-append (λ i. (b : ℕ) → ¬ (Matches m a i b)) xs before all all',
        is,
      )
  IsFirstMatch-append xs ys o p (inr (i, b, before, behind, found, split, all, is)) y = inr (
    i,
    b,
    before,
    behind ++ ys,
    ap (λ r. first_of r p) found,
    ap (λ r. r ++ ys) split ∙ append_assoc before (i ∷ behind) ys,
    all,
    is,
  )

  IsFirstMatch-row : (i : OpcodeInfo) → IsFirstMatch m a (i ∷ []) (match_row m a i)
  IsFirstMatch-row i = elim (match_row_lem m a i) [
    | inl (missing, unlike) ↦ inl (missing, (unlike, tt))
    | inr (b, found, is) ↦ inr (i, b, [], [], found, refl, tt, is)
  ]

  IsFirstMatch-find_in_table : (t : List OpcodeInfo) → IsFirstMatch m a t (find_in_table m a t)
  unfolding find_in_table
  IsFirstMatch-find_in_table [] = inl (refl, tt)
  IsFirstMatch-find_in_table (i ∷ t) =
      IsFirstMatch-append (i ∷ []) t (match_row m a i) (find_in_table m a t) (IsFirstMatch-row i)
        (IsFirstMatch-find_in_table t)

  -- `FindOpcode` gives, with the address behind the opcode, the first row of all the tables, one behind the
  -- other, of which the bytes are there: its prefix byte, if it has one, its opcode, and behind that a
  -- byte with its opcode extension in the middle three bits, if it has one. It gives nothing if the bytes are
  -- those of no row.
  pub find_opcode-IsFirstMatch :
      (ts : List (List OpcodeInfo)) → IsFirstMatch m a (flatten ts) (find_opcode m a ts)
  unfolding find_opcode
  find_opcode-IsFirstMatch [] = inl (refl, tt)
  find_opcode-IsFirstMatch (t ∷ ts) =
      IsFirstMatch-append t (flatten ts) (find_in_table m a t) (find_opcode m a ts)
        (IsFirstMatch-find_in_table t) (find_opcode-IsFirstMatch ts)
