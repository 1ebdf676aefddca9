-- ===== src/Parser/Terminator.antt =====
-- `PacketParser::FindTerminator`: what the position that it returns means.
use giblet.Common.{
  ℕ, ◌≤◌, ◌<◌, ◌≡◌, refl, sym, ◌∙◌, ap, Bool, false, ◌&&◌, ◌||◌, [], ◌∷◌, ◌++◌, arith, Bytes, ◌==◌,
  length, ◌⊎◌, inl, inr,
}
use giblet.Parser.{Position, push, find_terminator, terminator_byte1, terminator_byte2}

-- The two bytes of a terminator stand side by side in the text.
abbrev pub contains_terminator : Bytes → Bool
contains_terminator [] = false
contains_terminator (c ∷ []) = false
contains_terminator (c ∷ d ∷ s) =
    ((c == terminator_byte1) && (d == terminator_byte2)) || contains_terminator (d ∷ s)

-- The last byte of a text is the first one of a terminator.
abbrev pub ends_in_byte1 : Bytes → Bool
ends_in_byte1 [] = false
ends_in_byte1 (c ∷ []) = c == terminator_byte1
ends_in_byte1 (c ∷ d ∷ s) = ends_in_byte1 (d ∷ s)

-- What stands behind the token where the search stops, and where it goes on: a terminator; or the lone
-- first byte of one at the end; or nothing, behind a token that does not end in such a byte.
abbrev pub StopsAt : Bytes → Bytes → Bytes → Type 0
StopsAt token stop next =
    (stop ≡ terminator_byte1 ∷ terminator_byte2 ∷ next)
    ⊎ ((next ≡ [])
        × ((stop ≡ terminator_byte1 ∷ []) ⊎ ((stop ≡ []) × (ends_in_byte1 token ≡ false))))

-- The position found in `s` is that of its first terminator.
pub record IsFirst (s : Bytes) (p : Position) : Type 0 where
  pub splits : p.token ++ p.stop ≡ s
  pub stops : StopsAt p.token p.stop p.next
  pub clean : contains_terminator p.token ≡ false

IsFirst-push :
    (c d : ℕ) (s : Bytes) (p : Position)
    → ((c == terminator_byte1) && (d == terminator_byte2)) ≡ false
    → IsFirst (d ∷ s) p
    → IsFirst (c ∷ d ∷ s) (push c p)
IsFirst-push c d s p h f = record {
  splits = ap (◌∷◌ c) f.splits;
  stops = last p.token f.splits f.stops;
  clean = go p.token p.stop f.splits f.clean;
}
  where
    go :
        (t u : Bytes)
        → t ++ u ≡ d ∷ s
        → contains_terminator t ≡ false
        → contains_terminator (c ∷ t) ≡ false
    go [] u e k = refl
    go (x ∷ t) u e k = ground arith

    last :
        (t : Bytes) → t ++ p.stop ≡ d ∷ s → StopsAt t p.stop p.next → StopsAt (c ∷ t) p.stop p.next
    last t e (inl found) = inl found
    last t e (inr (none, inl alone)) = inr (none, inl alone)
    last [] e (inr (none, inr (empty, _))) = cc (sym empty ∙ e)
    last (x ∷ t) e (inr (none, inr (empty, other))) = inr (none, inr (empty, other))

-- The search stops at the first terminator: the token in front of it holds none, and the token and
-- what stands at the stop spell the range. With no terminator, a lone first byte of one at the very end
-- of the range stops the search, and is not part of the token; with no such byte the token is the
-- whole range.
pub find_terminator-IsFirst : (s : Bytes) → IsFirst s (find_terminator s)
unfolding find_terminator
find_terminator-IsFirst [] = record {
  splits = refl;
  stops = inr (refl, inr (refl, refl));
  clean = refl;
}
find_terminator-IsFirst (c ∷ []) = ground arith
find_terminator-IsFirst (c ∷ d ∷ s) =
    ground (arith, find_terminator-IsFirst (d ∷ s), IsFirst-push c d s (find_terminator (d ∷ s)))

-- A text that holds no terminator is found whole in front of one.
pub find_terminator_clean :
    (v t : Bytes)
    → contains_terminator v ≡ false
    → find_terminator (v ++ (terminator_byte1 ∷ terminator_byte2 ∷ t))
      ≡ record { token = v; stop = terminator_byte1 ∷ terminator_byte2 ∷ t; next = t }
unfolding find_terminator
find_terminator_clean [] t h = refl
find_terminator_clean (c ∷ []) t h = ground arith
find_terminator_clean (c ∷ d ∷ s) t h = ground (arith, find_terminator_clean (d ∷ s) t)

-- The search goes on no later than where it began, and later where it skipped a token.
pub length-next : (s : Bytes) → length (find_terminator s).next ≤ length s
unfolding find_terminator
length-next [] = omega arith
length-next (c ∷ []) = ground arith
length-next (c ∷ d ∷ s) = ground (arith, length-next (d ∷ s))

pub length-next_lt : (c : ℕ) (s : Bytes) → length (find_terminator (c ∷ s)).next < length (c ∷ s)
unfolding find_terminator
length-next_lt c [] = ground arith
length-next_lt c (d ∷ s) = ground (arith, length-next_lt d s)
