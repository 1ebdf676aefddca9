-- ===== src/Packets/Profile/Text.antt =====
-- The texts of a client's profile against what they are meant to be.
use giblet.Common.{
  ℕ, ◌≡◌, refl, sym, ap, ◌∙◌, List, [], ◌∷◌, ◌++◌, append_assoc, append-nil, map, Bytes, flatten,
}
use giblet.Packets.Profile.{pop_back, comma_loop, comma_separated}

-- A text and a comma, and a comma and a text.
abbrev ended : Bytes → Bytes
ended name = name ++ b',' ∷ []

abbrev pub led : Bytes → Bytes
led name = b',' ∷ name

-- The names with a comma between each two.
abbrev pub joined : List Bytes → Bytes
joined [] = []
joined (name ∷ names) = name ++ flatten (map led names)

pop_back-snoc : (s : Bytes) (c : ℕ) → pop_back (s ++ c ∷ []) ≡ s
unfolding pop_back
pop_back-snoc [] c = refl
pop_back-snoc (d ∷ []) c = refl
pop_back-snoc (d ∷ e ∷ s) c = ap (◌∷◌ d) (pop_back-snoc (e ∷ s) c)

comma_loop-ended :
    (out : Bytes) (names : List Bytes) → comma_loop out names ≡ out ++ flatten (map ended names)
unfolding comma_loop
comma_loop-ended out [] = sym (append-nil out)
comma_loop-ended out (name ∷ names) =
    comma_loop-ended (out ++ name ++ b',' ∷ []) names ∙ simp append_assoc

ended-led :
    (names : List Bytes) → b',' ∷ flatten (map ended names) ≡ flatten (map led names) ++ b',' ∷ []
ended-led [] = refl
ended-led (name ∷ names) = ap (◌∷◌ b',') (
    append_assoc name (b',' ∷ []) (flatten (map ended names))
    ∙ ap (λ s. name ++ s) (ended-led names)
    ∙ sym (append_assoc name (flatten (map led names)) (b',' ∷ [])))

-- Writing a comma behind every name and taking the last one off again gives the names with a comma
-- between each two, behind what was written before; for no name nothing is written.
pub comma_separated-joined :
    (out : Bytes) (names : List Bytes) → comma_separated out names ≡ out ++ joined names
unfolding comma_separated
comma_separated-joined out [] = sym (append-nil out)
comma_separated-joined out (name ∷ names) =
    ap pop_back (
      comma_loop-ended out (name ∷ names)
      ∙ ap (λ s. out ++ s) (append_assoc name (b',' ∷ []) (flatten (map ended names)))
      ∙ ap (λ s. out ++ (name ++ s)) (ended-led names)
      ∙ simp append_assoc)
    ∙ pop_back-snoc (out ++ (name ++ flatten (map led names))) b','
