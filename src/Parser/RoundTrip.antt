-- ===== src/Parser/RoundTrip.antt =====
-- Parsing what a builder wrote: the payload object is handed the pairs, in order.
use mathlib.Core.Path.{fun_ext}
use giblet.Common.{
  ℕ, zero, suc, ◌≤◌, ◌<◌, ◌≡◌, refl, sym, ap, ◌∙◌, true, false, List, [], ◌∷◌, ◌++◌, append_assoc,
  append-nil, arith, Bytes, length, length-append, All, ℤ, pos, Outcome, returns, ◌>>=◌,
}
use giblet.Runtime.{StringView, to_string, strtol, long_max, is_digit}
use giblet.Runtime.Numbers.{strtol-to_string, decimal_shape}
use giblet.Parser.{OnKeyPair, value_view, parse_loop, parse, terminator_byte1, terminator_byte2}
use giblet.Parser.Terminator.{contains_terminator, find_terminator_clean}

abbrev pub terminator : Bytes
terminator = terminator_byte1 ∷ terminator_byte2 ∷ []

-- One key and value on the wire, in front of `rest`.
abbrev pub encode_onto : List (ℕ × Bytes) → Bytes → Bytes
encode_onto [] rest = rest
encode_onto ((k, v) ∷ pairs) rest =
    to_string (pos k)
    ++ (terminator_byte1
        ∷ terminator_byte2
        ∷ (v ++ (terminator_byte1 ∷ terminator_byte2 ∷ encode_onto pairs rest)))

-- Keys that a `long` holds, and values with no terminator inside.
abbrev pub IsPair : ℕ × Bytes → Type 0
IsPair p = (p.0 ≤ long_max) × (contains_terminator p.1 ≡ false)

-- What a payload object is handed for the pairs: each value as a view into the buffer.
abbrev pub views : List (ℕ × Bytes) → Bytes → List (ℤ × StringView)
views [] rest = []
views ((k, v) ∷ pairs) rest =
    (pos k, value_view v (terminator_byte1 ∷ terminator_byte2 ∷ encode_onto pairs rest))
    ∷ views pairs rest

module _ {P : Type 0} (on_key_pair : OnKeyPair P) where
  -- `OnKeyPair` for each pair in turn.
  unfoldable pub feed : P → List (ℤ × StringView) → Outcome P
  feed p [] = returns p
  feed p ((k, v) ∷ pairs) = on_key_pair p k v >>= λ r. feed r.0 pairs

-- A payload ends at its last byte or at a zero byte in front of garbage.
abbrev pub EndsPayload : Bytes → Type 0
EndsPayload [] = Unit
EndsPayload (c ∷ s) = c ≡ 0

encode_onto-append :
    (pairs : List (ℕ × Bytes)) (rest behind : Bytes)
    → encode_onto pairs rest ++ behind ≡ encode_onto pairs (rest ++ behind)
encode_onto-append [] rest behind = refl
encode_onto-append ((k, v) ∷ pairs) rest behind =
    simp (append_assoc, encode_onto-append pairs rest behind)

digits-clean : (s : Bytes) → All (λ c. is_digit c ≡ true) s → contains_terminator s ≡ false
digits-clean [] h = refl
digits-clean (c ∷ []) h = refl
digits-clean (c ∷ d ∷ s) h = ground (arith, digits-clean (d ∷ s) h.1)

>>=-cong {ℓ κ} :
    {A : Type ℓ} {B : Type κ} (m : Outcome A) (f g : A → Outcome B)
    → ((a : A) → f a ≡ g a)
    → (m >>= f) ≡ (m >>= g)
>>=-cong m f g h = ap (λ k. m >>= k) (fun_ext h)

module _ {P : Type 0} (on_key_pair : OnKeyPair P) (behind : Bytes) where
  -- One round of the loop, at a key that is one digit or more.
  parse_round :
      (fuel : ℕ) (p : P) (c : ℕ) (s v t : Bytes)
      → All (λ c. is_digit c ≡ true) (c ∷ s)
      → contains_terminator v ≡ false
      → parse_loop on_key_pair behind (suc fuel) p (
          c
          ∷ (s
              ++ (terminator_byte1
                  ∷ terminator_byte2
                  ∷ (v ++ (terminator_byte1 ∷ terminator_byte2 ∷ t)))))
        ≡ (on_key_pair p
              (strtol (c ∷ s))
              (value_view v (terminator_byte1 ∷ terminator_byte2 ∷ (t ++ behind)))
            >>= λ r. parse_loop on_key_pair behind fuel r.0 t)
  unfolding parse_loop
  parse_round fuel p c s v t h clean =
      let after_key = v ++ (terminator_byte1 ∷ terminator_byte2 ∷ t) in
      rw (find_terminator_clean (c ∷ s) after_key (digits-clean (c ∷ s) h))
        (rw (find_terminator_clean v t clean) (ground arith))

  -- One round at a printed key.
  parse_pair :
      (k fuel : ℕ) (p : P) (v t : Bytes)
      → IsPair (k, v)
      → parse_loop on_key_pair behind (suc fuel) p (
          to_string (pos k)
          ++ (terminator_byte1
              ∷ terminator_byte2
              ∷ (v ++ (terminator_byte1 ∷ terminator_byte2 ∷ t))))
        ≡ (on_key_pair p
              (pos k)
              (value_view v (terminator_byte1 ∷ terminator_byte2 ∷ (t ++ behind)))
            >>= λ r. parse_loop on_key_pair behind fuel r.0 t)
  parse_pair k fuel p v t h =
      let (c, s, shape, all) = decimal_shape k in
      let printed : to_string (pos k) ≡ c ∷ s = unfold to_string in shape in
      let read : strtol (c ∷ s) ≡ pos k =
        ap strtol (sym printed ∙ sym (append-nil _)) ∙ strtol-to_string k [] h.0 tt in
      let view = value_view v (terminator_byte1 ∷ terminator_byte2 ∷ (t ++ behind)) in
      rw printed (
        parse_round fuel p c s v t all h.1
        ∙ ap (λ key. on_key_pair p key view >>= λ r. parse_loop on_key_pair behind fuel r.0 t) read)

  parse_loop-encode_onto :
      (pairs : List (ℕ × Bytes)) (fuel : ℕ) (p : P) (tail : Bytes)
      → All IsPair pairs
      → EndsPayload tail
      → length pairs < fuel
      → parse_loop on_key_pair behind fuel p (encode_onto pairs tail)
        ≡ feed on_key_pair p (views pairs (tail ++ behind))
  unfolding feed parse_loop
  parse_loop-encode_onto pairs zero p tail h e lt = elim lt [ ]
  parse_loop-encode_onto [] (suc fuel) p [] h e lt = refl
  parse_loop-encode_onto [] (suc fuel) p (c ∷ tail) h e lt = rw e
  parse_loop-encode_onto ((k, v) ∷ pairs) (suc fuel) p tail h e lt =
      parse_pair k fuel p v (encode_onto pairs tail) h.0
      ∙ rw (encode_onto-append pairs tail behind) (
          >>=-cong (on_key_pair p (pos k) _) _ _
            (λ r. parse_loop-encode_onto pairs fuel r.0 tail h.1 e (omega arith)))

length-encode_onto :
    (pairs : List (ℕ × Bytes)) (tail : Bytes) → length pairs ≤ length (encode_onto pairs tail)
length-encode_onto [] tail = omega arith
length-encode_onto ((k, v) ∷ pairs) tail = omega (
  arith,
  length-encode_onto pairs tail,
  length-append {0} (to_string (pos k)) (
      terminator_byte1
      ∷ terminator_byte2
      ∷ (v ++ (terminator_byte1 ∷ terminator_byte2 ∷ encode_onto pairs tail))),
  length-append {0} v (terminator_byte1 ∷ terminator_byte2 ∷ encode_onto pairs tail),
)

-- A payload written as keys and values, with nothing or a zero byte and garbage behind the last
-- value, is handed to the payload object pair by pair, in order, with every value whole. An empty
-- value is handed on as a null view. The keys fit a `long`, and no value holds a terminator.
pub parse-encode_onto :
    {P : Type 0} (on_key_pair : OnKeyPair P) (p : P) (pairs : List (ℕ × Bytes))
    (tail behind : Bytes)
    → All IsPair pairs
    → EndsPayload tail
    → parse on_key_pair p (encode_onto pairs tail) behind
      ≡ feed on_key_pair p (views pairs (tail ++ behind))
unfolding parse
parse-encode_onto on_key_pair p pairs tail behind h e =
    parse_loop-encode_onto on_key_pair behind pairs (suc (length (encode_onto pairs tail))) p tail h
      e (omega (arith, length-encode_onto pairs tail))
