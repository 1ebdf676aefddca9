-- ===== src/Parser.antt =====
-- Protocols/YMsg/src/Parser.cpp: the loop that cuts a payload into key and value pairs. A range of
-- iterators is the list of its bytes; `behind` is what the buffer holds behind the range's end.
pub mod Terminator
pub mod RoundTrip
pub mod Total
use giblet.Common.{
  ℕ, zero, suc, Bool, false, ◌&&◌, [], ◌∷◌, ◌++◌, Bytes, is_empty, ◌==◌, if◌then◌else◌, ℤ, length,
  Outcome, returns, throws, diverges, ◌>>=◌, runtime_error,
}
use giblet.Runtime.{StringView, null, view, strtol}

abbrev pub terminator_byte1 : ℕ
terminator_byte1 = 0xc0

abbrev pub terminator_byte2 : ℕ
terminator_byte2 = 0x80

-- `position_type` and the range before it: `token` are the bytes up to `first`, `stop` those from
-- `first` to the end, and `next` those from `second` to the end.
pub record Position : Type 0 where
  pub token : Bytes
  pub stop : Bytes
  pub next : Bytes

abbrev pub push : ℕ → Position → Position
push c p = record p { token = c ∷ p.token }

unfoldable pub find_terminator : Bytes → Position
find_terminator [] = record { token = []; stop = []; next = [] }
find_terminator (c ∷ []) =
    if c == terminator_byte1
    then record { token = []; stop = c ∷ []; next = [] }
    else record { token = c ∷ []; stop = []; next = [] }
find_terminator (c ∷ d ∷ s) =
    let later = find_terminator (d ∷ s) in
    if (c == terminator_byte1) && (d == terminator_byte2)
    then record { token = []; stop = c ∷ d ∷ s; next = s }
    else push c later

-- The view of a value: an empty range gives a view with no bytes behind it.
abbrev pub value_view : Bytes → Bytes → StringView
value_view [] rest = null
value_view (c ∷ s) rest = view (c ∷ s) rest

-- A payload class: its fields, and `OnKeyPair`, which returns whether it knows the key.
abbrev pub OnKeyPair : Type 0 → Type 0
OnKeyPair P = P → ℤ → StringView → Outcome (P × Bool)

module _ {P : Type 0} (on_key_pair : OnKeyPair P) (behind : Bytes) where
  unfoldable pub parse_loop : ℕ → P → Bytes → Outcome P
  parse_loop zero p start = diverges
  parse_loop (suc fuel) p [] = returns p
  parse_loop (suc fuel) p (c ∷ s) =
      let key = find_terminator (c ∷ s) in
      let value = find_terminator key.next in
      let rest : Outcome P =
        on_key_pair p (strtol key.token) (value_view value.token (value.stop ++ behind)) >>= λ r.
        parse_loop fuel r.0 value.next in
      if c == 0 then returns p else if is_empty key.token then throws runtime_error else rest

-- `PacketParser::Parse` on a payload object. Each round consumes a byte, so the fuel suffices.
unfoldable pub parse : {P : Type 0} → OnKeyPair P → P → Bytes → Bytes → Outcome P
unfolding parse_loop find_terminator
parse on_key_pair p payload behind = parse_loop on_key_pair behind (suc (length payload)) p payload

-- `Payload::OnKeyPair`, of the base class: every key is unknown.
unfoldable pub payload_on_key_pair : OnKeyPair (Unit {0})
payload_on_key_pair p key value = returns (p, false)
