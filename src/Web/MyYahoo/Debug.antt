-- ===== src/Web/MyYahoo/Debug.antt =====
-- Which packet a request to the debugging page dispatches.
use giblet.Common.{
  ℕ, zero, suc, ◌<◌, ◌≡◌, refl, ◌∙◌, List, [], ◌∷◌, Bytes, codes, length, arith, ℤ, pos, negsuc,
  Outcome, returns, throws, undefined, diverges, ◌>>=◌, map_outcome, some,
}
use giblet.Runtime.{c_string}
use giblet.Builder.{append, append_all}
use giblet.Web.MyYahoo.{
  number_in, key_name, value_name, append_field, append_key, next_key, append_keys, read_number,
  initialize_header, dispatch_packet, on_debug_send_packet_request,
}

module _ (get_var : Bytes → Bytes → ℤ × Bytes) where
  -- A variable that is not empty, whose text is a number, whatever the buffer held.
  abbrev pub HasNumber : Bytes → ℤ → Type 0
  HasNumber name v =
      (buffer : Bytes)
      → (n : ℕ) × (after : Bytes) × (get_var name buffer ≡ (pos (suc n), after))
        × (number_in after ≡ returns v)

  -- A variable with a text.
  abbrev pub HasText : Bytes → Bytes → Type 0
  HasText name text = (buffer : Bytes) → c_string (get_var name buffer).1 ≡ returns text

  -- The variables of the keys and the values from a position on are those of the fields.
  abbrev pub HasFields : ℕ → List (ℕ × Bytes) → Type 0
  HasFields i [] =
      (buffer : Bytes)
      → (n : ℕ) × (after : Bytes) × (get_var (key_name i) buffer ≡ (negsuc n, after))
  HasFields i ((key, value) ∷ fields) =
      HasNumber (key_name i) (pos key) × HasText (value_name i) value × HasFields (suc i) fields

  append_field_lem :
      (i key : ℕ) (value buffer packet : Bytes)
      → number_in buffer ≡ returns (pos key)
      → HasText (value_name i) value
      → append_field get_var i buffer packet ≡ (
          append (pos key) value packet >>= λ built.
          returns ((get_var (value_name i) buffer).1, built))
  unfolding append_field
  append_field_lem i key value buffer packet k t = rw k (rw (t buffer) refl)

  next_key-append :
      (built : Outcome Bytes) (loop : Bytes → Bytes → Outcome Bytes) (after packet : Bytes)
      → (((built >>= λ b. returns (after, b)) >>= λ state. returns (some state))
          >>= next_key get_var loop packet)
        ≡ (built >>= loop after)
  next_key-append (returns b) loop after packet = refl
  next_key-append (throws e) loop after packet = refl
  next_key-append undefined loop after packet = refl
  next_key-append diverges loop after packet = refl

  >>=-cong :
      (r : Outcome Bytes) (f g : Bytes → Outcome Bytes)
      → ((b : Bytes) → f b ≡ g b)
      → (r >>= f) ≡ (r >>= g)
  >>=-cong (returns b) f g h = h b
  >>=-cong (throws e) f g h = refl
  >>=-cong undefined f g h = refl
  >>=-cong diverges f g h = refl

  -- The loop appends the fields in their order, if its fuel is larger than their number.
  append_keys-append_all :
      (fuel i : ℕ) (fields : List (ℕ × Bytes)) (buffer packet : Bytes)
      → HasFields i fields
      → length fields < fuel
      → append_keys get_var fuel i buffer packet ≡ append_all fields packet
  unfolding append_keys append_key append_all
  append_keys-append_all zero i fields buffer packet h l = ground arith
  append_keys-append_all (suc fuel) i [] buffer packet h l = rw (h buffer).2 refl
  append_keys-append_all (suc fuel) i ((key, value) ∷ fields) buffer packet (k, t, h) l =
      let (n, after, e, v) = k buffer in
      rw e (
        rw (append_field_lem i key value after packet v t) (
          next_key-append (append (pos key) value packet) (append_keys get_var fuel (suc i))
            (get_var (value_name i) after).1 packet
          ∙ >>=-cong (append (pos key) value packet) _ _
              λ b. append_keys-append_all fuel (suc i) fields _ b h (omega arith)))

  read_number_lem :
      (name : Bytes) (v : ℤ) (buffer : Bytes)
      → HasNumber name v
      → (after : Bytes) × (read_number get_var name buffer ≡ returns (some (v, after)))
  unfolding read_number
  read_number_lem name v buffer h = let (n, after, e, r) = h buffer in (after, rw e (rw r refl))

map_outcome_bind {ℓ κ} :
    {A : Type ℓ} {B : Type κ} (f : A → B) (r : Outcome A)
    → (r >>= λ a. returns (f a)) ≡ map_outcome f r
map_outcome_bind f (returns a) = refl
map_outcome_bind f (throws e) = refl
map_outcome_bind f undefined = refl
map_outcome_bind f diverges = refl

-- A request whose variables `serviceid` and `attribute` are numbers, and whose variables `key0`, `value0`,
-- `key1`, … up to a missing key are those of the fields, dispatches the packet with that service id
-- and attribute to which the fields are appended in their order, or throws where `Append` does.
-- The loop ends, if its fuel is larger than the number of the fields.
pub on_debug_send_packet_request_lem :
    (get_var : Bytes → Bytes → ℤ × Bytes) (service_id attribute : ℤ) (fields : List (ℕ × Bytes))
    (fuel : ℕ) (buffer : Bytes)
    → HasNumber get_var (codes "serviceid") service_id
    → HasNumber get_var (codes "attribute") attribute
    → HasFields get_var 0 fields
    → length fields < fuel
    → on_debug_send_packet_request get_var fuel buffer
      ≡ map_outcome dispatch_packet (append_all fields (initialize_header service_id attribute))
unfolding on_debug_send_packet_request
on_debug_send_packet_request_lem get_var service_id attribute fields fuel buffer s a h l =
    let (after, e) = read_number_lem get_var (codes "serviceid") service_id buffer s in
    let (last, f) = read_number_lem get_var (codes "attribute") attribute after a in
    rw e (
      rw f (
        rw
          (append_keys-append_all get_var fuel 0 fields last
            (initialize_header service_id attribute) h l)
          (map_outcome_bind _ _)))
