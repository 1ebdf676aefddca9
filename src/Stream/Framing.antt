-- ===== src/Stream/Framing.antt =====
-- The packet at the front of a buffer does not depend on what arrives behind it.
use giblet.Common.{
  ℕ, zero, suc, ◌≤◌, ◌<◌, ◌≡◌, refl, ap, true, [], ◌∷◌, ◌++◌, arith, Bytes, length, take, drop,
  length-append, length-drop, take_append, drop_append,
}
use giblet.Header.{Header, of_raw, to_raw, byte_at, host_short, host_long, raw_header_size}
use giblet.Header.RoundTrip.{IsHeader, of_raw-to_raw, length-to_raw}
use giblet.Stream.{has_header, has_packet, payload_of, behind_packet}

byte_at-append : (n : ℕ) (s t : Bytes) → n < length s → byte_at n (s ++ t) ≡ byte_at n s
byte_at-append n [] t h = elim h [ ]
byte_at-append zero (c ∷ s) t h = refl
byte_at-append (suc n) (c ∷ s) t h = byte_at-append n s t (omega arith)

host_short-append :
    (n : ℕ) (s t : Bytes) → suc n < length s → host_short n (s ++ t) ≡ host_short n s
host_short-append n s t h =
    rw (byte_at-append n s t (omega arith)) (rw (byte_at-append (suc n) s t h))

host_long-append :
    (n : ℕ) (s t : Bytes) → suc (suc (suc n)) < length s → host_long n (s ++ t) ≡ host_long n s
host_long-append n s t h = rw (byte_at-append n s t (omega arith)) (
    rw (byte_at-append (suc n) s t (omega arith)) (
      rw (byte_at-append (suc (suc n)) s t (omega arith))
        (rw (byte_at-append (suc (suc (suc n))) s t h))))

pub of_raw-append : (s t : Bytes) → raw_header_size ≤ length s → of_raw (s ++ t) ≡ of_raw s
unfolding of_raw
of_raw-append s t h = λ i. record {
  proto_version = host_short-append 4 s t (omega arith) i;
  vendor_id = host_short-append 6 s t (omega arith) i;
  payload_size = host_short-append 8 s t (omega arith) i;
  service_id = host_short-append 10 s t (omega arith) i;
  attribute = host_long-append 12 s t (omega arith) i;
  session_id = host_long-append 16 s t (omega arith) i;
}

take_front : (n : ℕ) (s t : Bytes) → n ≤ length s → take n (s ++ t) ≡ take n s
take_front zero s t h = refl
take_front (suc n) [] t h = absurd (omega arith)
take_front (suc n) (c ∷ s) t h = ap (◌∷◌ c) (take_front n s t (omega arith))

drop_front : (n : ℕ) (s t : Bytes) → n ≤ length s → drop n (s ++ t) ≡ drop n s ++ t
drop_front zero s t h = refl
drop_front (suc n) [] t h = absurd (omega arith)
drop_front (suc n) (c ∷ s) t h = drop_front n s t (omega arith)

-- A buffer has a packet if it has a header and as many bytes behind it as the header says.
pub has_packet_sized :
    (s : Bytes)
    → has_packet s ≡ true
    → (raw_header_size ≤ length s) × ((of_raw s).payload_size ≤ length (drop raw_header_size s))
unfolding has_packet has_header of_raw
has_packet_sized s h = ground (arith, length-drop {0} raw_header_size s)

pub has_packet_of_sized :
    (s : Bytes)
    → raw_header_size ≤ length s
    → (of_raw s).payload_size ≤ length (drop raw_header_size s)
    → has_packet s ≡ true
unfolding has_packet has_header of_raw
has_packet_of_sized s h k = ground (arith, length-drop {0} raw_header_size s)

module _ (s t : Bytes) (h : has_packet s ≡ true) where
  pub of_raw_front : of_raw (s ++ t) ≡ of_raw s
  of_raw_front = of_raw-append s t (has_packet_sized s h).0

  pub payload_of_front : payload_of (s ++ t) ≡ payload_of s
  payload_of_front =
      let (header, payload) = has_packet_sized s h in
      rw of_raw_front (
        rw (drop_front raw_header_size s t header)
          (take_front _ (drop raw_header_size s) t payload))

  pub behind_packet_front : behind_packet (s ++ t) ≡ behind_packet s ++ t
  behind_packet_front =
      let (header, payload) = has_packet_sized s h in
      rw of_raw_front (
        rw (drop_front raw_header_size s t header)
          (drop_front _ (drop raw_header_size s) t payload))

  pub has_packet_front : has_packet (s ++ t) ≡ true
  has_packet_front =
      let (header, payload) = has_packet_sized s h in
      has_packet_of_sized (s ++ t) (omega (arith, length-append {0} s t)) (
        rw of_raw_front (
          rw (drop_front raw_header_size s t header)
            (omega (arith, length-append {0} (drop raw_header_size s) t))))

-- A packet: a header whose fields fit and whose size field is the length of the payload.
pub record IsPacket (p : Header × Bytes) : Type 0 where
  pub fits : IsHeader p.0
  pub sized : p.0.payload_size ≡ length p.1

abbrev pub wire : Header × Bytes → Bytes
wire p = to_raw p.0 ++ p.1

module _ (p : Header × Bytes) (rest : Bytes) (v : IsPacket p) where
  pub of_raw-wire : of_raw (wire p ++ rest) ≡ p.0
  unfolding to_raw
  of_raw-wire = of_raw-to_raw p.0 (p.1 ++ rest) v.fits

  drop-wire : drop raw_header_size (wire p ++ rest) ≡ p.1 ++ rest
  drop-wire = unfold to_raw in refl

  pub payload_of-wire : payload_of (wire p ++ rest) ≡ p.1
  payload_of-wire = rw of_raw-wire (rw drop-wire (rw v.sized (take_append p.1 rest)))

  pub behind_packet-wire : behind_packet (wire p ++ rest) ≡ rest
  behind_packet-wire = rw of_raw-wire (rw drop-wire (rw v.sized (drop_append p.1 rest)))

  pub has_packet-wire : has_packet (wire p ++ rest) ≡ true
  has_packet-wire =
      has_packet_of_sized (wire p ++ rest)
        (omega (
          arith,
          length-append {0} (wire p) rest,
          length-append {0} (to_raw p.0) p.1,
          length-to_raw p.0,
        ))
        (rw of_raw-wire (rw drop-wire (omega (arith, v.sized, length-append {0} p.1 rest))))
