-- ===== src/Stream/Cuts.antt =====
-- The packet at the front of the bytes that have arrived.
use giblet.Common.{
  ◌+◌, ◌-◌, ◌≤◌, ◌≡◌, refl, sym, ap, ◌∙◌, true, false, Bool-cases, inl, inr, [], ◌∷◌, ◌++◌, arith,
  Bytes, leb, length, length-append, length-drop, take, take_append,
}
use giblet.Header.{Header, of_raw, to_raw, raw_header_size}
use giblet.Header.RoundTrip.{length-to_raw}
use giblet.Stream.{has_packet, has_header, payload_of, behind_packet}
use giblet.Stream.Framing.{
  of_raw-append, of_raw_front, payload_of_front, behind_packet_front, has_packet_sized,
  has_packet_of_sized, IsPacket, wire, of_raw-wire, payload_of-wire, behind_packet-wire,
}

abbrev pub Frame : Type 0
Frame = Header × Bytes

-- The front of a text is as many of its bytes.
pub take_whole : (s t whole : Bytes) → s ++ t ≡ whole → s ≡ take (length s) whole
take_whole s t whole e = sym (take_append s t) ∙ ap (take (length s)) e

-- Nothing holds no packet.
pub has_packet-nothing : (s t : Bytes) → s ++ t ≡ [] → has_packet s ≡ false
unfolding has_packet has_header
has_packet-nothing [] t e = refl
has_packet-nothing (c ∷ s) t e = cc e

-- The packet `p` stands at the front of the buffer, and the rest of the buffer and what comes
-- behind it is `rest`.
pub record Front (buffer behind_buffer rest : Bytes) (p : Frame) : Type 0 where
  pub header : of_raw buffer ≡ p.0
  pub payload : payload_of buffer ≡ p.1
  pub behind : behind_packet buffer ≡ take (length buffer - length (wire p)) rest
  pub left : behind_packet buffer ++ behind_buffer ≡ rest
  pub size : length (behind_packet buffer) ≡ length buffer - length (wire p)

module _ (s t rest : Bytes) (p : Frame) (v : IsPacket p) (e : s ++ t ≡ wire p ++ rest) where
  length-wire : length (wire p) ≡ raw_header_size + length p.1
  length-wire = omega (arith, length-append {0} (to_raw p.0) p.1, length-to_raw p.0)

  has_packet-long : leb (length (wire p)) (length s) ≡ true → has_packet s ≡ true
  has_packet-long h =
      let long : raw_header_size + length p.1 ≤ length s = ground (arith, length-wire) in
      let header : of_raw s ≡ p.0 =
        sym (of_raw-append s t (omega (arith, long))) ∙ ap of_raw e ∙ of_raw-wire p rest v in
      has_packet_of_sized s (omega (arith, long))
        (rw header (omega (arith, long, v.sized, length-drop {0} raw_header_size s)))

  has_packet-short : has_packet s ≡ true → raw_header_size + length p.1 ≤ length s
  has_packet-short h =
      let (header, payload) = has_packet_sized s h in
      let same : of_raw s ≡ p.0 = sym (of_raw_front s t h) ∙ ap of_raw e ∙ of_raw-wire p rest v in
      let fits = rw same at payload in
      omega (arith, header, fits, v.sized, length-drop {0} raw_header_size s)

  -- A buffer has a packet exactly if the first packet has arrived whole.
  pub has_packet-leb : has_packet s ≡ leb (length (wire p)) (length s)
  has_packet-leb = elim (Bool-cases (leb (length (wire p)) (length s))) [
    | inl long ↦ has_packet-long long ∙ sym long
    | inr short ↦ elim (Bool-cases (has_packet s)) [
      | inl h ↦ ground (arith, has_packet-short h, length-wire)
      | inr h ↦ h ∙ sym short
    ]
  ]

  pub Front-lem : has_packet s ≡ true → Front s t rest p
  Front-lem h =
      let left : behind_packet s ++ t ≡ rest =
        sym (behind_packet_front s t h) ∙ ap behind_packet e ∙ behind_packet-wire p rest v in
      let size : length (behind_packet s) ≡ length s - length (wire p) = omega (
        arith,
        ap (length {0}) left,
        ap (length {0}) e,
        length-append {0} (behind_packet s) t,
        length-append {0} s t,
        length-append {0} (wire p) rest,
      ) in
      record {
        header = sym (of_raw_front s t h) ∙ ap of_raw e ∙ of_raw-wire p rest v;
        payload = sym (payload_of_front s t h) ∙ ap payload_of e ∙ payload_of-wire p rest v;
        behind = take_whole (behind_packet s) t rest left ∙ ap (λ n. take n rest) size;
        left = left;
        size = size;
      }
