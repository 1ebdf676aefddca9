-- ===== src/Header/RoundTrip.antt =====
-- The header on the wire and back.
use giblet.Common.{ℕ, ◌+◌, ◌*◌, ◌/◌, ◌%◌, ◌^◌, ◌<◌, ◌≡◌, refl, ◌++◌, arith, Bytes, length}
use giblet.Header.{Header, to_raw, of_raw, host_long, signature, raw_header_size}

-- Every field fits its width.
pub record IsHeader (h : Header) : Type 0 where
  pub proto_version_fits : h.proto_version < 2 ^ 16
  pub vendor_id_fits : h.vendor_id < 2 ^ 16
  pub payload_size_fits : h.payload_size < 2 ^ 16
  pub service_id_fits : h.service_id < 2 ^ 16
  pub attribute_fits : h.attribute < 2 ^ 32
  pub session_id_fits : h.session_id < 2 ^ 32

pub short_round : (n : ℕ) → n < 2 ^ 16 → n / 256 % 256 * 256 + n % 256 ≡ n
short_round n h = omega arith

pub long_round :
    (n : ℕ)
    → n < 2 ^ 32
    → n / 2 ^ 24 % 256 * 2 ^ 24 + n / 2 ^ 16 % 256 * 2 ^ 16 + n / 256 % 256 * 256 + n % 256 ≡ n
long_round n h = omega arith

-- Whatever stands behind it, a header whose fields fit their widths is read back from its raw form.
pub of_raw-to_raw : (h : Header) (rest : Bytes) → IsHeader h → of_raw (to_raw h ++ rest) ≡ h
unfolding of_raw to_raw
of_raw-to_raw h rest v = λ i. record {
  proto_version = short_round h.proto_version v.proto_version_fits i;
  vendor_id = short_round h.vendor_id v.vendor_id_fits i;
  payload_size = short_round h.payload_size v.payload_size_fits i;
  service_id = short_round h.service_id v.service_id_fits i;
  attribute = long_round h.attribute v.attribute_fits i;
  session_id = long_round h.session_id v.session_id_fits i;
}

-- The raw form begins with the signature.
pub signature-to_raw : (h : Header) (rest : Bytes) → host_long 0 (to_raw h ++ rest) ≡ signature
unfolding to_raw
signature-to_raw h rest = refl

pub length-to_raw : (h : Header) → length (to_raw h) ≡ raw_header_size
unfolding to_raw
length-to_raw h = refl
