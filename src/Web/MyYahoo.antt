-- ===== src/Web/MyYahoo.antt =====
-- YahooWeb/src/MyYahooWebServer.cpp: the page by which a packet is sent for debugging. `mg_get_var` of the
-- vendored web server is a parameter: from the name of a variable and the buffer it gives the length
-- or a negative number, and the buffer behind the call.
pub mod Debug
use giblet.Common.{
  ℕ, zero, suc, ◌-◌, ◌%◌, ◌^◌, Bool, true, false, if◌then◌else◌, Option, none, some, List, [], ◌∷◌,
  ◌++◌, Bytes, codes, equals, take, ℤ, pos, negsuc, Outcome, returns, diverges, ◌>>=◌,
}
use giblet.Runtime.{to_string, view, stol, c_string}
use giblet.Header.{new_header, to_raw}
use giblet.Builder.{append}
use giblet.Web.{Request, generic_handler}

-- The conversion of an `int` or a `long` to an unsigned type of a width.
abbrev pub to_unsigned : ℕ → ℤ → ℕ
to_unsigned w (pos n) = n % 2 ^ w
to_unsigned w (negsuc n) = 2 ^ w - 1 - n % 2 ^ w

-- `builder.Initialize(header_type(0, 0, serviceId, attribute))`
unfoldable pub initialize_header : ℤ → ℤ → Bytes
unfolding to_raw new_header
initialize_header service_id attribute =
    to_raw (new_header 0 0 (to_unsigned 16 service_id) (to_unsigned 32 attribute))

-- `std::stoi(buffer)` and `std::stol(buffer)`, which are the same with 32 bits.
abbrev pub number_in : Bytes → Outcome ℤ
number_in buffer = stol (view buffer [])

abbrev pub key_name : ℕ → Bytes
key_name i = codes "key" ++ to_string (pos i)

abbrev pub value_name : ℕ → Bytes
value_name i = codes "value" ++ to_string (pos i)

-- What a handler answers: whether it has handled the request, the blocks of data that it sent, and the
-- packet that it passed to `DispatchPacket`.
pub record Answer : Type 0 where
  pub is_handled : Bool
  pub replies : List Bytes
  pub dispatched : Option Bytes

abbrev pub not_handled : Answer
not_handled = record { is_handled = false; replies = []; dispatched = none }

abbrev answer_page : Bool × List Bytes → Answer
answer_page (b, replies) = record { is_handled = b; replies = replies; dispatched = none }

abbrev pub dispatch_packet : Bytes → Answer
dispatch_packet packet = record { is_handled = true; replies = []; dispatched = some packet }

module _ (get_var : Bytes → Bytes → ℤ × Bytes) where
  -- The key is in the buffer; the value replaces it there, and is appended whether or not the request
  -- has one. The results are the buffer and the packet.
  unfoldable pub append_field : ℕ → Bytes → Bytes → Outcome (Bytes × Bytes)
  append_field i buffer packet = number_in buffer >>= λ key.
      let after = (get_var (value_name i) buffer).1 in
      c_string after >>= λ value. append key value packet >>= λ packet. returns (after, packet)

  -- One round of the loop for a key of a length: `none` at its end.
  unfoldable pub append_key : ℤ → ℕ → Bytes → Bytes → Outcome (Option (Bytes × Bytes))
  append_key (negsuc n) i buffer packet = returns none
  append_key (pos zero) i buffer packet = returns (some (buffer, packet))
  append_key (pos (suc n)) i buffer packet =
      append_field i buffer packet >>= λ state. returns (some state)

  abbrev pub next_key :
      (Bytes → Bytes → Outcome Bytes) → Bytes → Option (Bytes × Bytes) → Outcome Bytes
  next_key loop packet none = returns packet
  next_key loop packet (some (buffer, built)) = loop buffer built

  -- The loop over the keys, on fuel.
  unfoldable pub append_keys : ℕ → ℕ → Bytes → Bytes → Outcome Bytes
  append_keys zero i buffer packet = diverges
  append_keys (suc fuel) i buffer packet =
      let key = get_var (key_name i) buffer in
      append_key key.0 i key.1 packet >>= next_key (append_keys fuel (suc i)) packet

  abbrev number_of_length : ℤ → Bytes → Outcome (Option (ℤ × Bytes))
  number_of_length (pos zero) buffer = returns none
  number_of_length (pos (suc n)) buffer = number_in buffer >>= λ v. returns (some (v, buffer))
  number_of_length (negsuc n) buffer = number_in buffer >>= λ v. returns (some (v, buffer))

  -- A number of the request, and the buffer behind the call: `none` where its text is empty.
  unfoldable pub read_number : Bytes → Bytes → Outcome (Option (ℤ × Bytes))
  read_number name buffer = let var = get_var name buffer in number_of_length var.0 var.1

  abbrev with_attribute : ℕ → ℤ → Option (ℤ × Bytes) → Outcome Answer
  with_attribute fuel service_id none = returns not_handled
  with_attribute fuel service_id (some (attribute, buffer)) =
      append_keys fuel 0 buffer (initialize_header service_id attribute) >>= λ packet.
      returns (dispatch_packet packet)

  abbrev with_service : ℕ → Option (ℤ × Bytes) → Outcome Answer
  with_service fuel none = returns not_handled
  with_service fuel (some (service_id, buffer)) =
      read_number (codes "attribute") buffer >>= with_attribute fuel service_id

  -- `OnDebugSendPacketRequest`, with what its buffer holds at the start.
  unfoldable pub on_debug_send_packet_request : ℕ → Bytes → Outcome Answer
  on_debug_send_packet_request fuel buffer =
      read_number (codes "serviceid") buffer >>= with_service fuel

  abbrev is_send : ℤ × Bytes → Bool
  is_send (pos n, buffer) = equals (take n buffer) (codes "send")
  is_send (negsuc n, buffer) = false

  abbrev is_channel : Option Bytes → Bool
  is_channel none = false
  is_channel (some uri) = equals uri (codes "/tearoff/channel.html")

  -- `MyYahooWebServer::OnRequest`, with the content of the files, the bytes of a new buffer, and the
  -- buffer that holds zeros.
  unfoldable pub on_my_request :
      (Bytes → Option Bytes) → Bytes → ℕ → Bytes → Bytes → Request → Outcome Answer
  on_my_request files root_path fuel fresh zeros conn =
      let sent = on_debug_send_packet_request fuel fresh in
      let page = returns (answer_page (generic_handler files root_path conn)) in
      if is_channel conn.uri
      then (if is_send (get_var (codes "action") zeros) then sent else page)
      else page
