-- ===== src/Stream.antt =====
-- Protocols/YMsg/src/ProtocolStream.cpp: the buffer of incoming bytes and its packets. The
-- dispatcher is a parameter over a state `W` of its own. `recv` is the socket's: its result is an
-- argument of the event.
pub mod Framing
pub mod Cuts
pub mod Queue
pub mod Delivery
pub mod Backlog
pub mod Invariant
use giblet.Common.{
  ℕ, ◌+◌, ◌-◌, ◌≤◌, Bool, true, false, ◌&&◌, List, [], ◌∷◌, ◌++◌, Bytes, ◌==◌, leb, if◌then◌else◌,
  length, take, drop, replicate, Outcome, returns, throws, runtime_error,
}
use giblet.Common.Exec.{Exec, pure, throw, ◌>>=◌, ◌>>◌, modify}
use giblet.Header.{Header, of_raw, host_long, host_short, signature, raw_header_size}

pub record ProtocolStream (W : Type 0) : Type 0 where
  pub data_ : Bytes
  pub world : W

-- What `recv` did: it failed, or wrote some bytes.
pub data Received : Type 0 where
  socket_error : Received
  received : Bytes → Received

-- A dispatcher is called with the header, the payload and what the buffer holds behind it.
abbrev pub DispatcherFunction : Type 0 → Type 0
DispatcherFunction W = Header → Bytes → Bytes → Exec W (Unit {0})

unfoldable pub has_header : Bytes → Bool
has_header s = leb raw_header_size (length s)

-- Nothing in the program calls this.
unfoldable pub is_valid_header : Bytes → Bool
unfolding has_header
is_valid_header s = has_header s && (host_long 0 s == signature)

abbrev pub raw_payload_size : Bytes → ℕ
raw_payload_size s = host_short 8 s

unfoldable pub has_packet : Bytes → Bool
unfolding has_header
has_packet s = has_header s && leb (raw_payload_size s + raw_header_size) (length s)

-- The payload of the packet at the front, and what stands behind the packet.
abbrev pub payload_of : Bytes → Bytes
payload_of s = take (of_raw s).payload_size (drop raw_header_size s)

abbrev pub behind_packet : Bytes → Bytes
behind_packet s = drop (of_raw s).payload_size (drop raw_header_size s)

module _ {W : Type 0} (dispatcher : DispatcherFunction W) where
  -- The call of the dispatcher, which leaves the buffer alone.
  unfoldable pub call_dispatcher : Exec (ProtocolStream W) (Unit {0})
  call_dispatcher stream =
      let (r, w) =
        dispatcher (of_raw stream.data_) (payload_of stream.data_) (behind_packet stream.data_)
          stream.world in
      (r, record stream { world = w })

  unfoldable pub erase_packet : Exec (ProtocolStream W) (Unit {0})
  erase_packet = modify λ stream. record stream { data_ = behind_packet stream.data_ }

  -- A packet is erased behind the dispatcher's return: an exception leaves it in the buffer.
  unfoldable pub consume : Exec (ProtocolStream W) (Unit {0})
  unfolding has_packet call_dispatcher erase_packet
  consume stream =
      if has_packet stream.data_
      then (call_dispatcher >> erase_packet) stream
      else throw runtime_error stream

  unfoldable pub on_received : ℕ → Received → Exec (ProtocolStream W) Bool
  unfolding consume has_packet
  on_received incoming_size socket_error stream = (returns false, stream)
  on_received incoming_size (received bytes) stream =
      let buffer = stream.data_ ++ bytes ++ replicate (incoming_size - length bytes) 0 in
      let grown = record stream { data_ = buffer } in
      if has_packet buffer then (consume >> pure true) grown else (returns true, grown)

  -- The event that `incoming_size` bytes are there to be read.
  unfoldable pub process_pending_data : ℕ → Received → Exec (ProtocolStream W) Bool
  unfolding on_received
  process_pending_data incoming_size result stream =
      if incoming_size == 0
      then (returns false, stream)
      else on_received incoming_size result stream
