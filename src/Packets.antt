-- ===== src/Packets.antt =====
-- Protocols/YMsg/include/Protocols/YMsg/Server/Builders: the packets that the server sends. A `Build`
-- function is modelled by what it gives to `Initialize` and, in order, to `Append`; `transmit` in
-- Builder/Packet.antt builds the buffer from these and sends it.
pub mod Contacts
pub mod Status
pub mod Messages
pub mod Login
pub mod Profile
use giblet.Common.{ℕ, List, Bytes}

pub record Packet : Type 0 where
  pub service_id : ℕ
  pub attribute : ℕ
  pub fields : List (ℕ × Bytes)
