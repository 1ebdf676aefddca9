-- ===== src/Connection.antt =====
-- Protocols/YMsg/src/ClientConnection.cpp: the connection to the messenger. `send` is the socket's;
-- the model keeps the blocks that it was called with, in order.
use giblet.Common.{ℕ, List, [], ◌∷◌, ◌++◌, Bytes}

pub record ClientConnection : Type 0 where
  pub session_id : ℕ
  pub protocol_version : ℕ
  pub sent : List Bytes

unfoldable pub send_to_client : Bytes → ClientConnection → ClientConnection
send_to_client block c = record c { sent = c.sent ++ block ∷ [] }

unfoldable pub set_protocol_version : ℕ → ClientConnection → ClientConnection
set_protocol_version version c = record c { protocol_version = version }

unfoldable pub set_session_id : ℕ → ClientConnection → ClientConnection
set_session_id session_id c = record c { session_id = session_id }
