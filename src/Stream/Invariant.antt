-- ===== src/Stream/Invariant.antt =====
-- What the dispatcher keeps, the stream keeps.
use giblet.Common.{
  ℕ, ◌-◌, true, false, ◌++◌, Bytes, ◌==◌, length, replicate, returns, throws, runtime_error,
}
use giblet.Common.Exec.Keeps.{Keeps, Keeps-then, Keeps-modify, Keeps-lift, Keeps-if_at}
use giblet.Header.{Header}
use giblet.Stream.{
  ProtocolStream, Received, socket_error, received, DispatcherFunction, has_packet, call_dispatcher,
  erase_packet, consume, on_received, process_pending_data,
}

module _ {W : Type 0} (P : W → Type 0) (dispatcher : DispatcherFunction W)
    (kept : (header : Header) (payload behind : Bytes)
      → Keeps P (dispatcher header payload behind)) where
  abbrev pub IsKept : ProtocolStream W → Type 0
  IsKept stream = P stream.world

  call_dispatcher-Keeps : Keeps IsKept (call_dispatcher dispatcher)
  unfolding call_dispatcher
  call_dispatcher-Keeps = record { holds = λ stream. (kept _ _ _).holds stream.world }

  consume-Keeps : Keeps IsKept (consume dispatcher)
  unfolding consume erase_packet
  consume-Keeps =
      Keeps-if_at (λ stream. has_packet stream.data_)
        (Keeps-then call_dispatcher-Keeps (Keeps-modify λ stream p. p))
        (Keeps-lift (throws runtime_error))

  on_received-IsKept :
      (n : ℕ) (result : Received) (stream : ProtocolStream W)
      → P stream.world
      → P (on_received dispatcher n result stream).1.world
  unfolding on_received
  on_received-IsKept n socket_error stream p = p
  on_received-IsKept n (received bytes) stream p =
      (Keeps-if_at (λ (s : ProtocolStream W). has_packet s.data_)
          (Keeps-then consume-Keeps (Keeps-lift (returns true))) (Keeps-lift (returns true))).holds
        (record stream { data_ = stream.data_ ++ bytes ++ replicate (n - length bytes) 0 }) p

  on_received-Keeps : (n : ℕ) (result : Received) → Keeps IsKept (on_received dispatcher n result)
  on_received-Keeps n result = record { holds = on_received-IsKept n result }

  pub process_pending_data-Keeps :
      (n : ℕ) (result : Received) → Keeps IsKept (process_pending_data dispatcher n result)
  unfolding process_pending_data
  process_pending_data-Keeps n result =
      Keeps-if_at (λ stream. n == 0) (Keeps-lift (returns false)) (on_received-Keeps n result)
