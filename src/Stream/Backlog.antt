-- ===== src/Stream/Backlog.antt =====
-- Two packets that arrive in one read.
use giblet.Common.{
  ℕ, ◌-◌, ◌≡◌, sym, ap, ◌∙◌, true, false, [], ◌++◌, append-nil, arith, Bytes, length, length-append,
  replicate, ◌==◌, Outcome, returns, throws, undefined, diverges,
}
use giblet.Common.Exec.{continue, pure, ◌>>◌}
use giblet.Header.{of_raw, to_raw}
use giblet.Header.RoundTrip.{length-to_raw}
use giblet.Stream.{
  DispatcherFunction, received, has_packet, payload_of, behind_packet, erase_packet,
  process_pending_data,
}
use giblet.Stream.Cuts.{Frame}
use giblet.Stream.Framing.{
  IsPacket, wire, of_raw-wire, payload_of-wire, behind_packet-wire, has_packet-wire,
}
use giblet.Stream.Delivery.{process_dispatches}

unfoldable zeros : ℕ → Bytes
zeros n = replicate n 0

nothing_missing : (n : ℕ) → zeros (n - n) ≡ []
unfolding zeros
nothing_missing n = let none_left : n - n ≡ 0 = omega arith in ap zeros none_left

module _ {W : Type 0} (dispatcher : DispatcherFunction W) where
  -- A buffer behind a call that returns.
  erased :
      (buffer rest : Bytes) (r : Outcome (Unit {0}) × W) (w : W)
      → behind_packet buffer ≡ rest
      → r ≡ (returns tt, w)
      → ((λ s. continue r.0 (λ _. erase_packet dispatcher) s) >> pure true)
          (record { data_ = buffer; world = r.1 })
        ≡ (returns true, record { data_ = rest; world = w })
  unfolding erase_packet
  erased buffer rest (returns _, w') w e d =
      λ i. (returns true, record { data_ = e i; world = ap (λ r. r.1) d i })
  erased buffer rest (throws x, w') w e d = cc (ap (λ r. r.0) d)
  erased buffer rest (undefined, w') w e d = cc (ap (λ r. r.0) d)
  erased buffer rest (diverges, w') w e d = cc (ap (λ r. r.0) d)

  -- When two packets arrive in one read, and the dispatcher returns from the first, the second stays in the
  -- buffer, whole, though it could be dispatched as well: the next read has to come first.
  pub process-backlog :
      (p q : Frame) (w w' : W)
      → IsPacket p
      → IsPacket q
      → dispatcher p.0 p.1 (wire q) w ≡ (returns tt, w')
      → (process_pending_data dispatcher
            (length (wire p ++ wire q))
            (received (wire p ++ wire q))
            (record { data_ = []; world = w })
          ≡ (returns true, record { data_ = wire q; world = w' }))
        × (has_packet (wire q) ≡ true)
  unfolding zeros
  process-backlog p q w w' vp vq d =
      let both = wire p ++ wire q in
      let some_there : (length both == 0) ≡ false = ground (
        arith,
        length-append {0} (wire p) (wire q),
        length-append {0} (to_raw p.0) p.1,
        length-to_raw p.0,
      ) in
      let e : both ++ zeros (length both - length both) ≡ both =
        ap (λ t. both ++ t) (nothing_missing (length both)) ∙ append-nil both in
      let buffer = both ++ zeros (length both - length both) in
      let behind = ap behind_packet e ∙ behind_packet-wire p (wire q) vp in
      (
        process_dispatches dispatcher (length both) both [] w some_there
              (ap has_packet e ∙ has_packet-wire p (wire q) vp)
            ∙ erased buffer (wire q)
                (dispatcher (of_raw buffer) (payload_of buffer) (behind_packet buffer) w) w' behind
                ((λ i.
                    dispatcher ((ap of_raw e ∙ of_raw-wire p (wire q) vp) i)
                      ((ap payload_of e ∙ payload_of-wire p (wire q) vp) i) (behind i) w)
                  ∙ d),
        ap has_packet (sym (append-nil (wire q))) ∙ has_packet-wire q [] vq,
      )
