-- ===== src/Stream/Delivery.antt =====
-- What the stream dispatches over a sequence of reads, however the bytes are divided into reads.
use giblet.Common.{
  ℕ, ◌+◌, ◌-◌, ◌≡◌, refl, sym, ap, ◌∙◌, length-append, true, false, List, [], ◌∷◌, ◌++◌,
  append_assoc, map, arith, Bytes, ◌==◌, leb, length, take, flatten, replicate, length-replicate,
  Outcome, returns, throws, undefined, diverges, Bool-cases, inl, inr, All,
}
use giblet.Common.Exec.{Exec, pure, ◌>>◌, continue}
use giblet.Header.{of_raw}
use giblet.Stream.{
  ProtocolStream, Received, socket_error, received, DispatcherFunction, has_packet, payload_of,
  behind_packet, call_dispatcher, erase_packet, consume, on_received, process_pending_data,
}
use giblet.Stream.Framing.{IsPacket, wire}
use giblet.Stream.Queue.{
  arrived, wires, Delivery, is_whole, proceed, stream_of, dispatch_front, deliver,
}
use giblet.Stream.Cuts.{Frame, take_whole, Front-lem, has_packet-leb, has_packet-nothing}

module _ {W : Type 0} (dispatcher : DispatcherFunction W) where
  -- The events of a stream, one behind the other, up to one that throws or is undefined.
  unfoldable pub run : List (ℕ × Received) → Exec (ProtocolStream W) (Unit {0})
  run [] = pure tt
  run (event ∷ events) = process_pending_data dispatcher event.0 event.1 >> run events

  abbrev at_front : Bytes → W → ProtocolStream W
  at_front held w = record { data_ = held; world = w }

  -- A read that makes no packet whole.
  process_waits :
      (n : ℕ) (bytes held : Bytes) (w : W)
      → (n == 0) ≡ false
      → has_packet (held ++ bytes ++ replicate (n - length bytes) 0) ≡ false
      → process_pending_data dispatcher n (received bytes) (at_front held w)
        ≡ (returns true, at_front (held ++ bytes ++ replicate (n - length bytes) 0) w)
  unfolding process_pending_data on_received
  process_waits n bytes held w some_there h = rw some_there (rw h refl)

  -- A read that makes one whole.
  pub process_dispatches :
      (n : ℕ) (bytes held : Bytes) (w : W)
      → (n == 0) ≡ false
      → has_packet (held ++ bytes ++ replicate (n - length bytes) 0) ≡ true
      → let buffer = held ++ bytes ++ replicate (n - length bytes) 0 in
        let r = dispatcher (of_raw buffer) (payload_of buffer) (behind_packet buffer) w in
        process_pending_data dispatcher n (received bytes) (at_front held w)
        ≡ ((λ s. continue r.0 (λ _. erase_packet dispatcher) s) >> pure true) (at_front buffer r.1)
  unfolding process_pending_data on_received consume call_dispatcher
  process_dispatches n bytes held w some_there h = rw some_there (rw h refl)

  -- The events behind a call of the dispatcher.
  run-proceed :
      (events : List (ℕ × Received)) (buffer : Bytes) (r : Outcome (Unit {0}) × W)
      (next : W → Delivery W) (n : ℕ) (ps : List Frame)
      → buffer ≡ take n (wires ps)
      → ((w : W) → run events (at_front (behind_packet buffer) w) ≡ stream_of (next w))
      → (((λ s. continue r.0 (λ _. erase_packet dispatcher) s) >> pure true) >> run events)
          (at_front buffer r.1)
        ≡ stream_of (proceed r next n ps)
  unfolding erase_packet
  run-proceed events buffer (returns _, w) next n ps e h = h w
  run-proceed events buffer (throws x, w) next n ps e h = ap (λ b. (throws x, at_front b w)) e
  run-proceed events buffer (undefined, w) next n ps e h = ap (λ b. (undefined, at_front b w)) e
  run-proceed events buffer (diverges, w) next n ps e h = ap (λ b. (diverges, at_front b w)) e

  module _ (events : List (ℕ × Received)) (ks : List ℕ) (t : Bytes)
      (goes_on : (held : Bytes) (ps : List Frame) (w : W)
        → All IsPacket ps
        → held ++ t ≡ wires ps
        → run events (at_front held w) ≡ stream_of (deliver dispatcher ks (length held) ps w))
      (n : ℕ) (bytes held : Bytes) (w : W) (some_there : (n == 0) ≡ false) where
    abbrev more : Bytes
    more = bytes ++ replicate (n - length bytes) 0

    abbrev all : Bytes
    all = held ++ bytes ++ replicate (n - length bytes) 0

    some_more : (length more == 0) ≡ false
    some_more = ground (
      arith,
      length-append {0} bytes (replicate (n - length bytes) 0),
      length-replicate {A = ℕ} (n - length bytes) 0,
    )

    grown : length held + length more ≡ length all
    grown =
        sym (length-append held more)
        ∙ ap (length {0}) (sym (append_assoc held bytes (replicate (n - length bytes) 0)))

    deliver-waits :
        (ps : List Frame)
        → is_whole (length all) ps ≡ false
        → deliver dispatcher (length more ∷ ks) (length held) ps w
          ≡ deliver dispatcher ks (length all) ps w
    deliver-waits ps short = rw (grown, some_more, short) refl

    deliver-dispatches :
        (ps : List Frame)
        → is_whole (length all) ps ≡ true
        → deliver dispatcher (length more ∷ ks) (length held) ps w
          ≡ dispatch_front dispatcher (deliver dispatcher ks) (length all) ps w
    deliver-dispatches ps long = rw (grown, some_more, long) refl

    run-waits :
        (ps : List Frame)
        → All IsPacket ps
        → all ++ t ≡ wires ps
        → has_packet all ≡ false
        → is_whole (length all) ps ≡ false
        → (process_pending_data dispatcher n (received bytes) >> run events) (at_front held w)
          ≡ stream_of (deliver dispatcher (length more ∷ ks) (length held) ps w)
    run-waits ps v e h short =
        ap (λ x. continue x.0 (λ _. run events) x.1) (process_waits n bytes held w some_there h)
        ∙ goes_on all ps w v e
        ∙ ap stream_of (sym (deliver-waits ps short))

    run-dispatches :
        (p : Frame) (ps : List Frame)
        → All IsPacket (p ∷ ps)
        → all ++ t ≡ wires (p ∷ ps)
        → has_packet all ≡ true
        → leb (length (wire p)) (length all) ≡ true
        → (process_pending_data dispatcher n (received bytes) >> run events) (at_front held w)
          ≡ stream_of (deliver dispatcher (length more ∷ ks) (length held) (p ∷ ps) w)
    run-dispatches p ps (v, vs) e h long =
        let f = Front-lem all t (wires ps) p v e h in
        let next = deliver dispatcher ks (length all - length (wire p)) ps in
        ap (λ x. continue x.0 (λ _. run events) x.1)
          (process_dispatches n bytes held w some_there h)
        ∙ run-proceed events all (dispatcher (of_raw all) (payload_of all) (behind_packet all) w)
            next (length all) (p ∷ ps) (take_whole all t (wires (p ∷ ps)) e)
            (λ w'.
              goes_on (behind_packet all) ps w' vs f.left
              ∙ ap (λ k. stream_of (deliver dispatcher ks k ps w')) f.size)
        ∙ (λ i. stream_of (
            proceed (dispatcher (f.header i) (f.payload i) (f.behind i) w) next (length all)
              (p ∷ ps)))
        ∙ ap stream_of (sym (deliver-dispatches (p ∷ ps) long))

    run-received :
        (ps : List Frame)
        → All IsPacket ps
        → all ++ t ≡ wires ps
        → (process_pending_data dispatcher n (received bytes) >> run events) (at_front held w)
          ≡ stream_of (deliver dispatcher (length more ∷ ks) (length held) ps w)
    run-received [] v e = run-waits [] v e (has_packet-nothing all t e) refl
    run-received (p ∷ ps) (v, vs) e =
        let same = has_packet-leb all t (wires ps) p v e in
        elim (Bool-cases (leb (length (wire p)) (length all))) [
          | inl long ↦ run-dispatches p ps (v, vs) e (same ∙ long) long
          | inr short ↦ run-waits (p ∷ ps) (v, vs) e (same ∙ short) short
        ]

  process_nothing :
      (n : ℕ) (bytes : Bytes) (stream : ProtocolStream W)
      → (n == 0) ≡ true
      → process_pending_data dispatcher n (received bytes) stream ≡ (returns false, stream)
  unfolding process_pending_data
  process_nothing n bytes stream e = rw e refl

  process_error :
      (n : ℕ) (stream : ProtocolStream W)
      → process_pending_data dispatcher n socket_error stream ≡ (returns false, stream)
  unfolding process_pending_data on_received
  process_error n stream = ground arith

  abbrev pub sizes : List (ℕ × Received) → List ℕ
  sizes = map λ event. length (arrived event)

  deliver-nothing :
      (ks : List ℕ) (k : ℕ) (ps : List Frame) (w : W)
      → deliver dispatcher (0 ∷ ks) k ps w ≡ deliver dispatcher ks k ps w
  deliver-nothing ks k ps w =
      let same : k + 0 ≡ k = omega arith in ap (λ j. deliver dispatcher ks j ps w) same

  run-from :
      (events : List (ℕ × Received)) (future held : Bytes) (ps : List Frame) (w : W)
      → All IsPacket ps
      → held ++ (flatten (map arrived events) ++ future) ≡ wires ps
      → run events (at_front held w)
        ≡ stream_of (deliver dispatcher (sizes events) (length held) ps w)
  unfolding run
  run-from [] future held ps w v e =
      ap (λ b. (returns tt, at_front b w)) (take_whole held future (wires ps) e)
  run-from ((n, socket_error) ∷ events) future held ps w v e =
      ap (λ x. continue x.0 (λ _. run events) x.1) (process_error n (at_front held w))
      ∙ run-from events future held ps w v e
      ∙ ap stream_of (sym (deliver-nothing (sizes events) (length held) ps w))
  run-from ((n, received bytes) ∷ events) future held ps w v e = elim (Bool-cases (n == 0)) [
    | inl none_there ↦
        ap (λ x. continue x.0 (λ _. run events) x.1)
          (process_nothing n bytes (at_front held w) none_there)
        ∙ run-from events future held ps w v (rw none_there at e)
        ∙ ap stream_of (sym (deliver-nothing (sizes events) (length held) ps w))
        ∙ rw none_there refl
    | inr some_there ↦
        let filled = replicate (n - length bytes) 0 in
        let later = flatten (map arrived events) in
        let parts =
          ap (λ x. x ++ (later ++ future)) (append_assoc held bytes filled)
          ∙ append_assoc held (bytes ++ filled) (later ++ future)
          ∙ ap (λ x. held ++ x) (sym (append_assoc (bytes ++ filled) later future)) in
        rw some_there (
          run-received events (sizes events) (later ++ future)
            (λ held' ps' w' v' e'. run-from events future held' ps' w' v' e') n bytes held w
            some_there ps v (parts ∙ (rw some_there at e)))
  ]

-- Let the bytes that arrive, followed by those still on their way, be a sequence of packets. Then whatever
-- reads the bytes are divided into, a stream that begins empty does what the specification does, which
-- knows no buffer: each time that bytes arrive, the first packet that is not dispatched yet is, if all its
-- bytes have arrived, and no other. The dispatcher gets its header, its payload, and what has arrived behind it.
-- If the dispatcher returns, the packet is done with; if it throws, is undefined or diverges, the run ends
-- there, and the packet is still in front. The buffer holds exactly the bytes of the packets that are
-- not done with, as far as they have arrived.
pub run-deliver :
    {W : Type 0} (dispatcher : DispatcherFunction W) (ps : List Frame)
    (events : List (ℕ × Received)) (future : Bytes) (w : W)
    → All IsPacket ps
    → flatten (map arrived events) ++ future ≡ wires ps
    → run dispatcher events (record { data_ = []; world = w })
      ≡ stream_of (deliver dispatcher (map (λ event. length (arrived event)) events) 0 ps w)
run-deliver dispatcher ps events future w v e = run-from dispatcher events future [] ps w v e
