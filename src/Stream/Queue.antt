-- ===== src/Stream/Queue.antt =====
-- What a stream promises: the packets in their order, without the buffer.
use giblet.Common.{
  ℕ, ◌+◌, ◌-◌, Bool, false, not, ◌||◌, List, [], ◌∷◌, ◌++◌, map, Bytes, ◌==◌, leb, if◌then◌else◌,
  length, take, flatten, replicate, Outcome, returns, throws, undefined, diverges,
}
use giblet.Stream.{ProtocolStream, Received, socket_error, received, DispatcherFunction}
use giblet.Stream.Framing.{wire}
use giblet.Stream.Cuts.{Frame}

-- The bytes that an event adds to the buffer: a short read is filled up with zeros.
abbrev pub arrived : ℕ × Received → Bytes
arrived (n, socket_error) = []
arrived (n, received bytes) = if n == 0 then [] else bytes ++ replicate (n - length bytes) 0

abbrev pub wires : List Frame → Bytes
wires ps = flatten (map wire ps)

-- The specification knows no buffer: it has the packets that are not dispatched yet, and the number of
-- their bytes that have arrived. Its result is that number and these packets, beside the outcome.
abbrev pub Delivery : Type 0 → Type 0
Delivery W = Outcome (Unit {0}) × ℕ × List Frame × W

-- The first packet has arrived whole.
abbrev pub is_whole : ℕ → List Frame → Bool
is_whole n [] = false
is_whole n (p ∷ ps) = leb (length (wire p)) n

module _ {W : Type 0} where
  -- What goes on behind the dispatcher's return; an exception leaves the packet where it is.
  abbrev pub proceed : Outcome (Unit {0}) × W → (W → Delivery W) → ℕ → List Frame → Delivery W
  proceed (returns _, w) next n ps = next w
  proceed (throws e, w) next n ps = (throws e, n, ps, w)
  proceed (undefined, w) next n ps = (undefined, n, ps, w)
  proceed (diverges, w) next n ps = (diverges, n, ps, w)

  -- The stream that has the bytes that have arrived in its buffer.
  abbrev pub stream_of : Delivery W → Outcome (Unit {0}) × ProtocolStream W
  stream_of (r, n, ps, w) = (r, record { data_ = take n (wires ps); world = w })

module _ {W : Type 0} (dispatcher : DispatcherFunction W) where
  abbrev pub dispatch_front : (ℕ → List Frame → W → Delivery W) → ℕ → List Frame → W → Delivery W
  dispatch_front next n [] w = next n [] w
  dispatch_front next n (p ∷ ps) w =
      let rest = n - length (wire p) in
      proceed (dispatcher p.0 p.1 (take rest (wires ps)) w) (next rest ps) n (p ∷ ps)

  -- The numbers of bytes that arrive: each time that some do, the first packet is dispatched, if it is whole.
  abbrev pub deliver : List ℕ → ℕ → List Frame → W → Delivery W
  deliver [] there ps w = (returns tt, there, ps, w)
  deliver (k ∷ ks) there ps w =
      let waits = deliver ks (there + k) ps w in
      let dispatched = dispatch_front (deliver ks) (there + k) ps w in
      if (k == 0) || not (is_whole (there + k) ps) then waits else dispatched
