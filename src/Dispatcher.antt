-- ===== src/Dispatcher.antt =====
-- Protocols/YMsg/include/Protocols/YMsg/PacketDispatcher.h and src/PacketDispatcher.cpp, and
-- `PacketProcessor::Parse` of Processor.h: a packet goes to the function that the map holds for its
-- service id.
pub mod Invariant
use giblet.Common.{ℕ, List, [], ◌∷◌, Option, none, some, ◌==◌, if◌then◌else◌}
use giblet.Common.Exec.{Exec, lift, ◌>>=◌}
use giblet.Header.{Header}
use giblet.Stream.{DispatcherFunction}
use giblet.Parser.{OnKeyPair, parse, payload_on_key_pair}

-- `std::map<uint16_t, function_type>`.
abbrev pub DispatchMap : Type 0 → Type 0
DispatchMap W = List (ℕ × DispatcherFunction W)

module _ {W : Type 0} where
  unfoldable pub find_processor : ℕ → DispatchMap W → Option (DispatcherFunction W)
  find_processor id [] = none
  find_processor id ((j, f) ∷ m) = if j == id then some f else find_processor id m

  -- `emplace`: an id that is there keeps its function.
  unfoldable pub add_processor : ℕ → DispatcherFunction W → DispatchMap W → DispatchMap W
  add_processor id f [] = (id, f) ∷ []
  add_processor id f ((j, g) ∷ m) = if j == id then (j, g) ∷ m else (j, g) ∷ add_processor id f m

  -- A packet for no processor is parsed with the base class, which knows no key.
  unfoldable pub unknown_service : DispatcherFunction W
  unfolding parse payload_on_key_pair
  unknown_service header payload behind = lift (parse payload_on_key_pair tt payload behind)

  unfoldable pub call : Option (DispatcherFunction W) → DispatcherFunction W
  unfolding unknown_service
  call none = unknown_service
  call (some f) = f

  unfoldable pub dispatch : DispatchMap W → DispatcherFunction W
  unfolding call find_processor
  dispatch processors header payload behind =
      call (find_processor header.service_id processors) header payload behind

  -- `PacketProcessor<Handler>::Parse`: a payload object, the parser, and the handler.
  unfoldable pub packet_processor :
      {P : Type 0} → OnKeyPair P → P → (Header → P → Exec W (Unit {0})) → DispatcherFunction W
  unfolding parse
  packet_processor on_key_pair fields process header payload behind =
      lift (parse on_key_pair fields payload behind) >>= λ p. process header p
