-- ===== src/Lib.antt =====
-- The YMSG server of Giblet (Protocols/YMsg) with its mock messaging service (Protocols/YMsgMock),
-- the code hooks by which the client is made to call the server (CodeHook) with the patch that
-- installs them (YIMPatch), and the web pages that the client loads (YahooWeb). In the server, a
-- client connects over TCP and sends packets, each a header of 20 bytes and a payload of keys and
-- values; the server answers from the lists that it keeps for the session.
--
-- How the parts work together. A stream collects the bytes that arrive, cuts packets off the front and
-- calls the dispatcher. The dispatcher looks the service id up in a map: during the login the
-- map is the authentication handler's, afterwards the session's. An entry parses the payload into
-- a payload object and gives this to a processor. A processor asks one of the four links, which stand
-- for a messaging service; the mock service answers a link by the events, and an event changes the
-- session's managers and sends packets that a builder wrote.
--
--   Header          Protocols/YMsg/src/Server/Header.cpp (Header, RawHeader)
--   Parser          Protocols/YMsg/src/Parser.cpp (PacketParser::FindTerminator, Parse)
--   Connection      Protocols/YMsg/src/ClientConnection.cpp
--   Builder         Protocols/YMsg/src/Builder.cpp (Initialize, Append, Send)
--   Stream          Protocols/YMsg/src/ProtocolStream.cpp (ProcessPendingData, Consume)
--   Types           Protocols/YMsg/include/Protocols/YMsg/Types.h
--   Contacts        Protocols/YMsg/src/ContactManager.cpp, on the maps of Map
--   Blocked         Protocols/YMsg/src/BlockedContactManager.cpp
--   Profiles        Protocols/YMsg/src/ProfileManager.cpp
--   Presence        Protocols/YMsg/src/PresenceManager.cpp
--   Packets         Protocols/YMsg/include/Protocols/YMsg/Server/Builders, a Build function each
--   Payloads        Protocols/YMsg/src/Server/Payloads, an OnKeyPair function each
--   Session         Protocols/YMsg/src/SessionContext.cpp
--   Events          Protocols/YMsg/src/*Events.cpp
--   Links           Protocols/YMsg/include/Protocols/YMsg/*Link.h, as one record
--   Mock            Protocols/YMsgMock/src
--   Processors      Protocols/YMsg/src/Server/Processors
--   Dispatcher      Protocols/YMsg/src/PacketDispatcher.cpp and PacketProcessor of Processor.h
--   DispatchMaps    Protocols/YMsg/src/DispatchMaps.cpp
--   Login           Protocols/YMsg/src/AuthenticationHandler.cpp
--   Server          Protocols/YMsg/src/ConnectionPump.cpp (Pump, for one socket)
--   Web             YahooWeb/src (MultilHostWebServer.cpp, Utilities.cpp, and in the children Insider and
--                   MyYahoo YahooInsiderWebServer.cpp and MyYahooWebServer.cpp)
--   CodeHook        CodeHook, by which YIMPatch changes the client, in these parts:
--     Memory          cpuIA32_Translator.h: bytes by their addresses, and the reads of OpcodeIterator
--     Operand, Postbyte, Registers, Opcode, Extensions    the header of the same name (cpuIA32_*.h)
--     Tables          cpuIA32_Tables.cpp, row by row, and its CheckOpcodes
--     Instruction     cpuIA32_Instruction.cpp (Decode in the child Decode, Relocate and Emit in Emit)
--     Relocate        cpuIA32_HookSystem.cpp, RelocateCode
--     Assembler       cpuIA32_Assembler.cpp
--     MemoryBlock     cpu_Win32MemoryBlock.cpp
--     Hook            cpuIA32_HookSystem.cpp, InstallHook
--   Patch           YIMPatch (YIMPatch.cpp, CopyPatcha.cpp, Winsock_Hooks.cpp, WinINet_Hooks.cpp)
--
-- How a hook works. The first instructions of a function of a loaded module are decoded by the opcode
-- tables, relocated and written into a buffer, the thunk; a jump behind them leads to the rest of the
-- function, and the function's first six bytes become a jump through the thunk's first pointer, which
-- holds the proxy. The memory of the process is one function from addresses to bytes. The calls of Windows
-- are a record that the definitions take; of VirtualAlloc it is assumed that the new page does not hold the
-- function, and of VirtualQuery and VirtualProtect what Restore says. Addresses are not wrapped around when
-- they are read or written behind, and the assertions of a debug build are left out.
--
-- Common and Runtime hold what the parts share: outcomes, actions, byte strings, and the
-- functions of the C and C++ libraries that the code calls (strtol, stol, atoi, to_string, string_view).
--
-- How the code is modelled. A function ends in an outcome: it returns, throws, runs into undefined
-- behaviour, or diverges. A member function that changes shared objects is an action: it gives an
-- outcome and the state behind it, so that what was written before an exception stays
-- written. Names are the source's, in lower case with underscores. The objects of a session
-- are the fields of one record. What the program reads and does not set, the clock, `rand()` and
-- members that no constructor sets, is a record that the definitions take. `int` and `long` have 32 bits
-- where they are read from text, since the program is built for 32-bit Windows.
--
-- The proofs stand in child modules. An invariant is carried through all parts by rules for actions
-- (Common.Exec.Keeps); the processors need of a messaging service only that it keeps the invariant (Links.Laws),
-- which Mock.Invariant shows of the mock service.
--
-- Fuel. `Parse` runs on one more than the length of the payload, which is enough since each key takes one
-- byte at least; running out is the outcome `diverges`. Printing `n` runs on `n + 1`.
-- `RelocateCode` runs on as many rounds as it is asked for bytes, since each round copies one at least. The
-- loop over the prefixes has the room of the array for its measure: one more is undefined behaviour.
-- The loop over the keys of a request to the debugging page needs one more round than the request has keys.
--
-- Not modelled: `select` and the sockets (the number of bytes that are there and the result of
-- `recv` are arguments of an event), log lines, the destruction of objects, the XMPP bridge, the
-- launcher, the parts of the code hooks that print an instruction for a test, the test harness, and
-- the vendored libraries gloox and mongoose.
pub mod Common
pub mod Runtime
pub mod Header
pub mod Parser
pub mod Connection
pub mod Builder
pub mod Stream
pub mod Types
pub mod Map
pub mod Contacts
pub mod Blocked
pub mod Profiles
pub mod Presence
pub mod Packets
pub mod Payloads
pub mod Session
pub mod Events
pub mod Links
pub mod Mock
pub mod Processors
pub mod Dispatcher
pub mod DispatchMaps
pub mod Login
pub mod Server
pub mod Web
pub mod CodeHook
pub mod Patch
pub mod Tests
