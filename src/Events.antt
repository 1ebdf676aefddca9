-- ===== src/Events.antt =====
-- What the server tells the session: Protocols/YMsg/src/ContactManagementEvents.cpp,
-- BlockedContactManagementEvents.cpp, ProfileManagementEvents.cpp and PresenceEvents.cpp. Each event
-- changes the managers and sends packets.
pub mod Contacts
pub mod Blocked
pub mod Profiles
pub mod Presence
pub mod Invariant
