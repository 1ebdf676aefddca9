-- ===== src/Payloads.antt =====
-- Protocols/YMsg/include/Protocols/YMsg/Server/Payloads: what the client's packets hold. A module
-- for each payload class: its fields, its service id and `OnKeyPair`, the `switch` over the keys.
pub mod ActivateProfile
pub mod AddContact
pub mod Authentication
pub mod ChallengeRequest
pub mod ChangeBlockedUser
pub mod ChatJoin
pub mod ChatLogin
pub mod DeactivateProfile
pub mod DenyContactAddRequest
pub mod MassPrivateMessage
pub mod PrivateMessage
pub mod ProtocolSync
pub mod RemoveContact
pub mod RenameContactGroup
pub mod RequestProfile
pub mod ServiceOperation
pub mod SetAvailable
pub mod SetAway
