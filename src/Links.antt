-- ===== src/Links.antt =====
-- Protocols/YMsg/include/Protocols/YMsg/ContactManagementLink.h, BlockedContactManagementLink.h,
-- ProfileManagementLink.h and PresenceManagementLink.h: what the session asks of a messaging service.
-- The processors take the four interfaces as one record, and Mock.antt is an implementation.
pub mod Laws
use giblet.Common.{Bool, Bytes}
use giblet.Types.{Availability}
use giblet.Session.{Action}

pub record Links : Type 0 where
  pub deny_request : Bytes → Bytes → Bytes → Action
  pub add_contact : Bytes → Bytes → Bytes → Bytes → Action
  pub remove_contact : Bytes → Bytes → Bytes → Action
  pub rename_group : Bytes → Bytes → Action
  pub block : Bytes → Bytes → Action
  pub unblock : Bytes → Bytes → Action
  pub add_profile : Bytes → Action
  pub activate : Bytes → Action
  pub deactivate : Bytes → Action
  pub set_available : Action
  pub set_idle : Bytes → Bool → Bytes → Action
  pub set_away : Availability → Bool → Action
  pub set_custom_status : Bytes → Bool → Action
  pub set_invisible : Action
