-- ===== src/Links/Laws.antt =====
-- What a session needs of a messaging service: no answer breaks the invariant of the session.
use giblet.Common.{Bool, Bytes}
use giblet.Common.Exec.Keeps.{Keeps}
use giblet.Types.{Availability}
use giblet.Links.{Links}
use giblet.Session.Invariant.{IsSession}

pub record IsSafe (links : Links) : Type 0 where
  pub deny_request : (a b c : Bytes) → Keeps IsSession (links.deny_request a b c)
  pub add_contact : (a b c d : Bytes) → Keeps IsSession (links.add_contact a b c d)
  pub remove_contact : (a b c : Bytes) → Keeps IsSession (links.remove_contact a b c)
  pub rename_group : (a b : Bytes) → Keeps IsSession (links.rename_group a b)
  pub block : (a b : Bytes) → Keeps IsSession (links.block a b)
  pub unblock : (a b : Bytes) → Keeps IsSession (links.unblock a b)
  pub add_profile : (a : Bytes) → Keeps IsSession (links.add_profile a)
  pub activate : (a : Bytes) → Keeps IsSession (links.activate a)
  pub deactivate : (a : Bytes) → Keeps IsSession (links.deactivate a)
  pub set_available : Keeps IsSession links.set_available
  pub set_idle : (a : Bytes) (b : Bool) (c : Bytes) → Keeps IsSession (links.set_idle a b c)
  pub set_away : (a : Availability) (b : Bool) → Keeps IsSession (links.set_away a b)
  pub set_custom_status : (a : Bytes) (b : Bool) → Keeps IsSession (links.set_custom_status a b)
  pub set_invisible : Keeps IsSession links.set_invisible
