-- ===== src/Mock.antt =====
-- Protocols/YMsgMock/src: a messaging service that answers from the session's own lists. It implements
-- the links of Links.antt.
pub mod Contacts
pub mod Presence
pub mod Alert
pub mod Login
pub mod Invariant
pub mod Blocking
use giblet.Common.{
  Bool, Bytes, List, [], ◌∷◌, pos, codes, if◌then◌else◌, true, false, ◌==◌, invalid_argument,
}
use giblet.Common.Exec.{pure, throw, ◌>>◌, ◌>>=◌}
use giblet.Blocked
use giblet.Profiles.{is_client_or_profile_id}
use giblet.Events.Blocked.{on_already_blocked, on_not_in_blocked_list, on_blocked, on_unblocked}
use giblet.Events.Profiles.{on_added, on_activated, on_deactivated}
use giblet.Links.{Links}
use giblet.Session.{Session, Environment, Action}
use Contacts
use Presence

-- BlockedContactManagementLink.cpp.
unfoldable pub block : Bytes → Bytes → Action
unfolding Blocked.is_blocked on_already_blocked on_blocked
block client_id contact_id s =
    if Blocked.is_blocked contact_id s.blocked
    then on_already_blocked client_id contact_id s
    else on_blocked client_id contact_id s

unfoldable pub check_blocked : Bytes → Bytes → Action
check_blocked client_id contact_id s =
    if Blocked.is_blocked contact_id s.blocked
    then pure tt s
    else on_not_in_blocked_list client_id contact_id s

-- The source goes on behind the event for a contact that is not blocked; the event throws.
unfoldable pub unblock : Bytes → Bytes → Action
unfolding check_blocked Blocked.is_blocked on_not_in_blocked_list on_unblocked
unblock client_id contact_id = do
  check_blocked client_id contact_id
  on_unblocked client_id contact_id

-- ProfileManagementLink.cpp.
unfoldable pub add_profile : Bytes → Action
unfolding is_client_or_profile_id on_added
add_profile profile_id s =
    if is_client_or_profile_id profile_id s.profiles
    then throw invalid_argument s
    else on_added profile_id s

unfoldable pub activate : Bytes → Action
unfolding is_client_or_profile_id on_activated
activate profile_id s =
    if is_client_or_profile_id profile_id s.profiles
    then on_activated profile_id s
    else throw invalid_argument s

unfoldable pub deactivate : Bytes → Action
unfolding is_client_or_profile_id on_deactivated
deactivate profile_id s =
    if is_client_or_profile_id profile_id s.profiles
    then on_deactivated profile_id s
    else throw invalid_argument s

-- The four link objects.
unfoldable pub links : Environment → Links
links env = record {
  deny_request = Contacts.deny_request;
  add_contact = Contacts.add_contact env;
  remove_contact = Contacts.remove_contact;
  rename_group = Contacts.rename_group;
  block = block;
  unblock = unblock;
  add_profile = add_profile;
  activate = activate;
  deactivate = deactivate;
  set_available = Presence.set_available;
  set_idle = Presence.set_idle;
  set_away = Presence.set_away;
  set_custom_status = Presence.set_custom_status;
  set_invisible = Presence.set_invisible;
}
