-- ===== src/Mock/Contacts.antt =====
-- Protocols/YMsgMock/src/ContactManagementLink.cpp.
use giblet.Common.{Bytes, codes, equals, is_empty, if◌then◌else◌, returns}
use giblet.Common.Exec.{◌>>◌}
use giblet.Blocked.{is_blocked}
use giblet.Contacts.{is_contact}
use giblet.Events.Contacts
use giblet.Profiles.{is_client_or_profile_id}
use giblet.Session.{Environment, Action}

unfoldable pub deny_request : Bytes → Bytes → Bytes → Action
unfolding is_client_or_profile_id Contacts.on_add_request_denied
deny_request client_id contact_id message s =
    if is_client_or_profile_id contact_id s.profiles
    then Contacts.on_add_request_denied contact_id client_id message s
    else (returns tt, s)

-- A contact that is one of the client's own ids is asked at once.
unfoldable pub ask_self : Environment → Bytes → Bytes → Bytes → Action
unfolding is_client_or_profile_id Contacts.on_add_contact_request
ask_self env client_id contact_id message s =
    if is_client_or_profile_id contact_id s.profiles
    then Contacts.on_add_contact_request client_id contact_id message env.now s
    else (returns tt, s)

unfoldable pub add_contact : Environment → Bytes → Bytes → Bytes → Bytes → Action
unfolding is_contact is_blocked equals ask_self Contacts.on_empty_group
    Contacts.on_duplicate_contact Contacts.on_contact_is_ineligible Contacts.on_contact_no_exist
    Contacts.on_add_request_pending
add_contact env client_id contact_id group message s =
    if is_empty group
    then Contacts.on_empty_group client_id contact_id s
    else if is_contact contact_id s.contacts
    then Contacts.on_duplicate_contact client_id contact_id group s
    else if is_blocked contact_id s.blocked
    then Contacts.on_contact_is_ineligible client_id contact_id group s
    else if equals contact_id (codes "grag")
    then Contacts.on_contact_no_exist client_id contact_id group s
    else (Contacts.on_add_request_pending env client_id contact_id group
          >> ask_self env client_id contact_id message)
        s

unfoldable pub remove_contact : Bytes → Bytes → Bytes → Action
unfolding is_contact Contacts.on_remove_contact_failed Contacts.on_contact_removed
remove_contact client_id contact_id group s =
    if is_contact contact_id s.contacts
    then Contacts.on_contact_removed client_id contact_id group s
    else Contacts.on_remove_contact_failed client_id contact_id group s

unfoldable pub rename_group : Bytes → Bytes → Action
unfolding equals Contacts.on_group_rename_failed Contacts.on_group_renamed
rename_group current_name new_name =
    if equals current_name new_name
    then Contacts.on_group_rename_failed current_name new_name
    else Contacts.on_group_renamed current_name new_name
