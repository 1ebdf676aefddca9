-- ===== src/Mock/Invariant.antt =====
-- The mock service keeps the invariant of a session.
use giblet.Common.{
  ℤ, true, Bytes, List, [], ◌∷◌, codes, equals, is_empty, returns, throws, invalid_argument,
}
use giblet.Common.Exec.{modify, pure, throw}
use giblet.Common.Exec.Keeps.{Keeps, Keeps-then, Keeps-modify, Keeps-lift, Keeps-if, Keeps-if_at}
use giblet.Types.AddStatus
use giblet.Blocked.{is_blocked}
use giblet.Contacts.{is_contact}
use giblet.Profiles.{is_client_or_profile_id}
use giblet.Presence.{PresenceProperties}
use giblet.Packets.Contacts.{
  add_contact_request, add_contact_request_result, contact_removed, deny_contact_add_request,
}
use giblet.Packets.Login.{profile_activated, profile_deactivated}
use giblet.Types.{remove_general_failure}
use giblet.Session.{Environment, Action, send_packet}
use giblet.Session.Invariant.{IsSession, send_packet-Keeps}
use giblet.Events.Contacts as ContactEvents
use giblet.Events.Blocked.{on_already_blocked, on_not_in_blocked_list}
use giblet.Events.Profiles.{on_added, on_activated, on_deactivated}
use giblet.Events.Invariant.{
  on_blocked-Keeps, on_unblocked-Keeps, on_add_request_pending-Keeps, on_contact_removed-Keeps,
  on_group_renamed-Keeps, on_contact_available-Keeps, on_contact_idle-Keeps, on_contact_away-Keeps,
  on_contact_status_message-Keeps, on_contact_offline-Keeps,
}
use giblet.Links.Laws.{IsSafe}
use giblet.Mock.{block, unblock, check_blocked, add_profile, activate, deactivate, links}
use giblet.Mock.Contacts.{deny_request, ask_self, add_contact, remove_contact, rename_group}
use giblet.Mock.Presence.{
  show_profile, for_profiles, announce, set_available, set_idle, set_away, set_custom_status,
  set_invisible,
}

-- An action that leaves the session alone.
still : Keeps IsSession (pure tt)
still = Keeps-lift (returns tt)

refused : Keeps IsSession (throw {A = Unit {0}} invalid_argument)
refused = Keeps-lift (throws invalid_argument)

block-Keeps : (client_id contact_id : Bytes) → Keeps IsSession (block client_id contact_id)
unfolding block on_already_blocked
block-Keeps client_id contact_id =
    Keeps-if_at (λ s. is_blocked contact_id s.blocked) refused
      (on_blocked-Keeps client_id contact_id)

check_blocked-Keeps :
    (client_id contact_id : Bytes) → Keeps IsSession (check_blocked client_id contact_id)
unfolding check_blocked on_not_in_blocked_list
check_blocked-Keeps client_id contact_id =
    Keeps-if_at (λ s. is_blocked contact_id s.blocked) still refused

unblock-Keeps : (client_id contact_id : Bytes) → Keeps IsSession (unblock client_id contact_id)
unfolding unblock
unblock-Keeps client_id contact_id =
    Keeps-then (check_blocked-Keeps client_id contact_id) (on_unblocked-Keeps client_id contact_id)

add_profile-Keeps : (profile_id : Bytes) → Keeps IsSession (add_profile profile_id)
unfolding add_profile on_added
add_profile-Keeps profile_id =
    Keeps-if_at (λ s. is_client_or_profile_id profile_id s.profiles) refused still

activate-Keeps : (profile_id : Bytes) → Keeps IsSession (activate profile_id)
unfolding activate on_activated
activate-Keeps profile_id =
    Keeps-if_at (λ s. is_client_or_profile_id profile_id s.profiles)
      (send_packet-Keeps (profile_activated profile_id)) refused

deactivate-Keeps : (profile_id : Bytes) → Keeps IsSession (deactivate profile_id)
unfolding deactivate on_deactivated
deactivate-Keeps profile_id =
    Keeps-if_at (λ s. is_client_or_profile_id profile_id s.profiles)
      (send_packet-Keeps (profile_deactivated profile_id)) refused

deny_request-Keeps :
    (client_id contact_id message : Bytes)
    → Keeps IsSession (deny_request client_id contact_id message)
unfolding deny_request ContactEvents.on_add_request_denied
deny_request-Keeps client_id contact_id message =
    Keeps-if_at (λ s. is_client_or_profile_id contact_id s.profiles)
      (send_packet-Keeps (deny_contact_add_request contact_id client_id message)) still

ask_self-Keeps :
    (env : Environment) (client_id contact_id message : Bytes)
    → Keeps IsSession (ask_self env client_id contact_id message)
unfolding ask_self ContactEvents.on_add_contact_request
ask_self-Keeps env client_id contact_id message =
    Keeps-if_at (λ s. is_client_or_profile_id contact_id s.profiles)
      (send_packet-Keeps (add_contact_request client_id contact_id message env.now)) still

answer-Keeps :
    (contact_id client_id group : Bytes) (status : ℤ)
    → Keeps IsSession (send_packet (add_contact_request_result contact_id client_id group status))
answer-Keeps contact_id client_id group status =
    send_packet-Keeps (add_contact_request_result contact_id client_id group status)

add_contact-Keeps :
    (env : Environment) (client_id contact_id group message : Bytes)
    → Keeps IsSession (add_contact env client_id contact_id group message)
unfolding add_contact ContactEvents.on_empty_group ContactEvents.on_duplicate_contact
    ContactEvents.on_contact_is_ineligible ContactEvents.on_contact_no_exist
add_contact-Keeps env client_id contact_id group message =
    Keeps-if_at (λ s. is_empty group)
      (answer-Keeps contact_id client_id [] AddStatus.group_already_exists)
      (Keeps-if_at (λ s. is_contact contact_id s.contacts)
        (answer-Keeps contact_id client_id group AddStatus.duplicate_contact)
        (Keeps-if_at (λ s. is_blocked contact_id s.blocked)
          (answer-Keeps contact_id client_id group AddStatus.general_failure)
          (Keeps-if_at (λ s. equals contact_id (codes "grag"))
            (answer-Keeps contact_id client_id group AddStatus.contact_does_not_exist)
            (Keeps-then (on_add_request_pending-Keeps env client_id contact_id group)
              (ask_self-Keeps env client_id contact_id message)))))

remove_contact-Keeps :
    (client_id contact_id group : Bytes)
    → Keeps IsSession (remove_contact client_id contact_id group)
unfolding remove_contact ContactEvents.on_remove_contact_failed
remove_contact-Keeps client_id contact_id group =
    Keeps-if_at (λ s. is_contact contact_id s.contacts)
      (on_contact_removed-Keeps client_id contact_id group)
      (send_packet-Keeps (contact_removed client_id contact_id group remove_general_failure))

rename_group-Keeps :
    (current_name new_name : Bytes) → Keeps IsSession (rename_group current_name new_name)
unfolding rename_group ContactEvents.on_group_rename_failed
rename_group-Keeps current_name new_name =
    Keeps-if (equals current_name new_name) still (on_group_renamed-Keeps current_name new_name)

module _ (event : Bytes → Action) (event-Keeps : (id : Bytes) → Keeps IsSession (event id)) where
  show_profile-Keeps : (profile : Bytes) → Keeps IsSession (show_profile event profile)
  unfolding show_profile
  show_profile-Keeps profile =
      Keeps-if_at (λ s. is_contact profile s.contacts) (event-Keeps profile) still

  for_profiles-Keeps : (profiles : List Bytes) → Keeps IsSession (for_profiles event profiles)
  unfolding for_profiles
  for_profiles-Keeps [] = still
  for_profiles-Keeps (profile ∷ profiles) =
      Keeps-then (show_profile-Keeps profile) (for_profiles-Keeps profiles)

  properties-Keeps :
      (f : PresenceProperties → PresenceProperties)
      → Keeps IsSession (modify λ s. record s { properties = f s.properties })
  properties-Keeps f =
      Keeps-modify λ s v. record { contacts = v.contacts; blocked = v.blocked; sent = v.sent }

  shown-Keeps : Keeps IsSession (λ s. for_profiles event s.profiles.profiles s)
  shown-Keeps = record { holds = λ s. (for_profiles-Keeps s.profiles.profiles).holds s }

  announce-Keeps :
      (f : PresenceProperties → PresenceProperties) → Keeps IsSession (announce f event)
  unfolding announce
  announce-Keeps f = Keeps-then (properties-Keeps f) shown-Keeps

-- The mock service is a messaging service as the session needs it.
pub links-IsSafe : (env : Environment) → IsSafe (links env)
unfolding links set_available set_idle set_away set_custom_status set_invisible
links-IsSafe env = record {
  deny_request = deny_request-Keeps;
  add_contact = add_contact-Keeps env;
  remove_contact = remove_contact-Keeps;
  rename_group = rename_group-Keeps;
  block = block-Keeps;
  unblock = unblock-Keeps;
  add_profile = add_profile-Keeps;
  activate = activate-Keeps;
  deactivate = deactivate-Keeps;
  set_available = announce-Keeps _ (λ id. on_contact_available-Keeps id true) _;
  set_idle = λ a b c. announce-Keeps _ (λ id. on_contact_idle-Keeps id c a b) _;
  set_away = λ a b. announce-Keeps _ (λ id. on_contact_away-Keeps id a b) _;
  set_custom_status = λ a b. announce-Keeps _ (λ id. on_contact_status_message-Keeps id a b true) _;
  set_invisible = announce-Keeps _ on_contact_offline-Keeps _;
}
