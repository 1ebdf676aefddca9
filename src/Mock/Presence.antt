-- ===== src/Mock/Presence.antt =====
-- Protocols/YMsgMock/src/PresenceManagementLink.cpp: each change of the client's presence is shown for
-- those of its profiles that are on its own contact list.
use giblet.Common.{Bool, true, List, [], ◌∷◌, Bytes, if◌then◌else◌, returns}
use giblet.Common.Exec.{pure, modify, ◌>>◌}
use giblet.Contacts.{is_contact}
use giblet.Events.Presence.{
  on_contact_available, on_contact_idle, on_contact_away, on_contact_status_message,
  on_contact_offline,
}
use giblet.Presence
use giblet.Presence.{PresenceProperties}
use giblet.Session.{Action}
use giblet.Types.{Availability}

-- The body of the loop over the profiles.
unfoldable pub show_profile : (Bytes → Action) → Bytes → Action
show_profile event profile s =
    if is_contact profile s.contacts then event profile s else (returns tt, s)

unfoldable pub for_profiles : (Bytes → Action) → List Bytes → Action
unfolding show_profile is_contact
for_profiles event [] = pure tt
for_profiles event (profile ∷ profiles) = do show_profile event profile; for_profiles event profiles

-- The properties change first, and then the profiles are shown.
unfoldable pub announce : (PresenceProperties → PresenceProperties) → (Bytes → Action) → Action
unfolding for_profiles
announce f event = do
  modify λ s. record s { properties = f s.properties }
  λ s. for_profiles event s.profiles.profiles s

unfoldable pub set_available : Action
unfolding announce Presence.set_available on_contact_available
set_available = announce Presence.set_available (λ profile. on_contact_available profile true)

unfoldable pub set_idle : Bytes → Bool → Bytes → Action
unfolding announce Presence.set_idle on_contact_idle
set_idle message is_busy idle_unknown =
    announce (Presence.set_idle message is_busy idle_unknown)
      (λ profile. on_contact_idle profile idle_unknown message is_busy)

unfoldable pub set_away : Availability → Bool → Action
unfolding announce Presence.set_away on_contact_away
set_away availability is_busy =
    announce (Presence.set_away availability is_busy)
      (λ profile. on_contact_away profile availability is_busy)

unfoldable pub set_custom_status : Bytes → Bool → Action
unfolding announce Presence.set_custom_status on_contact_status_message
set_custom_status message is_busy =
    announce (Presence.set_custom_status message is_busy)
      (λ profile. on_contact_status_message profile message is_busy true)

unfoldable pub set_invisible : Action
unfolding announce Presence.set_invisible on_contact_offline
set_invisible = announce Presence.set_invisible on_contact_offline
