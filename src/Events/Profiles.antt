-- ===== src/Events/Profiles.antt =====
-- Protocols/YMsg/src/ProfileManagementEvents.cpp.
use giblet.Common.{Bytes}
use giblet.Common.Exec.{pure}
use giblet.Packets.Login.{profile_activated, profile_deactivated}
use giblet.Session.{Action, send_packet}

-- The call that would add the profile is commented out in the source.
unfoldable pub on_added : Bytes → Action
on_added profile_id = pure tt

unfoldable pub on_activated : Bytes → Action
unfolding send_packet
on_activated profile_id = send_packet (profile_activated profile_id)

unfoldable pub on_deactivated : Bytes → Action
unfolding send_packet
on_deactivated profile_id = send_packet (profile_deactivated profile_id)
