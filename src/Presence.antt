-- ===== src/Presence.antt =====
-- Protocols/YMsg/src/PresenceManager.cpp: the client's own presence.
use giblet.Common.{Bool, false, [], Bytes}
use giblet.Types.{Availability, available, invisible, custom, idle}

pub record PresenceProperties : Type 0 where
  pub availability : Availability
  pub busy : Bool
  pub message : Bytes

-- The constructor.
unfoldable pub initial : Availability → PresenceProperties
initial availability = record { availability = availability; busy = false; message = [] }

unfoldable pub set_available : PresenceProperties → PresenceProperties
set_available p = record { availability = available; busy = false; message = [] }

unfoldable pub set_custom_status : Bytes → Bool → PresenceProperties → PresenceProperties
set_custom_status message is_busy p = record {
  availability = custom;
  busy = is_busy;
  message = message;
}

unfoldable pub set_idle : Bytes → Bool → Bytes → PresenceProperties → PresenceProperties
set_idle message is_busy idle_unknown p = record {
  availability = idle;
  busy = is_busy;
  message = message;
}

unfoldable pub set_away : Availability → Bool → PresenceProperties → PresenceProperties
set_away availability is_busy p = record {
  availability = availability;
  busy = is_busy;
  message = [];
}

unfoldable pub set_invisible : PresenceProperties → PresenceProperties
set_invisible p = record { availability = invisible; busy = false; message = [] }
