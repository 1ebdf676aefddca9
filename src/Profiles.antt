-- ===== src/Profiles.antt =====
-- Protocols/YMsg/src/ProfileManager.cpp: the client's id and profile ids.
use giblet.Common.{Bool, ◌||◌, List, Bytes, equals}
use giblet.Blocked.{contains}

pub record ProfileManager : Type 0 where
  pub client_id : Bytes
  pub profiles : List Bytes

unfoldable pub load : Bytes → List Bytes → ProfileManager
load client_id profiles = record { client_id = client_id; profiles = profiles }

unfoldable pub is_profile_id : Bytes → ProfileManager → Bool
unfolding contains
is_profile_id id p = contains id p.profiles

unfoldable pub is_client_or_profile_id : Bytes → ProfileManager → Bool
unfolding is_profile_id
is_client_or_profile_id id p = equals id p.client_id || is_profile_id id p
