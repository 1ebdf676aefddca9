-- ===== src/Blocked.antt =====
-- Protocols/YMsg/src/BlockedContactManager.cpp: the list of blocked users.
pub mod Laws
use giblet.Common.{Bool, true, false, List, [], ◌∷◌, ◌++◌, Bytes, equals, if◌then◌else◌}

abbrev pub BlockedContactManager : Type 0
BlockedContactManager = List Bytes

-- `find(begin, end, id) != end`, which the profile manager calls too.
unfoldable pub contains : Bytes → List Bytes → Bool
contains id [] = false
contains id (user ∷ users) = if equals user id then true else contains id users

unfoldable pub is_blocked : Bytes → BlockedContactManager → Bool
unfolding contains
is_blocked id users = contains id users

unfoldable pub add : Bytes → BlockedContactManager → BlockedContactManager
unfolding contains
add id users = if contains id users then users else users ++ id ∷ []

-- The first entry that equals the id is erased.
unfoldable pub remove : Bytes → BlockedContactManager → BlockedContactManager
remove id [] = []
remove id (user ∷ users) = if equals user id then users else user ∷ remove id users
