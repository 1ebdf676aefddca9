-- ===== src/Contacts.antt =====
-- Protocols/YMsg/include/Protocols/YMsg/ContactManager.h and src/ContactManager.cpp: the contact
-- list. An iterator at `end()` is `none`.
pub mod Laws
pub mod Changes
use giblet.Common.{
  Bool, true, false, not, List, [], ◌∷◌, Option, none, some, Bytes, equals, if◌then◌else◌, eq_ℤ,
  Outcome, returns, throws, undefined, runtime_error,
}
use giblet.Types.{Availability, offline, available, custom, idle}
use giblet.Map
use giblet.Map.{Map}

pub data State : Type 0 where
  linked add_pending : State

pub record ContactInfo : Type 0 where
  pub id : Bytes
  pub group : Bytes
  pub availability : Availability
  pub is_busy : Bool
  pub custom_message : Bytes
  pub idle_unknown : Bytes
  pub state : State
  pub is_in_chat : Bool

-- The constructor with an availability. It leaves `isInChat` with whatever the memory held, which is
-- the first argument.
unfoldable pub contact_info :
    Bool → Bytes → Bytes → State → Availability → Bool → Bytes → ContactInfo
contact_info held id group state availability is_busy custom_message = record {
  id = id;
  group = group;
  availability = availability;
  is_busy = is_busy;
  custom_message = custom_message;
  idle_unknown = [];
  state = state;
  is_in_chat = held;
}

unfoldable pub is_online : ContactInfo → Bool
is_online c = not (eq_ℤ c.availability offline)

abbrev pub ContactManager : Type 0
ContactManager = Map ContactInfo

abbrev pub is_some {ℓ} : {A : Type ℓ} → Option A → Bool
is_some none = false
is_some (some a) = true

unfoldable pub find_contact : Bytes → ContactManager → Option ContactInfo
unfolding Map.find
find_contact = Map.find

unfoldable pub is_contact : Bytes → ContactManager → Bool
unfolding find_contact
is_contact id m = is_some (find_contact id m)

unfoldable pub load_contact : ContactInfo → ContactManager → Outcome ContactManager
unfolding Map.find Map.emplace
load_contact c m =
    if is_some (Map.find c.id m) then throws runtime_error else returns (Map.emplace c.id c m)

unfoldable pub add_pending_contact : Bool → Bytes → Bytes → ContactManager → Outcome ContactManager
unfolding Map.find Map.emplace contact_info
add_pending_contact held id group m =
    if is_some (Map.find id m)
    then throws runtime_error
    else returns (Map.emplace id (contact_info held id group add_pending offline false []) m)

unfoldable set_contact_added : Bytes → Bytes → ContactManager → Outcome ContactManager
set_contact_added id group m = throws runtime_error

-- `erase` of the iterator that `FindContact` gave, which must not be `end()`.
unfoldable pub remove_contact : Bytes → Bytes → ContactManager → Outcome ContactManager
unfolding find_contact Map.erase
remove_contact id group m =
    if is_some (find_contact id m) then returns (Map.erase id m) else undefined

-- For two equal names an exception is constructed, and not thrown.
unfoldable pub rename_group : Bytes → Bytes → ContactManager → ContactManager
rename_group current_name new_name [] = []
rename_group current_name new_name ((id, c) ∷ m) =
    (id, if equals c.group current_name then record c { group = new_name } else c)
    ∷ rename_group current_name new_name m

-- The changes that a `SetContact…` function makes to a contact in the list, and the contact, or
-- `none` for a null pointer.
unfoldable pub update_contact :
    Bytes → (ContactInfo → ContactInfo) → ContactManager → Option (ContactInfo × ContactManager)
unfolding find_contact Map.assign
update_contact id f m = elim (find_contact id m) [
  | none ↦ none
  | some c ↦ some (f c, Map.assign id (f c) m)
]

unfoldable pub set_contact_available :
    Bytes → ContactManager → Option (ContactInfo × ContactManager)
unfolding update_contact
set_contact_available id = update_contact id λ c. record c { availability = available }

unfoldable pub set_contact_idle :
    Bytes → Bytes → Bytes → Bool → ContactManager → Option (ContactInfo × ContactManager)
unfolding update_contact
set_contact_idle id idle_unknown message is_busy = update_contact id λ c. record c {
  idle_unknown = idle_unknown;
  availability = idle;
  is_busy = is_busy;
  custom_message = message;
}

unfoldable pub set_contact_away :
    Bytes → Availability → Bool → ContactManager → Option (ContactInfo × ContactManager)
unfolding update_contact
set_contact_away id availability is_busy =
    update_contact id λ c. record c { availability = availability; is_busy = is_busy }

unfoldable pub set_contact_status_message :
    Bytes → Bytes → Bool → ContactManager → Option (ContactInfo × ContactManager)
unfolding update_contact
set_contact_status_message id message is_busy =
    update_contact id
      λ c. record c { availability = custom; is_busy = is_busy; custom_message = message }

unfoldable pub set_contact_offline : Bytes → ContactManager → Option (ContactInfo × ContactManager)
unfolding update_contact
set_contact_offline id = update_contact id λ c. record c { availability = offline }
