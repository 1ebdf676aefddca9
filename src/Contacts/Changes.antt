-- ===== src/Contacts/Changes.antt =====
-- What each operation of the contact list changes, and that it changes nothing else.
use giblet.Common.{
  ◌≡◌, ◌≢◌, ◌⊎◌, refl, Bool, false, [], ◌∷◌, Option, none, some, Bytes, equals, if◌then◌else◌,
  Bool-cases, Option-cases, inl, inr, returns, throws, undefined, runtime_error,
}
use giblet.Types.{Availability, offline, available, custom, idle}
use giblet.Map
use giblet.Map.Laws.{find-emplace, find-assign, find-erase}
use giblet.Contacts.{
  ContactInfo, ContactManager, contact_info, find_contact, add_pending_contact, remove_contact,
  rename_group, update_contact, add_pending, set_contact_available, set_contact_idle,
  set_contact_away, set_contact_status_message, set_contact_offline,
}
use giblet.Contacts.Laws.{IsContacts}

-- A contact that is on the list already is refused. Otherwise the call returns a list on which the new
-- pending contact is found, offline and in its group, and every other look-up gives what it gave before.
pub find_contact-add_pending :
    (held : Bool) (id group j : Bytes) (m : ContactManager)
    → ((find_contact id m ≢ none) × (add_pending_contact held id group m ≡ throws runtime_error))
      ⊎ ((m' : ContactManager) × (find_contact id m ≡ none)
          × (add_pending_contact held id group m ≡ returns m')
          × (find_contact j m' ≡ (
              if equals id j
              then some (contact_info held id group add_pending offline false [])
              else find_contact j m)))
unfolding add_pending_contact find_contact
find_contact-add_pending held id group j m = elim (Option-cases (Map.find id m)) [
  | inl missing ↦ inr (
    Map.emplace id (contact_info held id group add_pending offline false []) m,
    missing,
    rw missing,
    find-emplace id j _ m missing,
  )
  | inr (c, found) ↦ inl (λ missing. cc, rw found)
]

-- For a contact that is not on the list a removal is undefined behaviour: the iterator is past the end.
-- Otherwise the call returns a list on which the contact is not found, and every other look-up gives what
-- it gave before. The list is a map with its keys in order.
pub find_contact-remove :
    (id group j : Bytes) (m : ContactManager)
    → IsContacts m
    → ((find_contact id m ≡ none) × (remove_contact id group m ≡ undefined))
      ⊎ ((m' : ContactManager) × (find_contact id m ≢ none)
          × (remove_contact id group m ≡ returns m')
          × (find_contact j m' ≡ (if equals id j then none else find_contact j m)))
unfolding remove_contact find_contact
find_contact-remove id group j m v = elim (Option-cases (Map.find id m)) [
  | inl missing ↦ inl (missing, rw missing)
  | inr (c, found) ↦ inr (Map.erase id m, (λ missing. cc), rw found, find-erase id j m v.sorted)
]

-- What a rename makes of a contact.
abbrev pub regrouped : Bytes → Bytes → Option ContactInfo → Option ContactInfo
regrouped a b none = none
regrouped a b (some c) = some (if equals c.group a then record c { group = b } else c)

-- A rename moves exactly the contacts of the old group to the new one: each look-up gives the same
-- contact as before, in the new group if it was in the old one.
pub find_contact-rename_group :
    (a b j : Bytes) (m : ContactManager)
    → find_contact j (rename_group a b m) ≡ regrouped a b (find_contact j m)
unfolding rename_group find_contact Map.find
find_contact-rename_group a b j [] = refl
find_contact-rename_group a b j ((i, c) ∷ m) = elim (Bool-cases (equals i j)) [
  | inl same ↦ rw (same, Map.find)
  | inr other ↦ rw (other, Map.find) (find_contact-rename_group a b j m)
]

-- What a look-up gives behind a call that makes the change `f` to a contact: for an id that is not on the
-- list the call has given a null pointer; otherwise it has given the contact as it changed, which
-- the list then holds, and every other look-up gives what it gave before.
abbrev pub Changes :
    Bytes
    → Bytes
    → (ContactInfo → ContactInfo)
    → ContactManager
    → Option (ContactInfo × ContactManager)
    → Type 0
Changes id j f m result =
    ((find_contact id m ≡ none) × (result ≡ none))
    ⊎ ((c : ContactInfo) × (m' : ContactManager) × (find_contact id m ≡ some c)
        × (result ≡ some (f c, m'))
        × (find_contact j m' ≡ (if equals id j then some (f c) else find_contact j m)))

find_contact-update :
    (id j : Bytes) (f : ContactInfo → ContactInfo) (m : ContactManager)
    → Changes id j f m (update_contact id f m)
unfolding update_contact find_contact
find_contact-update id j f m = elim (Option-cases (Map.find id m)) [
  | inl missing ↦ inl (missing, rw (missing, update_contact))
  | inr (c, there) ↦ inr (
    c,
    Map.assign id (f c) m,
    there,
    rw (there, update_contact),
    find-assign id j (f c) m (λ missing. cc),
  )
]

-- `SetContactAvailable`, `SetContactIdle`, `SetContactAway`, `SetContactStatusMessage` and `SetContactOffline`
-- give a null pointer for an id that is not on the list. Otherwise they give the contact with the
-- availability that they stand for (a custom one for a message, and for being away the one that the call
-- has), with the busy flag, the message and the idle time that the call has, and no other change; the
-- list then holds the contact, and every other look-up gives what it gave before.
pub find_contact-set_contact :
    (id j idle_unknown message : Bytes) (availability : Availability) (busy : Bool)
    (m : ContactManager)
    → Changes id j (λ c. record c { availability = available }) m (set_contact_available id m)
      × Changes id j
          (λ c. record c {
            availability = idle;
            idle_unknown = idle_unknown;
            is_busy = busy;
            custom_message = message;
          })
          m
          (set_contact_idle id idle_unknown message busy m)
      × Changes id j
          (λ c. record c { availability = availability; is_busy = busy })
          m
          (set_contact_away id availability busy m)
      × Changes id j
          (λ c. record c { availability = custom; is_busy = busy; custom_message = message })
          m
          (set_contact_status_message id message busy m)
      × Changes id j (λ c. record c { availability = offline }) m (set_contact_offline id m)
unfolding set_contact_available set_contact_idle set_contact_away set_contact_status_message
    set_contact_offline
find_contact-set_contact id j idle_unknown message availability busy m = (
  find_contact-update id j _ m,
  find_contact-update id j _ m,
  find_contact-update id j _ m,
  find_contact-update id j _ m,
  find_contact-update id j _ m,
)
