-- ===== src/Tests/Lists.antt =====
-- The lists of a session at work.
use giblet.Common.{
  true, ◌≡◌, ◌≢◌, none, ◌⊎◌, false, [], ◌∷◌, ◌++◌, codes, returns, throws, undefined, equals,
  if◌then◌else◌, ◌||◌, ◌&&◌, not, some, runtime_error,
}
use giblet.Contacts.{
  ContactManager, contact_info, find_contact, add_pending_contact, remove_contact, rename_group,
  add_pending, set_contact_available, set_contact_idle, set_contact_away,
  set_contact_status_message, set_contact_offline,
}
use giblet.Contacts.Changes.{
  find_contact-add_pending, find_contact-remove, find_contact-rename_group,
  find_contact-set_contact, Changes, regrouped,
}
use giblet.Types.{available, offline, custom, idle}
use giblet.Blocked.{contains, is_blocked, add, remove}
use giblet.Blocked.Laws.{is_blocked_lem}
use giblet.Packets.Profile.{group_contacts, comma_separated}
use giblet.Packets.Profile.Groups.{find-group_contacts, extended, ids_in}
use giblet.Packets.Profile.Text.{comma_separated-joined, joined}
use giblet.Map
use giblet.Blocked
use giblet.Tests.{contacts, contacts-IsContacts, session, session-IsSession}

find_contact-add_pending_example :
    ((find_contact (codes "dave") contacts ≢ none)
      × (add_pending_contact false (codes "dave") (codes "Work") contacts ≡ throws runtime_error))
    ⊎ ((m' : ContactManager) × (find_contact (codes "dave") contacts ≡ none)
        × (add_pending_contact false (codes "dave") (codes "Work") contacts ≡ returns m')
        × (find_contact (codes "jay") m' ≡ (
            if equals (codes "dave") (codes "jay")
            then some
                (contact_info false (codes "dave") (codes "Work") add_pending offline false [])
            else find_contact (codes "jay") contacts)))
find_contact-add_pending_example =
    find_contact-add_pending false (codes "dave") (codes "Work") (codes "jay") contacts

find_contact-remove_example :
    ((find_contact (codes "jay") contacts ≡ none)
      × (remove_contact (codes "jay") (codes "Friends") contacts ≡ undefined))
    ⊎ ((m' : ContactManager) × (find_contact (codes "jay") contacts ≢ none)
        × (remove_contact (codes "jay") (codes "Friends") contacts ≡ returns m')
        × (find_contact (codes "jay") m' ≡ (
            if equals (codes "jay") (codes "jay")
            then none
            else find_contact (codes "jay") contacts)))
find_contact-remove_example =
    find_contact-remove (codes "jay") (codes "Friends") (codes "jay") contacts contacts-IsContacts

find_contact-rename_group_example :
    find_contact (codes "jay") (rename_group (codes "Friends") (codes "Work") contacts)
    ≡ regrouped (codes "Friends") (codes "Work") (find_contact (codes "jay") contacts)
find_contact-rename_group_example =
    find_contact-rename_group (codes "Friends") (codes "Work") (codes "jay") contacts

-- A contact that is online.
find_contact-set_contact_example :
    Changes
      (codes "jay")
      (codes "jay")
      (λ c. record c { availability = available })
      contacts
      (set_contact_available (codes "jay") contacts)
    × Changes
        (codes "jay")
        (codes "jay")
        (λ c. record c {
          availability = idle;
          idle_unknown = codes "1";
          is_busy = true;
          custom_message = codes "tea";
        })
        contacts
        (set_contact_idle (codes "jay") (codes "1") (codes "tea") true contacts)
    × Changes
        (codes "jay")
        (codes "jay")
        (λ c. record c { availability = custom; is_busy = true })
        contacts
        (set_contact_away (codes "jay") custom true contacts)
    × Changes
        (codes "jay")
        (codes "jay")
        (λ c. record c { availability = custom; is_busy = true; custom_message = codes "tea" })
        contacts
        (set_contact_status_message (codes "jay") (codes "tea") true contacts)
    × Changes
        (codes "jay")
        (codes "jay")
        (λ c. record c { availability = offline })
        contacts
        (set_contact_offline (codes "jay") contacts)
find_contact-set_contact_example =
    find_contact-set_contact (codes "jay") (codes "jay") (codes "1") (codes "tea") custom true
      contacts

is_blocked_lem_example :
    (is_blocked (codes "jay") (add (codes "jay") session.blocked)
      ≡ (equals (codes "jay") (codes "jay") || is_blocked (codes "jay") session.blocked))
    × (is_blocked (codes "jay") (remove (codes "jay") session.blocked)
        ≡ (not (equals (codes "jay") (codes "jay")) && is_blocked (codes "jay") session.blocked))
is_blocked_lem_example =
    is_blocked_lem (codes "jay") (codes "jay") session.blocked session-IsSession.blocked

find-group_contacts_example :
    Map.find (codes "Friends") (group_contacts [] contacts)
    ≡ extended none (ids_in (codes "Friends") contacts)
find-group_contacts_example = find-group_contacts (codes "Friends") contacts

comma_separated-joined_example :
    comma_separated (codes "Friends:") (codes "jay" ∷ codes "donna" ∷ [])
    ≡ codes "Friends:" ++ joined (codes "jay" ∷ codes "donna" ∷ [])
comma_separated-joined_example =
    comma_separated-joined (codes "Friends:") (codes "jay" ∷ codes "donna" ∷ [])
