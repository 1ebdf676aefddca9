-- ===== src/Contacts/Laws.antt =====
-- The contact list: keys in order, each contact under its own id, and what the operations change.
use giblet.Common.{
  ◌≡◌, refl, sym, ◌∙◌, inl, inr, Bool, [], ◌∷◌, Option, none, some, arith, Bytes, equals,
  equals_iff, Bool-cases, Option-cases, All,
}
use giblet.Common.Exec.Keeps.{OnReturn}
use giblet.Map
use giblet.Map.{Map}
use giblet.Map.Laws.{Below, IsSorted, emplace-IsSorted, erase-IsSorted, assign-IsSorted}
use giblet.Contacts.{
  ContactInfo, ContactManager, contact_info, find_contact, is_some, load_contact,
  add_pending_contact, remove_contact, rename_group, update_contact,
}

-- Each contact stands under its own id.
abbrev pub IsKeyed : ContactManager → Type 0
IsKeyed = All λ (p : Bytes × ContactInfo). p.1.id ≡ p.0

pub record IsContacts (m : ContactManager) : Type 0 where
  pub sorted : IsSorted m
  pub keyed : IsKeyed m

emplace-IsKeyed :
    (k : Bytes) (c : ContactInfo) (m : ContactManager)
    → c.id ≡ k
    → IsKeyed m
    → IsKeyed (Map.emplace k c m)
unfolding Map.emplace
emplace-IsKeyed k c [] e h = (e, tt)
emplace-IsKeyed k c ((j, d) ∷ m) e (hd, h) = elim (Bool-cases (equals j k)) [
  | inl same ↦ rw same (hd, h)
  | inr other ↦ rw other (elim (Bool-cases (Map.less k j)) [
    | inl before ↦ rw before (e, (hd, h))
    | inr behind ↦ rw behind (hd, emplace-IsKeyed k c m e h)
  ])
]

erase-IsKeyed : (k : Bytes) (m : ContactManager) → IsKeyed m → IsKeyed (Map.erase k m)
unfolding Map.erase
erase-IsKeyed k [] h = tt
erase-IsKeyed k ((j, d) ∷ m) (hd, h) = elim (Bool-cases (equals j k)) [
  | inl same ↦ rw same h
  | inr other ↦ rw other (hd, erase-IsKeyed k m h)
]

assign-IsKeyed :
    (k : Bytes) (c : ContactInfo) (m : ContactManager)
    → c.id ≡ k
    → IsKeyed m
    → IsKeyed (Map.assign k c m)
unfolding Map.assign
assign-IsKeyed k c [] e h = tt
assign-IsKeyed k c ((j, d) ∷ m) e (hd, h) = elim (Bool-cases (equals j k)) [
  | inl same ↦ rw same (e ∙ sym ((equals_iff j k).0 same), h)
  | inr other ↦ rw other (hd, assign-IsKeyed k c m e h)
]

find-IsKeyed :
    (k : Bytes) (m : ContactManager) (c : ContactInfo)
    → IsKeyed m
    → Map.find k m ≡ some c
    → c.id ≡ k
unfolding Map.find
find-IsKeyed k [] c h e = cc
find-IsKeyed k ((j, d) ∷ m) c (hd, h) e = ground (arith, equals_iff j k, find-IsKeyed k m c h)

pub load_contact-IsContacts :
    (c : ContactInfo) (m : ContactManager) → IsContacts m → OnReturn IsContacts (load_contact c m)
unfolding load_contact
load_contact-IsContacts c m v = elim (Bool-cases (is_some (Map.find c.id m))) [
  | inl there ↦ rw there tt
  | inr new ↦ rw new (record {
    sorted = emplace-IsSorted c.id c m v.sorted;
    keyed = emplace-IsKeyed c.id c m refl v.keyed;
  })
]

pub add_pending_contact-IsContacts :
    (held : Bool) (id group : Bytes) (m : ContactManager)
    → IsContacts m
    → OnReturn IsContacts (add_pending_contact held id group m)
unfolding add_pending_contact
add_pending_contact-IsContacts held id group m v = elim (Bool-cases (is_some (Map.find id m))) [
  | inl there ↦ rw there tt
  | inr new ↦ rw new (record {
    sorted = emplace-IsSorted id _ m v.sorted;
    keyed = emplace-IsKeyed id _ m (unfold contact_info in refl) v.keyed;
  })
]

pub remove_contact-IsContacts :
    (id group : Bytes) (m : ContactManager)
    → IsContacts m
    → OnReturn IsContacts (remove_contact id group m)
unfolding remove_contact
remove_contact-IsContacts id group m v = elim (Bool-cases (is_some (find_contact id m))) [
  | inl there ↦
      rw there
        (record { sorted = erase-IsSorted id m v.sorted; keyed = erase-IsKeyed id m v.keyed })
  | inr missing ↦ rw missing tt
]

rename-Below : (a b k : Bytes) (m : ContactManager) → Below k m → Below k (rename_group a b m)
unfolding rename_group
rename-Below a b k [] h = tt
rename-Below a b k ((j, c) ∷ m) h = h

rename-IsSorted : (a b : Bytes) (m : ContactManager) → IsSorted m → IsSorted (rename_group a b m)
unfolding rename_group
rename-IsSorted a b [] s = tt
rename-IsSorted a b ((j, c) ∷ m) (h, s) = (rename-Below a b j m h, rename-IsSorted a b m s)

rename-IsKeyed : (a b : Bytes) (m : ContactManager) → IsKeyed m → IsKeyed (rename_group a b m)
unfolding rename_group
rename-IsKeyed a b [] h = tt
rename-IsKeyed a b ((j, c) ∷ m) (hc, h) = (ground arith, rename-IsKeyed a b m h)

pub rename_group-IsContacts :
    (a b : Bytes) (m : ContactManager) → IsContacts m → IsContacts (rename_group a b m)
rename_group-IsContacts a b m v = record {
  sorted = rename-IsSorted a b m v.sorted;
  keyed = rename-IsKeyed a b m v.keyed;
}

-- What an update gives: a list that is as good, and a change that keeps the id.
abbrev pub UpdatesTo : Option (ContactInfo × ContactManager) → Type 0
UpdatesTo none = Unit
UpdatesTo (some (c, m)) = IsContacts m

pub update_contact-IsContacts :
    (id : Bytes) (f : ContactInfo → ContactInfo) (m : ContactManager)
    → ((c : ContactInfo) → (f c).id ≡ c.id)
    → IsContacts m
    → UpdatesTo (update_contact id f m)
unfolding update_contact find_contact
update_contact-IsContacts id f m keeps v = elim (Option-cases (Map.find id m)) [
  | inl missing ↦ rw (missing, update_contact) tt
  | inr (c, there) ↦
      rw (there, update_contact)
        (record {
          sorted = assign-IsSorted id (f c) m v.sorted;
          keyed = assign-IsKeyed id (f c) m (keeps c ∙ find-IsKeyed id m c v.keyed there) v.keyed;
        })
]
