-- ===== src/Blocked/Laws.antt =====
-- The list of blocked users holds each id once.
use giblet.Common.{
  ◌≡◌, refl, false, List, [], ◌∷◌, ◌++◌, arith, Bytes, equals, equals_iff, Bool-cases, inl, inr,
  ◌||◌, ◌&&◌, not,
}
use giblet.Blocked.{contains, is_blocked, add, remove}

abbrev pub IsNodup : List Bytes → Type 0
IsNodup [] = Unit
IsNodup (user ∷ users) = (contains user users ≡ false) × IsNodup users

contains-append :
    (id user : Bytes) (users : List Bytes)
    → contains id (users ++ user ∷ []) ≡ (contains id users || equals user id)
unfolding contains
contains-append id user [] = ground arith
contains-append id user (x ∷ users) = ground (arith, contains-append id user users)

append-IsNodup :
    (user : Bytes) (users : List Bytes)
    → contains user users ≡ false
    → IsNodup users
    → IsNodup (users ++ user ∷ [])
unfolding contains
append-IsNodup user [] h n = (refl, tt)
append-IsNodup user (x ∷ users) h (hx, n) = (
  ground (arith, contains-append x user users, equals_iff x user, equals_iff user x),
  append-IsNodup user users (ground arith) n,
)

pub add-IsNodup : (id : Bytes) (users : List Bytes) → IsNodup users → IsNodup (add id users)
unfolding add
add-IsNodup id users n = elim (Bool-cases (contains id users)) [
  | inl there ↦ rw there n
  | inr new ↦ rw new (append-IsNodup id users new n)
]

contains-remove-false :
    (id j : Bytes) (users : List Bytes)
    → contains j users ≡ false
    → contains j (remove id users) ≡ false
unfolding contains remove
contains-remove-false id j [] h = refl
contains-remove-false id j (x ∷ users) h = ground (arith, contains-remove-false id j users)

pub remove-IsNodup : (id : Bytes) (users : List Bytes) → IsNodup users → IsNodup (remove id users)
unfolding remove
remove-IsNodup id [] n = tt
remove-IsNodup id (x ∷ users) (h, n) = elim (Bool-cases (equals x id)) [
  | inl same ↦ rw same n
  | inr other ↦ rw other (contains-remove-false id x users h, remove-IsNodup id users n)
]

contains-remove :
    (id j : Bytes) (users : List Bytes)
    → IsNodup users
    → contains j (remove id users) ≡ (not (equals id j) && contains j users)
unfolding contains remove
contains-remove id j [] n = ground arith
contains-remove id j (x ∷ users) (h, n) =
    ground (arith, contains-remove id j users n, equals_iff x id, equals_iff x j, equals_iff id j)

contains-add :
    (id j : Bytes) (users : List Bytes)
    → contains j (add id users) ≡ (equals id j || contains j users)
unfolding add
contains-add id j users = elim (Bool-cases (contains id users)) [
  | inl there ↦ rw there (elim (Bool-cases (equals id j)) [
    | inl same ↦ rw same (rw (← (equals_iff id j).0 same) there)
    | inr other ↦ rw other
  ])
  | inr new ↦ rw new (ground (arith, contains-append j id users, equals_iff id j, equals_iff j id))
]

-- Behind `Add` exactly the id and the ids of before are blocked; behind `Remove`, on a list that holds
-- each id once, exactly the ids of before but this one.
pub is_blocked_lem :
    (id j : Bytes) (users : List Bytes)
    → IsNodup users
    → (is_blocked j (add id users) ≡ (equals id j || is_blocked j users))
      × (is_blocked j (remove id users) ≡ (not (equals id j) && is_blocked j users))
unfolding is_blocked
is_blocked_lem id j users n = (contains-add id j users, contains-remove id j users n)
