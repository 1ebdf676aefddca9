-- ===== src/Map.antt =====
-- `std::map<std::string, V>` as the program uses it: the pairs in the order of their keys.
pub mod Laws
use giblet.Common.{
  ℕ, Bool, true, false, ◌||◌, ◌&&◌, List, [], ◌∷◌, Option, none, some, Bytes, equals, ltb, ◌==◌,
  if◌then◌else◌,
}

-- `operator<` of two strings, byte by byte.
unfoldable pub less : Bytes → Bytes → Bool
less [] [] = false
less [] (y ∷ ys) = true
less (x ∷ xs) [] = false
less (x ∷ xs) (y ∷ ys) = ltb x y || ((x == y) && less xs ys)

abbrev pub Map {ℓ} : Type ℓ → Type ℓ
Map V = List (Bytes × V)

module _ {ℓ} {V : Type ℓ} where
  unfoldable pub find : Bytes → Map V → Option V
  find k [] = none
  find k ((j, v) ∷ m) = if equals j k then some v else find k m

  -- A key that is there keeps its value.
  unfoldable pub emplace : Bytes → V → Map V → Map V
  emplace k v [] = (k, v) ∷ []
  emplace k v ((j, w) ∷ m) =
      if equals j k
      then (j, w) ∷ m
      else if less k j
      then (k, v) ∷ (j, w) ∷ m
      else (j, w) ∷ emplace k v m

  unfoldable pub erase : Bytes → Map V → Map V
  erase k [] = []
  erase k ((j, v) ∷ m) = if equals j k then m else (j, v) ∷ erase k m

  -- An assignment through the iterator to a key.
  unfoldable pub assign : Bytes → V → Map V → Map V
  assign k v [] = []
  assign k v ((j, w) ∷ m) = if equals j k then (j, v) ∷ m else (j, w) ∷ assign k v m
