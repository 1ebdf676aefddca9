-- ===== src/Map/Laws.antt =====
-- The map keeps its keys in order, and a look-up finds what was put there.
use giblet.Common.{
  ◌≡◌, ◌≢◌, refl, subst, inl, inr, true, false, [], ◌∷◌, none, some, arith, Bytes, equals,
  equals_iff, if◌then◌else◌, Bool-cases,
}
use giblet.Map.{Map, less, find, emplace, erase, assign}

pub less_total : (a b : Bytes) → equals a b ≡ false → less a b ≡ false → less b a ≡ true
unfolding less equals
less_total [] [] e h = cc
less_total [] (y ∷ b) e h = cc
less_total (x ∷ a) [] e h = refl
less_total (x ∷ a) (y ∷ b) e h = ground (arith, less_total a b)

pub less_trans : (a b c : Bytes) → less a b ≡ true → less b c ≡ true → less a c ≡ true
unfolding less
less_trans [] [] c h k = cc
less_trans [] (y ∷ b) [] h k = cc
less_trans [] (y ∷ b) (z ∷ c) h k = refl
less_trans (x ∷ a) [] c h k = cc
less_trans (x ∷ a) (y ∷ b) [] h k = cc
less_trans (x ∷ a) (y ∷ b) (z ∷ c) h k = ground (arith, less_trans a b c)

module _ {ℓ} {V : Type ℓ} where
  -- The first key is behind `k`.
  abbrev pub Below : Bytes → Map V → Type 0
  Below k [] = Unit
  Below k ((j, v) ∷ m) = less k j ≡ true

  -- The keys rise strictly.
  abbrev pub IsSorted : Map V → Type 0
  IsSorted [] = Unit
  IsSorted ((k, v) ∷ m) = Below k m × IsSorted m

  Below-emplace :
      (j k : Bytes) (v : V) (m : Map V) → less j k ≡ true → Below j m → Below j (emplace k v m)
  unfolding emplace
  Below-emplace j k v [] h b = h
  Below-emplace j k v ((i, w) ∷ m) h b = elim (Bool-cases (equals i k)) [
    | inl same ↦ rw same b
    | inr other ↦
        rw other
          (elim (Bool-cases (less k i)) [ inl before ↦ rw before h | inr behind ↦ rw behind b ])
  ]

  pub emplace-IsSorted : (k : Bytes) (v : V) (m : Map V) → IsSorted m → IsSorted (emplace k v m)
  unfolding emplace
  emplace-IsSorted k v [] s = (tt, tt)
  emplace-IsSorted k v ((j, w) ∷ m) (b, s) = elim (Bool-cases (equals j k)) [
    | inl same ↦ rw same (b, s)
    | inr other ↦ rw other (elim (Bool-cases (less k j)) [
      | inl before ↦ rw before (before, (b, s))
      | inr behind ↦ rw behind (
        Below-emplace j k v m (less_total k j (not_same j k other) behind) b,
        emplace-IsSorted k v m s,
      )
    ])
  ]
    where
      not_same : (j k : Bytes) → equals j k ≡ false → equals k j ≡ false
      not_same j k h = ground (arith, equals_iff j k, equals_iff k j)

  Below-tail : (j k : Bytes) (m : Map V) → less j k ≡ true → Below k m → Below j m
  Below-tail j k [] h b = tt
  Below-tail j k ((i, w) ∷ m) h b = less_trans j k i h b

  Below-erase : (j k : Bytes) (m : Map V) → IsSorted m → Below j m → Below j (erase k m)
  unfolding erase
  Below-erase j k [] s b = tt
  Below-erase j k ((i, w) ∷ m) (c, s) b = elim (Bool-cases (equals i k)) [
    | inl same ↦ rw same (Below-tail j i m b c)
    | inr other ↦ rw other b
  ]

  pub erase-IsSorted : (k : Bytes) (m : Map V) → IsSorted m → IsSorted (erase k m)
  unfolding erase
  erase-IsSorted k [] s = tt
  erase-IsSorted k ((j, w) ∷ m) (b, s) = elim (Bool-cases (equals j k)) [
    | inl same ↦ rw same s
    | inr other ↦ rw other (Below-erase j k m s b, erase-IsSorted k m s)
  ]

  Below-assign : (j k : Bytes) (v : V) (m : Map V) → Below j m → Below j (assign k v m)
  unfolding assign
  Below-assign j k v [] b = tt
  Below-assign j k v ((i, w) ∷ m) b = elim (Bool-cases (equals i k)) [
    | inl same ↦ rw same b
    | inr other ↦ rw other b
  ]

  pub assign-IsSorted : (k : Bytes) (v : V) (m : Map V) → IsSorted m → IsSorted (assign k v m)
  unfolding assign
  assign-IsSorted k v [] s = tt
  assign-IsSorted k v ((j, w) ∷ m) (b, s) = elim (Bool-cases (equals j k)) [
    | inl same ↦ rw same (b, s)
    | inr other ↦ rw other (Below-assign j k v m b, assign-IsSorted k v m s)
  ]

  pub find-emplace :
      (k j : Bytes) (v : V) (m : Map V)
      → find k m ≡ none
      → find j (emplace k v m) ≡ (if equals k j then some v else find j m)
  unfolding find emplace
  find-emplace k j v [] h = refl
  find-emplace k j v ((i, w) ∷ m) h =
      ground (arith, equals_iff i k, equals_iff i j, equals_iff k j, find-emplace k j v m)

  pub find-assign :
      (k j : Bytes) (v : V) (m : Map V)
      → find k m ≢ none
      → find j (assign k v m) ≡ (if equals k j then some v else find j m)
  unfolding find assign
  find-assign k j v [] h = absurd (h refl)
  find-assign k j v ((i, w) ∷ m) h =
      ground (arith, equals_iff i k, equals_iff i j, equals_iff k j, find-assign k j v m)

  -- A key in front of all others is not there.
  find-Below : (k : Bytes) (m : Map V) → Below k m → IsSorted m → find k m ≡ none
  unfolding find
  find-Below k [] b s = refl
  find-Below k ((j, w) ∷ m) b (c, s) = elim (Bool-cases (equals j k)) [
    | inl same ↦ absurd (less_irrefl k (subst (λ x. less k x ≡ true) ((equals_iff j k).0 same) b))
    | inr other ↦ rw other (find-Below k m (Below-tail k j m b c) s)
  ]
    where
      less_irrefl : (a : Bytes) → less a a ≢ true
      less_irrefl [] h = unfold less in cc
      less_irrefl (x ∷ a) h = less_irrefl a (unfold less in ground arith)

  pub find-erase :
      (k j : Bytes) (m : Map V)
      → IsSorted m
      → find j (erase k m) ≡ (if equals k j then none else find j m)
  unfolding find erase
  find-erase k j [] s = ground arith
  find-erase k j ((i, w) ∷ m) (b, s) = ground (
    arith,
    equals_iff i k,
    equals_iff i j,
    equals_iff k j,
    find-erase k j m s,
    find-Below i m b s,
  )
