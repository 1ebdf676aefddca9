-- ===== src/CodeHook/Memory/Laws.antt =====
-- What reads and writes of the memory do to each other.
use native.Mathlib.Numerals.{unary_clauses}
use native.Mathlib.Omega.{pow_step}
use giblet.Common.{
  ℕ, zero, suc, ◌+◌, ◌*◌, ◌/◌, ◌%◌, ◌^◌, ◌<◌, ◌≤◌, ◌≡◌, refl, sym, ap, ◌∙◌, ◌⊎◌, [], ◌∷◌, ◌++◌,
  length, length-append, All, Bytes, arith,
}
use giblet.CodeHook.Memory.{Memory, IsMemory, poke, store, slice, next_int, int_bytes}

-- The bytes `bs` stand in the memory from `a` on, and `b` is the address behind them.
pub record Reads (m : Memory) (a b : ℕ) (bs : Bytes) : Type 0 where
  pub end : b ≡ a + length bs
  pub bytes : slice m a (length bs) ≡ bs

pub length-slice : (m : Memory) (a n : ℕ) → length (slice m a n) ≡ n
unfolding slice
length-slice m a zero = refl
length-slice m a (suc n) = ap suc (length-slice m (suc a) n)

pub slice-append : (m : Memory) (a k n : ℕ) → slice m a k ++ slice m (a + k) n ≡ slice m a (k + n)
unfolding slice
slice-append m a zero n = grind arith
slice-append m a (suc k) n =
    let rest = slice-append m (suc a) k n in
    let start : a + suc k ≡ suc a + k = omega arith in
    let total : suc k + n ≡ suc (k + n) = omega arith in rw (start, total, rest)

pub length-int_bytes : (n v : ℕ) → length (int_bytes n v) ≡ n
unfolding int_bytes
length-int_bytes zero v = refl
length-int_bytes (suc n) v = ap suc (length-int_bytes n (v / 256))

pub int_bytes-next_int :
    (m : Memory) (a n : ℕ) → IsMemory m → int_bytes n (next_int m a n) ≡ slice m a n
unfolding int_bytes next_int slice
int_bytes-next_int m a zero h = refl
int_bytes-next_int m a (suc n) h =
    let b = h a in
    let rest : (m a + 256 * next_int m (suc a) n) / 256 ≡ next_int m (suc a) n = omega arith in
    let first : (m a + 256 * next_int m (suc a) n) % 256 ≡ m a = omega arith in
    rw (first, rest, int_bytes-next_int m (suc a) n h)

pow_byte : (k : ℕ) → 2 ^ suc (suc (suc (suc (suc (suc (suc (suc k))))))) ≡ 256 * 2 ^ k
pow_byte k = omega (
  arith,
  pow_step 2 k,
  pow_step 2 (suc k),
  pow_step 2 (suc (suc k)),
  pow_step 2 (suc (suc (suc k))),
  pow_step 2 (suc (suc (suc (suc k)))),
  pow_step 2 (suc (suc (suc (suc (suc k))))),
  pow_step 2 (suc (suc (suc (suc (suc (suc k)))))),
  pow_step 2 (suc (suc (suc (suc (suc (suc (suc k))))))),
)

pub next_int_bound : (m : Memory) (a n : ℕ) → IsMemory m → next_int m a n < 2 ^ (8 * n)
unfolding next_int
next_int_bound m a zero h = omega arith
next_int_bound m a (suc n) h =
    let power = pow_byte (8 * n) in
    let exponent : 8 * suc n ≡ suc (suc (suc (suc (suc (suc (suc (suc (8 * n)))))))) =
      omega arith in
    rw exponent (omega (arith, h a, next_int_bound m (suc a) n h, power))

-- Writing `bs` at `p` leaves the other addresses alone.
pub store_outside :
    (p : ℕ) (bs : Bytes) (m : Memory) (a : ℕ) → (a < p) ⊎ (p + length bs ≤ a) → store p bs m a ≡ m a
unfolding store
store_outside p [] m a h = refl
store_outside p (c ∷ bs) m a h =
    store_outside (suc p) bs (poke p c m) a (omega arith) ∙ ground arith

-- What was written is read back, reduced to bytes.
pub slice-store :
    (p : ℕ) (bs : Bytes) (m : Memory)
    → All (λ c. c < 256) bs
    → slice (store p bs m) p (length bs) ≡ bs
unfolding store slice
slice-store p [] m h = refl
slice-store p (c ∷ bs) m (hc, hs) =
    let first : store (suc p) bs (poke p c m) p ≡ c =
      store_outside (suc p) bs (poke p c m) p (omega arith) ∙ ground arith in
    rw (first, slice-store (suc p) bs (poke p c m) hs)

pub store-IsMemory : (p : ℕ) (bs : Bytes) (m : Memory) → IsMemory m → IsMemory (store p bs m)
unfolding store
store-IsMemory p [] m h = h
store-IsMemory p (c ∷ bs) m h = store-IsMemory (suc p) bs (poke p c m) λ a. ground (arith, h a)

-- A slice depends on the bytes in it only.
pub slice_agree :
    (m m' : Memory) (a n : ℕ)
    → ((x : ℕ) → a ≤ x → x < a + n → m' x ≡ m x)
    → slice m' a n ≡ slice m a n
unfolding slice
slice_agree m m' a zero h = refl
slice_agree m m' a (suc n) h = rw (
  h a (omega arith) (omega arith),
  slice_agree m m' (suc a) n λ x l u. h x (omega arith) (omega arith),
)

-- A slice that a write does not touch.
pub slice-store_apart :
    (p : ℕ) (bs : Bytes) (m : Memory) (a n : ℕ)
    → (a + n ≤ p) ⊎ (p + length bs ≤ a)
    → slice (store p bs m) a n ≡ slice m a n
slice-store_apart p bs m a n apart =
    slice_agree m (store p bs m) a n λ x l u. store_outside p bs m x (omega (arith, apart))

pub store-append :
    (p : ℕ) (xs ys : Bytes) (m : Memory)
    → store p (xs ++ ys) m ≡ store (p + length xs) ys (store p xs m)
unfolding store
store-append p [] ys m = simp unary_clauses
store-append p (c ∷ xs) ys m =
    let rest = store-append (suc p) xs ys (poke p c m) in
    let start : suc p + length xs ≡ p + suc (length xs) = omega arith in rest ∙ rw start

-- Reads in a row.
pub Reads-append :
    {m : Memory} {a b c : ℕ} (xs ys : Bytes)
    → Reads m a b xs
    → Reads m b c ys
    → Reads m a c (xs ++ ys)
Reads-append {m} {a} {b} {c} xs ys f g = record {
  end = omega (arith, length-append {0} xs ys, f.end, g.end);
  bytes =
      ap (slice m a) (length-append xs ys)
      ∙ sym (slice-append m a (length xs) (length ys))
      ∙ rw (sym f.end, f.bytes, g.bytes);
}

pub Reads-nil : (m : Memory) (a : ℕ) → Reads m a a []
unfolding slice
Reads-nil m a = record { end = omega arith; bytes = refl }

pub Reads-slice : (m : Memory) (a n : ℕ) → Reads m a (a + n) (slice m a n)
Reads-slice m a n = record {
  end = ap (◌+◌ a) (sym (length-slice m a n));
  bytes = ap (slice m a) (length-slice m a n);
}
