-- ===== src/CodeHook/Memory.antt =====
-- src/CodeHook/cpuIA32_Translator.h: the process's memory, one byte at each address, and the reads of
-- `OpcodeIterator`. An iterator is the address that it points to, 0 for a null pointer.
pub mod Laws
use giblet.Common.{ℕ, zero, suc, ◌+◌, ◌*◌, ◌/◌, ◌%◌, ◌<◌, ◌==◌, if◌then◌else◌, [], ◌∷◌, Bytes}

abbrev pub Memory : Type 0
Memory = ℕ → ℕ

-- Each cell holds a byte.
abbrev pub IsMemory : Memory → Type 0
IsMemory m = (a : ℕ) → m a < 256

-- `*ptr = v` for a `uint8_t *ptr`.
abbrev pub poke : ℕ → ℕ → Memory → Memory
poke p v m a = if a == p then v % 256 else m a

-- `*(ptr++) = c` for each byte.
unfoldable pub store : ℕ → Bytes → Memory → Memory
store p [] m = m
store p (c ∷ cs) m = store (suc p) cs (poke p c m)

-- The `n` bytes from an address on.
unfoldable pub slice : Memory → ℕ → ℕ → Bytes
slice m a zero = []
slice m a (suc n) = m a ∷ slice m (suc a) n

-- The value of `n` bytes, the least significant first: `NextI8`, `NextI16`, `NextI32` and `NextI64`.
unfoldable pub next_int : Memory → ℕ → ℕ → ℕ
next_int m a zero = 0
next_int m a (suc n) = m a + 256 * next_int m (suc a) n

-- The `n` bytes of a value, the least significant first.
unfoldable pub int_bytes : ℕ → ℕ → Bytes
int_bytes zero v = []
int_bytes (suc n) v = (v % 256) ∷ int_bytes n (v / 256)
