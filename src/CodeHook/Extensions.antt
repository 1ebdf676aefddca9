-- ===== src/CodeHook/Extensions.antt =====
-- The opcode extensions of src/CodeHook/cpuIA32_Opcode.h that the tables use: the middle three bits of
-- the ModRM byte.
use giblet.Common.{ℕ}

-- `PO::x0FBA`
abbrev pub btci8 : ℕ
btci8 = 7

abbrev pub bti8 : ℕ
bti8 = 4

-- `PO::x80`
abbrev pub adc8i8 : ℕ
adc8i8 = 2

abbrev pub add8i8 : ℕ
add8i8 = 0

abbrev pub and8i8 : ℕ
and8i8 = 4

abbrev pub cmp8i8 : ℕ
cmp8i8 = 7

abbrev pub sub8i8 : ℕ
sub8i8 = 5

abbrev pub xor8i8 : ℕ
xor8i8 = 6

-- `PO::x81`
abbrev pub adci : ℕ
adci = 2

abbrev pub addi : ℕ
addi = 0

abbrev pub cmpi : ℕ
cmpi = 7

abbrev pub subi : ℕ
subi = 5

-- `PO::x83`
abbrev pub adci8 : ℕ
adci8 = 2

abbrev pub addi8 : ℕ
addi8 = 0

abbrev pub andi8 : ℕ
andi8 = 4

abbrev pub cmpi8 : ℕ
cmpi8 = 7

abbrev pub subi8 : ℕ
subi8 = 5

abbrev pub xori8 : ℕ
xori8 = 6

-- `PO::x8F`
abbrev pub pop : ℕ
pop = 0

-- `PO::xF6`
abbrev pub idiv8 : ℕ
idiv8 = 7

abbrev pub imul8 : ℕ
imul8 = 5

-- `PO::xF7`
abbrev pub idiv : ℕ
idiv = 7

abbrev pub imul : ℕ
imul = 5

-- `PO::xFF`
abbrev pub fcall : ℕ
fcall = 3

abbrev pub jumpf : ℕ
jumpf = 5

abbrev pub jumpn : ℕ
jumpn = 4

abbrev pub ncall : ℕ
ncall = 2

abbrev pub push : ℕ
push = 6
