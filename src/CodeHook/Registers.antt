-- ===== src/CodeHook/Registers.antt =====
-- src/CodeHook/cpuIA32_Register.h and the registers of cpuIA32_Tables.cpp. Their names are compiled
-- for testing only.
use giblet.Common.{ℕ, Bool, not, ◌&&◌, ◌==◌, List, [], ◌∷◌}

pub data RegisterType : Type 0 where
  rt_gp8 rt_gp16 rt_gp32 rt_gp64 rt_seg rt_mmx rt_fp : RegisterType

-- The constant that the compiler gives to a type.
abbrev pub type_code : RegisterType → ℕ
type_code rt_gp8 = 0
type_code rt_gp16 = 1
type_code rt_gp32 = 2
type_code rt_gp64 = 3
type_code rt_seg = 4
type_code rt_mmx = 5
type_code rt_fp = 6

pub record Register : Type 0 where
  pub value : ℕ
  pub type : RegisterType
  pub size : ℕ

-- `operator!=`: the size is not compared.
unfoldable pub differs : Register → Register → Bool
differs a b = not ((type_code a.type == type_code b.type) && (a.value == b.value))

abbrev register : ℕ → RegisterType → ℕ → Register
register v t n = record { value = v; type = t; size = n }

abbrev pub al : Register
al = register 0 rt_gp8 1

abbrev pub cl : Register
cl = register 1 rt_gp8 1

abbrev pub dl : Register
dl = register 2 rt_gp8 1

abbrev pub bl : Register
bl = register 3 rt_gp8 1

abbrev pub ah : Register
ah = register 4 rt_gp8 1

abbrev pub ch : Register
ch = register 5 rt_gp8 1

abbrev pub dh : Register
dh = register 6 rt_gp8 1

abbrev pub bh : Register
bh = register 7 rt_gp8 1

abbrev pub ax : Register
ax = register 0 rt_gp16 2

abbrev pub cx : Register
cx = register 1 rt_gp16 2

abbrev pub dx : Register
dx = register 2 rt_gp16 2

abbrev pub bx : Register
bx = register 3 rt_gp16 2

abbrev pub sp : Register
sp = register 4 rt_gp16 2

abbrev pub bp : Register
bp = register 5 rt_gp16 2

abbrev pub si : Register
si = register 6 rt_gp16 2

abbrev pub di : Register
di = register 7 rt_gp16 2

abbrev pub eax : Register
eax = register 0 rt_gp32 4

abbrev pub ecx : Register
ecx = register 1 rt_gp32 4

abbrev pub edx : Register
edx = register 2 rt_gp32 4

abbrev pub ebx : Register
ebx = register 3 rt_gp32 4

abbrev pub esp : Register
esp = register 4 rt_gp32 4

abbrev pub ebp : Register
ebp = register 5 rt_gp32 4

abbrev pub esi : Register
esi = register 6 rt_gp32 4

abbrev pub edi : Register
edi = register 7 rt_gp32 4

abbrev pub es : Register
es = register 0 rt_seg 2

abbrev pub cs : Register
cs = register 1 rt_seg 2

abbrev pub ss : Register
ss = register 2 rt_seg 2

abbrev pub ds : Register
ds = register 3 rt_seg 2

abbrev pub fs : Register
fs = register 4 rt_seg 2

abbrev pub gs : Register
gs = register 5 rt_seg 2

abbrev pub r1 : Register
r1 = register 6 rt_seg 2

abbrev pub r2 : Register
r2 = register 7 rt_seg 2

abbrev pub mm0 : Register
mm0 = register 0 rt_mmx 4

abbrev pub mm1 : Register
mm1 = register 1 rt_mmx 4

abbrev pub mm2 : Register
mm2 = register 2 rt_mmx 4

abbrev pub mm3 : Register
mm3 = register 3 rt_mmx 4

abbrev pub mm4 : Register
mm4 = register 4 rt_mmx 4

abbrev pub mm5 : Register
mm5 = register 5 rt_mmx 4

abbrev pub mm6 : Register
mm6 = register 6 rt_mmx 4

abbrev pub mm7 : Register
mm7 = register 7 rt_mmx 4

abbrev pub segment_registers : List Register
segment_registers = es ∷ cs ∷ ss ∷ ds ∷ fs ∷ gs ∷ r1 ∷ r2 ∷ []

abbrev pub gp8_registers : List Register
gp8_registers = al ∷ cl ∷ dl ∷ bl ∷ ah ∷ ch ∷ dh ∷ bh ∷ []

abbrev pub gp16_registers : List Register
gp16_registers = ax ∷ cx ∷ dx ∷ bx ∷ sp ∷ bp ∷ si ∷ di ∷ []

abbrev pub gp32_registers : List Register
gp32_registers = eax ∷ ecx ∷ edx ∷ ebx ∷ esp ∷ ebp ∷ esi ∷ edi ∷ []

abbrev pub mmx_registers : List Register
mmx_registers = mm0 ∷ mm1 ∷ mm2 ∷ mm3 ∷ mm4 ∷ mm5 ∷ mm6 ∷ mm7 ∷ []

abbrev pub gp_registers : List (List Register)
gp_registers = gp8_registers ∷ gp16_registers ∷ gp32_registers ∷ []
