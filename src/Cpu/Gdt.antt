-- ===== src/Cpu/Gdt.antt =====
-- Segment descriptors, kernel/arch/i386/cpu/gdt.c, and the task state segment,
-- kernel/arch/i386/tss/tss.c.
use bobliu_os.Base.{
  ℕ, ◌+◌, ◌-◌, ◌*◌, ◌/◌, ◌%◌, ◌^◌, ◌<◌, ◌≡◌, ◌≢◌, refl, arith, List, bit_and, bit_or, get_or, set,
  length, get_or-set_self, get_or-set_ne,
}
use Prim.Native.Nat.{bit_or-bitwise}
use bobliu_os.Base.Bits.{bit_and_low, bit_and_high, bit_or_split, bit_or-zero}

pub record GdtEntry : Type 0 where
  pub limit_low : ℕ
  pub base_low : ℕ
  pub base_mid : ℕ
  pub access : ℕ
  pub gran : ℕ
  pub base_high : ℕ

abbrev pub no_entry : GdtEntry
no_entry = record { limit_low = 0; base_low = 0; base_mid = 0; access = 0; gran = 0; base_high = 0 }

unfoldable pub gdt_entry : ℕ → ℕ → ℕ → ℕ → GdtEntry
gdt_entry base limit access gran = record {
  base_low = bit_and base 0xFFFF;
  base_mid = bit_and (base / 2 ^ 16) 0xFF;
  base_high = bit_and (base / 2 ^ 24) 0xFF;
  limit_low = bit_and limit 0xFFFF;
  gran = bit_or (bit_and (limit / 2 ^ 16) 0x0F) (bit_and gran 0xF0);
  access = access;
}

unfoldable pub gdt_set : ℕ → ℕ → ℕ → ℕ → ℕ → List GdtEntry → List GdtEntry
gdt_set i base limit access gran gdt = set gdt i (gdt_entry base limit access gran)

unfoldable pub gdt_set_tss : ℕ → ℕ → ℕ → ℕ → List GdtEntry → List GdtEntry
gdt_set_tss base limit access gran gdt = gdt_set 5 base limit access gran gdt

-- `gp`, and the table at the address `at`
pub record GdtPtr : Type 0 where
  pub limit : ℕ
  pub base : ℕ

unfoldable pub gdt_init : ℕ → List GdtEntry → GdtPtr × List GdtEntry
gdt_init at gdt =
    let null = gdt_set 0 0 0 0 0 gdt in
    let code = gdt_set 1 0 0xFFFFFFFF 0x9A 0xCF null in
    let kernel_data = gdt_set 2 0 0xFFFFFFFF 0x92 0xCF code in
    let user_code = gdt_set 3 0 0xFFFFFFFF 0xFA 0xCF kernel_data in
    let user_data = gdt_set 4 0 0xFFFFFFFF 0xF2 0xCF user_code in
    (record { limit = 6 * 8 - 1; base = at }, user_data)

-- The fields of `g_tss` that are set; the others are 0.
pub record Tss : Type 0 where
  pub esp0 : ℕ
  pub ss0 : ℕ
  pub iomap_base : ℕ

unfoldable pub tss_set_kernel_stack : ℕ → Tss → Tss
tss_set_kernel_stack esp0 t = record t { esp0 = esp0 }

-- `sizeof(g_tss)`: 25 words and two halves.
abbrev pub tss_size : ℕ
tss_size = 25 * 4 + 2 * 2

unfoldable pub tss_init : ℕ → Tss → List GdtEntry → Tss × List GdtEntry
tss_init at t gdt = (
  record { esp0 = 0; ss0 = 0x10; iomap_base = tss_size },
  gdt_set_tss at (tss_size - 1) 0x89 0x00 gdt,
)

-- What the processor reads in a descriptor.
abbrev pub segment_base : GdtEntry → ℕ
segment_base e = e.base_high * 2 ^ 24 + e.base_mid * 2 ^ 16 + e.base_low

abbrev pub segment_limit : GdtEntry → ℕ
segment_limit e = e.gran % 16 * 2 ^ 16 + e.limit_low

abbrev pub segment_flags : GdtEntry → ℕ
segment_flags e = e.gran / 16

-- The two halves of the granularity byte.
gran_eq :
    (limit gran : ℕ)
    → bit_or (bit_and (limit / 2 ^ 16) 0x0F) (bit_and gran 0xF0)
      ≡ gran / 16 % 16 * 16 + limit / 2 ^ 16 % 16
gran_eq limit gran =
    let low : bit_and (limit / 2 ^ 16) 15 ≡ limit / 2 ^ 16 % 16 = bit_and_low 4 (limit / 2 ^ 16) in
    let high : bit_and gran (15 * 2 ^ 4) ≡ bit_and (gran / 2 ^ 4) 15 * 2 ^ 4 =
      bit_and_high 4 gran 15 in
    let part : bit_and (gran / 2 ^ 4) 15 ≡ gran / 2 ^ 4 % 16 = bit_and_low 4 (gran / 2 ^ 4) in
    let joined : bit_or (limit / 2 ^ 16 % 16) (gran / 2 ^ 4 % 16 * 2 ^ 4)
        ≡ gran / 2 ^ 4 % 16 * 2 ^ 4 + limit / 2 ^ 16 % 16 =
      ground (
        arith,
        bit_or_split 4 0 (gran / 2 ^ 4 % 16) (limit / 2 ^ 16 % 16) 0 (omega arith) (omega arith),
        bit_or-zero (limit / 2 ^ 16 % 16),
        bit_or-bitwise 0 (gran / 2 ^ 4 % 16),
      ) in
    rw (low, high, part) joined

-- What the processor reads in the descriptor `e`.
abbrev pub Describes : GdtEntry → ℕ → ℕ → ℕ → ℕ → Type 0
Describes e base limit access flags =
    (segment_base e ≡ base)
    × (segment_limit e ≡ limit)
    × (e.access ≡ access)
    × (segment_flags e ≡ flags)

fields_eq :
    (n : ℕ)
    → n < 2 ^ 32
    → n / 2 ^ 24 % 2 ^ 8 * 2 ^ 24 + n / 2 ^ 16 % 2 ^ 8 * 2 ^ 16 + n % 2 ^ 16 ≡ n
fields_eq n h = omega arith

gdt_entry-Describes :
    (base limit access gran : ℕ)
    → base < 2 ^ 32
    → gran < 2 ^ 8
    → Describes (gdt_entry base limit access gran) base (limit % 2 ^ 20) access (gran / 16)
unfolding gdt_entry
gdt_entry-Describes base limit access gran word byte = (
  rw (bit_and_low 8 (base / 2 ^ 24), bit_and_low 8 (base / 2 ^ 16), bit_and_low 16 base)
      (fields_eq base word),
  rw (gran_eq limit gran, bit_and_low 16 limit) (omega arith),
  refl,
  rw (gran_eq limit gran) (omega arith),
)

-- A descriptor that `gdt_set` writes reads back, by the layout the processor knows, as what
-- was asked for: the base address, the low 20 bits of the limit, the access byte, and the high
-- four bits of the granularity as flags; another descriptor keeps what it was.
pub gdt_set-Describes :
    (gdt : List GdtEntry) (i j base limit access gran : ℕ)
    → i < length gdt
    → i ≢ j
    → base < 2 ^ 32
    → gran < 2 ^ 8
    → Describes
        (get_or (gdt_set i base limit access gran gdt) i no_entry)
        base
        (limit % 2 ^ 20)
        access
        (gran / 16)
      × (get_or (gdt_set i base limit access gran gdt) j no_entry ≡ get_or gdt j no_entry)
unfolding gdt_set
gdt_set-Describes gdt i j base limit access gran inside other word byte = (
  rw (get_or-set_self gdt i (gdt_entry base limit access gran) no_entry inside)
      (gdt_entry-Describes base limit access gran word byte),
  get_or-set_ne gdt i j (gdt_entry base limit access gran) no_entry other,
)
