-- ===== src/Word.antt =====
-- 32-bit unsigned arithmetic of the i686 target, and the macros `ALIGN_UP` and `ALIGN_DOWN` of
-- kernel/arch/i386/mm/pmm.c and kernel/arch/i386/mm/heap.c.
pub mod Align
use bobliu_os.Base.{ℕ, ◌+◌, ◌-◌, ◌%◌, ◌^◌, ◌≤◌, ◌≡◌, arith, bit_and}

abbrev pub u8 : ℕ → ℕ
u8 n = n % 2 ^ 8

abbrev pub u32 : ℕ → ℕ
u32 n = n % 2 ^ 32

-- `a - b`: the modulus comes first, since `-` stops at 0.
abbrev pub sub32 : ℕ → ℕ → ℕ
sub32 a b = (a + 2 ^ 32 - b) % 2 ^ 32

-- `~v`
abbrev pub not32 : ℕ → ℕ
not32 v = 2 ^ 32 - 1 - v

unfoldable pub align_up : ℕ → ℕ → ℕ
align_up x a = bit_and (u32 (x + (a - 1))) (not32 (a - 1))

unfoldable pub align_down : ℕ → ℕ → ℕ
align_down x a = bit_and x (not32 (a - 1))
