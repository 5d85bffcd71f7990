-- ===== src/Boot.antt =====
-- What the loader hands over: kernel/arch/i386/shell/multiboot_1.c,
-- kernel/arch/i386/boot/multiboot_modules.c, and the command line of kernel/kernel/kernel.c. `string_at`
-- is the text at an address.
pub mod Modules
pub mod Dump
mod Tests
use bobliu_os.Base.{
  ℕ, zero, suc, ◌+◌, ◌-◌, ◌*◌, ◌^◌, List, [], ◌∷◌, Bool, true, false, ◌&&◌, ◌||◌, not,
  if◌then◌else◌, ltb, leb, ◌==◌, Option, none, some, bit_and,
}
use bobliu_os.Word.{u32}
use bobliu_os.Multiboot.{MultibootInfo, MultibootModule, multiboot1_magic, info_mods, info_cmdline}
use bobliu_os.Libc.Str.{char_at, strstr}

-- `g_mb_magic`, `g_mbi` and `g_cmdline`
pub record Boot : Type 0 where
  pub magic : ℕ
  pub mbi : Option MultibootInfo
  pub cmdline : ℕ

unfoldable pub multiboot1_init : ℕ → MultibootInfo → Boot → Boot
multiboot1_init magic mbi b =
    if magic == multiboot1_magic
    then record {
      magic = magic;
      mbi = some mbi;
      cmdline = if bit_and mbi.flags info_cmdline == 0 then 0 else mbi.cmdline;
    }
    else record b { magic = magic }

pub record ModuleView : Type 0 where
  pub start : ℕ
  pub end : ℕ
  pub string : ℕ

abbrev pub view : MultibootModule → ModuleView
view m = record { start = m.mod_start; end = m.mod_end; string = m.string }

abbrev pub has_mods : MultibootInfo → Bool
has_mods mbi = not (bit_and mbi.flags info_mods == 0)

-- None for -1.
unfoldable pub mb1_get_module : ℕ → Boot → Option ModuleView
mb1_get_module index b = elim b.mbi [
  | none ↦ none
  | some mbi ↦
      if has_mods mbi && ltb index mbi.mods_count then some (view (mbi.mods index)) else none
]

abbrev pub is_some : Option ℕ → Bool
is_some none = false
is_some (some i) = true

module _ (string_at : ℕ → List ℕ) where
  -- The command line, if there is one, has the flag.
  unfoldable pub cmdline_has : Boot → List ℕ → Bool
  cmdline_has b flag = not (b.cmdline == 0) && is_some (strstr (string_at b.cmdline) flag)

  -- The module has a string, with the needle in it.
  abbrev pub names : List ℕ → MultibootModule → Bool
  names needle m = not (m.string == 0) && is_some (strstr (string_at m.string) needle)

  -- The loop of `mb1_find_module_by_string`, for `count` modules from `i` on.
  unfoldable pub find_by_string : ℕ → ℕ → (ℕ → MultibootModule) → List ℕ → Option ModuleView
  find_by_string zero i mods needle = none
  find_by_string (suc count) i mods needle =
      let rest = find_by_string count (i + 1) mods needle in
      if names needle (mods i) then some (view (mods i)) else rest

  abbrev pub find_in : List ℕ → Option MultibootInfo → Option ModuleView
  find_in needle none = none
  find_in needle (some mbi) =
      if has_mods mbi then find_by_string mbi.mods_count 0 mbi.mods needle else none

  unfoldable pub mb1_find_module_by_string : List ℕ → Boot → Option ModuleView
  mb1_find_module_by_string needle b = find_in needle b.mbi

  -- A needle is none for the null pointer.
  abbrev pub wants_any : Option (List ℕ) → Bool
  wants_any none = true
  wants_any (some needle) = char_at needle == 0

  abbrev pub named_by : Option (List ℕ) → MultibootModule → Bool
  named_by none m = false
  named_by (some needle) m = names needle m

  -- The loop of `multiboot1_find_module`: the start and the end.
  unfoldable pub find_range : ℕ → ℕ → (ℕ → MultibootModule) → Option (List ℕ) → Option (ℕ × ℕ)
  find_range zero i mods want = none
  find_range (suc count) i mods want =
      let rest = find_range count (i + 1) mods want in
      let found : Option (ℕ × ℕ) = some ((mods i).mod_start, (mods i).mod_end) in
      if wants_any want then found else if named_by want (mods i) then found else rest

  unfoldable pub multiboot1_find_module : Option MultibootInfo → Option (List ℕ) → Option (ℕ × ℕ)
  multiboot1_find_module none want = none
  multiboot1_find_module (some mbi) want =
      if has_mods mbi then find_range mbi.mods_count 0 mbi.mods want else none

-- The loop of `parse_u32`, kernel/arch/i386/shell/cmd_alloc.c.
unfoldable pub u32_digits : ℕ → List ℕ → ℕ
u32_digits x [] = x
u32_digits x (c ∷ s) =
    let more = u32_digits (u32 (u32 (x * 10) + u32 (c + 2 ^ 32 - b'0'))) s in
    if leb b'0' c && leb c b'9' then more else x

unfoldable pub parse_u32 : List ℕ → ℕ
parse_u32 s = u32_digits 0 s
