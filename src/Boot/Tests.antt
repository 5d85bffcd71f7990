-- ===== src/Boot/Tests.antt =====
-- The loader's modules: two of them, the second named "initrd".
use bobliu_os.Base.{ℕ, ◌+◌, ◌≡◌, refl, List, [], ◌∷◌, ◌==◌, some, if◌then◌else◌}
use bobliu_os.Multiboot.{MultibootInfo, MultibootModule}
use bobliu_os.Boot.{Boot, mb1_find_module_by_string, multiboot1_find_module}
use bobliu_os.Boot.Modules.{FirstNamed, range, mb1_find_module_by_string-FirstNamed}

abbrev rd : List ℕ
rd = b'r' ∷ b'd' ∷ []

abbrev texts : ℕ → List ℕ
texts a =
    if a == 0x500
    then b'l' ∷ b'o' ∷ b'g' ∷ 0 ∷ []
    else b'i' ∷ b'n' ∷ b'i' ∷ b't' ∷ b'r' ∷ b'd' ∷ 0 ∷ []

abbrev modules : ℕ → MultibootModule
modules i = record {
  mod_start = 0x200000 + i;
  mod_end = 0x210000 + i;
  string = if i == 0 then 0x500 else 0x600;
}

abbrev info : MultibootInfo
info = record {
  flags = 0x4F;
  mem_upper = 0;
  cmdline = 0;
  mods_count = 2;
  mods = modules;
  mmap_length = 0;
  mmap_addr = 0;
  entry_at = λ a. record { size = 0; addr = 0; len = 0; type = 0 };
}

abbrev booted : Boot
booted = record { magic = 0x2BADB002; mbi = some info; cmdline = 0 }

mb1_find_module_by_string-FirstNamed_example :
    FirstNamed texts rd modules 0 2 (mb1_find_module_by_string texts rd booted)
    × (multiboot1_find_module texts (some info) (some rd)
        ≡ range (mb1_find_module_by_string texts rd booted))
mb1_find_module_by_string-FirstNamed_example =
    mb1_find_module_by_string-FirstNamed texts booted info rd refl refl refl
