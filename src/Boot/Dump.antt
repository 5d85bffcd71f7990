-- ===== src/Boot/Dump.antt =====
-- What `multiboot1_dump_modules` of kernel/arch/i386/boot/multiboot_modules.c prints.
use bobliu_os.Base.{
  ℕ, zero, suc, ◌+◌, List, [], ◌∷◌, ◌++◌, if◌then◌else◌, ◌==◌, Option, none, some, codes,
}
use bobliu_os.Word.{sub32}
use bobliu_os.Multiboot.{MultibootInfo, MultibootModule}
use bobliu_os.Libc.Printf.Parse.{text, single}
use bobliu_os.Libc.Printf.Loop.{Printed, printf}
use bobliu_os.Boot.{has_mods}

abbrev printed : Printed → List ℕ
printed (Printed.done t n) = t
printed Printed.undefined = []
printed Printed.starved = []

module _ (string_at : ℕ → List ℕ) where
  -- The body of the loop: module `i`.
  unfoldable pub dump_module : ℕ → MultibootModule → List ℕ
  dump_module i m =
      let name = if m.string == 0 then codes "(null)" else string_at m.string in
      printed (
        printf (codes "mb: mod[%u] %x..%x (%u bytes) str='%s'\n") (
          single i
          ∷ single m.mod_start
          ∷ single m.mod_end
          ∷ single (sub32 m.mod_end m.mod_start)
          ∷ text (some name)
          ∷ []))

  -- The loop, for `count` modules from `i` on.
  unfoldable pub dump_from : ℕ → ℕ → (ℕ → MultibootModule) → List ℕ
  dump_from zero i mods = []
  dump_from (suc count) i mods = dump_module i (mods i) ++ dump_from count (i + 1) mods

  -- `mods_addr` is where the modules' records are.
  unfoldable pub multiboot1_dump_modules : ℕ → Option MultibootInfo → List ℕ
  multiboot1_dump_modules mods_addr none = printed (printf (codes "mb: mbi=null\n") [])
  multiboot1_dump_modules mods_addr (some mbi) =
      let flags = printed (printf (codes "mb: flags=%x\n") (single mbi.flags ∷ [])) in
      let head = printed (
        printf (codes "mb: mods_count=%u mods_addr=%x\n")
          (single mbi.mods_count ∷ single mods_addr ∷ [])) in
      if has_mods mbi
      then flags ++ head ++ dump_from mbi.mods_count 0 mbi.mods
      else flags ++ printed (printf (codes "mb: no modules\n") [])
