-- ===== src/Elf/Rejects.antt =====
-- The files that `elf_load_image` of kernel/arch/i386/cpu/user_exec.c refuses.
use bobliu_os.Base.{ℕ, ◌≡◌, false, get_or}
use bobliu_os.Vfs.{VnodeOps, Vfs, no_file}

module _ (V : Type 0) (ops : VnodeOps V) where
  -- The descriptor is free again.
  abbrev pub IsFree : ℕ → Vfs V → Type 0
  IsFree fd s = (get_or s.fds fd (no_file V)).used ≡ false
