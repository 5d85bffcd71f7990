-- ===== src/Multiboot.antt =====
-- The boot information, kernel/include/arch/i386/multiboot_1.h. The loader writes it into memory:
-- the memory map is read by address, and the modules are the array at `mods_addr`. Fields
-- that no code reads are left out.
use bobliu_os.Base.{ℕ}

pub record MmapEntry : Type 0 where
  pub size : ℕ
  pub addr : ℕ
  pub len : ℕ
  pub type : ℕ

pub record MultibootModule : Type 0 where
  pub mod_start : ℕ
  pub mod_end : ℕ
  pub string : ℕ

pub record MultibootInfo : Type 0 where
  pub flags : ℕ
  pub mem_upper : ℕ
  pub cmdline : ℕ
  pub mods_count : ℕ
  pub mods : ℕ → MultibootModule
  pub mmap_length : ℕ
  pub mmap_addr : ℕ
  pub entry_at : ℕ → MmapEntry

abbrev pub multiboot1_magic : ℕ
multiboot1_magic = 0x2BADB002

abbrev pub info_mem : ℕ
info_mem = 1

abbrev pub info_cmdline : ℕ
info_cmdline = 4

abbrev pub info_mods : ℕ
info_mods = 8

abbrev pub info_mmap : ℕ
info_mmap = 64
