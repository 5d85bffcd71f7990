-- ===== src/Elf/Tests.antt =====
-- A start of a file that is no program, and segments at the edge of the 32 bits.
mod Program
use bobliu_os.Base.{ℕ, ◌+◌, ◌^◌, ◌≤◌, ◌≡◌, ◌↔◌, arith, [], ◌∷◌, true, false, none, some}
use bobliu_os.Pmm.Tests.{three_frames}
use bobliu_os.Vfs.{Vfs}
use bobliu_os.Elf.Image.{Phdr, segment_fits, segment_fits_iff}
use bobliu_os.Elf.Load.{Kernel}

abbrev files : Vfs ℕ
files = record { root = some 7; fds = record { vn = none; off = 0; used = false } ∷ [] }

abbrev one_open : Vfs ℕ
one_open = record { root = some 7; fds = record { vn = some 7; off = 0; used = true } ∷ [] }

abbrev kernel : Kernel ℕ
kernel = record {
  vfs = files;
  heap = record {
    start = 0x800000;
    end = 0xC00000;
    brk = 0x800000;
    mapped_end = 0x800000;
    pmm = three_frames;
  };
  space = record { paging = record { mem = λ a. 0; pd = 0; pmm = three_frames }; ram = λ a. 0 };
}

-- The sum of offset and size is 2^32 + 1.
abbrev wrapping : Phdr
wrapping = record {
  p_type = 1;
  p_offset = 0xFFFFFFFF;
  p_vaddr = 0x400000;
  p_filesz = 2;
  p_memsz = 2;
}

segment_fits_iff_example : (segment_fits wrapping 100 ≡ true) ↔ (0xFFFFFFFF + 2 ≤ 100 + 2 ^ 32)
segment_fits_iff_example = segment_fits_iff wrapping 100 (omega arith) (omega arith)
