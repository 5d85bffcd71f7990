-- ===== src/Elf/Tests/Program.antt =====
-- A program of four bytes at 256 MiB, and a kernel with sixteen frames that starts it.
use bobliu_os.Base.{ℕ, List, [], ◌∷◌, true, false, none, some, take, drop}
use bobliu_os.Run.{Run, done}
use bobliu_os.Pmm.{Pmm}
use bobliu_os.Vfs.{VnodeOps, Vfs, end_of_dir}
use bobliu_os.Paging.{Paging, PageDirectory}
use bobliu_os.Elf.Load.{Kernel, UserImage}
use bobliu_os.Elf.Loads.{Loads}

abbrev program : List ℕ
program =
    127 ∷ 69 ∷ 76 ∷ 70 ∷ 1 ∷ 1 ∷ 1 ∷ 0 ∷ 0 ∷ 0 ∷ 0 ∷ 0 ∷ 0 ∷ 0 ∷ 0 ∷ 0 ∷ 2 ∷ 0 ∷ 3 ∷ 0 ∷ 1 ∷ 0 ∷ 0
    ∷ 0 ∷ 0 ∷ 0 ∷ 0 ∷ 16 ∷ 52 ∷ 0 ∷ 0 ∷ 0 ∷ 0 ∷ 0 ∷ 0 ∷ 0 ∷ 0 ∷ 0 ∷ 0 ∷ 0 ∷ 52 ∷ 0 ∷ 32 ∷ 0 ∷ 1 ∷ 0
    ∷ 0 ∷ 0 ∷ 0 ∷ 0 ∷ 0 ∷ 0 ∷ 1 ∷ 0 ∷ 0 ∷ 0 ∷ 84 ∷ 0 ∷ 0 ∷ 0 ∷ 0 ∷ 0 ∷ 0 ∷ 16 ∷ 0 ∷ 0 ∷ 0 ∷ 16 ∷ 4
    ∷ 0 ∷ 0 ∷ 0 ∷ 8 ∷ 0 ∷ 0 ∷ 0 ∷ 5 ∷ 0 ∷ 0 ∷ 0 ∷ 0 ∷ 16 ∷ 0 ∷ 0 ∷ 144 ∷ 144 ∷ 205 ∷ 128 ∷ []

abbrev one_program : VnodeOps ℕ
one_program = record {
  size = λ v. 88;
  is_dir = λ v. false;
  read = λ v off len. some (take len (drop off program));
  readdir = λ v i n. done end_of_dir;
  lookup = λ v name. done none;
}

abbrev sixteen : Pmm
sixteen = record { bitmap = 1 ∷ 0 ∷ []; total_frames = 16; free_frames = 15 }

abbrev sixteen_frames : Paging
sixteen_frames = record { mem = λ a. 0; pd = 0; pmm = sixteen }

abbrev files : Vfs ℕ
files = record { root = some 7; fds = record { vn = none; off = 0; used = false } ∷ [] }

abbrev one_open : Vfs ℕ
one_open = record { root = some 7; fds = record { vn = some 7; off = 0; used = true } ∷ [] }

-- Enough of the heap is backed for an image.
abbrev kernel : Kernel ℕ
kernel = record {
  vfs = files;
  heap = record {
    start = 0x800000;
    end = 0xC00000;
    brk = 0x800000;
    mapped_end = 0xC00000;
    pmm = sixteen;
  };
  space = record { paging = sixteen_frames; ram = λ a. 0 };
}

-- The program gives back 3.
abbrev exits : UserImage → Kernel ℕ → Run (ℕ × Kernel ℕ)
exits u k = done (3, k)

abbrev own_directory : PageDirectory
own_directory = record { pd_phys = 0; pd_virt = 0 }
