-- ===== src/Pmm/Init/Tests.antt =====
-- The initialisation on a map of one available region of 2 MiB, and on one that reaches to 4 GiB.
use bobliu_os.Base.{ℕ, ◌+◌, ◌/◌, ◌≤◌, ◌≡◌, ◌⊎◌, refl, arith}
use bobliu_os.Word.{align_up}
use bobliu_os.Run.{done}
use bobliu_os.Multiboot.{MultibootInfo, multiboot1_magic}
use bobliu_os.Pmm.{Pmm, pmm_alloc_frame}
use bobliu_os.Pmm.Init.{pmm_init, detect_max_phys, max_end_walk, raise_max}
use bobliu_os.Pmm.Init.Setup.{Apart, alloc_after_init, pmm_init_full_memory}
use bobliu_os.Pmm.Init.After.{start, allocated}
use bobliu_os.Pmm.Init.Walk.{IsOrderly, pmm_init_returns}

-- A map of one available region from 0 on.
abbrev one_region : ℕ → MultibootInfo
one_region len = record {
  flags = 64;
  mem_upper = 0;
  cmdline = 0;
  mods_count = 0;
  mods = λ i. record { mod_start = 0; mod_end = 0; string = 0 };
  mmap_length = 24;
  mmap_addr = 0x9000;
  entry_at = λ cur. record { size = 20; addr = 0; len = len; type = 1 };
}

one_region-IsOrderly : (len : ℕ) → IsOrderly (one_region len)
one_region-IsOrderly len = record { low = omega arith; steps = λ cur. omega arith }

abbrev small : MultibootInfo
small = one_region 0x200000

abbrev full : MultibootInfo
full = one_region 0xFFFFFFFF

small_start : (t : Pmm) × (pmm_init multiboot1_magic small 0x100000 0x110000 ≡ done t)
small_start = pmm_init_returns small (one_region-IsOrderly 0x200000) 0x100000 0x110000 refl

full_start : (t : Pmm) × (pmm_init multiboot1_magic full 0x100000 0x110000 ≡ done t)
full_start = pmm_init_returns full (one_region-IsOrderly 0xFFFFFFFF) 0x100000 0x110000 refl

-- The second frame.
abbrev second : ℕ
second = (pmm_alloc_frame (pmm_alloc_frame small_start.0).1).0

alloc_after_init_example :
    (second ≡ 0)
    ⊎ ((0x100000 ≤ second)
        × Apart second 0x100000 0x110000
        × Apart second
            (align_up 0x110000 16)
            (align_up 0x110000 16 + (small_start.0.total_frames + 7) / 8))
alloc_after_init_example =
    alloc_after_init multiboot1_magic small 0x100000 0x110000 small_start.1 (omega arith)
      (omega arith) (allocated start refl)

full_detected : detect_max_phys full ≡ done 0xFFFFFFFF
unfolding detect_max_phys max_end_walk raise_max
full_detected = refl

pmm_init_full_memory_example :
    (full_start.0.total_frames ≡ 0) × (pmm_alloc_frame full_start.0 ≡ (0, full_start.0))
pmm_init_full_memory_example =
    pmm_init_full_memory multiboot1_magic full 0x100000 0x110000 full_start.1 full_detected
      (omega arith)
