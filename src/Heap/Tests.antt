-- ===== src/Heap/Tests.antt =====
-- The heap on three frames, one of them backed.
use bobliu_os.Base.{◌%◌, ◌^◌, ◌≤◌, ◌≡◌, refl, arith, some}
use bobliu_os.Run.{done}
use bobliu_os.Pmm.Tests.{three_frames, three_frames-IsValid}
use bobliu_os.Heap.{Heap, kmalloc, kmalloc_aligned}
use bobliu_os.Heap.Bump.{IsSound, Outcome, round_up, kmalloc_aligned-Outcome}
use bobliu_os.Heap.Wrap.{kmalloc_wraps}

abbrev one_page : Heap
one_page = record {
  start = 0x1000;
  end = 0x4000;
  brk = 0x1008;
  mapped_end = 0x2000;
  pmm = three_frames;
}

one_page-IsSound : IsSound one_page
one_page-IsSound = record {
  started = omega arith;
  ended = omega arith;
  room = omega arith;
  backed = omega arith;
  frames = three_frames-IsValid;
}

kmalloc_aligned-Outcome_example :
    Outcome (round_up 0x1008 (2 ^ 5)) 0x1000 one_page (kmalloc_aligned 0x1000 32 one_page)
    × (round_up 0x1008 (2 ^ 5) % 2 ^ 5 ≡ 0)
    × (0x1008 ≤ round_up 0x1008 (2 ^ 5))
kmalloc_aligned-Outcome_example =
    kmalloc_aligned-Outcome 0x1000 32 5 27 one_page one_page-IsSound refl refl (omega arith)

kmalloc_wraps_example :
    kmalloc 0xFFFFFFF0 one_page ≡ done (some 0x1010, record one_page { brk = 0x1000 })
kmalloc_wraps_example =
    kmalloc_wraps 0xFFFFFFF0 one_page one_page-IsSound refl (omega arith) (omega arith)
      (omega arith)
