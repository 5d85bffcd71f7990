-- ===== src/Heap.antt =====
-- The kernel heap, kernel/arch/i386/mm/heap.c: a bump allocator over the frame allocator.
-- The state holds the heap's four variables and the frame allocator that it draws from.
pub mod Backing
pub mod Bump
pub mod Wrap
mod Tests
use bobliu_os.Base.{ℕ, zero, suc, ◌+◌, ◌/◌, ◌^◌, Option, none, some, if◌then◌else◌, ltb, ◌==◌}
use bobliu_os.Word.{u32, sub32, align_up}
use bobliu_os.Run.{Run, done, halt, endless, ◌>>=◌, heap_oom}
use bobliu_os.Pmm.{Pmm, pmm_alloc_frame}

abbrev pub page_size : ℕ
page_size = 4096

-- `g_heap_start`, `g_heap_end`, `g_heap_brk`, `g_heap_mapped_end`, and the frames
pub record Heap : Type 0 where
  pub start : ℕ
  pub end : ℕ
  pub brk : ℕ
  pub mapped_end : ℕ
  pub pmm : Pmm

unfoldable pub heap_init : ℕ → ℕ → Pmm → Heap
heap_init heap_start heap_size pmm =
    let start = align_up heap_start 16 in
    record {
      start = start;
      end = u32 (start + heap_size);
      brk = start;
      mapped_end = start;
      pmm = pmm;
    }

-- The loop of `heap_ensure_backed` up to `need`, with fuel.
pub back_pages : ℕ → ℕ → Heap → Run Heap
back_pages zero need h = endless
back_pages (suc fuel) need h =
    let (phys, pmm) = pmm_alloc_frame h.pmm in
    let rest =
      back_pages fuel need (record h { mapped_end = u32 (h.mapped_end + page_size); pmm = pmm }) in
    let step = if phys == 0 then halt heap_oom else rest in
    if ltb h.mapped_end need then step else done h

-- A 32-bit space has no more pages than this.
abbrev pub max_pages : ℕ
max_pages = 2 ^ 20 + 1

unfoldable pub heap_ensure_backed : ℕ → Heap → Run Heap
heap_ensure_backed new_brk h = back_pages max_pages (align_up new_brk page_size) h

-- The result is the null pointer or the address, with the new state.
unfoldable pub kmalloc_aligned : ℕ → ℕ → Heap → Run (Option ℕ × Heap)
kmalloc_aligned size align h =
    let align' = if ltb align 16 then 16 else align in
    let p = align_up h.brk align' in
    let new_brk = u32 (p + size) in
    if ltb h.end new_brk
    then done (none, h)
    else do backed ← heap_ensure_backed new_brk h; done (some p, record backed { brk = new_brk })

unfoldable pub kmalloc : ℕ → Heap → Run (Option ℕ × Heap)
kmalloc size h = kmalloc_aligned size 16 h

-- `kfree` does nothing.
unfoldable pub kfree : ℕ → Heap → Heap
kfree ptr h = h

unfoldable pub heap_bytes_used : Heap → ℕ
heap_bytes_used h = sub32 h.brk h.start

unfoldable pub heap_bytes_total : Heap → ℕ
heap_bytes_total h = sub32 h.end h.start
