-- ===== src/Heap/Wrap.antt =====
-- A request so large that the sum in `kmalloc_aligned` wraps.
use native.Mathlib.Nat.{mod-eq_of_lt}
use bobliu_os.Base.{
  ℕ, suc, ◌+◌, ◌-◌, ◌*◌, ◌/◌, ◌%◌, ◌^◌, ◌≤◌, ◌<◌, ◌≡◌, refl, ap, ◌∙◌, arith, some, ltb, false,
}
use bobliu_os.Word.{u32, align_up}
use bobliu_os.Word.Align.{align_up_eq, align_up_frame}
use bobliu_os.Run.{done}
use bobliu_os.Heap.{Heap, page_size, back_pages, heap_ensure_backed, kmalloc_aligned, kmalloc}
use bobliu_os.Heap.Bump.{IsSound, round_up, round_up_bounds}

back_pages_stays :
    (fuel need : ℕ) (h : Heap) → need ≤ h.mapped_end → back_pages (suc fuel) need h ≡ done h
unfolding back_pages
back_pages_stays fuel need h enough =
    let stop : ltb h.mapped_end need ≡ false = ground arith in rw stop

-- The size check is passed by a request that wraps: for a sound heap of whole pages, a size below
-- `2^32` for which the sum of the aligned break and the size wraps to at most the old break,
-- `kmalloc` returns the aligned break as a block of that size, and the break does not go up: blocks
-- handed out before may be handed out again.
pub kmalloc_wraps :
    (size : ℕ) (h : Heap)
    → IsSound h
    → h.mapped_end % page_size ≡ 0
    → size < 2 ^ 32
    → 2 ^ 32 ≤ round_up h.brk 16 + size
    → round_up h.brk 16 + size - 2 ^ 32 ≤ h.brk
    → kmalloc size h
      ≡ done (some (round_up h.brk 16), record h { brk = round_up h.brk 16 + size - 2 ^ 32 })
unfolding kmalloc kmalloc_aligned heap_ensure_backed
kmalloc_wraps size h v paged small wraps back =
    let bounds = round_up_bounds h.brk 16 (omega arith) in
    let p_eq : align_up h.brk 16 ≡ round_up h.brk 16 =
      align_up_eq 4 28 h.brk refl
      ∙ ap (λ (t : ℕ). t / 16 * 16) (mod-eq_of_lt (omega (arith, v.room, v.ended))) in
    let brk : ℕ = round_up h.brk 16 + size - 2 ^ 32 in
    let brk_eq : u32 (round_up h.brk 16 + size) ≡ round_up h.brk 16 + size - 2 ^ 32 =
      omega (arith, v.room, v.ended) in
    let inside : ltb h.end (round_up h.brk 16 + size - 2 ^ 32) ≡ false = ground (arith, v.ended) in
    let need_le : align_up (round_up h.brk 16 + size - 2 ^ 32) 4096 ≤ h.mapped_end =
      rw (align_up_frame (round_up h.brk 16 + size - 2 ^ 32))
        (omega (arith, v.room, v.ended, v.backed)) in
    rw (p_eq, brk_eq, inside, back_pages_stays (2 ^ 20) _ h need_le)
