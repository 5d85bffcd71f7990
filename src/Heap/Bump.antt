-- ===== src/Heap/Bump.antt =====
-- What `kmalloc_aligned` hands out: aligned, inside the heap, backed, and apart from what was
-- handed out before.
use native.Mathlib.Nat.{mod-eq_of_lt, one-le-pow, div-mul-le_self, lt-div-mul-add, mul-mod_left}
use bobliu_os.Base.{
  ℕ, ◌+◌, ◌-◌, ◌*◌, ◌/◌, ◌%◌, ◌^◌, ◌≤◌, ◌<◌, ◌≡◌, ◌⊎◌, refl, ap, ◌∙◌, arith, inl, inr, Option, none,
  some, if◌then◌else◌, ltb, Bool-cases,
}
use bobliu_os.Word.{u32, align_up}
use bobliu_os.Word.Align.{align_up_eq, align_up_frame}
use bobliu_os.Run.{Run, done, halt, ◌>>=◌, heap_oom}
use bobliu_os.Pmm.{Pmm}
use bobliu_os.Pmm.Inv.{IsValid}
use bobliu_os.Pmm.Alloc.{Keeps}
use bobliu_os.Heap.{Heap, page_size, heap_init, max_pages, heap_ensure_backed, kmalloc_aligned}
use bobliu_os.Heap.Backing.{Takes, Lacks, back_pages-Backing}

-- The break lies between the start and the end, every byte below it is backed, and the frame allocator is valid.
pub record IsSound (h : Heap) : Type 0 where
  pub started : h.start ≤ h.brk
  pub ended : h.brk ≤ h.end
  pub room : h.end + page_size ≤ 2 ^ 32
  pub backed : h.brk ≤ h.mapped_end
  pub frames : IsValid h.pmm

-- The break rounded up to a multiple of `a`.
abbrev pub round_up : ℕ → ℕ → ℕ
round_up brk a = (brk + (a - 1)) / a * a

pub round_up_bounds :
    (brk a : ℕ) → 0 < a → (brk ≤ round_up brk a) × (round_up brk a ≤ brk + (a - 1))
round_up_bounds brk a pos =
    omega (arith, div-mul-le_self (brk + (a - 1)) a, lt-div-mul-add {a = brk + (a - 1)} pos)

-- The end of the pages that the block reaches.
abbrev pub page_end : ℕ → ℕ
page_end brk = (brk + 4095) / 4096 * 4096

-- What `kmalloc_aligned` comes to, for `p` the aligned break.
abbrev pub Outcome : ℕ → ℕ → Heap → Run (Option ℕ × Heap) → Type 0
Outcome p size h r =
    ((h.end < p + size) × (r ≡ done (none, h)))
    ⊎ ((p + size ≤ h.end) × Lacks (page_end (p + size)) h × (r ≡ halt heap_oom))
    ⊎ ((p + size ≤ h.end)
        × ((t : Heap) × (r ≡ done (some p, t))
            × IsSound t
            × (t.brk ≡ p + size)
            × (t.start ≡ h.start)
            × (t.end ≡ h.end)
            × Keeps h.pmm t.pmm
            × Takes (page_end (p + size)) h.mapped_end t.mapped_end h.pmm.free_frames
                t.pmm.free_frames))

-- The request as the code computes it, once the alignment is done.
bump : ℕ → ℕ → Heap → Run (Option ℕ × Heap)
bump p size h = if ltb h.end (p + size) then done (none, h) else do
  backed ← heap_ensure_backed (p + size) h
  done (some p, record backed { brk = p + size })

bump-Outcome : (p size : ℕ) (h : Heap) → IsSound h → h.brk ≤ p → Outcome p size h (bump p size h)
unfolding bump heap_ensure_backed
bump-Outcome p size h v above = elim (Bool-cases (ltb h.end (p + size))) [
  | inl past ↦ rw past (inl (ground arith, refl))
  | inr inside ↦
      let fits : p + size ≤ h.end = ground arith in
      let need : align_up (p + size) 4096 ≡ (p + size + 4095) / 4096 * 4096 =
        align_up_frame (p + size)
        ∙ ap (λ (t : ℕ). t / 4096 * 4096) (mod-eq_of_lt (omega (arith, v.room))) in
      let backing =
        back_pages-Backing max_pages ((p + size + 4095) / 4096 * 4096) h v.frames (omega arith)
          (omega (arith, v.room)) (omega (arith, v.room)) (omega arith) in
      rw (inside, need)
        (inr (elim backing [
          | inl (lacks, out) ↦ rw out (inl (fits, lacks, refl))
          | inr (t, e, b) ↦ rw e (
              inr (
                fits,
                (
                  record t { brk = p + size },
                  refl,
                  record {
                    started = omega (arith, v.started, b.start);
                    ended = omega (arith, b.end);
                    room = omega (arith, v.room, b.end);
                    backed = omega (arith, b.reached);
                    frames = b.frames;
                  },
                  refl,
                  b.start,
                  b.end,
                  b.kept,
                  b.takes,
                ),
              ))
        ]))
]

kmalloc_aligned-bump :
    (size align k j : ℕ) (h : Heap)
    → (if ltb align 16 then 16 else align) ≡ 2 ^ k
    → k + j ≡ 32
    → h.brk + (2 ^ k - 1) + size < 2 ^ 32
    → kmalloc_aligned size align h ≡ bump (round_up h.brk (2 ^ k)) size h
unfolding kmalloc_aligned bump
kmalloc_aligned-bump size align k j h power e fits =
    let bounds = round_up_bounds h.brk (2 ^ k) (one-le-pow k 2 (omega arith)) in
    let p_eq : align_up h.brk (2 ^ k) ≡ round_up h.brk (2 ^ k) =
      align_up_eq k j h.brk e ∙ ap (λ (t : ℕ). t / 2 ^ k * 2 ^ k) (mod-eq_of_lt (omega arith)) in
    let brk_eq : u32 (round_up h.brk (2 ^ k) + size) ≡ round_up h.brk (2 ^ k) + size =
      mod-eq_of_lt (omega arith) in
    rw (power, p_eq, brk_eq)

-- For a sound heap and an alignment that is a power of two, `2^k` or, below 16, taken for 16, with a request that
-- does not wrap: `kmalloc_aligned` gives the null pointer and changes nothing exactly when the block would
-- pass the heap's end. Otherwise it halts, and then there are fewer free frames than the block's pages need, or
-- the frame at address 0 is free; or it gives the break rounded up to the alignment, having taken a frame for
-- each page that was not backed, and leaves a sound heap whose break is the end of the block, and every frame
-- in use still in use. The address is a multiple of the alignment, and no block handed out before reaches it.
pub kmalloc_aligned-Outcome :
    (size align k j : ℕ) (h : Heap)
    → IsSound h
    → (if ltb align 16 then 16 else align) ≡ 2 ^ k
    → k + j ≡ 32
    → h.brk + (2 ^ k - 1) + size < 2 ^ 32
    → let p = round_up h.brk (2 ^ k) in
      Outcome p size h (kmalloc_aligned size align h) × (p % 2 ^ k ≡ 0) × (h.brk ≤ p)
kmalloc_aligned-Outcome size align k j h v power e fits =
    let pos : 0 < 2 ^ k = one-le-pow k 2 (omega arith) in
    let above = (round_up_bounds h.brk (2 ^ k) pos).0 in
    (
      rw (kmalloc_aligned-bump size align k j h power e fits)
          (bump-Outcome (round_up h.brk (2 ^ k)) size h v above),
      mul-mod_left _ _,
      above,
    )

-- A heap that ends at least a page below 4 GiB starts out sound.
pub heap_init-IsSound :
    (start size : ℕ) (pmm : Pmm)
    → IsValid pmm
    → start + 15 + size + page_size ≤ 2 ^ 32
    → IsSound (heap_init start size pmm)
unfolding heap_init
heap_init-IsSound start size pmm v fits =
    let up = align_up_eq 4 28 start refl in
    record {
      started = omega arith;
      ended = omega arith;
      room = omega arith;
      backed = omega arith;
      frames = v;
    }
