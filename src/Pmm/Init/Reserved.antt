-- ===== src/Pmm/Init/Reserved.antt =====
-- What the allocator never hands out after `pmm_init`, and the allocator's invariant after it.
use bobliu_os.Base.{
  ℕ, zero, suc, ◌+◌, ◌-◌, ◌*◌, ◌/◌, ◌%◌, ◌^◌, ◌≤◌, ◌<◌, ◌≡◌, ◌≢◌, ◌⊎◌, refl, sym, ◌∙◌, arith, inl,
  inr, ltb, ◌==◌, ◌&&◌, Bool-cases, true, replicate, length-replicate, get_or-replicate, bit_and,
}
use bobliu_os.Base.Bits.{all_below, all_below_sound, bit_and_low}
use bobliu_os.Word.{u32, sub32, align_up}
use bobliu_os.Word.Align.{align_up_frame}
use bobliu_os.Run.{done}
use bobliu_os.Multiboot.{MmapEntry, MultibootModule, MultibootInfo, info_mods}
use bobliu_os.Pmm.{Pmm, frame_size, bit_test, mark_used, each_frame, max_rounds, mark_used_range}
use bobliu_os.Pmm.Count.{count_free}
use bobliu_os.Pmm.Bitmap.{AllBytes, bit_test-bit_set}
use bobliu_os.Pmm.Inv.{
  IsValid, mark_used-IsValid, mark_used_range-IsValid, mark_free_range-IsValid,
  mark_used_range-total, mark_free_range-total,
}
use bobliu_os.Pmm.Range.{mark_used_range-IsMarked}
use bobliu_os.Pmm.Init.{flag, free_entry, free_walk, mark_modules, all_used, reserve, next_entry}

-- A byte of ones shows a used frame at each bit.
ones_table : all_below 8 (λ k. bit_and (0xFF / 2 ^ k) 1 == 1) ≡ true
ones_table = refl

bit_test-ones : (n i : ℕ) → i / 8 < n → bit_test (replicate n 0xFF) i ≡ 1
unfolding bit_test
bit_test-ones n i h =
    rw (get_or-replicate {A = ℕ} n (i / 8) 0xFF 0 h, bit_and_low 3 i)
      (ground (arith, all_below_sound 8 (λ k. bit_and (0xFF / 2 ^ k) 1 == 1) (i % 8) ones_table))

count_free-ones : (n k : ℕ) → k ≤ 8 * n → count_free (replicate n 0xFF) k ≡ 0
unfolding count_free
count_free-ones n zero h = refl
count_free-ones n (suc k) h =
    rw (bit_test-ones n k (omega arith), count_free-ones n k (omega arith))

pub total-all_used : (m : ℕ) → (all_used m).total_frames ≡ u32 (m + 4095) / 4096
unfolding all_used
total-all_used m = rw (align_up_frame m) (omega arith)

replicate-AllBytes : (n : ℕ) → AllBytes (replicate n 0xFF)
replicate-AllBytes zero i = omega arith
replicate-AllBytes (suc n) zero = omega arith
replicate-AllBytes (suc n) (suc i) = replicate-AllBytes n i

pub all_used-IsValid : (m : ℕ) → IsValid (all_used m)
unfolding all_used
all_used-IsValid m =
    let total : u32 (align_up m frame_size / frame_size) ≡ u32 (m + 4095) / 4096 =
      total-all_used m in
    let bytes : ℕ = u32 (u32 (align_up m frame_size / frame_size) + 7) / 8 in
    record {
      small = omega arith;
      covers = omega (arith, length-replicate {A = ℕ} bytes 0xFF);
      bytes = replicate-AllBytes bytes;
      counted =
          sym (count_free-ones bytes (u32 (align_up m frame_size / frame_size)) (omega arith));
    }

-- Freeing the available regions and reserving the rest keep the invariant.
free_entry-IsValid : (e : MmapEntry) {s : Pmm} → IsValid s → IsValid (free_entry e s)
unfolding free_entry
free_entry-IsValid e v = elim (Bool-cases (e.type == 1)) [
  | inl t ↦ rw t (mark_free_range-IsValid (u32 e.addr) (u32 e.len) v)
  | inr t ↦ rw t v
]

free_entry-total : (e : MmapEntry) (s : Pmm) → (free_entry e s).total_frames ≡ s.total_frames
unfolding free_entry
free_entry-total e s = ground (arith, mark_free_range-total (u32 e.addr) (u32 e.len) s)

pub free_walk-IsValid :
    (mbi : MultibootInfo) (fuel cur end : ℕ) (s : Pmm) {t : Pmm}
    → IsValid s
    → free_walk mbi fuel cur end s ≡ done t
    → IsValid t × (t.total_frames ≡ s.total_frames)
unfolding free_walk
free_walk-IsValid mbi zero cur end s v e = cc
free_walk-IsValid mbi (suc fuel) cur end s {t} v e = elim (Bool-cases (ltb cur end)) [
  | inl more ↦
      let ih =
        free_walk-IsValid mbi fuel (next_entry mbi cur) end (free_entry (mbi.entry_at cur) s)
          (free_entry-IsValid (mbi.entry_at cur) v) (rw more at e) in
      (ih.0, ih.1 ∙ free_entry-total (mbi.entry_at cur) s)
  | inr last ↦
      let same : done s ≡ done t = rw last at e in
      let same' : s ≡ t = cc same in rw (← same') (v, refl)
]

mark_modules-IsValid :
    (mods : ℕ → MultibootModule) (left i : ℕ) {s : Pmm}
    → IsValid s
    → IsValid (mark_modules mods left i s)
unfolding mark_modules
mark_modules-IsValid mods zero i v = v
mark_modules-IsValid mods (suc left) i v =
    mark_modules-IsValid mods left (i + 1) (mark_used_range-IsValid _ _ v)

-- Marking frames used never frees one.
abbrev KeepsUsed : Pmm → Pmm → Type 0
KeepsUsed s t =
    (t.total_frames ≡ s.total_frames)
    × ((j : ℕ) → bit_test s.bitmap j ≢ 0 → bit_test t.bitmap j ≢ 0)

mark_used-KeepsUsed : (a : ℕ) (s : Pmm) → IsValid s → KeepsUsed s (mark_used a s)
unfolding mark_used
mark_used-KeepsUsed a s v =
    elim (Bool-cases
      (ltb (a / frame_size) s.total_frames && (bit_test s.bitmap (a / frame_size) == 0))) [
        | inr e ↦ rw e (refl, (λ j h. h))
        | inl e ↦ rw e (
          refl,
          (λ j h. ground (
            arith,
            bit_test-bit_set s.bitmap (a / frame_size) j v.bytes
                (omega (arith, v.covers, below (ground arith))),
          )),
        )
      ]
  where
    below : a / frame_size < s.total_frames → a / frame_size < s.total_frames
    below h = h

each_frame-KeepsUsed :
    (fuel a end : ℕ) (s : Pmm) → IsValid s → KeepsUsed s (each_frame mark_used fuel a end s)
unfolding each_frame
each_frame-KeepsUsed zero a end s v = (refl, (λ j h. h))
each_frame-KeepsUsed (suc fuel) a end s v = elim (Bool-cases (ltb a end)) [
  | inr e ↦ rw e (refl, (λ j h. h))
  | inl e ↦
      let one = mark_used-KeepsUsed a s v in
      let rest =
        each_frame-KeepsUsed fuel (u32 (a + frame_size)) end (mark_used a s)
          (mark_used-IsValid a v) in
      rw e (rest.0 ∙ one.0, (λ j h. rest.1 j (one.1 j h)))
]

mark_used_range-KeepsUsed :
    (paddr len : ℕ) (s : Pmm) → IsValid s → KeepsUsed s (mark_used_range paddr len s)
unfolding mark_used_range
mark_used_range-KeepsUsed paddr len s v = each_frame-KeepsUsed max_rounds _ _ s v

mark_modules-KeepsUsed :
    (mods : ℕ → MultibootModule) (left i : ℕ) (s : Pmm)
    → IsValid s
    → KeepsUsed s (mark_modules mods left i s)
unfolding mark_modules
mark_modules-KeepsUsed mods zero i s v = (refl, (λ j h. h))
mark_modules-KeepsUsed mods (suc left) i s v =
    let m = mods i in
    let len = sub32 m.mod_end m.mod_start in
    let one = mark_used_range-KeepsUsed m.mod_start len s v in
    let rest =
      mark_modules-KeepsUsed mods left (i + 1) (mark_used_range m.mod_start len s)
        (mark_used_range-IsValid m.mod_start len v) in
    (rest.0 ∙ one.0, (λ j h. rest.1 j (one.1 j h)))

-- The frames that a byte range without wrap touches are used after `mark_used_range`.
range_used :
    (paddr len : ℕ) (s : Pmm) (j : ℕ)
    → IsValid s
    → paddr + len + 4095 < 2 ^ 32
    → paddr / 4096 ≤ j
    → j * 4096 < paddr + len
    → j < s.total_frames
    → bit_test (mark_used_range paddr len s).bitmap j ≢ 0
range_used paddr len s j v fits lo hi inside =
    let marked = mark_used_range-IsMarked paddr len s v fits in ground (arith, marked.bits j)

pub reserve-IsValid :
    (mbi : MultibootInfo) (ks ke bytes : ℕ) {s : Pmm}
    → IsValid s
    → IsValid (reserve mbi ks ke bytes s)
unfolding reserve
reserve-IsValid mbi ks ke bytes v = elim (Bool-cases (flag info_mods mbi)) [
  | inl e ↦ rw e (
      mark_modules-IsValid mbi.mods mbi.mods_count 0
        (mark_used_range-IsValid _ _ (mark_used_range-IsValid _ _ (mark_used_range-IsValid _ _ v))))
  | inr e ↦
      rw e
        (mark_used_range-IsValid _ _ (mark_used_range-IsValid _ _ (mark_used_range-IsValid _ _ v)))
]

-- A frame of the low megabyte, or one that a byte of the kernel image or of the bitmap lies in.
abbrev pub IsReserved : ℕ → ℕ → ℕ → ℕ → Type 0
IsReserved ks ke bytes j =
    (j < 256)
    ⊎ ((ks / 4096 ≤ j) × (j * 4096 < ke))
    ⊎ ((align_up ke 16 / 4096 ≤ j) × (j * 4096 < align_up ke 16 + bytes))

pub reserve_used :
    (mbi : MultibootInfo) (ks ke bytes j : ℕ) {s : Pmm}
    → IsValid s
    → ks ≤ ke
    → ke + 4095 < 2 ^ 32
    → align_up ke 16 + bytes + 4095 < 2 ^ 32
    → j < s.total_frames
    → IsReserved ks ke bytes j
    → bit_test (reserve mbi ks ke bytes s).bitmap j ≢ 0
unfolding reserve
reserve_used mbi ks ke bytes j {s} v order fits fits' inside which =
    let low : Pmm = mark_used_range 0 0x100000 s in
    let len : ℕ = sub32 ke ks in
    let len_eq : len ≡ ke - ks = omega arith in
    let kernel : Pmm = mark_used_range ks len low in
    let bitmap : Pmm = mark_used_range (align_up ke 16) bytes kernel in
    let low_v : IsValid low = mark_used_range-IsValid _ _ v in
    let kernel_v : IsValid kernel = mark_used_range-IsValid _ _ low_v in
    let bitmap_v : IsValid bitmap = mark_used_range-IsValid _ _ kernel_v in
    let low_k = mark_used_range-KeepsUsed 0 0x100000 s v in
    let kernel_k = mark_used_range-KeepsUsed ks len low low_v in
    let bitmap_k = mark_used_range-KeepsUsed (align_up ke 16) bytes kernel kernel_v in
    let mods_k = mark_modules-KeepsUsed mbi.mods mbi.mods_count 0 bitmap bitmap_v in
    let used : bit_test bitmap.bitmap j ≢ 0 = elim which [
      | inl small ↦ bitmap_k.1 j (
          kernel_k.1 j
            (range_used 0 0x100000 s j v (omega arith) (omega arith) (omega arith) inside))
      | inr (inl (lo, hi)) ↦
          bitmap_k.1 j
            (range_used ks len low j low_v (omega arith) lo (omega arith) (omega (arith, low_k.0)))
      | inr (inr (lo, hi)) ↦
          range_used (align_up ke 16) bytes kernel j kernel_v fits' lo hi
            (omega (arith, low_k.0, kernel_k.0))
    ] in
    elim (Bool-cases (flag info_mods mbi)) [ inl e ↦ rw e (mods_k.1 j used) | inr e ↦ rw e used ]

mark_modules-total :
    (mods : ℕ → MultibootModule) (left i : ℕ) (s : Pmm)
    → (mark_modules mods left i s).total_frames ≡ s.total_frames
unfolding mark_modules
mark_modules-total mods zero i s = refl
mark_modules-total mods (suc left) i s =
    mark_modules-total mods left (i + 1) _ ∙ mark_used_range-total _ _ s

pub reserve-total :
    (mbi : MultibootInfo) (ks ke bytes : ℕ) (s : Pmm)
    → (reserve mbi ks ke bytes s).total_frames ≡ s.total_frames
unfolding reserve
reserve-total mbi ks ke bytes s =
    let low = mark_used_range 0 0x100000 s in
    let kernel = mark_used_range ks (sub32 ke ks) low in
    let before =
      mark_used_range-total (align_up ke 16) bytes kernel
      ∙ mark_used_range-total ks (sub32 ke ks) low
      ∙ mark_used_range-total 0 0x100000 s in
    elim (Bool-cases (flag info_mods mbi)) [
      | inl e ↦ rw e (mark_modules-total mbi.mods mbi.mods_count 0 _ ∙ before)
      | inr e ↦ rw e before
    ]
