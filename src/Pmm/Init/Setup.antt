-- ===== src/Pmm/Init/Setup.antt =====
-- The allocator that `pmm_init` leaves: valid, and with nothing of the low megabyte, of the kernel
-- image or of its own bitmap to give.
use native.Mathlib.Decide.{dec_lt}
use bobliu_os.Base.{
  ℕ, ◌+◌, ◌*◌, ◌/◌, ◌^◌, ◌≤◌, ◌<◌, ◌≡◌, ◌⊎◌, refl, ap, sym, ◌∙◌, arith, inl, inr, ◌==◌, Bool-cases,
}
use bobliu_os.Word.{u32, align_up}
use bobliu_os.Word.Align.{align_up_eq}
use bobliu_os.Run.{Run, done, >>=-eq-done}
use bobliu_os.Multiboot.{MultibootInfo, multiboot1_magic, info_mmap}
use bobliu_os.Pmm.{Pmm, frame_size, bit_test, pmm_alloc_frame}
use bobliu_os.Pmm.Inv.{IsValid}
use bobliu_os.Pmm.Alloc.{Found, alloc_first_fit}
use bobliu_os.Pmm.Init.After.{After, After-Holds}
use bobliu_os.Pmm.Init.{
  flag, walk_fuel, map_end, detect_max_phys, free_walk, all_used, reserve, pmm_init,
}
use bobliu_os.Pmm.Init.Reserved.{
  all_used-IsValid, free_walk-IsValid, reserve-IsValid, reserve_used, reserve-total, total-all_used,
  IsReserved,
}

-- The bytes that the bitmap of `m` bytes of memory takes.
abbrev pub bitmap_bytes : ℕ → ℕ
bitmap_bytes m = u32 ((all_used m).total_frames + 7) / 8

-- The frame at `p` shares no byte with `[start, end)`.
abbrev pub Apart : ℕ → ℕ → ℕ → Type 0
Apart p start end = (p + frame_size ≤ start) ⊎ (end ≤ p)

Apart-of_untouched :
    (f start end : ℕ) → ¬ ((start / 4096 ≤ f) × (f * 4096 < end)) → Apart (f * frame_size) start end
Apart-of_untouched f start end out = elim (dec_lt f (start / 4096)) [
  | yes below ↦ inl (omega arith)
  | no above ↦ elim (dec_lt (f * 4096) end) [
    | yes touch ↦ absurd (out (omega arith, touch))
    | no past ↦ inr (omega arith)
  ]
]

-- The detected end is a 32-bit address.
detect_max_phys-lt : (mbi : MultibootInfo) {m : ℕ} → detect_max_phys mbi ≡ done m → m < 2 ^ 32
unfolding detect_max_phys
detect_max_phys-lt mbi e = ground arith

module _ (magic : ℕ) (mbi : MultibootInfo) (ks ke : ℕ) where
  -- The steps of a run that returns.
  pub record Parts (t : Pmm) : Type 0 where
    pub max_phys : ℕ
    pub freed : Pmm
    pub detected : detect_max_phys mbi ≡ done max_phys
    pub walked :
        free_walk mbi (walk_fuel mbi) mbi.mmap_addr (map_end mbi) (all_used max_phys) ≡ done freed
    pub result : t ≡ reserve mbi ks ke (bitmap_bytes max_phys) freed

  pub pmm_init-Parts : {t : Pmm} → pmm_init magic mbi ks ke ≡ done t → Parts t
  unfolding pmm_init
  pmm_init-Parts {t} e = elim (Bool-cases (magic == multiboot1_magic)) [
    | inr bad ↦ let broken : Run.halt _ ≡ done t = rw bad at e in cc broken
    | inl good ↦ elim (Bool-cases (flag info_mmap mbi)) [
      | inr bad ↦ let broken : Run.halt _ ≡ done t = rw (good, bad) at e in cc broken
      | inl map ↦
          let (m, detected, e') = >>=-eq-done (detect_max_phys mbi) _ (rw (good, map) at e) in
          let (freed, walked, e'') = >>=-eq-done (free_walk mbi _ _ _ (all_used m)) _ e' in
          record {
            max_phys = m;
            freed = freed;
            detected = detected;
            walked = walked;
            result = sym (cc e'');
          }
    ]
  ]

  -- Whenever `pmm_init` returns, the bitmap covers every frame and the count of free frames is
  -- the number of its zero bits.
  pub pmm_init-IsValid : {t : Pmm} → pmm_init magic mbi ks ke ≡ done t → IsValid t
  pmm_init-IsValid {t} e =
      let p = pmm_init-Parts e in
      let freed =
        free_walk-IsValid mbi _ _ _ (all_used p.max_phys) (all_used-IsValid p.max_phys) p.walked in
      rw p.result (reserve-IsValid mbi ks ke (bitmap_bytes p.max_phys) freed.0)

  -- After a run of `pmm_init` that returns, for a kernel that ends at least 1 MiB below 4 GiB: in whatever order
  -- frames are then allocated, and frames that `pmm_init` left free given back, the next allocation
  -- hands out nothing, or a frame above the low megabyte that shares no byte with the kernel's image or the
  -- bitmap.
  pub alloc_after_init :
      {t s : Pmm}
      → pmm_init magic mbi ks ke ≡ done t
      → ks ≤ ke
      → ke + 2 ^ 20 ≤ 2 ^ 32
      → After t s
      → let p = (pmm_alloc_frame s).0 in
        let bitmap = align_up ke 16 in
        (p ≡ 0)
        ⊎ ((0x100000 ≤ p) × Apart p ks ke × Apart p bitmap (bitmap + (t.total_frames + 7) / 8))
  alloc_after_init {t} {s} e order room after =
      let q = pmm_init-Parts e in
      let k = After-Holds (pmm_init-IsValid e) after in
      let walked =
        free_walk-IsValid mbi _ _ _ (all_used q.max_phys) (all_used-IsValid q.max_phys) q.walked in
      let up = align_up_eq 4 28 ke refl in
      let total : t.total_frames ≡ (all_used q.max_phys).total_frames =
        ap (λ (s : Pmm). s.total_frames) q.result
        ∙ reserve-total mbi ks ke (bitmap_bytes q.max_phys) q.freed
        ∙ walked.1 in
      let small = (pmm_init-IsValid e).small in
      let bytes : bitmap_bytes q.max_phys ≡ (t.total_frames + 7) / 8 = omega arith in
      let reserved = λ (j : ℕ) (inside : j < t.total_frames).
        reserve_used mbi ks ke (bitmap_bytes q.max_phys) j {s = q.freed} walked.0 order
          (omega arith) (omega arith) (omega (arith, walked.1)) in
      elim (alloc_first_fit s k.valid) [
        | inr (_, zero_at, _) ↦ inl zero_at
        | inl (f, inside, at, _, taken, _) ↦
            let free : ¬ IsReserved ks ke (bitmap_bytes q.max_phys) f = λ r.
              k.kept f
                (λ free.
                  reserved f (omega (arith, inside, k.total)) r
                    (ap (λ (s : Pmm). bit_test s.bitmap f) (sym q.result) ∙ free))
                taken.was_free in
            let low : ¬ (f < 256) = λ h. free (inl h) in
            rw (at, ← bytes)
              (inr (
                omega (arith, low),
                Apart-of_untouched f ks ke (λ r. free (inr (inl r))),
                Apart-of_untouched f _ _ (λ r. free (inr (inr r))),
              ))
      ]

  -- When `pmm_init` returns and the detected end of memory is within a page of 4 GiB, rounding the end
  -- up wraps to 0: the allocator has no frames, and hands out nothing.
  pub pmm_init_full_memory :
      {t : Pmm} {m : ℕ}
      → pmm_init magic mbi ks ke ≡ done t
      → detect_max_phys mbi ≡ done m
      → 0xFFFFF000 < m
      → (t.total_frames ≡ 0) × (pmm_alloc_frame t ≡ (0, t))
  pmm_init_full_memory {t} {m} e detected top =
      let q = pmm_init-Parts e in
      let same : done q.max_phys ≡ done m = sym q.detected ∙ detected in
      let same' : q.max_phys ≡ m = cc same in
      let walked =
        free_walk-IsValid mbi _ _ _ (all_used q.max_phys) (all_used-IsValid q.max_phys) q.walked in
      let total : t.total_frames ≡ 0 =
        ap (λ (s : Pmm). s.total_frames) q.result
        ∙ reserve-total mbi ks ke (bitmap_bytes q.max_phys) q.freed
        ∙ walked.1
        ∙ omega (arith, total-all_used q.max_phys, detect_max_phys-lt mbi detected) in
      (total, empty (alloc_first_fit t (pmm_init-IsValid e)) total)
    where
      empty : {r : ℕ × Pmm} → Found 0 t.total_frames t r → t.total_frames ≡ 0 → r ≡ (0, t)
      empty (inl (f, inside, _, _, _, _)) none = absurd (omega arith)
      empty (inr (_, zero_at, same)) none = cc
