-- ===== src/Pmm/Init/Walk.antt =====
-- The walks over the memory map end, so that `pmm_init` returns.
use native.Mathlib.Nat.{mod-eq_of_lt}
use bobliu_os.Base.{
  ℕ, zero, suc, ◌+◌, ◌-◌, ◌/◌, ◌^◌, ◌<◌, ◌≡◌, refl, arith, inl, inr, ltb, Bool-cases, true,
}
use bobliu_os.Word.{u32}
use bobliu_os.Run.{done}
use bobliu_os.Multiboot.{MultibootInfo, multiboot1_magic, info_mmap}
use bobliu_os.Pmm.{Pmm}
use bobliu_os.Pmm.Init.{
  flag, walk_fuel, map_end, next_entry, raise_max, max_end_walk, detect_max_phys, free_entry,
  free_walk, all_used, reserve, pmm_init, clamp,
}

-- The map lies in the lower half of the address space, and so does each step of a walk over it.
pub record IsOrderly (mbi : MultibootInfo) : Type 0 where
  pub low : mbi.mmap_addr + mbi.mmap_length < 2 ^ 31
  pub steps : (cur : ℕ) → (mbi.entry_at cur).size < 2 ^ 31 - 4

module _ (mbi : MultibootInfo) (o : IsOrderly mbi) where
  next_entry_eq :
      (cur : ℕ) → cur < 2 ^ 31 → next_entry mbi cur ≡ cur + ((mbi.entry_at cur).size + 4)
  next_entry_eq cur h = omega (arith, o.steps cur)

  max_end_walk-done :
      (fuel cur end m : ℕ)
      → end < 2 ^ 31
      → 0 < fuel
      → end < cur + fuel
      → (r : ℕ) × (max_end_walk mbi fuel cur end m ≡ done r)
  unfolding max_end_walk
  max_end_walk-done zero cur end m low some_fuel enough = absurd (omega arith)
  max_end_walk-done (suc fuel) cur end m low some_fuel enough = elim (Bool-cases (ltb cur end)) [
    | inl more ↦
        let below : cur < end = ground arith in
        rw more (
          max_end_walk-done fuel (next_entry mbi cur) end (raise_max (mbi.entry_at cur) m) low
            (omega arith) (omega (arith, next_entry_eq cur)))
    | inr last ↦ rw last (m, refl)
  ]

  free_walk-done :
      (fuel cur end : ℕ) (s : Pmm)
      → end < 2 ^ 31
      → 0 < fuel
      → end < cur + fuel
      → (r : Pmm) × (free_walk mbi fuel cur end s ≡ done r)
  unfolding free_walk
  free_walk-done zero cur end s low some_fuel enough = absurd (omega arith)
  free_walk-done (suc fuel) cur end s low some_fuel enough = elim (Bool-cases (ltb cur end)) [
    | inl more ↦
        let below : cur < end = ground arith in
        rw more (
          free_walk-done fuel (next_entry mbi cur) end (free_entry (mbi.entry_at cur) s) low
            (omega arith) (omega (arith, next_entry_eq cur)))
    | inr last ↦ rw last (s, refl)
  ]

  -- With a valid magic number and a memory map that is present, lies below 2 GiB and has no entry
  -- that leads out of the address space, `pmm_init` returns.
  pub pmm_init_returns :
      (ks ke : ℕ)
      → flag info_mmap mbi ≡ true
      → (t : Pmm) × (pmm_init multiboot1_magic mbi ks ke ≡ done t)
  unfolding pmm_init detect_max_phys
  pmm_init_returns ks ke map =
      let length_fits : map_end mbi ≡ mbi.mmap_addr + mbi.mmap_length =
        mod-eq_of_lt (omega (arith, o.low)) in
      let (m, found) =
        max_end_walk-done (walk_fuel mbi) mbi.mmap_addr (map_end mbi) 0 (omega (arith, o.low))
          (omega arith) (omega arith) in
      let (freed, walked) =
        free_walk-done (walk_fuel mbi) mbi.mmap_addr (map_end mbi) (all_used (clamp m))
          (omega (arith, o.low)) (omega arith) (omega arith) in
      (
        reserve mbi ks ke (u32 ((all_used (clamp m)).total_frames + 7) / 8) freed,
        rw (map, found, walked),
      )
