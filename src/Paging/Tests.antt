-- ===== src/Paging/Tests.antt =====
-- Paging on three frames: an empty directory, and two directories that share a table.
use bobliu_os.Base.{
  ℕ, ◌*◌, ◌/◌, ◌%◌, ◌<◌, ◌≤◌, ◌≡◌, ◌≢◌, ◌⊎◌, refl, arith, [], ◌∷◌, zero, suc, true, get_or, some,
  if◌then◌else◌, ◌==◌, ◌^◌, ltb, Bool-cases, inl, inr,
}
use bobliu_os.Run.{done, halt, paging_oom}
use bobliu_os.Pmm.{Pmm, bit_test}
use bobliu_os.Pmm.Count.{count_free}
use bobliu_os.Pmm.Inv.{IsValid}
use bobliu_os.Pmm.Tests.{three_frames, three_frames-IsValid}
use bobliu_os.Paging.{
  Paging, PageDirectory, load, paging_map, paging_map_in, paging_clone_directory,
  paging_init_identity, translate,
}
use bobliu_os.Paging.Walk.{IsPaged}
use bobliu_os.Paging.Map.{MapsPage, Remaps, paging_map-MapsPage}
use bobliu_os.Paging.Identity.{IsIdentity, paging_init_identity-Identifies}
use bobliu_os.Paging.Clone.{IsClone, paging_clone_directory-IsClone}
use bobliu_os.Paging.Share.{IsSharing, paging_map_in-shared}

-- The directory is the first frame.
abbrev pub empty : Paging
empty = record { mem = λ a. 0; pd = 0; pmm = three_frames }

pub empty-IsPaged : IsPaged 0 (λ a. 0) three_frames
unfolding bit_test
empty-IsPaged = record {
  words = λ a. omega arith;
  frames = three_frames-IsValid;
  aligned = refl;
  root = λ e. absurd (omega (arith, e));
  tables = λ d h odd. absurd (omega (arith, odd));
  apart = λ d e h k odd. absurd (omega (arith, odd));
}

paging_map-MapsPage_example : MapsPage 0 0x2000 (some 5) empty (paging_map 0x2000 0x5000 3 empty)
paging_map-MapsPage_example =
    paging_map-MapsPage 0x2000 0x5000 3 empty empty-IsPaged (omega arith) (omega arith)
      (omega arith)

paging_init_identity-Identifies_example :
    (paging_init_identity empty ≡ halt paging_oom)
    ⊎ ((t : Paging) × (paging_init_identity empty ≡ done t)
        × IsIdentity t.pd 64 empty t
        × ((v : ℕ) → v < 2 ^ 32 → translate t.mem t.pd v ≡ (if ltb v (2 ^ 28) then v else 0)))
paging_init_identity-Identifies_example =
    paging_init_identity-Identifies empty (λ a. omega arith) three_frames-IsValid

abbrev root_directory : PageDirectory
root_directory = record { pd_phys = 0; pd_virt = 0 }

paging_clone_directory-IsClone_example :
    (paging_clone_directory root_directory empty ≡ halt paging_oom)
    ⊎ ((dir : PageDirectory) × (t : Paging) × (paging_clone_directory root_directory empty
          ≡ done (dir, t))
        × IsClone 0 dir.pd_virt empty t)
paging_clone_directory-IsClone_example =
    paging_clone_directory-IsClone root_directory empty empty-IsPaged

-- Two directories, in the frames 0 and 1, whose first entries are the table in frame 2.
abbrev shared_memory : ℕ → ℕ
shared_memory a = if a == 0 then 0x2003 else if a == 0x1000 then 0x2003 else 0

abbrev full : Pmm
full = record { bitmap = 0xFF ∷ []; total_frames = 3; free_frames = 0 }

full-IsValid : IsValid full
unfolding count_free bit_test
full-IsValid = record { small = omega arith; covers = omega arith; bytes = bytes; counted = refl }
  where
    bytes : (i : ℕ) → get_or (0xFF ∷ []) i 0 < 256
    bytes zero = omega arith
    bytes (suc i) = omega arith

abbrev two_directories : Paging
two_directories = record { mem = shared_memory; pd = 0; pmm = full }

-- The entries of both directories.
entry_at :
    (p d : ℕ) → p ≤ 1 → d < 1024 → load shared_memory (p * 4096) d ≡ (if d == 0 then 0x2003 else 0)
entry_at p d hp hd = ground arith

only_first : (p d : ℕ) → p ≤ 1 → d < 1024 → load shared_memory (p * 4096) d % 2 ≡ 1 → d ≡ 0
only_first p d hp hd odd = elim (Bool-cases (d == 0)) [
  | inl e ↦ ground (arith, e)
  | inr e ↦ absurd (ground (arith, e, entry_at p d hp hd, odd))
]

the_entry :
    (p d : ℕ)
    → p ≤ 1
    → d < 1024
    → load shared_memory (p * 4096) d % 2 ≡ 1
    → load shared_memory (p * 4096) d ≡ 0x2003
the_entry p d hp hd odd = let first = only_first p d hp hd odd in ground (arith, entry_at p d hp hd)

shared-IsPaged : (p : ℕ) → p ≤ 1 → IsPaged (p * 4096) shared_memory full
unfolding bit_test
shared-IsPaged p hp = record {
  words = λ a. ground arith;
  frames = full-IsValid;
  aligned = omega arith;
  root = used p hp;
  tables = λ d h odd.
      let e = the_entry p d hp h odd in
      rw e (λ same. omega (arith, same), λ free. omega (arith, free));
  apart = λ d e h k odd odd2 same. omega (arith, only_first p d hp h odd, only_first p e hp k odd2);
}
  where
    used : (p : ℕ) → p ≤ 1 → bit_test (0xFF ∷ []) (p * 4096 / 4096) ≢ 0
    used zero hp e = absurd (omega (arith, e))
    used (suc zero) hp e = absurd (omega (arith, e))
    used (suc (suc p)) hp e = absurd (omega arith)

abbrev second_directory : PageDirectory
second_directory = record { pd_phys = 0x1000; pd_virt = 0x1000 }

directories-IsSharing : IsSharing 0 0x1000 0 two_directories
directories-IsSharing = record {
  old = shared-IsPaged 0 (omega arith);
  new = shared-IsPaged 1 (omega arith);
  here = refl;
  shared = refl;
  roots = λ e. absurd (omega (arith, e));
  no_table = λ e k odd same. absurd (omega (arith, same, the_entry 0 e (omega arith) k odd));
}

paging_map_in-shared_example :
    (t : Paging) × (paging_map_in second_directory 0x2000 0x5000 7 two_directories ≡ done (true, t))
    × Remaps 0x1000 0x2000 (some 5) two_directories t
    × Remaps 0 0x2000 (some 5) two_directories t
paging_map_in-shared_example =
    paging_map_in-shared 0 second_directory two_directories 0x2000 (omega arith)
      directories-IsSharing 0x5000 7 (omega arith) (omega arith)
