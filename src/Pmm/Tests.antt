-- ===== src/Pmm/Tests.antt =====
-- The frame allocator on a state of three frames, the first of them used.
use bobliu_os.Base.{ℕ, ◌<◌, ◌≡◌, refl, arith, [], ◌∷◌, zero, suc, get_or}
use bobliu_os.Pmm.{Pmm, bit_test, bit_set, pmm_alloc_frame, pmm_free_frame}
use bobliu_os.Pmm.Count.{count_free}
use bobliu_os.Pmm.Inv.{IsValid}
use bobliu_os.Pmm.Alloc.{Found, Freed, alloc_first_fit, free_frame_cases}

abbrev pub three_frames : Pmm
three_frames = record { bitmap = 0xF9 ∷ []; total_frames = 3; free_frames = 2 }

abbrev two_used : Pmm
two_used = record { bitmap = 0xFB ∷ []; total_frames = 3; free_frames = 1 }

abbrev all_used : Pmm
all_used = record { bitmap = 0xFF ∷ []; total_frames = 3; free_frames = 0 }

pub three_frames-IsValid : IsValid three_frames
unfolding count_free bit_test
three_frames-IsValid = record {
  small = omega arith;
  covers = omega arith;
  bytes = bytes;
  counted = refl;
}
  where
    bytes : (i : ℕ) → get_or (0xF9 ∷ []) i 0 < 256
    bytes zero = omega arith
    bytes (suc i) = omega arith

alloc_three : pmm_alloc_frame three_frames ≡ (4096, two_used)
unfolding pmm_alloc_frame bit_test bit_set
alloc_three = refl

alloc_two : pmm_alloc_frame two_used ≡ (8192, all_used)
unfolding pmm_alloc_frame bit_test bit_set
alloc_two = refl

alloc_first_fit_example : Found 0 3 three_frames (pmm_alloc_frame three_frames)
alloc_first_fit_example = alloc_first_fit three_frames three_frames-IsValid

free_frame_cases_example : Freed 4097 three_frames (pmm_free_frame 4097 three_frames)
free_frame_cases_example = free_frame_cases 4097 three_frames three_frames-IsValid
