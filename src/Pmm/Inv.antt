-- ===== src/Pmm/Inv.antt =====
-- The invariant of the frame allocator, and its preservation by every operation.
use bobliu_os.Base.{
  ℕ, zero, suc, ◌+◌, ◌*◌, ◌/◌, ◌^◌, ◌≤◌, ◌<◌, ◌≡◌, ◌≢◌, refl, arith, inl, inr, ltb, ◌==◌, ◌&&◌, not,
  Bool-cases, length,
}
use bobliu_os.Word.{u32}
use bobliu_os.Pmm.{
  Pmm, frame_size, bit_set, bit_clear, bit_test, count_down, mark_used, mark_free, each_frame,
  max_rounds, mark_used_range, mark_free_range,
}
use bobliu_os.Pmm.Bitmap.{
  AllBytes, bit_set-AllBytes, bit_clear-AllBytes, length-bit_set, length-bit_clear,
}
use bobliu_os.Pmm.Count.{count_free, count_free-le, count_free-bit_set, count_free-bit_clear}

-- The bitmap has a bit for every frame of a 32-bit space, and `g_free_frames` is the number of
-- frames whose bit is 0.
pub record IsValid (s : Pmm) : Type 0 where
  pub small : s.total_frames ≤ 2 ^ 20
  pub covers : s.total_frames ≤ 8 * length s.bitmap
  pub bytes : AllBytes s.bitmap
  pub counted : s.free_frames ≡ count_free s.bitmap s.total_frames

-- One free frame is taken.
abbrev pub taken : ℕ → Pmm → Pmm
taken f s = record s { bitmap = bit_set s.bitmap f; free_frames = count_down s.free_frames }

-- One used frame is given back.
abbrev pub released : ℕ → Pmm → Pmm
released f s = record s { bitmap = bit_clear s.bitmap f; free_frames = u32 (s.free_frames + 1) }

module _ {s : Pmm} (f : ℕ) (v : IsValid s) (inside : f < s.total_frames) where
  byte_inside : f / 8 < length s.bitmap
  byte_inside = omega arith

  pub taken-IsValid : bit_test s.bitmap f ≡ 0 → IsValid (taken f s)
  taken-IsValid free = record {
    small = v.small;
    covers = rw (length-bit_set s.bitmap f) v.covers;
    bytes = λ j. bit_set-AllBytes s.bitmap f j v.bytes byte_inside;
    counted = ground (
      arith,
      v.counted,
      count_free-bit_set s.bitmap f s.total_frames v.bytes byte_inside inside free,
    );
  }

  pub released-IsValid : bit_test s.bitmap f ≢ 0 → IsValid (released f s)
  released-IsValid used = record {
    small = v.small;
    covers = rw (length-bit_clear s.bitmap f) v.covers;
    bytes = λ j. bit_clear-AllBytes s.bitmap f j v.bytes byte_inside;
    counted = ground (
      arith,
      v.counted,
      v.small,
      count_free-bit_clear s.bitmap f s.total_frames v.bytes byte_inside inside used,
      count_free-le (bit_clear s.bitmap f) s.total_frames,
    );
  }

pub mark_used-IsValid : (a : ℕ) {s : Pmm} → IsValid s → IsValid (mark_used a s)
unfolding mark_used
mark_used-IsValid a {s} v =
    elim (Bool-cases
      (ltb (a / frame_size) s.total_frames && (bit_test s.bitmap (a / frame_size) == 0))) [
        | inl e ↦ rw e (taken-IsValid (a / frame_size) v (ground arith) (ground arith))
        | inr e ↦ rw e v
      ]

pub mark_free-IsValid : (a : ℕ) {s : Pmm} → IsValid s → IsValid (mark_free a s)
unfolding mark_free
mark_free-IsValid a {s} v =
    elim (Bool-cases
      (ltb (a / frame_size) s.total_frames && not (bit_test s.bitmap (a / frame_size) == 0))) [
        | inl e ↦ rw e (released-IsValid (a / frame_size) v (ground arith) (ground arith))
        | inr e ↦ rw e v
      ]

each_frame-IsValid :
    (body : ℕ → Pmm → Pmm)
    → ((a : ℕ) (s : Pmm) → IsValid s → IsValid (body a s))
    → (fuel a end : ℕ) (s : Pmm) → IsValid s
    → IsValid (each_frame body fuel a end s)
unfolding each_frame
each_frame-IsValid body keep zero a end s v = v
each_frame-IsValid body keep (suc fuel) a end s v = elim (Bool-cases (ltb a end)) [
  | inl e ↦
      rw e (each_frame-IsValid body keep fuel (u32 (a + frame_size)) end (body a s) (keep a s v))
  | inr e ↦ rw e v
]

pub mark_used_range-IsValid :
    (paddr len : ℕ) {s : Pmm} → IsValid s → IsValid (mark_used_range paddr len s)
unfolding mark_used_range
mark_used_range-IsValid paddr len {s} v =
    each_frame-IsValid mark_used (λ a s. mark_used-IsValid a) max_rounds _ _ s v

pub mark_free_range-IsValid :
    (paddr len : ℕ) {s : Pmm} → IsValid s → IsValid (mark_free_range paddr len s)
unfolding mark_free_range
mark_free_range-IsValid paddr len {s} v =
    each_frame-IsValid mark_free (λ a s. mark_free-IsValid a) max_rounds _ _ s v

-- No range changes the number of frames.
each_frame-total :
    (body : ℕ → Pmm → Pmm)
    → ((a : ℕ) (s : Pmm) → (body a s).total_frames ≡ s.total_frames)
    → (fuel a end : ℕ) (s : Pmm) → (each_frame body fuel a end s).total_frames ≡ s.total_frames
unfolding each_frame
each_frame-total body keep zero a end s = refl
each_frame-total body keep (suc fuel) a end s = elim (Bool-cases (ltb a end)) [
  | inl e ↦ rw (e, each_frame-total body keep fuel (u32 (a + frame_size)) end (body a s)) (keep a s)
  | inr e ↦ rw e
]

mark_used-total : (a : ℕ) (s : Pmm) → (mark_used a s).total_frames ≡ s.total_frames
unfolding mark_used
mark_used-total a s = ground arith

mark_free-total : (a : ℕ) (s : Pmm) → (mark_free a s).total_frames ≡ s.total_frames
unfolding mark_free
mark_free-total a s = ground arith

pub mark_used_range-total :
    (paddr len : ℕ) (s : Pmm) → (mark_used_range paddr len s).total_frames ≡ s.total_frames
unfolding mark_used_range
mark_used_range-total paddr len s = each_frame-total mark_used mark_used-total max_rounds _ _ s

pub mark_free_range-total :
    (paddr len : ℕ) (s : Pmm) → (mark_free_range paddr len s).total_frames ≡ s.total_frames
unfolding mark_free_range
mark_free_range-total paddr len s = each_frame-total mark_free mark_free-total max_rounds _ _ s
