-- ===== src/Pmm/Range.antt =====
-- `mark_used_range` and `mark_free_range`: which frames a byte range touches, and which it covers.
use native.Mathlib.Nat.{mod-eq_of_lt}
use bobliu_os.Base.{
  ℕ, zero, suc, ◌+◌, ◌*◌, ◌/◌, ◌^◌, ◌<◌, ◌≡◌, refl, ◌∙◌, arith, inl, inr, if◌then◌else◌, ltb, leb,
  ◌==◌, ◌&&◌, not, Bool-cases, length, Bool,
}
use bobliu_os.Word.{u32}
use bobliu_os.Word.Align.{align_up_frame, align_down_frame}
use bobliu_os.Pmm.{
  Pmm, frame_size, bit_test, mark_used, mark_free, each_frame, max_rounds, mark_used_range,
  mark_free_range,
}
use bobliu_os.Pmm.Bitmap.{bit_test-bit_set, bit_test-bit_clear, bit_test_bit}
use bobliu_os.Pmm.Inv.{IsValid, mark_used-IsValid, mark_free-IsValid}

-- Frame `j` is one of the allocator's, from frame `lo` to below frame `hi`.
abbrev pub in_frames : ℕ → ℕ → Pmm → ℕ → Bool
in_frames lo hi s j = leb lo j && (ltb j hi && ltb j s.total_frames)

-- `t` differs from `s` in that the frames of `[lo, hi)` show `value`.
pub record IsMarked (value lo hi : ℕ) (s t : Pmm) : Type 0 where
  pub total : t.total_frames ≡ s.total_frames
  pub bits :
      (j : ℕ) → bit_test t.bitmap j ≡ (if in_frames lo hi s j then value else bit_test s.bitmap j)

mark_used-IsMarked :
    (f : ℕ) (s : Pmm) → IsValid s → IsMarked 1 f (f + 1) s (mark_used (f * frame_size) s)
unfolding mark_used
mark_used-IsMarked f s v =
    let here : f * frame_size / frame_size ≡ f = omega arith in
    rw here (elim (Bool-cases (ltb f s.total_frames && (bit_test s.bitmap f == 0))) [
      | inl e ↦ rw e (record {
        total = refl;
        bits = λ j.
            ground
              (arith, bit_test-bit_set s.bitmap f j v.bytes (omega (arith, inside (ground arith))));
      })
      | inr e ↦ rw e (record {
        total = refl;
        bits = λ j. ground (arith, bit_test_bit s.bitmap f, bit_test_bit s.bitmap j);
      })
    ])
  where
    inside : f < s.total_frames → f / 8 < length s.bitmap
    inside h = omega (arith, v.covers)

mark_free-IsMarked :
    (f : ℕ) (s : Pmm) → IsValid s → IsMarked 0 f (f + 1) s (mark_free (f * frame_size) s)
unfolding mark_free
mark_free-IsMarked f s v =
    let here : f * frame_size / frame_size ≡ f = omega arith in
    rw here (elim (Bool-cases (ltb f s.total_frames && not (bit_test s.bitmap f == 0))) [
      | inl e ↦ rw e (record {
        total = refl;
        bits = λ j.
            ground (
              arith,
              bit_test-bit_clear s.bitmap f j v.bytes (omega (arith, inside (ground arith))),
            );
      })
      | inr e ↦ rw e (record {
        total = refl;
        bits = λ j. ground (arith, bit_test_bit s.bitmap f, bit_test_bit s.bitmap j);
      })
    ])
  where
    inside : f < s.total_frames → f / 8 < length s.bitmap
    inside h = omega (arith, v.covers)

-- The loop marks frame by frame, and the fuel is enough for every range of a 32-bit space.
module _ (value : ℕ) (body : ℕ → Pmm → Pmm)
    (keep : (a : ℕ) (s : Pmm) → IsValid s → IsValid (body a s))
    (marks : (f : ℕ) (s : Pmm)
      → IsValid s
      → IsMarked value f (f + 1) s (body (f * frame_size) s)) where
  each_frame-IsMarked :
      (fuel lo hi : ℕ) (s : Pmm)
      → IsValid s
      → hi < 2 ^ 20
      → hi < fuel + lo
      → IsMarked value lo hi s (each_frame body fuel (lo * frame_size) (hi * frame_size) s)
  unfolding each_frame
  each_frame-IsMarked zero lo hi s v small enough = record {
    total = refl;
    bits = λ j. ground arith;
  }
  each_frame-IsMarked (suc fuel) lo hi s v small enough =
      elim (Bool-cases (ltb (lo * frame_size) (hi * frame_size))) [
        | inr e ↦ rw e (record { total = refl; bits = λ j. ground arith })
        | inl e ↦
            let next : u32 (lo * frame_size + frame_size) ≡ (lo + 1) * frame_size = ground arith in
            let one = marks lo s v in
            let rest =
              each_frame-IsMarked fuel (lo + 1) hi (body (lo * frame_size) s)
                (keep (lo * frame_size) s v) small (omega arith) in
            rw (e, next)
              (record {
                total = rest.total ∙ one.total;
                bits = λ j. ground (arith, rest.bits j, one.bits j, one.total);
              })
      ]

-- Of a valid allocator and a range whose end, rounded up to a frame, is below 2^32: `mark_used_range`
-- uses every frame that a byte of `[paddr, paddr + len)` lies in, and changes no other.
pub mark_used_range-IsMarked :
    (paddr len : ℕ) (s : Pmm)
    → IsValid s
    → paddr + len + 4095 < 2 ^ 32
    → IsMarked 1 (paddr / 4096) ((paddr + len + 4095) / 4096) s (mark_used_range paddr len s)
unfolding mark_used_range
mark_used_range-IsMarked paddr len s v fits =
    let sum : u32 (paddr + len) ≡ paddr + len = mod-eq_of_lt (omega arith) in
    let up : u32 (paddr + len + 4095) ≡ paddr + len + 4095 = mod-eq_of_lt fits in
    rw (align_down_frame paddr (omega arith), sum, align_up_frame (paddr + len), up)
      (each_frame-IsMarked 1 mark_used (λ a s. mark_used-IsValid a) mark_used-IsMarked max_rounds
        (paddr / 4096) ((paddr + len + 4095) / 4096) s v (omega arith) (omega arith))

-- `mark_free_range` frees every frame that lies wholly in `[paddr, paddr + len)`, and no other.
pub mark_free_range-IsMarked :
    (paddr len : ℕ) (s : Pmm)
    → IsValid s
    → paddr + len < 2 ^ 32
    → paddr + 4095 < 2 ^ 32
    → IsMarked 0 ((paddr + 4095) / 4096) ((paddr + len) / 4096) s (mark_free_range paddr len s)
unfolding mark_free_range
mark_free_range-IsMarked paddr len s v fits fits' =
    let sum : u32 (paddr + len) ≡ paddr + len = mod-eq_of_lt fits in
    let up : u32 (paddr + 4095) ≡ paddr + 4095 = mod-eq_of_lt fits' in
    rw (sum, align_down_frame (paddr + len) fits, align_up_frame paddr, up)
      (each_frame-IsMarked 0 mark_free (λ a s. mark_free-IsValid a) mark_free-IsMarked max_rounds
        ((paddr + 4095) / 4096) ((paddr + len) / 4096) s v (omega arith) (omega arith))
