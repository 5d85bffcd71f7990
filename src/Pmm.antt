-- ===== src/Pmm.antt =====
-- The physical frame allocator, kernel/arch/i386/mm/pmm.c: one bit per 4096-byte frame, 1 for used.
-- The bitmap is the list of the bytes at `g_bitmap`. What the routines print is left out.
pub mod Bitmap
pub mod Count
pub mod Inv
pub mod Alloc
pub mod Range
pub mod Init
pub mod Tests
use bobliu_os.Base.{
  ℕ, zero, suc, ◌+◌, ◌-◌, ◌*◌, ◌/◌, ◌^◌, bit_and, bit_or, List, if◌then◌else◌, ltb, leb, ◌==◌, ◌&&◌,
  not, get_or, set,
}
use bobliu_os.Word.{u8, u32, sub32, not32, align_up, align_down}
use bobliu_os.Run.{Run, done, halt, not_aligned, out_of_range, double_free}

abbrev pub frame_size : ℕ
frame_size = 4096

-- `g_bitmap`, `g_total_frames` and `g_free_frames`
pub record Pmm : Type 0 where
  pub bitmap : List ℕ
  pub total_frames : ℕ
  pub free_frames : ℕ

-- `1u << (idx & 7)`
abbrev bit_mask : ℕ → ℕ
bit_mask idx = 2 ^ bit_and idx 7

unfoldable pub bit_set : List ℕ → ℕ → List ℕ
bit_set bitmap idx = set bitmap (idx / 8) (bit_or (get_or bitmap (idx / 8) 0) (u8 (bit_mask idx)))

unfoldable pub bit_clear : List ℕ → ℕ → List ℕ
bit_clear bitmap idx =
    set bitmap (idx / 8) (bit_and (get_or bitmap (idx / 8) 0) (u8 (not32 (bit_mask idx))))

unfoldable pub bit_test : List ℕ → ℕ → ℕ
bit_test bitmap idx = bit_and (get_or bitmap (idx / 8) 0 / bit_mask idx) 1

-- `if (g_free_frames) g_free_frames--`
abbrev pub count_down : ℕ → ℕ
count_down n = if n == 0 then n else n - 1

-- The body of the loop of `mark_used_range`, at the address `a`.
pub mark_used : ℕ → Pmm → Pmm
mark_used a s =
    let f = a / frame_size in
    if ltb f s.total_frames && (bit_test s.bitmap f == 0)
    then record s { bitmap = bit_set s.bitmap f; free_frames = count_down s.free_frames }
    else s

-- The body of the loop of `mark_free_range`.
pub mark_free : ℕ → Pmm → Pmm
mark_free a s =
    let f = a / frame_size in
    if ltb f s.total_frames && not (bit_test s.bitmap f == 0)
    then record s { bitmap = bit_clear s.bitmap f; free_frames = u32 (s.free_frames + 1) }
    else s

-- `for (a = start; a < end; a += FRAME_SIZE)`, with fuel.
pub each_frame : (ℕ → Pmm → Pmm) → ℕ → ℕ → ℕ → Pmm → Pmm
each_frame body zero a end s = s
each_frame body (suc fuel) a end s =
    let rest = each_frame body fuel (u32 (a + frame_size)) end (body a s) in
    if ltb a end then rest else s

-- A 32-bit range holds no more frames than this.
abbrev pub max_rounds : ℕ
max_rounds = 2 ^ 20

unfoldable pub mark_used_range : ℕ → ℕ → Pmm → Pmm
mark_used_range paddr len s =
    each_frame mark_used max_rounds (align_down paddr frame_size)
      (align_up (u32 (paddr + len)) frame_size) s

unfoldable pub mark_free_range : ℕ → ℕ → Pmm → Pmm
mark_free_range paddr len s =
    each_frame mark_free max_rounds (align_up paddr frame_size)
      (align_down (u32 (paddr + len)) frame_size) s

-- The scan of `pmm_alloc_frame` from frame `f`, with `left` frames to go; 0 is out of memory.
pub alloc_scan : ℕ → ℕ → Pmm → ℕ × Pmm
alloc_scan zero f s = (0, s)
alloc_scan (suc left) f s =
    let rest = alloc_scan left (f + 1) s in
    if bit_test s.bitmap f == 0
    then (
      u32 (f * frame_size),
      record s { bitmap = bit_set s.bitmap f; free_frames = count_down s.free_frames },
    )
    else rest

unfoldable pub pmm_alloc_frame : Pmm → ℕ × Pmm
unfolding alloc_scan
pmm_alloc_frame s = alloc_scan s.total_frames 0 s

unfoldable pub pmm_free_frame : ℕ → Pmm → Run Pmm
pmm_free_frame paddr s =
    let f = paddr / frame_size in
    if not (bit_and paddr (frame_size - 1) == 0)
    then halt not_aligned
    else if leb s.total_frames f
    then halt out_of_range
    else if bit_test s.bitmap f == 0
    then halt double_free
    else done (record s { bitmap = bit_clear s.bitmap f; free_frames = u32 (s.free_frames + 1) })

unfoldable pub pmm_total_frames : Pmm → ℕ
pmm_total_frames s = s.total_frames

unfoldable pub pmm_free_frames : Pmm → ℕ
pmm_free_frames s = s.free_frames

unfoldable pub pmm_used_frames : Pmm → ℕ
pmm_used_frames s = sub32 s.total_frames s.free_frames
