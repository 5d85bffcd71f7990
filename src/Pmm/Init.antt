-- ===== src/Pmm/Init.antt =====
-- `pmm_init` and `detect_max_phys`: the allocator as the boot information sets it up.
-- `kernel_start` and `kernel_end` are the addresses of the linker's symbols.
pub mod Reserved
pub mod After
pub mod Setup
pub mod Walk
mod Tests
use bobliu_os.Base.{
  ℕ, zero, suc, ◌+◌, ◌-◌, ◌*◌, ◌/◌, ◌%◌, ◌^◌, if◌then◌else◌, ltb, ◌==◌, not, bit_and, replicate,
  Bool,
}
use bobliu_os.Word.{u32, sub32, align_up}
use bobliu_os.Run.{Run, done, halt, endless, ◌>>=◌, bad_magic, no_mmap, no_memory_map}
use bobliu_os.Multiboot.{
  MmapEntry, MultibootModule, MultibootInfo, multiboot1_magic, info_mem, info_mods, info_mmap,
}
use bobliu_os.Pmm.{Pmm, frame_size, mark_used_range, mark_free_range}

abbrev pub flag : ℕ → MultibootInfo → Bool
flag bit mbi = not (bit_and mbi.flags bit == 0)

-- `cur += e->size + 4`
abbrev pub next_entry : MultibootInfo → ℕ → ℕ
next_entry mbi cur = u32 (cur + u32 ((mbi.entry_at cur).size + 4))

-- The end of the highest available region so far: ends are 64-bit sums.
pub raise_max : MmapEntry → ℕ → ℕ
raise_max e max_end =
    let region_end = (e.addr + e.len) % 2 ^ 64 in
    if e.type == 1 then (if ltb max_end region_end then region_end else max_end) else max_end

pub max_end_walk : MultibootInfo → ℕ → ℕ → ℕ → ℕ → Run ℕ
max_end_walk mbi zero cur end max_end = endless
max_end_walk mbi (suc fuel) cur end max_end =
    let rest =
      max_end_walk mbi fuel (next_entry mbi cur) end (raise_max (mbi.entry_at cur) max_end) in
    if ltb cur end then rest else done max_end

abbrev pub clamp : ℕ → ℕ
clamp m = if ltb 0xFFFFFFFF m then 0xFFFFFFFF else m

-- Every entry is at least four bytes, so the length of the map bounds the rounds.
abbrev pub walk_fuel : MultibootInfo → ℕ
walk_fuel mbi = mbi.mmap_length + 1

abbrev pub map_end : MultibootInfo → ℕ
map_end mbi = u32 (mbi.mmap_addr + mbi.mmap_length)

pub detect_max_phys : MultibootInfo → Run ℕ
detect_max_phys mbi =
    if not (flag info_mmap mbi)
    then (if flag info_mem mbi
        then done (u32 (0x100000 + u32 (mbi.mem_upper * 1024)))
        else halt no_memory_map)
    else do m ← max_end_walk mbi (walk_fuel mbi) mbi.mmap_addr (map_end mbi) 0; done (clamp m)

pub free_entry : MmapEntry → Pmm → Pmm
free_entry e s = if e.type == 1 then mark_free_range (u32 e.addr) (u32 e.len) s else s

-- The loop that frees the available regions.
pub free_walk : MultibootInfo → ℕ → ℕ → ℕ → Pmm → Run Pmm
free_walk mbi zero cur end s = endless
free_walk mbi (suc fuel) cur end s =
    let rest = free_walk mbi fuel (next_entry mbi cur) end (free_entry (mbi.entry_at cur) s) in
    if ltb cur end then rest else done s

-- `for (i = 0; i < mods_count; i++)`, with `left` modules to go.
pub mark_modules : (ℕ → MultibootModule) → ℕ → ℕ → Pmm → Pmm
mark_modules mods zero i s = s
mark_modules mods (suc left) i s =
    let m = mods i in
    mark_modules mods left (i + 1) (mark_used_range m.mod_start (sub32 m.mod_end m.mod_start) s)

-- Every frame used, before any region is freed.
pub all_used : ℕ → Pmm
all_used max_phys =
    let total = u32 (align_up max_phys frame_size / frame_size) in
    record { bitmap = replicate (u32 (total + 7) / 8) 0xFF; total_frames = total; free_frames = 0 }

-- The low megabyte, the kernel, the bitmap and the modules are taken out again.
pub reserve : MultibootInfo → ℕ → ℕ → ℕ → Pmm → Pmm
reserve mbi kernel_start kernel_end bitmap_bytes s =
    let low = mark_used_range 0 0x100000 s in
    let kernel = mark_used_range kernel_start (sub32 kernel_end kernel_start) low in
    let bitmap = mark_used_range (align_up kernel_end 16) bitmap_bytes kernel in
    if flag info_mods mbi then mark_modules mbi.mods mbi.mods_count 0 bitmap else bitmap

unfoldable pub pmm_init : ℕ → MultibootInfo → ℕ → ℕ → Run Pmm
pmm_init magic mbi kernel_start kernel_end =
    if not (magic == multiboot1_magic)
    then halt bad_magic
    else if not (flag info_mmap mbi)
    then halt no_mmap
    else do
      max_phys ← detect_max_phys mbi
      let s = all_used max_phys
      freed ← free_walk mbi (walk_fuel mbi) mbi.mmap_addr (map_end mbi) s
      done (reserve mbi kernel_start kernel_end (u32 (s.total_frames + 7) / 8) freed)
