-- ===== src/Paging.antt =====
-- Page tables, kernel/arch/i386/mm/paging.c with kernel/include/arch/i386/paging.h. Tables are words
-- of memory at the addresses that the code uses, where memory is mapped to itself.
pub mod Entries
pub mod Walk
pub mod Table
pub mod Map
pub mod Grow
pub mod Identity
pub mod Unmap
pub mod Clone
pub mod Share
pub mod Tests
use bobliu_os.Base.{
  ℕ, zero, suc, ◌+◌, ◌-◌, ◌*◌, ◌/◌, ◌^◌, Bool, true, false, not, if◌then◌else◌, ◌==◌, Option, none,
  some, bit_and, bit_or,
}
use bobliu_os.Word.{u32}
use bobliu_os.Run.{Run, done, halt, ◌>>=◌, paging_oom}
use bobliu_os.Pmm.{Pmm, pmm_alloc_frame}

abbrev pub p_present : ℕ
p_present = 1

abbrev pub p_rw : ℕ
p_rw = 2

abbrev pub p_user : ℕ
p_user = 4

abbrev pub pte_count : ℕ
pte_count = 1024

-- `KERNEL_PDE_END`: 256 MiB at 4 MiB for each entry.
abbrev pub kernel_pde_end : ℕ
kernel_pde_end = 64

abbrev pub page_mask : ℕ
page_mask = 0xFFFFF000

-- The word at each address, `g_pd`, and the frames.
pub record Paging : Type 0 where
  pub mem : ℕ → ℕ
  pub pd : ℕ
  pub pmm : Pmm

pub record PageDirectory : Type 0 where
  pub pd_phys : ℕ
  pub pd_virt : ℕ

-- `table[i]` and `table[i] = v` of an array of words.
abbrev pub load : (ℕ → ℕ) → ℕ → ℕ → ℕ
load mem table i = mem (table + 4 * i)

abbrev pub store : ℕ → ℕ → ℕ → (ℕ → ℕ) → ℕ → ℕ
store table i v mem a = if table + 4 * i == a then v else mem a

-- The loop of `alloc_table` from entry `i`, with `left` entries to go.
unfoldable pub clear_table : ℕ → ℕ → ℕ → (ℕ → ℕ) → ℕ → ℕ
clear_table zero i t mem = mem
clear_table (suc left) i t mem = clear_table left (i + 1) t (store t i 0 mem)

unfoldable pub alloc_table : Paging → Run (ℕ × Paging)
alloc_table s =
    let taken = pmm_alloc_frame s.pmm in
    if taken.0 == 0
    then halt paging_oom
    else done (taken.0, record s { mem = clear_table pte_count 0 taken.0 s.mem; pmm = taken.1 })

-- An entry for the page at `addr`, present and writable.
unfoldable pub kernel_entry : ℕ → ℕ
kernel_entry addr = bit_or (bit_or (bit_and addr page_mask) p_present) p_rw

-- The loop over the entries of table `pde` at `pt`.
unfoldable pub fill_table : ℕ → ℕ → ℕ → ℕ → (ℕ → ℕ) → ℕ → ℕ
fill_table zero pte pde pt mem = mem
fill_table (suc left) pte pde pt mem =
    fill_table left (pte + 1) pde pt
      (store pt pte (kernel_entry (u32 (u32 (pde * 0x400000) + u32 (pte * 4096)))) mem)

-- The loop over the directory's entries from `pde`.
unfoldable pub fill_directory : ℕ → ℕ → Paging → Run Paging
fill_directory zero pde s = done s
fill_directory (suc left) pde s = alloc_table s >>= λ r.
    let filled = fill_table pte_count 0 pde r.0 r.1.mem in
    fill_directory left (pde + 1) (record r.1 { mem = store r.1.pd pde (kernel_entry r.0) filled })

unfoldable pub paging_init_identity : Paging → Run Paging
paging_init_identity s =
    alloc_table s >>= λ r. fill_directory kernel_pde_end 0 (record r.1 { pd = r.0 })

unfoldable pub pde_index : ℕ → ℕ
pde_index v = bit_and (v / 2 ^ 22) 0x3FF

unfoldable pub pte_index : ℕ → ℕ
pte_index v = bit_and (v / 2 ^ 12) 0x3FF

abbrev pub has : ℕ → ℕ → Bool
has flag flags = not (bit_and flags flag == 0)

-- The flags that an entry of the directory must have for `need_flags`.
unfoldable pub wanted : ℕ → ℕ
wanted need_flags =
    let user = if has p_user need_flags then bit_or 0 p_user else 0 in
    if has p_rw need_flags then bit_or user p_rw else user

unfoldable pub pde_upgrade : ℕ → ℕ → ℕ → (ℕ → ℕ) → ℕ → ℕ
pde_upgrade pd pdi need_flags mem =
    let want = wanted need_flags in
    let pde = load mem pd pdi in
    if want == 0
    then mem
    else if bit_and pde want == want
    then mem
    else store pd pdi (bit_or pde want) mem

unfoldable pub table_flags : ℕ → ℕ
table_flags need_flags =
    let rw_flags = if has p_rw need_flags then bit_or p_present p_rw else p_present in
    if has p_user need_flags then bit_or rw_flags p_user else rw_flags

-- The table, or none for the null pointer.
unfoldable pub get_or_alloc_pt : ℕ → Bool → ℕ → Paging → Run (Option ℕ × Paging)
get_or_alloc_pt vaddr make need_flags s =
    let pdi = pde_index vaddr in
    let pde = load s.mem s.pd pdi in
    let made : Run (Option ℕ × Paging) = alloc_table s >>= λ r. done (
      some r.0,
      record r.1 {
        mem = store r.1.pd pdi (bit_or (bit_and r.0 page_mask) (table_flags need_flags)) r.1.mem;
      },
    ) in
    if has p_present pde
    then done
        (some (bit_and pde page_mask), record s { mem = pde_upgrade s.pd pdi need_flags s.mem })
    else if not make
    then done (none, s)
    else made

-- What is done with the table, if there is one: true for 0, false for -1.
abbrev pub with_table : (ℕ → Paging → Paging) → Option ℕ × Paging → Run (Bool × Paging)
with_table change (none, s) = done (false, s)
with_table change (some pt, s) = done (true, change pt s)

abbrev pub set_entry : ℕ → ℕ → ℕ → Paging → Paging
set_entry i v pt s = record s { mem = store pt i v s.mem }

unfoldable pub paging_map : ℕ → ℕ → ℕ → Paging → Run (Bool × Paging)
paging_map vaddr paddr flags s =
    let va = bit_and vaddr page_mask in
    let pa = bit_and paddr page_mask in
    get_or_alloc_pt va true flags s
    >>= with_table (set_entry (pte_index va) (bit_or pa (bit_or flags p_present)))

unfoldable pub paging_unmap : ℕ → Paging → Run (Bool × Paging)
paging_unmap vaddr s =
    let va = bit_and vaddr page_mask in
    get_or_alloc_pt va false 0 s >>= with_table (set_entry (pte_index va) 0)

-- Through the directory at `pd`.
unfoldable pub translate : (ℕ → ℕ) → ℕ → ℕ → ℕ
translate mem pd vaddr =
    let pde = load mem pd (pde_index vaddr) in
    let pte = load mem (bit_and pde page_mask) (pte_index vaddr) in
    if not (has p_present pde)
    then 0
    else if not (has p_present pte)
    then 0
    else bit_or (bit_and pte page_mask) (bit_and vaddr 0xFFF)

unfoldable pub paging_translate : ℕ → Paging → ℕ
paging_translate vaddr s = translate s.mem s.pd vaddr

unfoldable pub paging_alloc_map : ℕ → ℕ → Paging → Run (Bool × Paging)
paging_alloc_map vaddr flags s =
    let taken = pmm_alloc_frame s.pmm in
    let t : Paging = record s { pmm = taken.1 } in
    if taken.0 == 0 then done (false, t) else paging_map vaddr taken.0 flags t

unfoldable pub paging_kernel_directory : Paging → PageDirectory
paging_kernel_directory s = record { pd_phys = s.pd; pd_virt = s.pd }

unfoldable pub paging_switch_directory : PageDirectory → Paging → Paging
paging_switch_directory dir s = record s { pd = dir.pd_virt }

unfoldable pub get_or_alloc_pt_in : PageDirectory → ℕ → ℕ → Bool → Paging → Run (Option ℕ × Paging)
get_or_alloc_pt_in dir vaddr flags make s =
    let pdi = pde_index vaddr in
    let pde = load s.mem dir.pd_virt pdi in
    let as_user =
      if has p_user flags
      then (if has p_user pde then s.mem else store dir.pd_virt pdi (bit_or pde p_user) s.mem)
      else s.mem in
    let base = bit_or p_present p_rw in
    let new_flags = if has p_user flags then bit_or base p_user else base in
    let made : Run (Option ℕ × Paging) = alloc_table s >>= λ r. done (
      some r.0,
      record r.1 { mem = store dir.pd_virt pdi (bit_or (bit_and r.0 page_mask) new_flags) r.1.mem },
    ) in
    if has p_present pde
    then done (some (bit_and pde page_mask), record s { mem = as_user })
    else if not make
    then done (none, s)
    else made

unfoldable pub paging_map_in : PageDirectory → ℕ → ℕ → ℕ → Paging → Run (Bool × Paging)
paging_map_in dir vaddr paddr flags s =
    let va = bit_and vaddr page_mask in
    let pa = bit_and paddr page_mask in
    get_or_alloc_pt_in dir va flags true s
    >>= with_table (set_entry (pte_index va) (bit_or (bit_or pa flags) p_present))

unfoldable pub paging_alloc_map_in : PageDirectory → ℕ → ℕ → Paging → Run (Bool × Paging)
paging_alloc_map_in dir vaddr flags s =
    let taken = pmm_alloc_frame s.pmm in
    let t : Paging = record s { pmm = taken.1 } in
    if taken.0 == 0 then done (false, t) else paging_map_in dir vaddr taken.0 flags t

-- The loops that copy the kernel's entries and clear the others, from entry `i`.
unfoldable pub copy_entries : ℕ → ℕ → ℕ → ℕ → (ℕ → ℕ) → ℕ → ℕ
copy_entries zero i from to mem = mem
copy_entries (suc left) i from to mem =
    copy_entries left (i + 1) from to (store to i (load mem from i) mem)

unfoldable pub paging_clone_directory : PageDirectory → Paging → Run (PageDirectory × Paging)
paging_clone_directory src s = alloc_table s >>= λ r.
    let copied = copy_entries kernel_pde_end 0 src.pd_virt r.0 r.1.mem in
    let cleared = clear_table (pte_count - kernel_pde_end) kernel_pde_end r.0 copied in
    done (record { pd_phys = r.0; pd_virt = r.0 }, record r.1 { mem = cleared })
