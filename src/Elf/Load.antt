-- ===== src/Elf/Load.antt =====
-- `elf_load_image` and `user_exec` of kernel/arch/i386/cpu/user_exec.c. The frames of user pages are
-- bytes at physical addresses; those of the page tables are the paging's own.
use bobliu_os.Base.{
  ℕ, zero, suc, ◌+◌, ◌-◌, ◌*◌, ◌^◌, List, ◌++◌, Bool, true, false, ◌&&◌, if◌then◌else◌, leb, ltb,
  ◌==◌, Option, none, some, length, get_or, bit_or, bit_and,
}
use bobliu_os.Int.{pos}
use bobliu_os.Word.{u32}
use bobliu_os.Run.{Run, done, halt, endless, page_fault, outside, ◌>>=◌}
use bobliu_os.Heap.{Heap, kmalloc}
use bobliu_os.Paging.{
  Paging, PageDirectory, p_present, p_rw, p_user, load, has, pde_index, pte_index, page_mask,
  translate, paging_alloc_map_in, paging_kernel_directory, paging_switch_directory,
  paging_clone_directory,
}
use bobliu_os.Vfs.{VnodeOps, Vfs, vfs_open, vfs_close}
use bobliu_os.Elf.Image.{
  Phdr, ehdr_size, ehdr_of, phdr_of, is_elf, headers_fit, segment_fits, is_apart, is_loaded,
  align_down, align_up,
}
use bobliu_os.Elf.Slurp.{max_elf, read_all, slurp}

abbrev pub user_stack_top : ℕ
user_stack_top = 0x02000000

abbrev pub user_stack_pages : ℕ
user_stack_pages = 4

-- `user_image_t`
pub record UserImage : Type 0 where
  pub entry : ℕ
  pub stack_top : ℕ

-- The page tables, and the bytes of the user pages.
pub record Space : Type 0 where
  pub paging : Paging
  pub ram : ℕ → ℕ

-- The memory from `img` on, with `bytes` written to it.
abbrev pub image : List ℕ → (ℕ → ℕ) → ℕ → ℕ
image bytes old i = if ltb i (length bytes) then get_or bytes i 0 else old i

-- The loop that maps the pages from `va` up to `end`, with fuel.
unfoldable pub map_pages : ℕ → PageDirectory → ℕ → ℕ → ℕ → Paging → Run (Bool × Paging)
map_pages zero dir va end flags s = if ltb va end then endless else done (true, s)
map_pages (suc fuel) dir va end flags s =
    let more : Bool × Paging → Run (Bool × Paging) = λ r. elim r.0 [
      | false ↦ done (false, r.1)
      | true ↦ map_pages fuel dir (u32 (va + 0x1000)) end flags r.1
    ] in
    if ltb va end then (paging_alloc_map_in dir va flags s >>= more) else done (true, s)

-- A 32-bit space has no more pages than this.
abbrev pub max_pages : ℕ
max_pages = 2 ^ 20 + 1

abbrev pub map_flags : ℕ
map_flags = bit_or (bit_or p_present p_user) p_rw

-- Pages of the identity map would change what the kernel's own addresses mean: a segment that has some is
-- outside the model.
unfoldable pub map_segment : PageDirectory → Phdr → ℕ → Paging → Run (Bool × Paging)
map_segment dir p file_sz s =
    let mapped =
      map_pages max_pages dir (align_down p.p_vaddr) (align_up (u32 (p.p_vaddr + p.p_memsz)))
        map_flags s in
    if is_loaded p
    then if segment_fits p file_sz
      then if is_apart p then mapped else halt outside
      else done (false, s)
    else done (true, s)

-- The loop over the program headers, for `count` of them from `i` on.
unfoldable pub map_segments : ℕ → ℕ → PageDirectory → (ℕ → Phdr) → ℕ → Paging → Run (Bool × Paging)
map_segments zero i dir phdrs file_sz s = done (true, s)
map_segments (suc count) i dir phdrs file_sz s = map_segment dir (phdrs i) file_sz s >>= λ r.
    elim r.0 [ false ↦ done (false, r.1) | true ↦ map_segments count (i + 1) dir phdrs file_sz r.1 ]

unfoldable pub map_stack : ℕ → ℕ → PageDirectory → Paging → Run (Bool × Paging)
map_stack zero i dir s = done (true, s)
map_stack (suc count) i dir s =
    paging_alloc_map_in dir (user_stack_top - i * 0x1000) (bit_or (bit_or p_present p_rw) p_user) s
    >>= λ r. elim r.0 [ false ↦ done (false, r.1) | true ↦ map_stack count (i + 1) dir r.1 ]

-- The address is mapped in the directory in use.
abbrev pub is_mapped : Paging → ℕ → Bool
is_mapped s va =
    let pde = load s.mem s.pd (pde_index va) in
    has p_present pde && has p_present (load s.mem (bit_and pde page_mask) (pte_index va))

-- A byte is stored through the page tables; where no page is mapped, the processor faults.
abbrev pub store_byte : ℕ → ℕ → Space → Run Space
store_byte va v s =
    if is_mapped s.paging va
    then done
        (record s { ram = λ a. if translate s.paging.mem s.paging.pd va == a then v else s.ram a })
    else halt page_fault

-- The pages of a program stand on frames of their own, apart from the tables and the heap, which the callers see
-- to by `is_apart`.
-- The loops over the bytes `b` of a segment, for `count` of them: `source` is what is stored.
unfoldable pub store_bytes : ℕ → ℕ → ℕ → (ℕ → ℕ) → Space → Run Space
store_bytes zero b dst source s = done s
store_bytes (suc count) b dst source s =
    store_byte (u32 (dst + b)) (source b) s >>= store_bytes count (b + 1) dst source

unfoldable pub load_segment : (ℕ → ℕ) → Phdr → Space → Run Space
load_segment img p s =
    let loaded =
      store_bytes p.p_filesz 0 p.p_vaddr (λ b. img (p.p_offset + b)) s
      >>= store_bytes (p.p_memsz - p.p_filesz) p.p_filesz p.p_vaddr (λ b. 0) in
    if is_loaded p then (if is_apart p then loaded else halt outside) else done s

unfoldable pub load_segments : ℕ → ℕ → (ℕ → ℕ) → (ℕ → Phdr) → Space → Run Space
load_segments zero i img phdrs s = done s
load_segments (suc count) i img phdrs s =
    load_segment img (phdrs i) s >>= load_segments count (i + 1) img phdrs

-- The state of the kernel that a start of a program changes.
pub record Kernel (V : Type 0) : Type 0 where
  pub vfs : Vfs V
  pub heap : Heap
  pub space : Space

abbrev pub with_paging : {V : Type 0} → Paging → Kernel V → Kernel V
with_paging p k = record k { space = record k.space { paging = p } }

-- The heap takes its frames from the same allocator as the page tables.
unfoldable pub kmalloc_in : {V : Type 0} → ℕ → Kernel V → Run (Option ℕ × Kernel V)
kmalloc_in size k = kmalloc size (record k.heap { pmm = k.space.paging.pmm }) >>= λ r.
    done (r.0, with_paging (record k.space.paging { pmm = r.1.pmm }) (record k { heap = r.1 }))

-- After the file is read: `bytes` of it are at `img`, with `old` behind them. The kernel's own directory
-- is in use again at the end.
unfoldable pub load_bytes :
    {V : Type 0} → List ℕ → (ℕ → ℕ) → PageDirectory → Kernel V → Run (Option UserImage × Kernel V)
load_bytes {V} bytes old dir k =
    let img = image bytes old in
    let e = ehdr_of img in
    let phdrs = phdr_of img e.e_phoff in
    let kdir = paging_kernel_directory k.space.paging in
    let copied : Kernel V → Run (Option UserImage × Kernel V) = λ mapped.
      load_segments e.e_phnum 0 img phdrs
        (record mapped.space { paging = paging_switch_directory dir mapped.space.paging })
      >>= λ s. done (
        some (record { entry = e.e_entry; stack_top = user_stack_top }),
        record mapped { space = record s { paging = paging_switch_directory kdir s.paging } },
      ) in
    if headers_fit e (length bytes)
    then (map_segments e.e_phnum 0 dir phdrs (length bytes) k.space.paging >>= λ r. elim r.0 [
      | false ↦ done (none, with_paging r.1 k)
      | true ↦ map_stack user_stack_pages 1 dir r.1 >>= λ t. elim t.0 [
        | false ↦ done (none, with_paging t.1 k)
        | true ↦ copied (with_paging t.1 k)
      ]
    ])
    else done (none, k)

-- The frames and the heap end below the four pages of the stack, whose mapping then leaves the addresses of the
-- tables and of the image alone.
abbrev pub is_below_stack : {V : Type 0} → Kernel V → Bool
is_below_stack k =
    let first = user_stack_top - user_stack_pages * 0x1000 in
    leb (k.space.paging.pmm.total_frames * 0x1000) first && leb k.heap.end first

module _ {V : Type 0} (ops : VnodeOps V) where
  abbrev pub closed : ℕ → Kernel V → Kernel V
  closed fd k = record k { vfs = (vfs_close ops (pos fd) k.vfs).1 }

  -- The rest of the file is read behind its header; `memory` is what the heap holds, and `load` is what is
  -- done with the bytes and the memory behind them.
  abbrev pub load_rest :
      (ℕ → ℕ)
      → (List ℕ → (ℕ → ℕ) → Kernel V → Run (Option UserImage × Kernel V))
      → ℕ
      → List ℕ
      → ℕ
      → Kernel V
      → Run (Option UserImage × Kernel V)
  load_rest memory load fd eh img k = slurp ops max_elf (pos fd) ehdr_size k.vfs >>= λ r. elim r.0 [
    | none ↦ done (none, closed fd (record k { vfs = r.1 }))
    | some rest ↦ load (eh ++ rest) (λ i. memory (img + i)) (closed fd (record k { vfs = r.1 }))
  ]

  abbrev pub load_header :
      (ℕ → ℕ)
      → (List ℕ → (ℕ → ℕ) → Kernel V → Run (Option UserImage × Kernel V))
      → ℕ
      → Option (List ℕ)
      → Kernel V
      → Run (Option UserImage × Kernel V)
  load_header memory load fd none k = done (none, closed fd k)
  load_header memory load fd (some eh) k =
      let allocated : Option ℕ × Kernel V → Run (Option UserImage × Kernel V) = λ r. elim r.0 [
        | none ↦ done (none, closed fd r.1)
        | some img ↦ load_rest memory load fd eh img r.1
      ] in
      if is_elf eh then (kmalloc_in max_elf k >>= allocated) else done (none, closed fd k)

  -- The image, or none for -1. `kfree` does nothing.
  unfoldable pub elf_load_image :
      (ℕ → ℕ) → List ℕ → PageDirectory → Kernel V → Run (Option UserImage × Kernel V)
  elf_load_image memory path dir k = vfs_open ops path k.vfs >>= λ o. elim o.0 [
    | none ↦ done (none, record k { vfs = o.1 })
    | some fd ↦ read_all ops (pos fd) ehdr_size o.1 >>= λ r.
        load_header memory (λ bytes old. load_bytes bytes old dir) fd r.0 (record k { vfs = r.1 })
  ]

  -- `enter` stands for the assembly code that runs the program, exec_enter_usermode; none for -1. What is
  -- behind the call runs if it returns: the assembly of this repository leaves to the shell's loop, for
  -- which `enter` is `endless`. A larger memory is outside the model.
  unfoldable pub user_exec :
      (UserImage → Kernel V → Run (ℕ × Kernel V))
      → (ℕ → ℕ)
      → List ℕ
      → Kernel V
      → Run (Option ℕ × Kernel V)
  user_exec enter memory path k =
      let kdir = paging_kernel_directory k.space.paging in
      let run : Run (Option ℕ × Kernel V) = paging_clone_directory kdir k.space.paging >>= λ c.
      elf_load_image memory path c.0 (with_paging c.1 k) >>= λ r. elim r.0 [
        | none ↦ done (none, r.1)
        | some img ↦
            enter img (with_paging (paging_switch_directory c.0 r.1.space.paging) r.1) >>= λ x.
            done (some x.0, with_paging (paging_switch_directory kdir x.1.space.paging) x.1)
      ] in
      if is_below_stack k then run else halt outside
