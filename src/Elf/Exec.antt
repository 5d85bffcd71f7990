-- ===== src/Elf/Exec.antt =====
-- `user_exec` of kernel/arch/i386/cpu/user_exec.c: the address space of a program is cloned, its file is
-- loaded into it, it is entered and left.
use bobliu_os.Base.{
  arith, ℕ, ◌+◌, ◌-◌, ◌*◌, ◌/◌, ◌^◌, ◌≤◌, ◌<◌, ◌≡◌, ◌⊎◌, refl, ap, ◌∙◌, List, true, Option, none,
  some, inl, inr, take, length,
}
use bobliu_os.Run.{Run, done, halt, heap_oom, paging_oom, ◌>>=◌}
use bobliu_os.Pmm.{Pmm}
use bobliu_os.Pmm.Inv.{IsValid}
use bobliu_os.Pmm.Alloc.{Keeps}
use bobliu_os.Heap.{Heap, kmalloc}
use bobliu_os.Heap.Bump.{IsSound, round_up, kmalloc_aligned-Outcome}
use bobliu_os.Vfs.{VnodeOps, Vfs, vfs_open}
use bobliu_os.Vfs.Reading.{IsOpenAt, Serves}
use bobliu_os.Paging.{Paging, PageDirectory, paging_kernel_directory, paging_switch_directory}
use bobliu_os.Paging.Walk.{IsPaged}
use bobliu_os.Paging.Clone.{IsClone, paging_clone_directory-IsClone}
use bobliu_os.Elf.Image.{ehdr_size, is_elf, ehdr_of, phdr_of}
use bobliu_os.Elf.Slurp.{max_elf}
use bobliu_os.Elf.Load.{
  Space, UserImage, Kernel, with_paging, kmalloc_in, image, elf_load_image, user_exec,
  user_stack_top, is_below_stack,
}
use bobliu_os.Elf.Mapped.{AllSound}
use bobliu_os.Elf.Loads.{IsLoaded, IsChecked, Loads}
use bobliu_os.Elf.Reads.{read_all-take}
use bobliu_os.Elf.Starts.{reading, elf_load_image-Loads}

kept-IsPaged :
    {pd : ℕ} {mem : ℕ → ℕ} {s t : Pmm} → IsPaged pd mem s → Keeps s t → IsValid t → IsPaged pd mem t
kept-IsPaged {pd} {mem} p kept valid = record {
  words = p.words;
  frames = valid;
  aligned = p.aligned;
  root = kept (pd / 4096) p.root;
  tables = λ d h here. let old = p.tables d h here in (old.0, kept _ old.1);
  apart = p.apart;
}

-- Where the image is allocated.
abbrev pub image_at : {V : Type 0} → Kernel V → ℕ
image_at k = round_up k.heap.brk (2 ^ 4)

-- The image of a file: its bytes, up to the bound, and what is behind them.
abbrev pub image_of : {V : Type 0} → (ℕ → ℕ) → List ℕ → Kernel V → ℕ → ℕ
image_of memory file k = image (take max_elf file) (λ i. memory (image_at k + i))

abbrev pub HasSoundHeaders : (ℕ → ℕ) → Type 0
HasSoundHeaders img = AllSound (ehdr_of img).e_phnum 0 (phdr_of img (ehdr_of img).e_phoff)

-- The heap with the frames that the page tables leave.
abbrev pub heap_of : {V : Type 0} → Kernel V → Heap
heap_of k = record k.heap { pmm = k.space.paging.pmm }

-- How a program is entered: the directory is a clone of the kernel's, `program` is the kernel with the
-- program loaded in that directory, whose headers passed the checks, and `enter` runs from there.
pub record Enters {V : Type 0} (size : ℕ) (img : ℕ → ℕ)
    (enter : UserImage → Kernel V → Run (ℕ × Kernel V)) (k : Kernel V)
    (run : Run (Option ℕ × Kernel V)) : Type 0 where
  pub dir : PageDirectory
  pub cloned : Paging
  pub pmm : Pmm
  pub program : Kernel V
  pub clone : IsClone k.space.paging.pd dir.pd_virt k.space.paging cloned
  pub kept : Keeps cloned.pmm pmm
  pub loaded :
      IsLoaded img dir
        (record { paging = record cloned { pmm = pmm }; ram = k.space.ram })
        program.space
  pub checked : IsChecked img size
  pub runs : run ≡ (
      enter
        (record { entry = (ehdr_of img).e_entry; stack_top = user_stack_top })
        (with_paging (paging_switch_directory dir program.space.paging) program)
      >>= λ x. done (
        some x.0,
        with_paging
            (paging_switch_directory (paging_kernel_directory k.space.paging) x.1.space.paging)
            x.1,
      ))

-- The outcome of `user_exec`: the machine halts for want of memory, -1 is given with the kernel's
-- directory in use, or the program is entered.
abbrev pub Executes :
    {V : Type 0}
    → ℕ
    → (ℕ → ℕ)
    → (UserImage → Kernel V → Run (ℕ × Kernel V))
    → Kernel V
    → Run (Option ℕ × Kernel V)
    → Type 0
Executes {V} size img enter k run =
    (run ≡ halt paging_oom)
    ⊎ (run ≡ halt heap_oom)
    ⊎ ((k2 : Kernel V) × (run ≡ done (none, k2)) × (k2.space.paging.pd ≡ k.space.paging.pd))
    ⊎ Enters size img enter k run

module _ (V : Type 0) (ops : VnodeOps V) where
  -- The outcome of `elf_load_image`: no memory for the image, or what the loops come to.
  abbrev Reads : ℕ → (ℕ → ℕ) → PageDirectory → Kernel V → Run (Option UserImage × Kernel V) → Type 0
  Reads size img dir k run =
      (run ≡ halt heap_oom)
      ⊎ ((k2 : Kernel V) × (run ≡ done (none, k2)) × (k2.space ≡ k.space))
      ⊎ ((h : Heap) × (t : Vfs V) × Keeps k.space.paging.pmm h.pmm
          × Loads size img dir (reading V ops h t k) run)

  module _ (memory : ℕ → ℕ) (path : List ℕ) (fd : ℕ) (vn : V) (s : Vfs V) (file : List ℕ)
      (k : Kernel V) (opens : vfs_open ops path k.vfs ≡ done (some fd, s))
      (o : IsOpenAt V ops fd vn 0 s) (v : Serves V ops vn file) (long : ehdr_size ≤ length file)
      (good : is_elf (take ehdr_size file) ≡ true) (sound : IsSound (heap_of k))
      (low : k.heap.brk + (2 ^ 4 - 1) + max_elf < 2 ^ 32)
      (headers : HasSoundHeaders (image_of memory file k)) where
    elf_load_image-Reads :
        (dir : PageDirectory)
        → IsPaged dir.pd_virt k.space.paging.mem k.space.paging.pmm
        → Reads
            (length (take max_elf file))
            (image_of memory file k)
            dir
            k
            (elf_load_image ops memory path dir k)
    unfolding kmalloc kmalloc_in elf_load_image
    elf_load_image-Reads dir paged =
        let head = read_all-take V ops o v long in
        elim (kmalloc_aligned-Outcome max_elf 16 4 28 (heap_of k) sound refl refl low).0 [
          | inl (full, e) ↦ rw (opens, head.1, good, e) (inr (inl (_, refl, refl)))
          | inr (inl (fits, lacks, e)) ↦ rw (opens, head.1, good, e) (inl refl)
          | inr (inr (fits, (h, e, safe, brk, start, end, kept, takes))) ↦
              let loads =
                elf_load_image-Loads V ops memory path dir k fd vn s file (image_at k) h opens o v
                  long good e (kept-IsPaged paged kept safe.frames) headers in
              inr (inr (h, loads.0, kept, loads.1))
        ]

-- The program that is read and loaded is entered.
module _ (V : Type 0) (ops : VnodeOps V) (k : Kernel V) (img : ℕ → ℕ)
    (enter : UserImage → Kernel V → Run (ℕ × Kernel V)) (dir : PageDirectory) (cloned : Paging)
    (c : IsClone k.space.paging.pd dir.pd_virt k.space.paging cloned) where
  left : Option UserImage × Kernel V → Run (Option ℕ × Kernel V)
  left r = elim r.0 [
    | none ↦ done (none, r.1)
    | some u ↦ enter u (with_paging (paging_switch_directory dir r.1.space.paging) r.1) >>= λ x.
        done (
          some x.0,
          with_paging
              (paging_switch_directory (paging_kernel_directory k.space.paging) x.1.space.paging)
              x.1,
        )
  ]

  left-Executes :
      (size : ℕ) (run : Run (Option UserImage × Kernel V))
      → Reads V ops size img dir (with_paging cloned k) run
      → Executes size img enter k (run >>= left)
  unfolding left
  left-Executes size run (inl e) = rw e (inr (inl refl))
  left-Executes size run (inr (inl (k2, e, same))) =
      rw e (inr (inr (inl (k2, refl, ap (λ (x : Space). x.paging.pd) same ∙ c.root))))
  left-Executes size run (inr (inr (h, t, kept, inl e))) = rw e (inl refl)
  left-Executes size run (inr (inr (h, t, kept, inr (inl (pages, g, e, grows))))) =
      rw e (inr (inr (inl (_, refl, grows.root ∙ c.root))))
  left-Executes size run (inr (inr (h, t, kept, inr (inr (space, e, loaded, checked))))) = rw e (
      inr (
        inr (
          inr (record {
            dir = dir;
            cloned = cloned;
            pmm = h.pmm;
            program = record (reading V ops h t (with_paging cloned k)) { space = space };
            clone = c;
            kept = kept;
            loaded = loaded;
            checked = checked;
            runs = refl;
          }))))

module _ (V : Type 0) (ops : VnodeOps V) (enter : UserImage → Kernel V → Run (ℕ × Kernel V))
    (memory : ℕ → ℕ) (path : List ℕ) (fd : ℕ) (vn : V) (s : Vfs V) (file : List ℕ) (k : Kernel V)
    (opens : vfs_open ops path k.vfs ≡ done (some fd, s)) (o : IsOpenAt V ops fd vn 0 s)
    (v : Serves V ops vn file) (long : ehdr_size ≤ length file)
    (good : is_elf (take ehdr_size file) ≡ true) (low : k.heap.brk + (2 ^ 4 - 1) + max_elf < 2 ^ 32)
    (headers : HasSoundHeaders (image_of memory file k)) where
  pub user_exec-Executes :
      IsPaged k.space.paging.pd k.space.paging.mem k.space.paging.pmm
      → IsSound (heap_of k)
      → k.space.paging.pmm.total_frames ≤ 8188
      → k.heap.end ≤ 8188 * 4096
      → Executes
          (length (take max_elf file))
          (image_of memory file k)
          enter
          k
          (user_exec ops enter memory path k)
  unfolding user_exec left paging_kernel_directory
  user_exec-Executes paged sound below under =
      let room : is_below_stack k ≡ true = ground (arith, below, under) in
      elim (paging_clone_directory-IsClone (paging_kernel_directory k.space.paging) k.space.paging
        paged) [
          | inl e ↦ rw (room, e) (inl refl)
          | inr (dir, cloned, e, c) ↦
              rw (room, e)
                (left-Executes V ops k (image_of memory file k) enter dir cloned c
                  (length (take max_elf file)) _
                  (elf_load_image-Reads V ops memory path fd vn s file (with_paging cloned k) opens
                    o v long good
                    (record {
                      started = sound.started;
                      ended = sound.ended;
                      room = sound.room;
                      backed = sound.backed;
                      frames = c.new.frames;
                    })
                    low headers dir c.new))
        ]
