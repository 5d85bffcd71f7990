-- ===== src/Elf/Loads.antt =====
-- `elf_load_image` of kernel/arch/i386/cpu/user_exec.c from the mapping of the segments on: the address
-- space that a program is started in.
use bobliu_os.Base.{
  ℕ, ◌/◌, ◌^◌, ◌<◌, ◌≡◌, ◌⊎◌, refl, arith, List, Bool, true, false, ◌||◌, Option, none, some,
  Bool-cases, inl, inr, length,
}
use bobliu_os.Run.{Run, done, halt, paging_oom, ◌>>=◌}
use bobliu_os.Paging.{Paging, PageDirectory, paging_switch_directory, paging_kernel_directory}
use bobliu_os.Paging.Walk.{IsPaged}
use bobliu_os.Paging.Grow.{Grows, Grows-none, Grows-then, MapsAll}
use bobliu_os.Elf.Image.{ehdr_of, phdr_of, headers_fit, Phdr}
use bobliu_os.Elf.Load.{
  Space, UserImage, Kernel, image, load_bytes, load_segments, map_segments, map_stack,
  user_stack_pages, user_stack_top, with_paging,
}
use bobliu_os.Elf.Mapped.{
  segments_pages, stack_pages, AllSound, AllFit, map_segments-AllFit, map_segments-MapsAll,
  map_stack-MapsAll,
}
use bobliu_os.Elf.Stored.{IsBacked, peek}
use bobliu_os.Elf.Segments.{contents, load_segments-Writes}

-- The pages of the program and of its stack.
abbrev pub user_pages : (ℕ → ℕ) → ℕ → Bool
user_pages img q =
    let e = ehdr_of img in
    segments_pages e.e_phnum 0 (phdr_of img e.e_phoff) q || stack_pages user_stack_pages 1 q

abbrev pub peek_in : PageDirectory → Paging → (ℕ → ℕ) → ℕ → Option ℕ
peek_in dir g ram =
    peek (record { paging = record { mem = g.mem; pd = dir.pd_virt; pmm = g.pmm }; ram = ram })

-- The program in the space `s` is the one of the image: each of its pages has a frame of its own that was
-- free, with the segments' bytes, and what the frame held where no segment is. All other pages are as
-- they were.
pub record IsLoaded (img : ℕ → ℕ) (dir : PageDirectory) (s t : Space) : Type 0 where
  pub grows : Grows dir.pd_virt (user_pages img) s.paging t.paging
  pub reads :
      (w : ℕ)
      → w < 2 ^ 32
      → user_pages img (w / 4096) ≡ true
      → peek_in dir t.paging t.ram w
        ≡ contents
            (ehdr_of img).e_phnum
            0
            img
            (phdr_of img (ehdr_of img).e_phoff)
            w
            (peek_in dir t.paging s.ram w)

-- The code's checks of the program headers and of the loaded segments against the size of the file.
pub record IsChecked (img : ℕ → ℕ) (size : ℕ) : Type 0 where
  pub headers : headers_fit (ehdr_of img) size ≡ true
  pub segments : AllFit (ehdr_of img).e_phnum 0 (phdr_of img (ehdr_of img).e_phoff) size

-- For a file of `size` bytes, the outcome for a kernel in the state `k`: it halts for want of a frame for a page table; gives the
-- error, having mapped some pages to frames that were free and changed nothing else; or gives the image,
-- with the program in its space and the kernel's own directory in use again, and then the program headers and
-- the segments passed the checks against the size.
abbrev pub Loads :
    {V : Type 0}
    → ℕ
    → (ℕ → ℕ)
    → PageDirectory
    → Kernel V
    → Run (Option UserImage × Kernel V)
    → Type 0
Loads size img dir k run =
    (run ≡ halt paging_oom)
    ⊎ (((pages : ℕ → Bool) × (g : Paging) × (run ≡ done (none, with_paging g k))
          × Grows dir.pd_virt pages k.space.paging g)
        ⊎ ((s : Space) × (run
              ≡ done (
                some (record { entry = (ehdr_of img).e_entry; stack_top = user_stack_top }),
                record k { space = s },
              ))
            × IsLoaded img dir k.space s
            × IsChecked img size))

-- What the mapping loops leave is the space that the copying loops need.
Grows-IsBacked :
    (dir : PageDirectory) {pages : ℕ → Bool} {s t : Paging}
    → Grows dir.pd_virt pages s t
    → IsBacked (paging_switch_directory dir t) pages
unfolding paging_switch_directory
Grows-IsBacked dir g = record {
  words = g.paged.words;
  stands = λ p h e. let n = g.new p h e in (n.0, n.1);
  apart = g.apart;
}

module _ {V : Type 0} (bytes : List ℕ) (old : ℕ → ℕ) (dir : PageDirectory) (k : Kernel V) where
  abbrev img : ℕ → ℕ
  img = image bytes old

  abbrev phdrs : ℕ → Phdr
  phdrs = phdr_of img (ehdr_of img).e_phoff

  abbrev copied : Kernel V → Run (Option UserImage × Kernel V)
  copied mapped =
      load_segments (ehdr_of img).e_phnum 0 img phdrs
        (record mapped.space { paging = paging_switch_directory dir mapped.space.paging })
      >>= λ s. done (
        some (record { entry = (ehdr_of img).e_entry; stack_top = user_stack_top }),
        record mapped {
          space = record s {
            paging = paging_switch_directory (paging_kernel_directory k.space.paging) s.paging;
          };
        },
      )

  copied-Loads :
      (t : Paging)
      → Grows dir.pd_virt (user_pages img) k.space.paging t
      → AllSound (ehdr_of img).e_phnum 0 phdrs
      → IsChecked img (length bytes)
      → Loads (length bytes) img dir k (copied (with_paging t k))
  unfolding paging_switch_directory paging_kernel_directory
  copied-Loads t g sound checked =
      let w =
        load_segments-Writes (Grows-IsBacked dir g) img (ehdr_of img).e_phnum 0 phdrs k.space.ram
          sound (λ q e. ground (arith, e)) in
      rw w.runs (
        inr (
          inr (
            _,
            refl,
            record {
              grows = record {
                root = refl;
                paged = g.paged;
                kept = g.kept;
                new = g.new;
                apart = g.apart;
                old = g.old;
              };
              reads = w.reads;
            },
            checked,
          )))

  -- A run that maps more pages, and what follows it.
  mapped_then :
      {a b : ℕ → Bool} {t : Paging} (run : Run (Bool × Paging))
      (next : Bool × Paging → Run (Option UserImage × Kernel V))
      → Grows dir.pd_virt a k.space.paging t
      → MapsAll dir.pd_virt b t run
      → ((u : Paging) → next (false, u) ≡ done (none, with_paging u k))
      → ((u : Paging)
          → run ≡ done (true, u)
          → Grows dir.pd_virt (λ q. a q || b q) k.space.paging u
          → Loads (length bytes) img dir k (next (true, u)))
      → Loads (length bytes) img dir k (run >>= next)
  mapped_then run next g (inl e) stop more = rw e (inl refl)
  mapped_then run next g (inr (inl (u, c, e, h, within))) stop more =
      rw (e, stop u) (inr (inl (_, u, refl, Grows-then g h)))
  mapped_then run next g (inr (inr (u, e, h))) stop more = rw e (more u e (Grows-then g h))

  pub load_bytes_all :
      IsPaged dir.pd_virt k.space.paging.mem k.space.paging.pmm
      → AllSound (ehdr_of img).e_phnum 0 phdrs
      → Loads (length bytes) img dir k (load_bytes bytes old dir k)
  unfolding load_bytes
  load_bytes_all paged sound = elim (Bool-cases (headers_fit (ehdr_of img) (length bytes))) [
    | inr e ↦ rw e (inr (inl (_, _, refl, Grows-none paged)))
    | inl e ↦ rw e (
        mapped_then (map_segments (ehdr_of img).e_phnum 0 dir phdrs (length bytes) k.space.paging) _
          (Grows-none paged)
          (map_segments-MapsAll (ehdr_of img).e_phnum 0 dir phdrs (length bytes) k.space.paging
            paged sound)
          (λ u. refl)
          (λ u ran g.
            mapped_then (map_stack user_stack_pages 1 dir u) _ g
              (map_stack-MapsAll user_stack_pages 1 dir u g.paged (omega arith) (omega arith))
              (λ t. refl)
              (λ t _ h. copied-Loads t h sound (record {
                headers = e;
                segments =
                    map_segments-AllFit (ehdr_of img).e_phnum 0 dir phdrs (length bytes) _ u ran;
              }))))
  ]
