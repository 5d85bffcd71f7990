-- ===== src/Elf/Old.antt =====
-- The loader of kernel/arch/i386/elf/elf.c, which nothing calls. It reads a file as `elf_load_image` of
-- kernel/arch/i386/cpu/user_exec.c does, and maps and copies each segment at once.
use bobliu_os.Base.{
  ℕ, zero, suc, ◌+◌, ◌-◌, ◌*◌, ◌/◌, ◌^◌, ◌<◌, ◌≡◌, ◌⊎◌, refl, sym, ap, subst, ◌∙◌, arith, List,
  Bool, true, false, if◌then◌else◌, ◌==◌, Option, none, some, inl, inr, bit_or,
}
use bobliu_os.Int.{pos}
use bobliu_os.Word.{u32}
use bobliu_os.Run.{Run, done, halt, outside, ◌>>=◌, paging_oom}
use bobliu_os.Paging.{Paging, PageDirectory, p_present, p_rw, p_user}
use bobliu_os.Paging.Walk.{IsPaged}
use bobliu_os.Paging.Grow.{Grows, MapsAll, page_frame}
use bobliu_os.Vfs.{VnodeOps, vfs_open}
use bobliu_os.Elf.Image.{Phdr, is_apart, pt_load, ehdr_size, ehdr_of, phdr_of, align_down, align_up}
use bobliu_os.Elf.Mapped.{segment_pages, segment_ends, IsSound, IsSound-is_apart, map_pages_all}
use bobliu_os.Elf.Stored.{IsBacked, put, peek}
use bobliu_os.Elf.Segments.{segment_byte, copy-Writes}
use bobliu_os.Elf.Slurp.{read_all}
use bobliu_os.Elf.Load.{
  Space, UserImage, Kernel, user_stack_top, user_stack_pages, image, map_pages, max_pages,
  map_stack, store_bytes, load_header,
}

abbrev pub with_tables : Paging → Space → Space
with_tables p s = record s { paging = p }

-- The bytes of a segment are copied in the directory in use, whichever that is.
unfoldable pub copy_phdr : (ℕ → ℕ) → Phdr → Space → Run Space
copy_phdr img p s =
    store_bytes p.p_filesz 0 p.p_vaddr (λ b. img (p.p_offset + b)) s
    >>= store_bytes (p.p_memsz - p.p_filesz) p.p_filesz p.p_vaddr (λ b. 0)

-- The body of the loop over the program headers.
unfoldable pub load_phdr : PageDirectory → (ℕ → ℕ) → Phdr → Space → Run (Bool × Space)
load_phdr dir img p s =
    let flags = bit_or (bit_or p_present p_rw) p_user in
    let mapped =
      map_pages max_pages dir (align_down p.p_vaddr) (align_up (u32 (p.p_vaddr + p.p_memsz))) flags
        s.paging
      >>= λ r. elim r.0 [
        | false ↦ done (false, with_tables r.1 s)
        | true ↦ copy_phdr img p (with_tables r.1 s) >>= λ t. done (true, t)
      ] in
    if p.p_type == pt_load then (if is_apart p then mapped else halt outside) else done (true, s)

unfoldable pub load_phdrs :
    ℕ → ℕ → PageDirectory → (ℕ → ℕ) → (ℕ → Phdr) → Space → Run (Bool × Space)
load_phdrs zero i dir img phdrs s = done (true, s)
load_phdrs (suc count) i dir img phdrs s = load_phdr dir img (phdrs i) s >>= λ r. elim r.0 [
  | false ↦ done (false, r.1)
  | true ↦ load_phdrs count (i + 1) dir img phdrs r.1
]

-- The headers are not checked against the size of the file.
unfoldable pub load_unchecked :
    {V : Type 0} → List ℕ → (ℕ → ℕ) → PageDirectory → Kernel V → Run (Option UserImage × Kernel V)
load_unchecked bytes old dir k =
    let img = image bytes old in
    let e = ehdr_of img in
    load_phdrs e.e_phnum 0 dir img (phdr_of img e.e_phoff) k.space >>= λ r. elim r.0 [
      | false ↦ done (none, record k { space = r.1 })
      | true ↦ map_stack user_stack_pages 1 dir r.1.paging >>= λ t. elim t.0 [
        | false ↦ done (none, record k { space = with_tables t.1 r.1 })
        | true ↦ done (
          some (record { entry = e.e_entry; stack_top = user_stack_top }),
          record k { space = with_tables t.1 r.1 },
        )
      ]
    ]

unfoldable pub elf_load_from_vfs :
    {V : Type 0}
    → VnodeOps V
    → (ℕ → ℕ)
    → List ℕ
    → PageDirectory
    → Kernel V
    → Run (Option UserImage × Kernel V)
elf_load_from_vfs ops memory path dir k = vfs_open ops path k.vfs >>= λ o. elim o.0 [
  | none ↦ done (none, record k { vfs = o.1 })
  | some fd ↦ read_all ops (pos fd) ehdr_size o.1 >>= λ r.
      load_header ops memory (λ bytes old. load_unchecked bytes old dir) fd r.0
        (record k { vfs = r.1 })
]

-- The pages that a run of the mapping loop left to the directory in use.
Grows-Backed : {pages : ℕ → Bool} {s t : Paging} → Grows s.pd pages s t → IsBacked t pages
Grows-Backed {pages} {s} {t} g =
    let moved : (q : ℕ) → page_frame t.pd t q ≡ page_frame s.pd t q =
      λ q. ap (λ (x : ℕ). page_frame x t q) g.root in
    record {
      words = g.paged.words;
      stands = λ p h e. let n = g.new p h e in (n.0, moved p ∙ n.1);
      apart = λ p q h k a b e. g.apart p q h k a b (sym (moved p) ∙ e ∙ moved q);
    }

-- The outcome for a segment: no frame for a page table; pages that got no frame; or the segment in the
-- address space in use, each of its pages on a frame of its own that was free.
abbrev pub LoadsSegment : (ℕ → ℕ) → Phdr → Space → Run (Bool × Space) → Type 0
LoadsSegment img p s run =
    (run ≡ halt paging_oom)
    ⊎ (((pages : ℕ → Bool) × (g : Paging) × (run ≡ done (false, with_tables g s))
          × Grows s.paging.pd pages s.paging g)
        ⊎ ((t : Space) × (run ≡ done (true, t))
            × Grows s.paging.pd (segment_pages p) s.paging t.paging
            × ((w : ℕ)
                → w < 2 ^ 32
                → segment_pages p (w / 4096) ≡ true
                → peek t w
                  ≡ put p.p_vaddr (p.p_vaddr + p.p_memsz) (segment_byte img p) w
                      (peek (with_tables t.paging s) w))))

-- A segment that is loaded into the directory in use, which ends below 2^32 and has no more of the file than its
-- size: no page fault is met, the pages are mapped, and then hold the file's part and zeros.
pub load_phdr-LoadsSegment :
    (dir : PageDirectory) (img : ℕ → ℕ) (p : Phdr) (s : Space)
    → dir.pd_virt ≡ s.paging.pd
    → IsPaged s.paging.pd s.paging.mem s.paging.pmm
    → (p.p_type == pt_load) ≡ true
    → IsSound p
    → LoadsSegment img p s (load_phdr dir img p s)
unfolding load_phdr copy_phdr
load_phdr-LoadsSegment dir img p s same paged loads o =
    let ends = segment_ends p o in
    let flags : ℕ = bit_or (bit_or p_present p_rw) p_user in
    let maps : MapsAll dir.pd_virt (segment_pages p) s.paging (
        map_pages max_pages dir (p.p_vaddr / 4096 * 4096)
          ((p.p_vaddr + p.p_memsz + 4095) / 4096 * 4096) flags s.paging) =
      map_pages_all max_pages dir (p.p_vaddr / 4096) ((p.p_vaddr + p.p_memsz + 4095) / 4096) flags
        s.paging (rw same paged) (omega (arith, o.ends)) (omega arith) (omega (arith, o.ends)) in
    rw (loads, IsSound-is_apart p o, ends.0, ends.1)
      (elim maps [
        | inl e ↦ rw e (inl refl)
        | inr (inl (t, c, e, g, within)) ↦
            rw e (inr (inl (c, t, refl, subst (λ (x : ℕ). Grows x c s.paging t) same g)))
        | inr (inr (t, e, g)) ↦
            let h : Grows s.paging.pd (segment_pages p) s.paging t =
              subst (λ (x : ℕ). Grows x (segment_pages p) s.paging t) same g in
            let w = copy-Writes (Grows-Backed h) img p s.ram o (λ q there. there) in
            rw (e, w.runs) (inr (inr (_, refl, h, w.reads)))
      ])
