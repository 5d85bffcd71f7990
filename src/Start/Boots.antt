-- ===== src/Start/Boots.antt =====
-- The memory that `kernel_main` of kernel/kernel/kernel.c leaves to the programs.
use bobliu_os.Base.{
  ℕ, ◌/◌, ◌%◌, ◌^◌, ◌<◌, ◌≡◌, ◌≢◌, ◌⊎◌, refl, sym, ap, subst, ◌∙◌, arith, true, ltb, inl, inr,
  if◌then◌else◌, Option, none, some,
}
use bobliu_os.Word.{align_up}
use bobliu_os.Run.{Run, done, halt, paging_oom}
use bobliu_os.Multiboot.{multiboot1_magic, info_mmap}
use bobliu_os.Pmm.{Pmm, bit_test, pmm_alloc_frame}
use bobliu_os.Pmm.Inv.{IsValid}
use bobliu_os.Pmm.Init.{flag, pmm_init}
use bobliu_os.Pmm.Init.Setup.{pmm_init-IsValid}
use bobliu_os.Pmm.Init.Walk.{IsOrderly, pmm_init_returns}
use bobliu_os.Heap.{Heap, heap_init}
use bobliu_os.Heap.Bump.{IsSound}
use bobliu_os.Paging.{Paging, load, translate}
use bobliu_os.Paging.Walk.{IsPaged}
use bobliu_os.Paging.Identity.{paging_init_identity-Identifies}
use bobliu_os.Cpu.Interrupts.{Build, interrupts_init}
use bobliu_os.Cpu.Gdt.{tss_set_kernel_stack}
use bobliu_os.Boot.{ModuleView, multiboot1_init}
use bobliu_os.Start.{
  Loader, System, memory_init, tables_init, with_initrd, initrd_init, kernel_main,
}
use bobliu_os.Start.Frames.{
  IsHeld, IsHeld-kept, alloc-IsAllocated, IsSpared, IsBack, IsBack-free, free_tested-IsSpared,
}

-- A frame that is held is no free one.
apart : {p : ℕ} (s : Pmm) (g : ℕ) → IsHeld p s → bit_test s.bitmap g ≡ 0 → (p ≡ 0) ⊎ (g ≢ p / 4096)
apart s g (inl e) free = inl e
apart s g (inr (f, e, inside, used)) free =
    inr (λ same. used (ap (λ (x : ℕ). bit_test s.bitmap x) (omega (arith, same, e)) ∙ free))

-- Giving a held frame back leaves page tables that were made of free frames.
spared-IsPaged :
    {pd p : ℕ} {mem : ℕ → ℕ} {s t : Pmm} (s0 : Pmm)
    → IsPaged pd mem s
    → IsSpared p s t
    → IsHeld p s0
    → bit_test s0.bitmap (pd / 4096) ≡ 0
    → ((d : ℕ) → d < 1024 → load mem pd d % 2 ≡ 1 → bit_test s0.bitmap (load mem pd d / 4096) ≡ 0)
    → IsPaged pd mem t
spared-IsPaged {pd} {p} {mem} s0 q k held fresh tables = record {
  words = q.words;
  frames = k.valid;
  aligned = q.aligned;
  root = k.others (pd / 4096) (apart s0 (pd / 4096) held fresh) q.root;
  tables = λ d h odd.
      let old = q.tables d h odd in
      (old.0, k.others (load mem pd d / 4096) (apart s0 _ held (tables d h odd)) old.1);
  apart = q.apart;
}

-- Well-formed page tables that map the first 256 MiB to themselves and nothing else, and an empty heap
-- with the frames that they leave.
pub record IsBooted (p : Paging) (h : Heap) : Type 0 where
  pub paged : IsPaged p.pd p.mem p.pmm
  pub identity : (v : ℕ) → v < 2 ^ 32 → translate p.mem p.pd v ≡ (if ltb v (2 ^ 28) then v else 0)
  pub sound : IsSound h
  pub frames : h.pmm ≡ p.pmm
  pub empty : h.brk ≡ 0x00800000

empty_heap :
    (before pmm : Pmm)
    → IsValid pmm
    → let h = record (heap_init 0x00800000 0x00400000 before) { pmm = pmm } in
      IsSound h × (h.pmm ≡ pmm) × (h.brk ≡ 0x00800000)
unfolding heap_init align_up
empty_heap before pmm v = (
  record {
    started = omega arith;
    ended = omega arith;
    room = omega arith;
    backed = omega arith;
    frames = v;
  },
  refl,
  refl,
)

-- The second frame is held after the first is given back.
still-IsHeld :
    {a b : ℕ} {s t : Pmm} (s0 : Pmm)
    → IsSpared a s t
    → IsHeld a s0
    → (b ≡ 0) ⊎ (bit_test s0.bitmap (b / 4096) ≡ 0)
    → IsHeld b s
    → IsHeld b t
still-IsHeld s0 k held fresh (inl e) = inl e
still-IsHeld s0 k held (inl e) (inr h) = inl e
still-IsHeld {a} {b} s0 k held (inr free) (inr (f, e, inside, used)) =
    let frame : b / 4096 ≡ f = omega (arith, e) in
    inr (
      f,
      e,
      omega (arith, inside, k.total),
      k.others f (apart s0 f held (ap (λ (x : ℕ). bit_test s0.bitmap x) (sym frame) ∙ free)) used,
    )

-- The two frames that are taken before the page tables are built are free again.
abbrev pub GivenBack : Pmm → Pmm → Type 0
GivenBack before after =
    let a = pmm_alloc_frame before in
    let b = pmm_alloc_frame a.1 in IsBack a.0 after × IsBack b.0 after

-- The outcome of a start: no frame is left for a page table, or memory is set up.
abbrev pub Boots : Pmm → Run (Paging × Heap) → Type 0
Boots before run =
    (run ≡ halt paging_oom)
    ⊎ ((p : Paging) × (h : Heap) × (run ≡ done (p, h)) × IsBooted p h × GivenBack before p.pmm)

memory_init-Boots :
    (pmm : Pmm) (tables : Paging)
    → ((a : ℕ) → tables.mem a < 2 ^ 32)
    → IsValid pmm
    → Boots pmm (memory_init pmm tables)
unfolding memory_init
memory_init-Boots pmm tables words v =
    let a = pmm_alloc_frame pmm in
    let b = pmm_alloc_frame a.1 in
    let first = alloc-IsAllocated pmm v in
    let second = alloc-IsAllocated a.1 first.valid in
    let held_a = IsHeld-kept a.1 b.1 second.kept second.total first.held in
    elim (paging_init_identity-Identifies (record tables { pmm = b.1 }) words second.valid) [
      | inl e ↦ rw e (inl refl)
      | inr (t, e, i, same) ↦
          let one =
            free_tested-IsSpared a.0 t.pmm i.paged.frames
              (IsHeld-kept b.1 t.pmm i.kept i.total held_a) in
          let held_b =
            still-IsHeld a.1 one.2 first.held second.fresh
              (IsHeld-kept b.1 t.pmm i.kept i.total second.held) in
          let two = free_tested-IsSpared b.0 one.0 one.2.valid held_b in
          let tables_a = spared-IsPaged b.1 i.paged one.2 held_a i.fresh i.fresh_tables in
          rw (e, one.1, two.1)
            (inr (
              _,
              _,
              refl,
              record {
                paged = spared-IsPaged b.1 tables_a two.2 second.held i.fresh i.fresh_tables;
                identity = same;
                sound = (empty_heap t.pmm two.0 two.2.valid).0;
                frames = (empty_heap t.pmm two.0 two.2.valid).1;
                empty = (empty_heap t.pmm two.0 two.2.valid).2;
              },
              (IsBack-free one.0 two.0 a.0 two.2.free one.2.back, two.2.back),
            ))
    ]

-- The ram disk changes no memory.
with_initrd-IsBooted :
    {S : Type 0} (fuel : ℕ) (l : Loader) (o : Option ModuleView) (s : System S)
    → IsBooted s.paging s.heap
    → let t = with_initrd fuel l o s in
      IsBooted t.paging t.heap × (t.tss.esp0 ≡ s.tss.esp0) × (t.paging.pmm ≡ s.paging.pmm)
with_initrd-IsBooted fuel l none s k = (k, refl, refl)
with_initrd-IsBooted fuel l (some m) s k = (k, refl, refl)

pub kernel_main-Boots :
    {S : Type 0} (b : Build S) (fuel : ℕ) (l : Loader) (s : System S)
    → l.magic ≡ multiboot1_magic
    → flag info_mmap l.mbi ≡ true
    → IsOrderly l.mbi
    → ((a : ℕ) → s.paging.mem a < 2 ^ 32)
    → (kernel_main b fuel l s ≡ halt paging_oom)
      ⊎ ((t : System S) × (kernel_main b fuel l s ≡ done t)
          × IsBooted t.paging t.heap
          × (t.tss.esp0 ≡ l.stack_top)
          × ((before : Pmm) × (pmm_init l.magic l.mbi l.kernel_start l.kernel_end ≡ done before)
              × GivenBack before t.paging.pmm))
unfolding kernel_main initrd_init tables_init tss_set_kernel_stack
kernel_main-Boots b fuel l s good map orderly words =
    let (pmm, starts) = pmm_init_returns l.mbi orderly l.kernel_start l.kernel_end map in
    let v = pmm_init-IsValid multiboot1_magic l.mbi l.kernel_start l.kernel_end starts in
    let there : pmm_init l.magic l.mbi l.kernel_start l.kernel_end ≡ done pmm = rw good starts in
    rw there (elim (memory_init-Boots pmm s.paging words v) [
      | inl e ↦ rw e (inl refl)
      | inr (p, h, e, booted, back) ↦ rw e (
          let machine = interrupts_init b l.inb s.machine in
          let boot = multiboot1_init l.magic l.mbi s.boot in
          let k =
            with_initrd-IsBooted fuel l _
              (tables_init b l (record s { boot = boot; machine = machine; paging = p; heap = h }))
              booted in
          inr (_, refl, k.0, k.1, (pmm, refl, subst (λ (x : Pmm). GivenBack pmm x) (sym k.2) back)))
    ])
