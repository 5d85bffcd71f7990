-- ===== src/Start.antt =====
-- The start of the kernel, `kernel_main` of kernel/kernel/kernel.c: the order in which the components are
-- set up, and what each gets from those before it. Interrupts that arrive meanwhile are left out.
pub mod Frames
pub mod Boots
pub mod Constructors
pub mod Early
pub mod First
mod Tests
use bobliu_os.Base.{
  ℕ, ◌+◌, ◌-◌, List, [], ◌∷◌, Bool, true, false, not, if◌then◌else◌, ◌==◌, Option, none, some, ◌≡◌,
  refl, arith,
}
use bobliu_os.Word.{u32, sub32}
use bobliu_os.Run.{Run, done, halt, ◌>>=◌}
use bobliu_os.Multiboot.{MultibootInfo}
use bobliu_os.Pmm.{Pmm, pmm_alloc_frame, pmm_free_frame}
use bobliu_os.Pmm.Init.{pmm_init}
use bobliu_os.Heap.{Heap, heap_init}
use bobliu_os.Paging.{Paging, paging_init_identity}
use bobliu_os.Boot.{Boot, ModuleView, multiboot1_init, cmdline_has, mb1_find_module_by_string}
use bobliu_os.Cpu.Gdt.{GdtEntry, Tss, gdt_init, tss_init, tss_set_kernel_stack}
use bobliu_os.Cpu.Idt.{IdtEntry, idt_init}
use bobliu_os.Cpu.Interrupts.{Build, Machine, interrupts_init}
use bobliu_os.Initrd.{Tar}
use bobliu_os.Initrd.Nodes.{Node, vnode_make_dir, g_ops}
use bobliu_os.Vfs.{Vfs, vfs_init}
use bobliu_os.Keyboard.{Keyboard, keyboard_enable_shell}

-- What the loader and the linker give: the boot information, the ends of the kernel, the top of its
-- stack, the task state's place, the ports, and the memory that images and strings are read from.
pub record Loader : Type 0 where
  pub magic : ℕ
  pub mbi : MultibootInfo
  pub kernel_start : ℕ
  pub kernel_end : ℕ
  pub stack_top : ℕ
  pub tss_at : ℕ
  pub inb : ℕ → ℕ
  pub string_at : ℕ → List ℕ
  pub memory : ℕ → ℕ

-- The static variables of the components.
pub record System (S : Type 0) : Type 0 where
  pub boot : Boot
  pub machine : Machine S
  pub tss : Tss
  pub paging : Paging
  pub heap : Heap
  pub tar : Option Tar
  pub vfs : Vfs Node
  pub keyboard : Keyboard

-- `if (a) pmm_free_frame(a)`
abbrev pub free_tested : ℕ → Pmm → Run Pmm
free_tested a pmm = if a == 0 then done pmm else pmm_free_frame a pmm

-- From the allocator on: two frames are taken, the page tables are built, the heap is laid out, and
-- the two frames are given back.
unfoldable pub memory_init : Pmm → Paging → Run (Paging × Heap)
memory_init pmm tables =
    let a = pmm_alloc_frame pmm in
    let b = pmm_alloc_frame a.1 in
    paging_init_identity (record tables { pmm = b.1 }) >>= λ p.
    let heap = heap_init 0x00800000 0x00400000 p.pmm in
    free_tested a.0 p.pmm >>= λ first. free_tested b.0 first >>= λ second.
    done (record p { pmm = second }, record heap { pmm = second })

-- The tables of the processor, with the task state.
unfoldable pub tables_init : {S : Type 0} → Build S → Loader → System S → System S
tables_init b l s =
    let gdt = (gdt_init b.gdt_at s.machine.gdt).1 in
    let task = tss_init l.tss_at s.tss gdt in
    record s {
      machine = record s.machine {
        gdt = task.1;
        idt = (idt_init b.isr b.irq b.isr128 b.idt_at s.machine.idt).1;
      };
      tss = tss_set_kernel_stack l.stack_top task.0;
    }

-- The ram disk, if the loader brought one; `fuel` is that of its searches, which this does not run.
abbrev pub with_initrd : {S : Type 0} → ℕ → Loader → Option ModuleView → System S → System S
with_initrd fuel l none s = s
with_initrd fuel l (some m) s =
    let tar : Tar = record { byte = λ i. l.memory (m.start + i); len = sub32 m.end m.start } in
    record s { tar = some tar; vfs = vfs_init (g_ops tar fuel) (vnode_make_dir []) s.vfs }

unfoldable pub initrd_init : {S : Type 0} → ℕ → Loader → System S → System S
initrd_init fuel l s =
    let name = b'i' ∷ b'n' ∷ b'i' ∷ b't' ∷ b'r' ∷ b'd' ∷ [] in
    with_initrd fuel l (mb1_find_module_by_string l.string_at name s.boot) s

unfoldable pub kernel_main : {S : Type 0} → Build S → ℕ → Loader → System S → Run (System S)
kernel_main b fuel l s =
    let boot = multiboot1_init l.magic l.mbi s.boot in
    let machine = interrupts_init b l.inb s.machine in
    pmm_init l.magic l.mbi l.kernel_start l.kernel_end >>= λ pmm. memory_init pmm s.paging >>= λ m.
    let tables =
      tables_init b l (record s { boot = boot; machine = machine; paging = m.0; heap = m.1 }) in
    let files = initrd_init fuel l tables in
    let enable_shell =
      not (cmdline_has l.string_at boot (b'n' ∷ b'o' ∷ b's' ∷ b'h' ∷ b'e' ∷ b'l' ∷ b'l' ∷ [])) in
    done (record files { keyboard = keyboard_enable_shell enable_shell files.keyboard })
