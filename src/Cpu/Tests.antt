-- ===== src/Cpu/Tests.antt =====
-- The processor's tables and the interrupts on concrete tables, ports and handlers.
use bobliu_os.Base.{
  ◌∷◌, ℕ, ◌+◌, ◌*◌, ◌/◌, ◌%◌, ◌^◌, ◌≡◌, arith, List, [], replicate, length, get_or, none, some,
  if◌then◌else◌, ◌==◌, leb, ◌++◌, length-replicate,
}
use bobliu_os.Paging.Tests.{empty}
use bobliu_os.Cpu.PageFault.{Report, IretFrame}
use bobliu_os.Cpu.Gdt.{GdtEntry, no_entry, gdt_set, Describes, gdt_set-Describes}
use bobliu_os.Cpu.Idt.{IdtEntry, no_gate, IsGate, idt_init, idt_init-Gates}
use bobliu_os.Cpu.Isr.{Regs, Routine, irq_handler, irq_install_handler, irq_uninstall_handler}
use bobliu_os.Cpu.Isr.Dispatch.{irq_handler-Installed}
use bobliu_os.Cpu.Interrupts.Masks.{interrupts_init-masked}
use bobliu_os.Cpu.Pic.{outb, written, masked}
use bobliu_os.Cpu.Interrupts.{Build, Machine, interrupts_init}

abbrev six_entries : List GdtEntry
six_entries = replicate 6 no_entry

gdt_set-Describes_example :
    Describes
      (get_or (gdt_set 5 0x00123456 103 0x89 0x00 six_entries) 5 no_entry)
      0x00123456
      (103 % 2 ^ 20)
      0x89
      (0x00 / 16)
    × (get_or (gdt_set 5 0x00123456 103 0x89 0x00 six_entries) 4 no_entry
        ≡ get_or six_entries 4 no_entry)
gdt_set-Describes_example =
    gdt_set-Describes six_entries 5 4 0x00123456 103 0x89 0x00 (omega arith) (λ e. omega (arith, e))
      (omega arith) (omega arith)

-- Stubs 16 bytes apart.
abbrev isr_stub : ℕ → ℕ
isr_stub n = 0x100000 + 16 * n

abbrev irq_stub : ℕ → ℕ
irq_stub n = 0x101000 + 16 * n

abbrev gates : List IdtEntry
gates = replicate 256 no_gate

-- The stubs of the vectors, which are bytes.
abbrev isr_bytes : ℕ → ℕ
isr_bytes n = isr_stub (n % 256)

abbrev irq_bytes : ℕ → ℕ
irq_bytes n = irq_stub (n % 256)

idt_init-Gates_example :
    ((idt_init isr_bytes irq_bytes 0x102000 0x8000 gates).0.limit + 1
      ≡ 8 * length (idt_init isr_bytes irq_bytes 0x102000 0x8000 gates).1)
    × IsGate 0x102000 0x08 0xEE
        (get_or (idt_init isr_bytes irq_bytes 0x102000 0x8000 gates).1 0x80 no_gate)
idt_init-Gates_example =
    idt_init-Gates isr_bytes irq_bytes 0x102000 0x8000 0x80 gates (length-replicate 256 no_gate)
      (omega arith) (λ i. omega arith) (λ i. omega arith) (omega arith)

-- A handler that counts in the state, and the registers at an interrupt of line 1.
abbrev count_up : Regs → ℕ → ℕ
count_up r n = n + 1

abbrev at_line_one : Regs
at_line_one = record {
  ds = 0x10;
  edi = 0;
  esi = 0;
  ebp = 0;
  esp = 0;
  ebx = 0;
  edx = 0;
  ecx = 0;
  eax = 0;
  int_no = 33;
  err_code = 0;
  eip = 0x100000;
  cs = 8;
  eflags = 0x202;
  useresp = 0;
  ss = 0x10;
}

abbrev no_routines : List (Routine ℕ)
no_routines = replicate 16 none

irq_handler-Installed_example :
    ((irq_handler (irq_install_handler 1 count_up no_routines) at_line_one 7).0 ≡ (
      if 33 == 32 + 1 then count_up at_line_one 7 else (irq_handler no_routines at_line_one 7).0))
    × ((irq_handler (irq_uninstall_handler 1 no_routines) at_line_one 7).0
        ≡ (if 33 == 32 + 1 then 7 else (irq_handler no_routines at_line_one 7).0))
    × ((irq_handler no_routines at_line_one 7).1
        ≡ (if leb 40 33 then outb 0xA0 0x20 ∷ [] else []) ++ (outb 0x20 0x20 ∷ []))
irq_handler-Installed_example =
    irq_handler-Installed no_routines 1 count_up at_line_one 7
      (length-replicate {A = Routine ℕ} 16 none) (omega arith)

abbrev build : Build ℕ
build = record {
  timer = count_up;
  keyboard = count_up;
  isr = isr_stub;
  irq = irq_stub;
  isr128 = 0x102000;
  gdt_at = 0x9000;
  idt_at = 0x8000;
}

-- All lines masked, as the firmware leaves them.
abbrev at_boot : Machine ℕ
at_boot = record { gdt = six_entries; idt = gates; routines = no_routines; writes = [] }

abbrev all_masked : ℕ → ℕ
all_masked p = 0xFF

interrupts_init-masked_example :
    (get_or (interrupts_init build all_masked at_boot).routines 1 none ≡ some count_up)
    × (masked (written (interrupts_init build all_masked at_boot).writes all_masked) 1 ≡ 0)
interrupts_init-masked_example =
    interrupts_init-masked build all_masked at_boot 1 (λ p. omega arith)
      (length-replicate {A = Routine ℕ} 16 none) (omega arith)

abbrev fault : Regs
fault = record {
  ds = 0x10;
  edi = 0;
  esi = 0;
  ebp = 0;
  esp = 0;
  ebx = 0;
  edx = 0;
  ecx = 0;
  eax = 0;
  int_no = 14;
  err_code = 6;
  eip = 0x400000;
  cs = 0x1B;
  eflags = 0x202;
  useresp = 0x2000000;
  ss = 0x23;
}

abbrev report : Report
report = record { vga = record { row = 0; col = 0; color = 7; cells = [] }; paging = empty }

abbrev no_frame : IretFrame
no_frame = record { eip = 0; cs = 0; eflags = 0; esp = 0; ss = 0 }
