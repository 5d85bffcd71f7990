-- ===== src/Cpu/Interrupts.antt =====
-- `interrupts_init` of kernel/arch/i386/interrupts/interrupts.c, and `keyboard_init` of
-- kernel/arch/i386/dev/keyboard.c.
pub mod Masks
use bobliu_os.Base.{
  ℕ, ◌^◌, ◌<◌, ◌≡◌, refl, sym, ap, ◌∙◌, arith, List, [], ◌∷◌, ◌++◌, ltb, ◌==◌, if◌then◌else◌,
  bit_and, get_or, set, none, some, length, get_or-set_self, get_or-set_ne, length-set, Bool-cases,
  inl, inr, subst,
}
use bobliu_os.Word.{u8, not32}
use bobliu_os.Cpu.Gdt.{GdtEntry, gdt_init}
use bobliu_os.Cpu.Idt.{IdtEntry, idt_init}
use bobliu_os.Cpu.Isr.{Regs, Routine, irq_install_handler}
use bobliu_os.Cpu.Pic.{
  Outb, outb, pic1_data, pic2_data, mask_port, pic_remap, pic_clear_mask, written, masked,
  pic_mask-masked,
}
use bobliu_os.Cpu.Timer.{timer_init}

-- The handlers of the two lines in use, and the addresses that the assembly code and the linker give.
pub record Build (S : Type 0) : Type 0 where
  pub timer : Regs → S → S
  pub keyboard : Regs → S → S
  pub isr : ℕ → ℕ
  pub irq : ℕ → ℕ
  pub isr128 : ℕ
  pub gdt_at : ℕ
  pub idt_at : ℕ

-- The tables, the installed handlers, and the writes to the ports so far.
pub record Machine (S : Type 0) : Type 0 where
  pub gdt : List GdtEntry
  pub idt : List IdtEntry
  pub routines : List (Routine S)
  pub writes : List Outb

-- A step reads the ports as the writes before it leave them.
abbrev pub port_step : {S : Type 0} → (ℕ → ℕ) → ((ℕ → ℕ) → List Outb) → Machine S → Machine S
port_step inb step m = record m { writes = m.writes ++ step (written m.writes inb) }

unfoldable pub keyboard_mask : (ℕ → ℕ) → List Outb
keyboard_mask inb = outb 0x21 (bit_and (inb 0x21) (not32 (2 ^ 1))) ∷ []

unfoldable pub keyboard_init : {S : Type 0} → (Regs → S → S) → (ℕ → ℕ) → Machine S → Machine S
keyboard_init keyboard inb m =
    port_step inb keyboard_mask (record m { routines = irq_install_handler 1 keyboard m.routines })

abbrev pub timer_started : {S : Type 0} → (Regs → S → S) → (ℕ → ℕ) → Machine S → Machine S
timer_started timer inb m =
    let started = port_step inb (λ ports. timer_init 100) m in
    record started { routines = irq_install_handler 0 timer started.routines }

unfoldable pub interrupts_init : {S : Type 0} → Build S → (ℕ → ℕ) → Machine S → Machine S
interrupts_init b inb m =
    let tables = record m {
      gdt = (gdt_init b.gdt_at m.gdt).1;
      idt = (idt_init b.isr b.irq b.isr128 b.idt_at m.idt).1;
    } in
    let remapped = port_step inb (pic_remap 0x20 0x28) tables in
    let timer_open = port_step inb (pic_clear_mask 0) remapped in
    let keyboard_open = port_step inb (pic_clear_mask 1) timer_open in
    keyboard_init b.keyboard inb (timer_started b.timer inb keyboard_open)
