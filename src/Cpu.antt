-- ===== src/Cpu.antt =====
-- The processor's tables and the interrupts: kernel/arch/i386/cpu, kernel/arch/i386/tss,
-- kernel/arch/i386/interrupts and kernel/arch/i386/dev.
pub mod Gdt
pub mod Idt
pub mod Isr
pub mod Pic
pub mod Timer
pub mod PageFault
pub mod Interrupts
mod Tests
