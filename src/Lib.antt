-- ===== src/Lib.antt =====
-- Verification of the core of bobliu-os, a 32-bit x86 kernel.
--
-- The kernel starts with the boot information of a multiboot loader. The physical memory manager
-- takes the memory map from it, the heap takes frames from the manager, and the initial ram disk, a
-- tar image that the loader left in memory, is mounted under a small virtual file system. The
-- keyboard driver collects a line and hands it to the shell, which reads files through the virtual
-- file system and prints on the text screen. Interrupts reach the drivers through gates and a table
-- of handlers. Paging gives user programs a directory of their own, into which the loader of ELF
-- files maps them.
--
-- Files and the code that they are about:
--   Base, Word, Int, Run    shared: C arrays as lists, 32-bit words, signed results, and runs that
--                           return, halt the machine or go on for ever
--   Multiboot               kernel/include/arch/i386/multiboot_1.h
--   Pmm                     kernel/arch/i386/mm/pmm.c; Pmm/Init is pmm_init, the other children are
--                           the bitmap, the count, the invariant, ranges, and allocation
--   Heap                    kernel/arch/i386/mm/heap.c
--   Libc/Str, Libc/Mem      libc/string
--   Libc/Print              libc/stdio/sprintf.c (vsnprintf)
--   Libc/Printf             libc/stdio/printf.c: Text is what the conversions print, Parse the format,
--                           Loop printf itself; the other children are their proofs
--   Tty                     kernel/arch/i386/tty.c and kernel/arch/i386/vga.h
--   Keyboard                kernel/arch/i386/dev/keyboard.c; Keyboard/Ps2 is the set-up of the controller,
--                           with pic_unmask_irq1 of kernel/arch/i386/boot/user_bouncing.c
--   Vfs                     kernel/arch/i386/fs/vfs.c and kernel/include/kernel/vfs.h
--   Initrd                  kernel/arch/i386/fs/initrd_vfs.c; Initrd/Listing and
--                           Initrd/Messages are kernel/arch/i386/fs/initrd_tar.c
--   Shell                   kernel/arch/i386/shell/shell.c; Shell/Console is what its commands print, with
--                           kernel/arch/i386/shell/cmd_mem.c and kernel/arch/i386/shell/cmd_alloc.c,
--                           and kernel/arch/i386/shell/panic.c; Shell/Return is the return from a program,
--                           with kernel/arch/i386/interrupts/syscall_exit.c
--   Paging                  kernel/arch/i386/mm/paging.c on a store of words; the children are the
--                           entries' bits, the walk over the tables with its invariant, new
--                           tables, map, unmap, clone, directories that share tables, the pages that a
--                           sequence of mappings adds (Grow), and the identity map (Identity)
--   Cpu/Gdt, Cpu/Idt        kernel/arch/i386/cpu/gdt.c with kernel/arch/i386/tss/tss.c, and
--                           kernel/arch/i386/cpu/idt.c
--   Cpu/Isr                 kernel/arch/i386/cpu/isr.c and kernel/arch/i386/mm/syscall.c; Cpu/Isr/Report is
--                           what the handlers print
--   Cpu/Pic, Cpu/Timer      kernel/arch/i386/dev/pic.c and kernel/arch/i386/dev/timer.c
--   Cpu/Interrupts          kernel/arch/i386/interrupts/interrupts.c
--   Cpu/PageFault           kernel/arch/i386/interrupts/page_fault.c
--   Elf                     kernel/arch/i386/cpu/user_exec.c with kernel/include/kernel/elf.h: Image, Slurp
--                           and Load are the code; Mapped, Stored, Segments, Loads, Starts and Exec follow
--                           it from the loops over pages and bytes up to user_exec. Elf/Old is
--                           kernel/arch/i386/elf/elf.c
--   Vga                     kernel/arch/i386/dev/vga.c
--   Boot                    kernel/arch/i386/boot/multiboot_modules.c,
--                           kernel/arch/i386/shell/multiboot_1.c, and the parsing of numbers of
--                           kernel/arch/i386/shell/cmd_alloc.c
--   Start                   kernel/kernel/kernel.c: kernel_main, which calls the parts above in order;
--                           Start/First joins it to the first user_exec. Start/Early and
--                           Start/Constructors are what runs before it: kernel/arch/i386/cpu/early.c,
--                           kernel/arch/i386/cpu/ssp.c and kernel/arch/i386/cpu/call.c
--
-- A definition has the name of the function that it models. The static variables of a file are a
-- record that an operation takes and gives back; a null pointer or an error code is none; a halt of
-- the processor is a result. Words are numbers below 2^32, and each sum of the source that can wrap
-- wraps here. The vnode operations that the virtual file system calls through pointers are the record
-- VnodeOps, which it takes as a parameter and which the ram disk fills with g_ops. A routine that
-- writes to ports is given what the ports read and returns its writes in order. The addresses of the
-- assembly stubs, the entry to user mode, and the strings that the loader left in memory are
-- parameters too. Page tables are words at physical addresses; a page that the loader of programs
-- fills is reached through them, and an access without a page halts.
--
-- Loops over data recurse on it. The others have fuel, and run out of it as `endless`: the walks over
-- the memory map have a round for each byte of it, since an entry takes four bytes at least; a range
-- of frames has at most 2^20 rounds, and backing the heap at most 2^20 + 1 pages, all that 32 bits
-- hold, so those two never run out; path resolution takes a character in each round. The loop of
-- printf takes a character of the format in each round, so its length is enough; a number of 64 bits has
-- 64 digits at most in any base; mapping a segment has at most 2^20 + 1 pages; reading a file has
-- a round for each byte. The walks over the ram disk and the loops of the shell take their fuel as an
-- argument.
--
-- Not modelled: what kernel_main, the allocator, paging and the loader print as messages, interrupts that
-- arrive while the kernel starts, the control registers, the assembly, the old kernel in kernel_old.c
-- (which is not built), the floating point of printf (which the build leaves out), and the self tests.
-- The polls of the keyboard controller have fuel that is an argument, since the machine decides how long
-- they go on. The page tables and the frames of user pages are two stores, which the frame allocator
-- keeps apart; the heap's memory is read as the loader's image and does not change while a program is
-- loaded. That holds for segments above the identity map of 256 MiB, in a machine whose memory and heap end
-- below the stack's pages, which end at 32 MiB. Other segments, or the stack in a larger memory, would remap
-- addresses through which the kernel reaches its tables and the image: there the model stops, as `outside`,
-- and says nothing. The sample program, at 4 MiB, is such a one. A width or precision of printf of 2^31 - 2
-- or more, for which the int of the field's size overflows, is undefined in the model. A byte of memory that
-- no write reached is an argument where the code reads it, as the last byte of a buffer that snprintf
-- overran.
pub mod Base
pub mod Libc
pub mod Word
pub mod Int
pub mod Run
pub mod Multiboot
pub mod Pmm
pub mod Heap
pub mod Tty
pub mod Keyboard
pub mod Vfs
pub mod Initrd
pub mod Shell
pub mod Paging
pub mod Cpu
pub mod Elf
pub mod Vga
pub mod Boot
pub mod Start
