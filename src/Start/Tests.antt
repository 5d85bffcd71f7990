-- ===== src/Start/Tests.antt =====
-- A start on a machine with one region of 2 MiB of memory.
use bobliu_os.Base.{ℕ, [], none, false}
use bobliu_os.Multiboot.{MultibootInfo, multiboot1_magic}
use bobliu_os.Pmm.{Pmm}
use bobliu_os.Cpu.Interrupts.{Build}
use bobliu_os.Start.{Loader, System}
use bobliu_os.Pmm.{Pmm}

abbrev info : MultibootInfo
info = record {
  flags = 64;
  mem_upper = 0;
  cmdline = 0;
  mods_count = 0;
  mods = λ i. record { mod_start = 0; mod_end = 0; string = 0 };
  mmap_length = 24;
  mmap_addr = 0x9000;
  entry_at = λ cur. record { size = 20; addr = 0; len = 0x200000; type = 1 };
}

abbrev no_frames : Pmm
no_frames = record { bitmap = []; total_frames = 0; free_frames = 0 }

abbrev loader : Loader
loader = record {
  magic = multiboot1_magic;
  mbi = info;
  kernel_start = 0x100000;
  kernel_end = 0x110000;
  stack_top = 0x105000;
  tss_at = 0x104000;
  inb = λ port. 0;
  string_at = λ a. [];
  memory = λ a. 0;
}

abbrev build : Build ℕ
build = record {
  timer = λ r n. n;
  keyboard = λ r n. n;
  isr = λ i. 0x100000;
  irq = λ i. 0x100100;
  isr128 = 0x100200;
  gdt_at = 0x102000;
  idt_at = 0x103000;
}

-- Every static variable is 0.
abbrev off : System ℕ
off = record {
  boot = record { magic = 0; mbi = none; cmdline = 0 };
  machine = record { gdt = []; idt = []; routines = []; writes = [] };
  tss = record { esp0 = 0; ss0 = 0; iomap_base = 0 };
  paging = record { mem = λ a. 0; pd = 0; pmm = no_frames };
  heap = record { start = 0; end = 0; brk = 0; mapped_end = 0; pmm = no_frames };
  tar = none;
  vfs = record { root = none; fds = [] };
  keyboard = record {
    linebuf = [];
    line_len = 0;
    shift = false;
    caps = false;
    shell_enabled = false;
    e0 = false;
  };
}
