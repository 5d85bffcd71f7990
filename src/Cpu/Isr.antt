-- ===== src/Cpu/Isr.antt =====
-- The handlers of kernel/arch/i386/cpu/isr.c, and the system call of kernel/arch/i386/mm/syscall.c.
-- A report on the console, a fixed text with some of the registers, is an event.
pub mod Dispatch
pub mod Report
use bobliu_os.Base.{
  ℕ, zero, suc, ◌+◌, ◌-◌, ◌^◌, ◌≤◌, ◌<◌, ◌≡◌, ◌≢◌, refl, sym, ap, ◌∙◌, arith, List, [], ◌∷◌, ◌++◌,
  true, false, ltb, leb, ◌==◌, ◌&&◌, if◌then◌else◌, bit_and, get_or, set, Option, none, some,
  length, get_or-set_self, get_or-set_ne, Bool-cases, ==_iff, inl, inr, append-nil, append_assoc,
}
use bobliu_os.Cpu.Pic.{Outb, outb}

pub record Regs : Type 0 where
  pub ds : ℕ
  pub edi : ℕ
  pub esi : ℕ
  pub ebp : ℕ
  pub esp : ℕ
  pub ebx : ℕ
  pub edx : ℕ
  pub ecx : ℕ
  pub eax : ℕ
  pub int_no : ℕ
  pub err_code : ℕ
  pub eip : ℕ
  pub cs : ℕ
  pub eflags : ℕ
  pub useresp : ℕ
  pub ss : ℕ

pub data Event : Type 0 where
  put : ℕ → Event
  report_exit : ℕ → Event
  report_exception : Regs → Event
  report_page_fault : Regs → Event

-- The console, and `g_user_exited`
pub record Console : Type 0 where
  pub events : List Event
  pub user_exited : ℕ

abbrev pub emit : Event → Console → Console
emit e c = record c { events = c.events ++ (e ∷ []) }

unfoldable pub isr128_handler : Regs → Console → Console
isr128_handler r c =
    if r.eax == 1
    then emit (put (bit_and r.ebx 0xFF)) c
    else if r.eax == 2
    then record (emit (report_exit r.useresp) c) { user_exited = 1 }
    else c

-- A handler returns, or halts the processor.
pub data Outcome : Type 0 where
  returned : Console → Outcome
  halted : Console → Outcome

-- `page_fault_handler` reports and does not return.
unfoldable pub isr_handler : Regs → Console → Outcome
isr_handler r c =
    if r.int_no == 14
    then halted (emit (report_page_fault r) c)
    else if r.int_no == 128
    then returned (isr128_handler r c)
    else if ltb r.int_no 32
    then halted (emit (report_exception r) c)
    else returned c

unfoldable pub pic_send_eoi : ℕ → List Outb
pic_send_eoi int_no =
    if leb 0x28 int_no then outb 0xA0 0x20 ∷ outb 0x20 0x20 ∷ [] else outb 0x20 0x20 ∷ []

-- `irq_routines`, of handlers that act on states `S`
abbrev pub Routine : Type 0 → Type 0
Routine S = Option (Regs → S → S)

unfoldable pub irq_install_handler :
    {S : Type 0} → ℕ → (Regs → S → S) → List (Routine S) → List (Routine S)
irq_install_handler irq fn routines = set routines irq (some fn)

unfoldable pub irq_uninstall_handler : {S : Type 0} → ℕ → List (Routine S) → List (Routine S)
irq_uninstall_handler irq routines = set routines irq none

abbrev pub run_routine : {S : Type 0} → Routine S → Regs → S → S
run_routine none r s = s
run_routine (some fn) r s = fn r s

unfoldable pub irq_handler : {S : Type 0} → List (Routine S) → Regs → S → S × List Outb
irq_handler routines r s = (
  if leb 32 r.int_no && ltb r.int_no 48
      then run_routine (get_or routines (r.int_no - 32) none) r s
      else s,
  pic_send_eoi r.int_no,
)

-- The loop of `sys_write`, for `len` characters at `buf`.
unfoldable pub sys_write : (ℕ → ℕ) → ℕ → ℕ → Console → ℕ × Console
sys_write mem buf zero c = (0, c)
sys_write mem buf (suc len) c =
    let rest = sys_write mem (buf + 1) len (emit (put (mem buf)) c) in (rest.0 + 1, rest.1)

unfoldable pub syscall_handle : (ℕ → ℕ) → Regs → Console → Regs × Console
syscall_handle mem r c =
    let write = sys_write mem r.ecx r.edx c in
    if r.eax == 4 then (record r { eax = write.0 }, write.1) else (record r { eax = 2 ^ 32 - 1 }, c)
