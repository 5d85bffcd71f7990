-- ===== src/Cpu/Isr/Dispatch.antt =====
-- What the handlers of kernel/arch/i386/cpu/isr.c and kernel/arch/i386/mm/syscall.c do at an interrupt.
use bobliu_os.Base.{
  ℕ, zero, suc, ◌+◌, ◌-◌, ◌^◌, ◌≤◌, ◌<◌, ◌≡◌, ◌≢◌, refl, sym, ap, ◌∙◌, arith, List, [], ◌∷◌, ◌++◌,
  true, false, ltb, leb, ◌==◌, ◌&&◌, if◌then◌else◌, get_or, set, none, some, length,
  get_or-set_self, get_or-set_ne, Bool-cases, ==_iff, inl, inr, append-nil, append_assoc,
}
use bobliu_os.Cpu.Pic.{outb}
use bobliu_os.Cpu.Isr.{
  Regs, Event, put, report_exception, report_page_fault, Console, emit, isr128_handler, returned,
  halted, isr_handler, pic_send_eoi, Routine, irq_install_handler, irq_uninstall_handler,
  run_routine, irq_handler, sys_write, syscall_handle,
}

-- The characters in memory from `buf` on.
abbrev pub characters : (ℕ → ℕ) → ℕ → ℕ → List Event
characters mem buf zero = []
characters mem buf (suc len) = put (mem buf) ∷ characters mem (buf + 1) len

sys_write_lem :
    (mem : ℕ → ℕ) (buf len : ℕ) (c : Console)
    → (sys_write mem buf len c).0 ≡ len
      × (sys_write mem buf len c).1.events ≡ c.events ++ characters mem buf len
unfolding sys_write
sys_write_lem mem buf zero c = (refl, sym (append-nil c.events))
sys_write_lem mem buf (suc len) c =
    let rest = sys_write_lem mem (buf + 1) len (emit (put (mem buf)) c) in
    (
      omega (arith, rest.0),
      rest.1 ∙ append_assoc c.events (put (mem buf) ∷ []) (characters mem (buf + 1) len),
    )

-- System call 4 puts exactly the `edx` characters in memory from `ecx` on on the console, in order, and
-- returns their number; every other system call returns -1 and prints nothing.
pub syscall_handle-Writes :
    (mem : ℕ → ℕ) (r : Regs) (c : Console)
    → (r.eax ≡ 4
        → ((syscall_handle mem r c).0.eax ≡ r.edx)
          × ((syscall_handle mem r c).1.events ≡ c.events ++ characters mem r.ecx r.edx))
      × (r.eax ≢ 4
          → ((syscall_handle mem r c).0.eax ≡ 2 ^ 32 - 1) × ((syscall_handle mem r c).1 ≡ c))
unfolding syscall_handle
syscall_handle-Writes mem r c = (
  λ four.
      let test : (r.eax == 4) ≡ true = ground (arith, four) in
      let wrote = sys_write_lem mem r.ecx r.edx c in (simp test wrote.0, simp test wrote.1),
  λ other.
      let test : (r.eax == 4) ≡ false = ground (arith, other) in (simp test refl, simp test refl),
)

-- What the handlers make of the state.
abbrev dispatched : {S : Type 0} → List (Routine S) → ℕ → Regs → S → S
dispatched routines n r s =
    if leb 32 n && ltb n 48 then run_routine (get_or routines (n - 32) none) r s else s

dispatched_hit :
    {S : Type 0} (routines : List (Routine S)) (irq : ℕ) (o : Routine S) (r : Regs) (s : S)
    → length routines ≡ 16
    → irq < 16
    → dispatched (set routines irq o) (32 + irq) r s ≡ run_routine o r s
dispatched_hit routines irq o r s size h =
    let low : leb 32 (32 + irq) ≡ true = ground arith in
    let high : ltb (32 + irq) 48 ≡ true = ground arith in
    let place : 32 + irq - 32 ≡ irq = omega arith in
    rw (low, high, place, get_or-set_self routines irq o none (omega arith)) refl

dispatched_miss :
    {S : Type 0} (routines : List (Routine S)) (irq n : ℕ) (o : Routine S) (r : Regs) (s : S)
    → n ≢ 32 + irq
    → dispatched (set routines irq o) n r s ≡ dispatched routines n r s
dispatched_miss routines irq n o r s other = elim (Bool-cases (leb 32 n && ltb n 48)) [
  | inl e ↦
      let apart : irq ≢ n - 32 = ground (arith, e) in
      rw (e, get_or-set_ne routines irq (n - 32) o none apart) refl
  | inr e ↦ rw e refl
]

dispatched-set :
    {S : Type 0} (routines : List (Routine S)) (irq n : ℕ) (o : Routine S) (r : Regs) (s : S)
    → length routines ≡ 16
    → irq < 16
    → dispatched (set routines irq o) n r s
      ≡ (if n == 32 + irq then run_routine o r s else dispatched routines n r s)
dispatched-set {S} routines irq n o r s size h = elim (Bool-cases (n == 32 + irq)) [
  | inl e ↦
      let same : n ≡ 32 + irq = (==_iff n (32 + irq)).0 e in
      let there : dispatched (set routines irq o) n r s
          ≡ dispatched (set routines irq o) (32 + irq) r s =
        ap (λ m. dispatched (set routines irq o) m r s) same in
      rw e (there ∙ dispatched_hit routines irq o r s size h)
  | inr e ↦
      let other : n ≢ 32 + irq = ground (arith, e) in
      rw e (dispatched_miss routines irq n o r s other)
]

eoi_eq :
    (n : ℕ)
    → pic_send_eoi n ≡ (if leb 40 n then outb 0xA0 0x20 ∷ [] else []) ++ (outb 0x20 0x20 ∷ [])
unfolding pic_send_eoi
eoi_eq n = elim (Bool-cases (leb 40 n)) [ inl e ↦ rw e refl | inr e ↦ rw e refl ]

-- The vector of an interrupt line is 32 more than its number. With a handler installed for a line, an
-- interrupt of that line runs it, and with the line's handler taken out it runs none; every other interrupt
-- does what it did before. The slave controller is told the end of the interrupt when the vector is 40 or
-- more, and the master, behind it, always.
pub irq_handler-Installed :
    {S : Type 0} (routines : List (Routine S)) (irq : ℕ) (fn : Regs → S → S) (r : Regs) (s : S)
    → length routines ≡ 16
    → irq < 16
    → ((irq_handler (irq_install_handler irq fn routines) r s).0
        ≡ (if r.int_no == 32 + irq then fn r s else (irq_handler routines r s).0))
      × ((irq_handler (irq_uninstall_handler irq routines) r s).0
          ≡ (if r.int_no == 32 + irq then s else (irq_handler routines r s).0))
      × ((irq_handler routines r s).1
          ≡ (if leb 40 r.int_no then outb 0xA0 0x20 ∷ [] else []) ++ (outb 0x20 0x20 ∷ []))
unfolding irq_handler irq_install_handler irq_uninstall_handler
irq_handler-Installed routines irq fn r s size h = (
  dispatched-set routines irq r.int_no (some fn) r s size h,
  dispatched-set routines irq r.int_no none r s size h,
  eoi_eq r.int_no,
)

-- `isr_handler` returns exactly from the vectors of the interrupt lines and the system call, 32 and
-- more; it changes something only for vector 128, by `isr128_handler`. At an exception it reports and
-- halts, at a page fault with that report.
pub isr_handler-Outcome :
    (r : Regs) (c : Console)
    → (32 ≤ r.int_no → r.int_no ≢ 128 → isr_handler r c ≡ returned c)
      × (r.int_no ≡ 128 → isr_handler r c ≡ returned (isr128_handler r c))
      × (r.int_no ≡ 14 → isr_handler r c ≡ halted (emit (report_page_fault r) c))
      × (r.int_no < 32 → r.int_no ≢ 14 → isr_handler r c ≡ halted (emit (report_exception r) c))
unfolding isr_handler
isr_handler-Outcome r c = go r.int_no
  where
    go :
        (n : ℕ)
        → let out =
            if n == 14
            then halted (emit (report_page_fault r) c)
            else if n == 128
            then returned (isr128_handler r c)
            else if ltb n 32
            then halted (emit (report_exception r) c)
            else returned c in
          (32 ≤ n → n ≢ 128 → out ≡ returned c)
          × (n ≡ 128 → out ≡ returned (isr128_handler r c))
          × (n ≡ 14 → out ≡ halted (emit (report_page_fault r) c))
          × (n < 32 → n ≢ 14 → out ≡ halted (emit (report_exception r) c))
    go n = (λ h k. ground arith, λ h. ground arith, λ h. ground arith, λ h k. ground arith)
