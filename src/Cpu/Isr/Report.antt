-- ===== src/Cpu/Isr/Report.antt =====
-- What the handlers of kernel/arch/i386/cpu/isr.c print: the text of each event on the console but the page
-- fault's, whose report is Cpu/PageFault.
use bobliu_os.Base.{ℕ, ◌≡◌, refl, List, [], ◌∷◌, ◌++◌, codes, get_or, length, some}
use bobliu_os.Libc.Printf.Parse.{single, text}
use bobliu_os.Shell.Console.{say}
use bobliu_os.Cpu.Isr.{Regs, Event, put, report_exit, report_exception, report_page_fault}
use bobliu_os.Cpu.PageFault.{IretFrame}

abbrev pub exc_names : List (List ℕ)
exc_names =
    codes "Divide-by-zero"
    ∷ codes "Debug"
    ∷ codes "NMI"
    ∷ codes "Breakpoint"
    ∷ codes "Overflow"
    ∷ codes "Bound Range"
    ∷ codes "Invalid Opcode"
    ∷ codes "Device Not Available"
    ∷ codes "Double Fault"
    ∷ codes "Coprocessor Segment"
    ∷ codes "Invalid TSS"
    ∷ codes "Segment Not Present"
    ∷ codes "Stack-Segment Fault"
    ∷ codes "General Protection"
    ∷ codes "Page Fault"
    ∷ codes "Reserved"
    ∷ codes "x87 FP Exception"
    ∷ codes "Alignment Check"
    ∷ codes "Machine Check"
    ∷ codes "SIMD FP Exception"
    ∷ codes "Virtualization"
    ∷ codes "Control Protection"
    ∷ codes "Reserved"
    ∷ codes "Reserved"
    ∷ codes "Reserved"
    ∷ codes "Reserved"
    ∷ codes "Reserved"
    ∷ codes "Reserved"
    ∷ codes "Hypervisor Injection"
    ∷ codes "VMM Communication"
    ∷ codes "Security"
    ∷ codes "Reserved"
    ∷ []

-- There is a name for each of the processor's own vectors.
exc_names_cover : length exc_names ≡ 32
exc_names_cover = refl

-- Four registers, by the format that names them.
abbrev four : List ℕ → ℕ → ℕ → ℕ → ℕ → List ℕ
four fmt a b c d = say fmt (single a ∷ single b ∷ single c ∷ single d ∷ [])

unfoldable pub exception_text : Regs → List ℕ
exception_text r =
    say (codes "\n\n[EXCEPTION %u] %s  err=%u\n")
      (single r.int_no ∷ text (some (get_or exc_names r.int_no [])) ∷ single r.err_code ∷ [])
    ++ say (codes "EIP=%x CS=%x EFLAGS=%x\n") (single r.eip ∷ single r.cs ∷ single r.eflags ∷ [])
    ++ four (codes "EAX=%x EBX=%x ECX=%x EDX=%x\n") r.eax r.ebx r.ecx r.edx
    ++ four (codes "ESI=%x EDI=%x EBP=%x ESP=%x\n") r.esi r.edi r.ebp r.esp

-- `kesp` and `resume` are what the assembly saved when it entered the program.
unfoldable pub exit_text : ℕ → ℕ → IretFrame → ℕ → List ℕ
exit_text kesp resume f useresp =
    say (codes "\n[proc exited]\n") []
    ++ say (codes "exit: useresp=%x saved_kesp=%x resume=%x\n")
        (single useresp ∷ single kesp ∷ single resume ∷ [])
    ++ say (codes "IRET frame: eip=%x cs=%x eflags=%x esp=%x ss=%x\n")
        (single f.eip ∷ single f.cs ∷ single f.eflags ∷ single f.esp ∷ single f.ss ∷ [])

-- What an event prints, with what the assembly saved.
unfoldable pub event_text : ℕ → ℕ → IretFrame → Event → List ℕ
event_text kesp resume f (put c) = c ∷ []
event_text kesp resume f (report_exit useresp) = exit_text kesp resume f useresp
event_text kesp resume f (report_exception r) = exception_text r
event_text kesp resume f (report_page_fault r) = []
