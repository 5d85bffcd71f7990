-- ===== src/Shell/Return.antt =====
-- The return from a program, `exec_return_to_shell` of kernel/arch/i386/shell/shell.c, up to the endless
-- loop that it ends in. The handlers of the interrupt lines act on the keyboard and the console.
use bobliu_os.Base.{
  ℕ, ◌+◌, ◌^◌, bit_and, ◌≡◌, refl, arith, List, [], ◌∷◌, ◌++◌, true, if◌then◌else◌, ◌==◌, length,
  codes,
}
use bobliu_os.Word.{u8, not32}
use bobliu_os.Run.{Run, done, ◌>>=◌}
use bobliu_os.Libc.Printf.Parse.{single}
use bobliu_os.Cpu.Isr.{Regs, Routine, irq_install_handler, irq_handler}
use bobliu_os.Cpu.Isr.Dispatch.{irq_handler-Installed}
use bobliu_os.Keyboard.{Keyboard, keyboard_enable_shell}
use bobliu_os.Keyboard.Ps2.{Io, inb, put_out, ps2_enable_irq1_only, pic_unmask_irq1}
use bobliu_os.Shell.Console.{say, shell_prompt}

-- The keyboard's variables, and what is printed.
pub record Desk : Type 0 where
  pub keyboard : Keyboard
  pub printed : List ℕ

abbrev pub print : List ℕ → Desk → Desk
print s d = record d { printed = d.printed ++ s }

unfoldable pub irq1_scream : Regs → Desk → Desk
irq1_scream r d = print (b'K' ∷ []) d

-- The console, the handlers and the ports.
pub record Shell : Type 0 where
  pub desk : Desk
  pub routines : List (Routine Desk)
  pub io : Io

-- The masks that `pic_unmask_irq1` prints, before and after.
abbrev pub mask_report : Io → List ℕ
mask_report io =
    say (codes "picmask(before)=%x\n") (single (io.answer io.reads 0x21) ∷ [])
    ++ say (codes "picmas(after)=%x\n") (single (io.answer (io.reads + 1) 0x21) ∷ [])

-- `cr3` and `saved` are what the first line prints; `fuel` is that of the controller's polls.
unfoldable pub exec_return_to_shell : ℕ → ℕ → ℕ → List ℕ → Shell → Run Shell
exec_return_to_shell fuel cr3 saved cwd s =
    let first = say (codes "cr3=%x (saved kcr3=%x)\n") (single cr3 ∷ single saved ∷ []) in
    ps2_enable_irq1_only fuel s.io >>= λ io.
    let shown = print (first ++ mask_report io) s.desk in
    let enabled = record shown { keyboard = keyboard_enable_shell true shown.keyboard } in
    done (record {
      desk = print (say (codes "done\n") [] ++ say (codes "\n") [] ++ shell_prompt cwd) enabled;
      routines = irq_install_handler 1 irq1_scream s.routines;
      io = pic_unmask_irq1 io;
    })

-- `syscall_exit_bounce` of kernel/arch/i386/interrupts/syscall_exit.c, up to its endless loop.
unfoldable pub syscall_exit_bounce : List ℕ → Desk → Desk
syscall_exit_bounce cwd d =
    let exited = print (say (codes "\n[proc exited]\n") []) d in
    let enabled = record exited { keyboard = keyboard_enable_shell true exited.keyboard } in
    print (say (codes "done\n") [] ++ shell_prompt cwd) enabled

-- `exec_resumed_debug` of kernel/arch/i386/boot/user_bouncing.c, as the ports and what it prints; `eflags`
-- are the processor's flags.
unfoldable pub exec_resumed_debug : ℕ → Io → Io × List ℕ
exec_resumed_debug eflags io =
    let m = inb 0x21 io in
    let opened = inb 0x21 (put_out 0x21 (u8 (bit_and m.0 (not32 (2 ^ 1)))) m.1) in
    let interrupts = if bit_and eflags 0x200 == 0 then 0 else 1 in
    (
      opened.1,
      say (codes "picmask(before)=%x\n") (single m.0 ∷ [])
          ++ say (codes "picmask(after)=%x\n") (single opened.0 ∷ [])
          ++ say (codes "\n[resumed kernel after user] eflags=%x IF=%u\n")
              (single eflags ∷ single interrupts ∷ []),
    )

-- When the polls of the keyboard's controller end and the table has 16 handlers, `exec_return_to_shell` gets
-- to its endless loop. From there an interrupt of the keyboard's line prints a `K` and changes no variable of
-- the keyboard, so that no key reaches the shell; every other interrupt does what it did before.
pub exec_return_to_shell-Screams :
    (fuel cr3 saved : ℕ) (cwd : List ℕ) (s : Shell) (io : Io)
    → length s.routines ≡ 16
    → ps2_enable_irq1_only fuel s.io ≡ done io
    → (t : Shell) × (exec_return_to_shell fuel cr3 saved cwd s ≡ done t)
      × (t.desk.keyboard ≡ keyboard_enable_shell true s.desk.keyboard)
      × ((r : Regs) (d : Desk)
          → (irq_handler t.routines r d).0
            ≡ (if r.int_no == 33 then print (b'K' ∷ []) d else (irq_handler s.routines r d).0))
unfolding exec_return_to_shell irq1_scream
exec_return_to_shell-Screams fuel cr3 saved cwd s io size polled = rw polled (
  _,
  refl,
  refl,
  λ r d. (irq_handler-Installed s.routines 1 irq1_scream r d size (omega arith)).0,
)
