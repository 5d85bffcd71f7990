-- ===== src/Shell/Tests.antt =====
-- The shell's paths, and `cat` of a file of three bytes.
use bobliu_os.Base.{
  ℕ, ◌<◌, ◌≡◌, refl, arith, List, [], ◌∷◌, ◌++◌, length, true, false, none, if◌then◌else◌, ◌==◌,
  replicate, length-replicate, codes,
}
use bobliu_os.Pmm.Tests.{three_frames, three_frames-IsValid}
use bobliu_os.Cpu.Pic.{outb}
use bobliu_os.Cpu.Isr.{Regs, Routine, irq_handler}
use bobliu_os.Keyboard.{keyboard_enable_shell}
use bobliu_os.Keyboard.Ps2.{
  Io, ps2_enable_irq1_only, ps2_flush, ps2_cmd, ps2_wait_input_clear, ps2_read_data, ps2_write_data,
  ps2_wait_output_full,
}
use bobliu_os.Shell.Console.{cmd_mem}
use bobliu_os.Shell.Memory.{decimal, cmd_mem-Reports}
use bobliu_os.Shell.Return.{Desk, Shell, print, exec_return_to_shell, exec_return_to_shell-Screams}
use bobliu_os.Int.{pos}
use bobliu_os.Run.{done}
use bobliu_os.Libc.Str.{char_at}
use bobliu_os.Vfs.{Vfs}
use bobliu_os.Vfs.Tests.{one_file, opened, opened-IsOpenAt, one_file-Serves}
use bobliu_os.Shell.{Canon, push_component, pop_component, shell_canon_path, max_path}
use bobliu_os.Shell.Paths.{shell_canon_path-IsAbsolute, push-pop}
use bobliu_os.Shell.Commands.{cat_loop}
use bobliu_os.Shell.Cat.{cat_loop-drop}

cat_loop-drop_example : (t : Vfs ℕ) × (cat_loop one_file 3 (pos 0) opened ≡ done (20 ∷ 30 ∷ [], t))
cat_loop-drop_example =
    cat_loop-drop ℕ one_file 3 opened-IsOpenAt one_file-Serves (omega arith) (omega arith)
      (omega arith)

abbrev home : List ℕ
home = b'/' ∷ b'h' ∷ []

shell_canon_path-IsAbsolute_example :
    (char_at (shell_canon_path 0 home (b'.' ∷ b'.' ∷ [])) ≡ b'/')
    × (length (shell_canon_path 0 home (b'.' ∷ b'.' ∷ [])) < max_path)
shell_canon_path-IsAbsolute_example = shell_canon_path-IsAbsolute 0 home (b'.' ∷ b'.' ∷ [])

abbrev at_home : Canon
at_home = record { out = home; starts = 1 ∷ [] }

push-pop_example :
    pop_component (push_component (b'x' ∷ []) at_home)
    ≡ record { out = b'/' ∷ b'h' ∷ b'/' ∷ []; starts = 1 ∷ [] }
push-pop_example = push-pop (b'x' ∷ []) at_home (omega arith) (omega arith)

cmd_mem-Reports_example :
    cmd_mem three_frames
    ≡ (codes "frames: total="
        ++ (decimal 3
            ++ (codes " free=" ++ (decimal 2 ++ (codes " used=" ++ (decimal 1 ++ codes "\n"))))))
      ++ codes "bytes : total="
      ++ (decimal 12 ++ codes " KiB")
      ++ codes " free="
      ++ (decimal 8 ++ codes " KiB")
      ++ codes " used="
      ++ (decimal 4 ++ codes " KiB")
      ++ codes "\n"
cmd_mem-Reports_example = cmd_mem-Reports three_frames three_frames-IsValid

-- A controller that is always ready, and has data at the fourth read.
abbrev quick : Io
quick = record {
  answer = λ n port. if n == 3 then 1 else if n == 4 then 0x44 else 0;
  reads = 0;
  writes = [];
}

abbrev desk : Desk
desk = record {
  keyboard = record {
    linebuf = 0 ∷ [];
    line_len = 0;
    shift = false;
    caps = false;
    shell_enabled = false;
    e0 = false;
  };
  printed = [];
}

abbrev before : Shell
before = record { desk = desk; routines = replicate 16 none; io = quick }

-- After the four commands to the controller.
abbrev polled : Io
polled = record quick {
  reads = 8;
  writes = outb 0x64 0xAE ∷ outb 0x64 0x20 ∷ outb 0x64 0x60 ∷ outb 0x60 0x45 ∷ [];
}

polls : ps2_enable_irq1_only 1 quick ≡ done polled
unfolding ps2_enable_irq1_only ps2_flush ps2_cmd ps2_wait_input_clear ps2_read_data ps2_write_data
    ps2_wait_output_full
polls = refl

exec_return_to_shell-Screams_example :
    (t : Shell) × (exec_return_to_shell 1 0 0 home before ≡ done t)
    × (t.desk.keyboard ≡ keyboard_enable_shell true before.desk.keyboard)
    × ((r : Regs) (d : Desk)
        → (irq_handler t.routines r d).0
          ≡ (if r.int_no == 33 then print (b'K' ∷ []) d else (irq_handler before.routines r d).0))
exec_return_to_shell-Screams_example =
    exec_return_to_shell-Screams 1 0 0 home before polled
      (length-replicate {A = Routine Desk} 16 none) polls
