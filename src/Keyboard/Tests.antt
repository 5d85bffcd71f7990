-- ===== src/Keyboard/Tests.antt =====
-- The keyboard driver with an empty line.
use bobliu_os.Base.{refl, arith, [], true, false, replicate}
use bobliu_os.Libc.Str.Text.{text}
use bobliu_os.Keyboard.{Keyboard, kbd_line_max, keyboard_irq}
use bobliu_os.Keyboard.Line.{Holds}
use bobliu_os.Keyboard.Editor.{decode, Edits, keyboard_irq-Edits}

abbrev idle : Keyboard
idle = record {
  linebuf = replicate kbd_line_max 0;
  line_len = 0;
  shift = false;
  caps = true;
  shell_enabled = true;
  e0 = false;
}

idle-Holds : Holds [] idle
unfolding text
idle-Holds = record { size = refl; len = refl; room = omega arith; bytes = refl }

keyboard_irq-Edits_example : Edits (decode 0x1E false false true) [] idle (keyboard_irq 0x1E idle)
keyboard_irq-Edits_example = keyboard_irq-Edits 0x1E idle-Holds (omega arith)
