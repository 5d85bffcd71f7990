-- ===== src/Keyboard.antt =====
-- The keyboard driver, kernel/arch/i386/dev/keyboard.c: the scancode state machine and its line
-- buffer. What a handler asks of the terminal and the shell is returned as the list of its calls.
pub mod Keymap
pub mod Line
pub mod Editor
pub mod Ps2
mod Tests
use bobliu_os.Base.{
  ℕ, ◌+◌, ◌-◌, List, [], ◌∷◌, Bool, true, false, ◌&&◌, ◌||◌, not, if◌then◌else◌, ltb, leb, ◌==◌,
  bit_and, get_or, set,
}
use mathlib.Core.Bool.{xor}
use Keymap.{keymap, keymap_shift}

abbrev pub kbd_line_max : ℕ
kbd_line_max = 128

-- `linebuf`, `line_len`, `g_shift`, `g_caps`, `shell_enabled`, and the `e0` of `keyboard_irq`
pub record Keyboard : Type 0 where
  pub linebuf : List ℕ
  pub line_len : ℕ
  pub shift : Bool
  pub caps : Bool
  pub shell_enabled : Bool
  pub e0 : Bool

-- `terminal_putchar`, `terminal_backspace`, `shell_on_line`
pub data Call : Type 0 where
  putchar : ℕ → Call
  backspace : Call
  on_line : List ℕ → Call

unfoldable pub line_reset : Keyboard → Keyboard
line_reset k = record k { line_len = 0; linebuf = set k.linebuf 0 0 }

unfoldable pub line_push : ℕ → Keyboard → Keyboard
line_push c k = if leb (kbd_line_max - 1) k.line_len then k else record k {
  linebuf = set (set k.linebuf k.line_len c) (k.line_len + 1) 0;
  line_len = k.line_len + 1;
}

unfoldable pub line_pop : Keyboard → Keyboard
line_pop k =
    if k.line_len == 0
    then k
    else record k { linebuf = set k.linebuf (k.line_len - 1) 0; line_len = k.line_len - 1 }

unfoldable pub apply_caps_shift : ℕ → Bool → Bool → ℕ
apply_caps_shift c shift caps =
    let upper = xor shift caps in
    if leb b'a' c && leb c b'z'
    then (if upper then c - b'a' + b'A' else c)
    else if leb b'A' c && leb c b'Z'
    then (if not upper then c - b'A' + b'a' else c)
    else c

-- The part of `keyboard_irq` for the press of a key that is no modifier.
unfoldable pub key_press : ℕ → Keyboard → Keyboard × List Call
key_press sc k =
    let c = if k.shift then get_or keymap_shift sc 0 else get_or keymap sc 0 in
    let c' = apply_caps_shift c k.shift k.caps in
    if sc == 0x1C
    then (line_reset k, putchar b'\n' ∷ (if k.shell_enabled then on_line k.linebuf ∷ [] else []))
    else if sc == 0x0E
    then (if ltb 0 k.line_len then (line_pop k, backspace ∷ []) else (k, []))
    else if c == 0
    then (k, [])
    else (line_push c' k, putchar c' ∷ [])

-- `sc` is the byte read from the data port.
unfoldable pub keyboard_irq : ℕ → Keyboard → Keyboard × List Call
keyboard_irq sc k =
    let released = not (bit_and sc 0x80 == 0) in
    let code = bit_and sc 0x7F in
    if sc == 0xE0
    then (record k { e0 = true }, [])
    else if k.e0
    then (record k { e0 = false }, [])
    else if (code == 0x2A) || (code == 0x36)
    then (record k { shift = not released }, [])
    else if code == 0x3A
    then ((if not released then record k { caps = not k.caps } else k), [])
    else if released
    then (k, [])
    else key_press code k

unfoldable pub keyboard_enable_shell : Bool → Keyboard → Keyboard
keyboard_enable_shell on k =
    let set_on = record k { shell_enabled = on } in if on then line_reset set_on else set_on
