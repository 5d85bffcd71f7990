-- ===== src/Tty.antt =====
-- The text terminal, kernel/arch/i386/tty.c with kernel/arch/i386/vga.h. The screen is the array
-- of 25 rows of 80 cells at `VGA_MEMORY`, row by row.
pub mod Scroll
pub mod Cursor
mod Tests
use bobliu_os.Base.{
  ℕ, zero, suc, ◌+◌, ◌-◌, ◌*◌, ◌^◌, List, [], ◌∷◌, Bool, ◌&&◌, if◌then◌else◌, ◌==◌, bit_or, get_or,
  set,
}
use bobliu_os.Libc.Str.{strlen, char_at, next}

abbrev pub vga_width : ℕ
vga_width = 80

abbrev pub vga_height : ℕ
vga_height = 25

-- `terminal_row`, `terminal_column`, `terminal_color`, `terminal_buffer`
pub record Terminal : Type 0 where
  pub row : ℕ
  pub column : ℕ
  pub color : ℕ
  pub buffer : List ℕ

unfoldable pub vga_entry_color : ℕ → ℕ → ℕ
vga_entry_color fg bg = bit_or fg (bg * 2 ^ 4)

unfoldable pub vga_entry : ℕ → ℕ → ℕ
vga_entry uc color = bit_or uc (color * 2 ^ 8)

abbrev pub blank : ℕ → ℕ
blank color = vga_entry b' ' color

-- Row `y` to the row above it, from column `x`, with `left` cells to go.
pub scroll_line : ℕ → ℕ → ℕ → List ℕ → List ℕ
scroll_line y zero x buffer = buffer
scroll_line y (suc left) x buffer =
    scroll_line y left (x + 1)
      (set buffer ((y - 1) * vga_width + x) (get_or buffer (y * vga_width + x) 0))

-- Rows from `y` on, with `left` rows to go.
pub scroll_lines : ℕ → ℕ → List ℕ → List ℕ
scroll_lines zero y buffer = buffer
scroll_lines (suc left) y buffer = scroll_lines left (y + 1) (scroll_line y vga_width 0 buffer)

-- `left` cells from index `i` on get the value.
pub fill_cells : ℕ → ℕ → ℕ → List ℕ → List ℕ
fill_cells v zero i buffer = buffer
fill_cells v (suc left) i buffer = fill_cells v left (i + 1) (set buffer i v)

unfoldable pub terminal_scroll : Terminal → Terminal
terminal_scroll t = record t {
  buffer =
      fill_cells (blank t.color) vga_width ((vga_height - 1) * vga_width)
        (scroll_lines (vga_height - 1) 1 t.buffer);
  row = vga_height - 1;
  column = 0;
}

-- The memory of the screen stays; every cell is blanked.
unfoldable pub terminal_initialize : Terminal → Terminal
terminal_initialize t =
    let color = vga_entry_color 7 0 in
    record {
      row = 0;
      column = 0;
      color = color;
      buffer = fill_cells (blank color) (vga_height * vga_width) 0 t.buffer;
    }

unfoldable pub terminal_setcolor : ℕ → Terminal → Terminal
terminal_setcolor color t = record t { color = color }

unfoldable pub terminal_putentryat : ℕ → ℕ → ℕ → ℕ → Terminal → Terminal
terminal_putentryat c color x y t = record t {
  buffer = set t.buffer (y * vga_width + x) (vga_entry c color);
}

-- `terminal_row++; if (terminal_row == VGA_HEIGHT) terminal_scroll();` after column 0 is set
unfoldable pub new_line : Terminal → Terminal
new_line t =
    let moved = record t { column = 0; row = t.row + 1 } in
    if t.row + 1 == vga_height then terminal_scroll moved else moved

unfoldable pub terminal_putchar : ℕ → Terminal → Terminal
terminal_putchar c t =
    let written = terminal_putentryat c t.color t.column t.row t in
    if c == b'\n'
    then new_line t
    else if c == b'\r'
    then record t { column = 0 }
    else if t.column + 1 == vga_width
    then new_line written
    else record written { column = t.column + 1 }

unfoldable pub terminal_write : List ℕ → ℕ → Terminal → Terminal
terminal_write bytes zero t = t
terminal_write bytes (suc size) t =
    terminal_write (next bytes) size (terminal_putchar (char_at bytes) t)

unfoldable pub terminal_writestring : List ℕ → Terminal → Terminal
terminal_writestring s t = terminal_write s (strlen s) t

unfoldable pub terminal_backspace : Terminal → Terminal
terminal_backspace t =
    let back =
      if t.column == 0
      then record t { row = t.row - 1; column = vga_width - 1 }
      else record t { column = t.column - 1 } in
    if (t.column == 0) && (t.row == 0)
    then t
    else terminal_putentryat b' ' t.color back.column back.row back

-- `for (x = terminal_column; x < VGA_WIDTH; x++)`, with `left` cells to go.
pub clear_cells : ℕ → ℕ → Terminal → Terminal
clear_cells zero x t = t
clear_cells (suc left) x t = clear_cells left (x + 1) (terminal_putentryat b' ' t.color x t.row t)

unfoldable pub terminal_clear_eol : Terminal → Terminal
unfolding clear_cells
terminal_clear_eol t = clear_cells (vga_width - t.column) t.column t
