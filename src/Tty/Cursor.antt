-- ===== src/Tty/Cursor.antt =====
-- The cursor stays on the screen, and what a character or a backspace changes.
use bobliu_os.Base.{
  ℕ, zero, suc, ◌+◌, ◌-◌, ◌*◌, ◌<◌, ◌≡◌, ◌≢◌, refl, ◌∙◌, arith, List, false, if◌then◌else◌, ◌==◌,
  Bool-cases, inl, inr, length, get_or, length-set,
}
use bobliu_os.Libc.Str.{char_at, next}
use bobliu_os.Libc.Mem.Copy.{get_or-set}
use bobliu_os.Tty.{
  Terminal, vga_width, vga_height, blank, terminal_initialize, terminal_putentryat, new_line,
  terminal_putchar, terminal_write, terminal_backspace, vga_entry,
}
use bobliu_os.Tty.Scroll.{length-fill_cells, length-terminal_scroll, terminal_scroll_at}

-- The cursor is on the screen, and the screen has all its cells.
pub record OnScreen (t : Terminal) : Type 0 where
  pub row_in : t.row < vga_height
  pub column_in : t.column < vga_width
  pub cells : length t.buffer ≡ vga_height * vga_width

pub terminal_initialize-OnScreen :
    (t : Terminal) → length t.buffer ≡ vga_height * vga_width → OnScreen (terminal_initialize t)
unfolding terminal_initialize
terminal_initialize-OnScreen t size = record {
  row_in = omega arith;
  column_in = omega arith;
  cells = length-fill_cells _ (vga_height * vga_width) 0 t.buffer ∙ size;
}

new_line-OnScreen : (t : Terminal) → OnScreen t → OnScreen (new_line t)
unfolding new_line
new_line-OnScreen t v = elim (Bool-cases (t.row + 1 == vga_height)) [
  | inl last ↦
      let moved = record t { column = 0; row = t.row + 1 } in
      let at = terminal_scroll_at moved 0 v.cells in
      rw last (record {
        row_in = omega arith;
        column_in = omega arith;
        cells = length-terminal_scroll moved ∙ v.cells;
      })
  | inr more ↦
      rw more
        (record { row_in = ground (arith, v.row_in); column_in = omega arith; cells = v.cells })
]

written-OnScreen :
    (c color x y : ℕ) (t : Terminal) → OnScreen t → OnScreen (terminal_putentryat c color x y t)
unfolding terminal_putentryat
written-OnScreen c color x y t v = record {
  row_in = v.row_in;
  column_in = v.column_in;
  cells = length-set t.buffer (y * vga_width + x) _ ∙ v.cells;
}

-- Every character keeps the cursor on the screen.
pub terminal_putchar-OnScreen :
    (c : ℕ) (t : Terminal) → OnScreen t → OnScreen (terminal_putchar c t)
unfolding terminal_putchar
terminal_putchar-OnScreen c t v =
    let w = written-OnScreen c t.color t.column t.row t v in
    elim (Bool-cases (c == b'\n')) [
      | inl line ↦ rw line (new_line-OnScreen t v)
      | inr plain ↦ elim (Bool-cases (c == b'\r')) [
        | inl return ↦
            rw (plain, return)
              (record { row_in = v.row_in; column_in = omega arith; cells = v.cells })
        | inr printed ↦ elim (Bool-cases (t.column + 1 == vga_width)) [
          | inl full ↦ rw (plain, printed, full) (new_line-OnScreen _ w)
          | inr more ↦
              rw (plain, printed, more)
                (record {
                  row_in = w.row_in;
                  column_in = ground (arith, v.column_in);
                  cells = w.cells;
                })
        ]
      ]
    ]

-- From a cursor on the screen and a screen of all its cells, writing any text keeps both so.
pub terminal_write-OnScreen :
    (bytes : List ℕ) (size : ℕ) (t : Terminal) → OnScreen t → OnScreen (terminal_write bytes size t)
unfolding terminal_write
terminal_write-OnScreen bytes zero t v = v
terminal_write-OnScreen bytes (suc size) t v =
    terminal_write-OnScreen (next bytes) size _ (terminal_putchar-OnScreen (char_at bytes) t v)

-- A backspace keeps the cursor on the screen, at its top left corner too.
pub terminal_backspace-OnScreen : (t : Terminal) → OnScreen t → OnScreen (terminal_backspace t)
unfolding terminal_backspace terminal_putentryat
terminal_backspace-OnScreen t v = elim (Bool-cases (t.column == 0)) [
  | inr inner ↦ rw inner (record {
    row_in = v.row_in;
    column_in = omega (arith, v.column_in);
    cells = length-set t.buffer _ _ ∙ v.cells;
  })
  | inl edge ↦ elim (Bool-cases (t.row == 0)) [
    | inl corner ↦ rw (edge, corner) v
    | inr below ↦
        rw (edge, below)
          (record {
            row_in = omega (arith, v.row_in);
            column_in = omega arith;
            cells = length-set t.buffer _ _ ∙ v.cells;
          })
  ]
]

-- The index of the cursor's cell.
abbrev pub position : Terminal → ℕ
position t = t.row * vga_width + t.column

-- `t` is `s` with the cell `p` holding `v` and the cursor at `q`.
pub record IsWritten (p v q : ℕ) (s t : Terminal) : Type 0 where
  pub cursor : position t ≡ q
  pub color : t.color ≡ s.color
  pub cells : (j : ℕ) → get_or t.buffer j 0 ≡ (if p == j then v else get_or s.buffer j 0)

-- With the cursor on the screen, a character other than a line feed and a carriage return, before
-- the last cell, is written at the cursor, which moves on by one; no
-- other cell changes.
pub terminal_putchar-IsWritten :
    (c : ℕ) (t : Terminal)
    → OnScreen t
    → c ≢ b'\n'
    → c ≢ b'\r'
    → position t + 1 < vga_height * vga_width
    → IsWritten (position t) (vga_entry c t.color) (position t + 1) t (terminal_putchar c t)
unfolding terminal_putchar new_line terminal_putentryat
terminal_putchar-IsWritten c t v no_line no_return room =
    let at : ℕ = position t in
    let inside : at < length t.buffer = omega (arith, v.cells) in
    let not_line : (c == b'\n') ≡ false = ground arith in
    let not_return : (c == b'\r') ≡ false = ground arith in
    elim (Bool-cases (t.column + 1 == vga_width)) [
      | inl full ↦
          let not_last : (t.row + 1 == vga_height) ≡ false = ground (arith, v.column_in) in
          rw (not_line, not_return, full, not_last)
            (record {
              cursor = ground arith;
              color = refl;
              cells = λ j. get_or-set t.buffer at j (vga_entry c t.color) inside;
            })
      | inr more ↦
          rw (not_line, not_return, more)
            (record {
              cursor = omega arith;
              color = refl;
              cells = λ j. get_or-set t.buffer at j (vga_entry c t.color) inside;
            })
    ]

-- A backspace away from the top left corner moves the cursor back by one and blanks the cell there.
pub terminal_backspace-IsWritten :
    (t : Terminal)
    → OnScreen t
    → 0 < position t
    → IsWritten (position t - 1) (blank t.color) (position t - 1) t (terminal_backspace t)
unfolding terminal_backspace terminal_putentryat
terminal_backspace-IsWritten t v some_place =
    let before : ℕ = position t - 1 in
    let cells = λ (j : ℕ).
      get_or-set t.buffer before j (blank t.color)
        (omega (arith, v.cells, v.row_in, v.column_in)) in
    elim (Bool-cases (t.column == 0)) [
      | inr inner ↦
          let at : t.row * vga_width + (t.column - 1) ≡ before = ground arith in
          rw (inner, at) (record { cursor = at; color = refl; cells = cells })
      | inl edge ↦
          let below : (t.row == 0) ≡ false = ground arith in
          let at : (t.row - 1) * vga_width + 79 ≡ before = ground arith in
          rw (edge, below, at) (record { cursor = at; color = refl; cells = cells })
    ]
