-- ===== src/Vga.antt =====
-- The debug output on the screen's text buffer, kernel/arch/i386/dev/vga.c.
pub mod Numbers
mod Tests
use bobliu_os.Base.{
  ℕ, zero, suc, ◌+◌, ◌-◌, ◌*◌, ◌/◌, ◌%◌, ◌^◌, ◌≤◌, ◌<◌, ◌≡◌, refl, sym, ap, ◌∙◌, arith, List, [],
  ◌∷◌, ◌++◌, Bool, true, false, if◌then◌else◌, ltb, leb, ◌==◌, bit_and, bit_or, get_or, set, length,
  length-set, Bool-cases, inl, inr,
}
use bobliu_os.Word.{u8}

-- `row`, `col`, `color`, and the cells at 0xB8000
pub record Vga : Type 0 where
  pub row : ℕ
  pub col : ℕ
  pub color : ℕ
  pub cells : List ℕ

unfoldable pub vga_newline : Vga → Vga
vga_newline v = record v { col = 0; row = if leb 25 (u8 (v.row + 1)) then 24 else u8 (v.row + 1) }

-- The 16 bits of `((uint16_t)color << 8) | c`, where `char` is signed.
abbrev pub cell : ℕ → ℕ → ℕ
cell color c = bit_or (color * 2 ^ 8) (if ltb c 128 then c else c + (2 ^ 32 - 2 ^ 8)) % 2 ^ 16

unfoldable pub vga_putc : ℕ → Vga → Vga
vga_putc c v =
    let col = u8 (v.col + 1) in
    let written = record v {
      cells = set v.cells (v.row * 80 + v.col) (cell v.color c);
      col = col;
    } in
    if c == b'\n' then vga_newline v else if leb 80 col then vga_newline written else written

unfoldable pub vga_print : List ℕ → Vga → Vga
vga_print [] v = v
vga_print (c ∷ s) v = vga_print s (vga_putc c v)

-- The loop of `vga_clear`, for `count` cells from `i` on.
unfoldable pub blank_cells : ℕ → ℕ → ℕ → List ℕ → List ℕ
blank_cells zero i color cells = cells
blank_cells (suc count) i color cells =
    blank_cells count (i + 1) color (set cells i (cell color b' '))

unfoldable pub vga_clear : Vga → Vga
vga_clear v = record v { cells = blank_cells (80 * 25) 0 v.color v.cells; row = 0; col = 0 }

abbrev pub hex_digit : ℕ → ℕ
hex_digit d = if ltb d 10 then b'0' + d else b'A' + d - 10

-- The loop of `vga_print_hex`, for the low `count` digits.
unfoldable pub put_hex : ℕ → ℕ → Vga → Vga
put_hex zero x v = v
put_hex (suc count) x v =
    put_hex count x (vga_putc (hex_digit (bit_and (x / 2 ^ (4 * count)) 0xF)) v)

unfoldable pub vga_print_hex : ℕ → Vga → Vga
vga_print_hex x v = put_hex 8 x (vga_print (b'0' ∷ b'x' ∷ []) v)

-- The loops of `vga_print_dec`: the digits in `buf`, the last first, as far as there is room, and their
-- output from its end.
unfoldable pub dec_digits : ℕ → ℕ → List ℕ
dec_digits zero x = []
dec_digits (suc room) x =
    let more = dec_digits room (x / 10) in if x == 0 then [] else (b'0' + x % 10) ∷ more

unfoldable pub put_reversed : List ℕ → Vga → Vga
put_reversed [] v = v
put_reversed (d ∷ buf) v = vga_putc d (put_reversed buf v)

unfoldable pub vga_print_dec : ℕ → Vga → Vga
vga_print_dec x v = if x == 0 then vga_putc b'0' v else put_reversed (dec_digits 11 x) v

-- The cursor is on the screen.
pub record OnScreen (v : Vga) : Type 0 where
  pub row_in : v.row < 25
  pub col_in : v.col < 80
  pub all_cells : length v.cells ≡ 80 * 25

newline-OnScreen : (v : Vga) → v.row < 25 → length v.cells ≡ 80 * 25 → OnScreen (vga_newline v)
unfolding vga_newline
newline-OnScreen v row_in cells = record {
  row_in = ground (arith, row_in);
  col_in = omega arith;
  all_cells = cells;
}

vga_putc-OnScreen : (c : ℕ) (v : Vga) → OnScreen v → OnScreen (vga_putc c v)
unfolding vga_putc
vga_putc-OnScreen c v o =
    let size : length (set v.cells (v.row * 80 + v.col) (cell v.color c)) ≡ 80 * 25 =
      length-set v.cells (v.row * 80 + v.col) (cell v.color c) ∙ o.all_cells in
    elim (Bool-cases (c == b'\n')) [
      | inl e ↦ rw e (newline-OnScreen v o.row_in o.all_cells)
      | inr e ↦
          rw e (wrapped v.row v.col v.color _ (leb 80 (u8 (v.col + 1))) refl o.row_in o.col_in size)
    ]
  where
    wrapped :
        (row col color : ℕ) (cells : List ℕ) (b : Bool)
        → leb 80 (u8 (col + 1)) ≡ b
        → row < 25
        → col < 80
        → length cells ≡ 80 * 25
        → let written : Vga = record {
          row = row;
          col = u8 (col + 1);
          color = color;
          cells = cells;
        } in
          OnScreen (if b then vga_newline written else written)
    wrapped row col color cells true e hr hc size =
        newline-OnScreen (record { row = row; col = u8 (col + 1); color = color; cells = cells }) hr
          size
    wrapped row col color cells false e hr hc size = record {
      row_in = hr;
      col_in = ground (arith, e, hc);
      all_cells = size;
    }

-- Whatever is printed, the cursor stays on the screen: every character is written inside the 80
-- times 25 cells, and their number does not change.
pub vga_print-OnScreen : (s : List ℕ) (v : Vga) → OnScreen v → OnScreen (vga_print s v)
unfolding vga_print
vga_print-OnScreen [] v o = o
vga_print-OnScreen (c ∷ s) v o = vga_print-OnScreen s (vga_putc c v) (vga_putc-OnScreen c v o)
