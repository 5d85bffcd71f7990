-- ===== src/Tty/Scroll.antt =====
-- Where `terminal_scroll` leaves every cell.
use bobliu_os.Base.{
  ℕ, zero, suc, ◌+◌, ◌-◌, ◌*◌, ◌≤◌, ◌<◌, ◌≡◌, refl, ap, ◌∙◌, arith, List, ◌&&◌, if◌then◌else◌, ltb,
  leb, Bool-cases, inl, inr, length, get_or, set, length-set,
}
use bobliu_os.Libc.Mem.Copy.{get_or-set, up_round}
use bobliu_os.Tty.{
  Terminal, vga_width, vga_height, scroll_line, scroll_lines, fill_cells, terminal_scroll, blank,
}

length-scroll_line : (y left x : ℕ) (b : List ℕ) → length (scroll_line y left x b) ≡ length b
unfolding scroll_line
length-scroll_line y zero x b = refl
length-scroll_line y (suc left) x b =
    length-scroll_line y left (x + 1) _ ∙ length-set b ((y - 1) * vga_width + x) _

length-scroll_lines : (left y : ℕ) (b : List ℕ) → length (scroll_lines left y b) ≡ length b
unfolding scroll_lines
length-scroll_lines zero y b = refl
length-scroll_lines (suc left) y b =
    length-scroll_lines left (y + 1) _ ∙ length-scroll_line y vga_width 0 b

pub length-fill_cells : (v left i : ℕ) (b : List ℕ) → length (fill_cells v left i b) ≡ length b
unfolding fill_cells
length-fill_cells v zero i b = refl
length-fill_cells v (suc left) i b = length-fill_cells v left (i + 1) _ ∙ length-set b i v

pub fill_cells_at :
    (v left i : ℕ) (b : List ℕ) (j : ℕ)
    → i + left ≤ length b
    → get_or (fill_cells v left i b) j 0 ≡ (if leb i j && ltb j (i + left) then v else get_or b j 0)
unfolding fill_cells
fill_cells_at v zero i b j h = ground arith
fill_cells_at v (suc left) i b j h =
    ground (arith, fill_cells_at v left (i + 1) (set b i v) j, length-set b i v, get_or-set b i j v)

scroll_line_at :
    (y left x : ℕ) (b : List ℕ) (j : ℕ)
    → 0 < y
    → (y - 1) * vga_width + x + left ≤ length b
    → get_or (scroll_line y left x b) j 0 ≡ (
        if leb ((y - 1) * vga_width + x) j && ltb j ((y - 1) * vga_width + x + left)
        then get_or b (y * vga_width + (j - (y - 1) * vga_width)) 0
        else get_or b j 0)
unfolding scroll_line
scroll_line_at y zero x b j some_row h = ground arith
scroll_line_at y (suc left) x b j some_row h =
    let v : ℕ = get_or b (y * vga_width + x) 0 in
    let at : ℕ = (y - 1) * vga_width + x in
    let inside : at < length b = omega arith in
    scroll_line_at y left (x + 1) (set b at v) j some_row (omega (arith, length-set b at v))
    ∙ up_round ((y - 1) * vga_width) (y * vga_width) j x left v _ _ _ _ (omega arith)
        (get_or-set b at (y * vga_width + (j - (y - 1) * vga_width)) v inside)
        (get_or-set b at j v inside) (λ e. ap (λ (t : ℕ). get_or b t 0) (omega arith))

-- Row `y` is moved up first, then the rows below it.
lines_round :
    (y j left w80 wj at z o80 oj : ℕ)
    → 0 < y
    → wj ≡ (
        if leb ((y - 1) * vga_width + 0) j && ltb j ((y - 1) * vga_width + 0 + vga_width)
        then at
        else oj)
    → w80 ≡ (
        if leb ((y - 1) * vga_width + 0) (j + vga_width)
          && ltb (j + vga_width) ((y - 1) * vga_width + 0 + vga_width)
        then z
        else o80)
    → ((y - 1) * vga_width ≤ j → at ≡ o80)
    → (if leb ((y + 1 - 1) * vga_width) j && ltb j ((y + 1 - 1) * vga_width + left * vga_width)
        then w80
        else wj)
      ≡ (if leb ((y - 1) * vga_width) j && ltb j ((y - 1) * vga_width + suc left * vga_width)
          then o80
          else oj)
lines_round y j left w80 wj at z o80 oj some_row ej e80 eat =
    elim (Bool-cases (leb ((y - 1) * vga_width) j)) [
      | inl low ↦ let same = eat (ground arith) in ground (arith, ej, e80, same)
      | inr high ↦ ground (arith, ej, e80)
    ]

scroll_lines_at :
    (left y : ℕ) (b : List ℕ) (j : ℕ)
    → 0 < y
    → (y + left) * vga_width ≤ length b
    → get_or (scroll_lines left y b) j 0 ≡ (
        if leb ((y - 1) * vga_width) j && ltb j ((y - 1) * vga_width + left * vga_width)
        then get_or b (j + vga_width) 0
        else get_or b j 0)
unfolding scroll_lines
scroll_lines_at zero y b j some_row h = ground arith
scroll_lines_at (suc left) y b j some_row h =
    let b' : List ℕ = scroll_line y vga_width 0 b in
    let ih =
      scroll_lines_at left (y + 1) b' j (omega arith)
        (omega (arith, length-scroll_line y vga_width 0 b)) in
    let one = scroll_line_at y vga_width 0 b j some_row (omega arith) in
    let two = scroll_line_at y vga_width 0 b (j + vga_width) some_row (omega arith) in
    ih
    ∙ lines_round y j left _ _ _ _ _ _ some_row one two
        (λ low. ap (λ (t : ℕ). get_or b t 0) (omega arith))

-- On a screen of all its cells, `terminal_scroll` moves every row up by one, blanks the last row in the current colour, and
-- leaves the cursor at the start of the last row.
pub terminal_scroll_at :
    (t : Terminal) (j : ℕ)
    → length t.buffer ≡ vga_height * vga_width
    → (get_or (terminal_scroll t).buffer j 0 ≡ (
        if ltb j ((vga_height - 1) * vga_width)
        then get_or t.buffer (j + vga_width) 0
        else if ltb j (vga_height * vga_width)
        then blank t.color
        else get_or t.buffer j 0))
      × ((terminal_scroll t).row ≡ vga_height - 1)
      × ((terminal_scroll t).column ≡ 0)
unfolding terminal_scroll
terminal_scroll_at t j size =
    let up = scroll_lines_at (vga_height - 1) 1 t.buffer j (omega arith) (omega arith) in
    let filled =
      fill_cells_at (blank t.color) vga_width ((vga_height - 1) * vga_width)
        (scroll_lines (vga_height - 1) 1 t.buffer) j
        (omega (arith, length-scroll_lines (vga_height - 1) 1 t.buffer)) in
    (filled ∙ ground (arith, up), refl, refl)

pub length-terminal_scroll : (t : Terminal) → length (terminal_scroll t).buffer ≡ length t.buffer
unfolding terminal_scroll
length-terminal_scroll t =
    length-fill_cells _ vga_width _ _ ∙ length-scroll_lines (vga_height - 1) 1 t.buffer
