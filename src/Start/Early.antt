-- ===== src/Start/Early.antt =====
-- What runs before kernel_main besides the constructors, `kernel_early` of kernel/arch/i386/cpu/early.c, and
-- the stack protector of kernel/arch/i386/cpu/ssp.c, whose guard it sets.
use bobliu_os.Base.{
  ℕ, ◌*◌, ◌<◌, ◌≡◌, refl, arith, List, ◌++◌, ltb, leb, if◌then◌else◌, ◌==◌, bit_or, get_or, set,
  length, length-set, codes, true, [], ◌∙◌, ◌^◌,
}
use bobliu_os.Vga.{cell}
use bobliu_os.Tty.{Terminal, vga_width, vga_height, blank, vga_entry_color, terminal_initialize}
use bobliu_os.Tty.Scroll.{fill_cells_at}
use bobliu_os.Tty.Cursor.{OnScreen, terminal_initialize-OnScreen}
use bobliu_os.Shell.Console.{say}

-- The screen, whose memory is the terminal's buffer, and `__stack_chk_guard`
pub record Early : Type 0 where
  pub terminal : Terminal
  pub guard : ℕ

unfoldable pub vga_put_at : ℕ → ℕ → ℕ → Terminal → Terminal
vga_put_at pos ch color t = record t { buffer = set t.buffer pos (cell color ch) }

unfoldable pub kernel_early : Early → Early
kernel_early e = record {
  terminal = terminal_initialize (vga_put_at 0 b'E' 0x4F e.terminal);
  guard = 0xBAADF00D;
}

-- Pointers have 32 bits.
abbrev pub default_guard : ℕ
default_guard = 0xBAADF00D

unfoldable pub ssp_init : Early → Early
ssp_init e = if e.guard == 0 then record e { guard = default_guard } else e

-- The screen's first cell and the text that `__stack_chk_fail` leaves when it stops the processor.
unfoldable pub stack_chk_fail : List ℕ → List ℕ × List ℕ
stack_chk_fail cells = (
  set cells 0 (bit_or (0x4F * 2 ^ 8) b'!'),
  say (codes "\n\n*** STACK SMASH DETECTED ***\n") [] ++ say (codes "Halting.\n") [],
)

-- After `kernel_early` on a screen of 25 rows of 80 cells the cursor is on the screen, every cell is blank,
-- that of the letter too, and the guard is set, so that `ssp_init` changes nothing.
pub kernel_early-OnScreen :
    (e : Early)
    → length e.terminal.buffer ≡ vga_height * vga_width
    → OnScreen (kernel_early e).terminal
      × ((j : ℕ)
          → j < vga_height * vga_width
          → get_or (kernel_early e).terminal.buffer j 0 ≡ blank (vga_entry_color 7 0))
      × (ssp_init (kernel_early e) ≡ kernel_early e)
unfolding kernel_early vga_put_at ssp_init terminal_initialize
kernel_early-OnScreen e size =
    let marked : Terminal = vga_put_at 0 b'E' 0x4F e.terminal in
    let room : length marked.buffer ≡ vga_height * vga_width =
      length-set e.terminal.buffer 0 (cell 0x4F b'E') ∙ size in
    (
      terminal_initialize-OnScreen marked room,
      λ j h.
          let inside : ltb j 2000 ≡ true = ground (arith, h) in
          let from_start : leb 0 j ≡ true = ground arith in
          fill_cells_at (blank (vga_entry_color 7 0)) 2000 0 marked.buffer j (omega (arith, room))
          ∙ rw (from_start, inside) refl,
      refl,
    )
