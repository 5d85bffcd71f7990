-- ===== src/Tty/Tests.antt =====
-- The terminal with a blank screen and the cursor in its last row.
use bobliu_os.Base.{ℕ, ◌*◌, ◌≡◌, arith, [], ◌∷◌, replicate, length}
use bobliu_os.Base.{length-replicate}
use bobliu_os.Tty.{Terminal, vga_width, vga_height, terminal_write}
use bobliu_os.Tty.Cursor.{OnScreen, terminal_write-OnScreen}

abbrev last_row : Terminal
last_row = record { row = 24; column = 3; color = 7; buffer = replicate 2000 0 }

full_screen : length last_row.buffer ≡ vga_height * vga_width
full_screen = length-replicate {A = ℕ} 2000 0

last_row-OnScreen : OnScreen last_row
last_row-OnScreen = record { row_in = omega arith; column_in = omega arith; cells = full_screen }

terminal_write-OnScreen_example : OnScreen (terminal_write (b'a' ∷ b'\n' ∷ b'b' ∷ []) 3 last_row)
terminal_write-OnScreen_example =
    terminal_write-OnScreen (b'a' ∷ b'\n' ∷ b'b' ∷ []) 3 last_row last_row-OnScreen
