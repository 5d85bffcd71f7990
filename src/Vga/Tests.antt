-- ===== src/Vga/Tests.antt =====
-- The debug output on an empty screen.
use bobliu_os.Base.{◌≡◌, arith, false, replicate}
use bobliu_os.Libc.Printf.Text.{print_digits, u64_to_base}
use bobliu_os.Vga.{Vga, vga_print, vga_print_dec}
use bobliu_os.Vga.Numbers.{vga_print_dec-u64_to_base}

abbrev last_cell : Vga
last_cell = record { row = 24; col = 79; color = 0x0F; cells = replicate 2000 0 }

vga_print_dec-u64_to_base_example :
    vga_print_dec 640 last_cell ≡ vga_print (print_digits (u64_to_base 10 false 640)) last_cell
vga_print_dec-u64_to_base_example = vga_print_dec-u64_to_base 640 last_cell (omega arith)
