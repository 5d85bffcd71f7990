-- ===== src/Libc/Printf.antt =====
-- `printf` of libc/stdio/printf.c, without the floating point that the build leaves out. A routine
-- is the text that it prints: `putchar` returns the character that it is given, an unsigned char
-- here, so that no comparison with EOF holds and no routine fails.
pub mod Text
pub mod Parse
pub mod Loop
pub mod Digits
pub mod Field
pub mod Rest
pub mod Total
mod Tests
