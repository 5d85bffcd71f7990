-- ===== src/Libc.antt =====
-- The C library of the kernel, libc/.
pub mod Str
pub mod Mem
pub mod Print
pub mod Printf
mod Tests
