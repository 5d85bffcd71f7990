-- ===== src/Elf.antt =====
-- The start of user programs, kernel/arch/i386/cpu/user_exec.c with kernel/include/kernel/elf.h.
pub mod Image
pub mod Slurp
pub mod Load
pub mod Mapped
pub mod Stored
pub mod Segments
pub mod Loads
pub mod Starts
pub mod Exec
pub mod Old
pub mod Reads
pub mod Rejects
mod Tests
