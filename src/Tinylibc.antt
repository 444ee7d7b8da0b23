-- ===== src/Tinylibc.antt =====
-- rflpc17xx/tinylibc: the small C library.
mod Duff
pub mod Memcpy
pub mod Memset
pub mod Rand
pub mod Printf
mod Tests
