-- ===== src/Link/Compress.antt =====
-- lfd_zlib.c and lfd_lzo.c: the compression modules.
--
-- The two libraries are parameters: what a call answers, and what their documentation promises of it.
pub mod Zlib
pub mod Lzo
pub mod Copies
mod Tests
