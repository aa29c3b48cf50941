-- ===== src/Link.antt =====
-- The link layer between the device and the frame protocol: the stack of modules that a frame goes
-- through, and the modules.
pub mod Stack
pub mod Legacy
pub mod Shaper
pub mod Linker
pub mod Build
pub mod Linkfd
pub mod Encrypt
pub mod Compress
pub mod Tunnel
mod TunnelTests
pub mod Tests
pub mod LinkerTests
