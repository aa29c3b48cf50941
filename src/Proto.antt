-- ===== src/Proto.antt =====
-- The frame protocol under `proto_write` and `proto_read` (driver.h): a 16-bit header in network
-- order, whose low 12 bits are the size and whose high 4 bits are flags, and the payload.
pub mod Tcp
pub mod Udp
pub mod Tests
