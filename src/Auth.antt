-- ===== src/Auth.antt =====
-- auth.c: the authentication of a client, and the session flags that it receives.
pub mod Chal
pub mod Flags
pub mod Hosts
pub mod Handshake
pub mod Tests
