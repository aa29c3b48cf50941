-- ===== src/Link/Encrypt.antt =====
-- lfd_encrypt.c: the encryption module with the modes of OpenSSL's EVP interface, its initial vector
-- and its sequence marks.
--
-- The parts are in the children: the EVP interface and the choice of a cipher (Modes), the messages
-- and the two entry points (Messages).
pub mod Modes
pub mod State
pub mod Messages
pub mod Shifts
mod Tests
