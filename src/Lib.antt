-- ===== src/Lib.antt =====
-- A verification library for vtun, the virtual tunnel daemon.
--
-- A client connects to a server, the two authenticate each other and agree on the session's flags
-- over padded text messages, and then each end moves frames between a device and the other end:
-- down through a stack of modules (shaping, compression, encryption) to a frame protocol over TCP or
-- UDP, and up again on the other side.
--
-- The parts and their models:
--   Common    the shared names: Boolean tests, lists over the native numbers, signed integers, bits
--             and masks, C strings (strchr, strtok, strcmp), decimal text (%d, strtol)
--   Host      vtun.h: constants and `struct vtun_host` (VtunHost)
--   Io        lib.h: read_n, write_n
--   Proto     generic/tcp_proto.c (Proto/Tcp: tcp_write, tcp_read) and generic/udp_proto.c
--             (Proto/Udp: udp_write, udp_read)
--   Cipher    the interface to the block cipher of OpenSSL, and the loops over its blocks
--   Auth      auth.c: the session flags (Auth/Flags: bf2cf, cf2bf), the challenge text (Auth/Chal:
--             cl2cs, cs2cl), the two sides (Auth/Handshake: auth_server, auth_client), and find_host
--             with llist_free of llist.c (Auth/Hosts)
--   Link      linkfd.c: the stack of modules (Link/Stack), the linker and its signal handlers
--             (Link/Linker), how linkfd builds the stack (Link/Build), and frames through two
--             stacks and a connection (Link/Tunnel); lfd_legacy_encrypt.c (Link/Legacy);
--             lfd_encrypt.c (Link/Encrypt: the choice of a cipher in Modes, the set-up in State, the
--             initial vectors, marks and frames in Messages); lfd_zlib.c and lfd_lzo.c
--             (Link/Compress); lfd_shaper.c (Link/Shaper)
--   Command   lib.c: subst_opt, which makes the text of a command
--   Lock      lock.c: create_lock, read_lock, lock_host, unlock_host
--   Session   vtun.h: a session as it runs, and the calls that a process makes, as actions
--   Net       netlib.c: connect_t and the addresses; Net/Udp: udp_session, with readn_t of lib.c
--   Tunnel    tunnel.c: tunnel, and its child's standard streams (Tunnel/Child)
--   Client    client.c: the loop of client, with free_sopt of lib.c
--   Server    server.c: connection, and the listener (Server/Listener)
-- Theorems stand in child modules named for what they show, concrete runs in the Tests modules.
--
-- How the code is read. A buffer is a list of bytes. A call that may block or fail takes what the
-- kernel does as a list of events, and is `none` where the list ends before the call returns. Static
-- variables are state that is passed on. An `int` is ℤ or a number whose wrap-around is written out.
-- A loop over a text or a frame runs on fuel: `flags_loop` has one unit for each character behind
-- `<` and one more, of which every turn uses at least one character; `skip_frame` has one unit for
-- each byte that is left, of which every turn takes at least one; `pump` has one unit for each turn,
-- and a frame that zlib takes in one call needs one. What OpenSSL, zlib, LZO, the clock, the random source and
-- kill(2) answer is a parameter, while the file system of the locks is state. Of the libraries the laws of
-- `Evp`, `BlockCipher`, `Zlib` and `Lzo` are used, which Link/Encrypt/Shifts, Cipher/Rotate and
-- Link/Compress/Copies fill. An `unsigned long` has `long_size` bytes.
--
-- The processes. A run of `connection` is `auth_server` over the locks, then `tunnel`, then
-- `unlock_host`; a turn of `client` is the look-up of the addresses, `connect_t`, `auth_client` and
-- `tunnel`; `tunnel` is the device, `udp_session` where the session runs over UDP, and `linkfd`
-- (Link/Linkfd), which is the linker between the set-up and the end of its modules. Where one of them still
-- waits at the end of what is given, the result is `none`, and also where `linkfd` finds modules that an
-- earlier call left in its list, which Link/Stack/Chain models by their pointers. What a process opens, closes and runs is a
-- list of actions in order. The attempts of the client and the turns of the listener are lists.
--
-- Not modelled: the device drivers, the configuration parser, the main program, running a command and
-- splitting its arguments, logging, titles and the dump of the statistics, socket options, and the build
-- without OpenSSL or with SOCKS 2.
pub mod Common
pub mod Host
pub mod Io
pub mod Proto
pub mod Cipher
pub mod Auth
pub mod Link
pub mod Lock
pub mod Command
pub mod Session
pub mod Net
pub mod Tunnel
pub mod Client
pub mod Server
