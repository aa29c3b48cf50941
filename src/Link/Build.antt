-- ===== src/Link/Build.antt =====
-- linkfd.c: how `linkfd` builds the stack of a session from its flags.
--
-- The modules are a parameter.
pub mod Same
use vtun.Common.{◌==◌, ℕ, ◌==ℤ◌, List, [], Bool, not, ℤ, pos, if◌then◌else◌}
use vtun.Common.Bits.{bit_and}
use vtun.Host.{VtunHost, vtun_zlib, vtun_lzo, vtun_encrypt, vtun_legacy_encrypt, vtun_shape}
use vtun.Link.Stack.{Module, lfd_add_mod}

-- The modules that linkfd.h declares.
pub record Modules : Type 1 where
  pub lfd_zlib : Module
  pub lfd_lzo : Module
  pub lfd_legacy_encrypt : Module
  pub lfd_encrypt : Module
  pub lfd_shaper : Module

-- A module that is added where a bit of the flags is set.
abbrev pub add_if : VtunHost → (mask : ℕ) → Module → List Module → List Module
add_if host mask m mods = if bit_and host.flags mask == 0 then mods else lfd_add_mod mods m

-- The modules of a session, added to the empty list.
abbrev pub build_stack : Modules → VtunHost → List Module
build_stack ms host =
    let encryptor =
      if host.cipher ==ℤ pos vtun_legacy_encrypt then ms.lfd_legacy_encrypt else ms.lfd_encrypt in
    add_if host vtun_shape ms.lfd_shaper (
      add_if host vtun_encrypt encryptor
        (add_if host vtun_lzo ms.lfd_lzo (add_if host vtun_zlib ms.lfd_zlib [])))
