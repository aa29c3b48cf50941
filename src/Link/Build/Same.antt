-- ===== src/Link/Build/Same.antt =====
-- Two ends with the same flags build stacks that mirror each other.
use vtun.Common.{
  ℕ, ◌==◌, ◌==ℤ◌, ◌≡◌, List, [], ◌∷◌, Bool, true, false, pos, if◌then◌else◌, subst, ◌++◌,
  append-nil, ap, sym, ◌∙◌, refl, inl, inr, Bool-cases, not,
}
use vtun.Common.Bits.{bit_and}
use vtun.Host.{VtunHost, vtun_zlib, vtun_lzo, vtun_encrypt, vtun_legacy_encrypt, vtun_shape}
use vtun.Link.Stack.{Module, lfd_add_mod}
use vtun.Link.Stack.RoundTrip.{Inverts, Mirror}
use vtun.Link.Build.{Modules, add_if, build_stack}

-- Each module of one end inverts that of the other.
pub record Invert (ms ns : Modules) : Type 1 where
  pub zlib : Inverts ms.lfd_zlib ns.lfd_zlib
  pub lzo : Inverts ms.lfd_lzo ns.lfd_lzo
  pub legacy : Inverts ms.lfd_legacy_encrypt ns.lfd_legacy_encrypt
  pub encrypt : Inverts ms.lfd_encrypt ns.lfd_encrypt
  pub shaper : Inverts ms.lfd_shaper ns.lfd_shaper

Mirror-add :
    (ms ns : List Module) (m n : Module)
    → Mirror ms ns
    → Inverts m n
    → Mirror (lfd_add_mod ms m) (lfd_add_mod ns n)
Mirror-add [] [] m n h i = (i, tt)
Mirror-add [] (y ∷ ns) m n h i = absurd h.0
Mirror-add (x ∷ ms) [] m n h i = absurd h.0
Mirror-add (x ∷ ms) (y ∷ ns) m n h i = (h.0, Mirror-add ms ns m n h.1 i)

Mirror-if :
    (b : Bool) (ms ns : List Module) (m n : Module)
    → Mirror ms ns
    → Inverts m n
    → Mirror (if b then ms else lfd_add_mod ms m) (if b then ns else lfd_add_mod ns n)
Mirror-if true ms ns m n h i = h
Mirror-if false ms ns m n h i = Mirror-add ms ns m n h i

Mirror-add_if :
    (mask : ℕ) (h k : VtunHost) (ms ns : List Module) (m n : Module)
    → bit_and h.flags mask ≡ bit_and k.flags mask
    → Mirror ms ns
    → Inverts m n
    → Mirror (add_if h mask m ms) (add_if k mask n ns)
Mirror-add_if mask h k ms ns m n same mirror i =
    subst (λ z. Mirror (add_if h mask m ms) (if z == 0 then ns else lfd_add_mod ns n)) same
      (Mirror-if (bit_and h.flags mask == 0) ms ns m n mirror i)

Inverts-if :
    (b : Bool) (m n m' n' : Module)
    → Inverts m n
    → Inverts m' n'
    → Inverts (if b then m else m') (if b then n else n')
Inverts-if true m n m' n' i j = i
Inverts-if false m n m' n' i j = j

-- A module, where the flags of the session have the bit.
abbrev pub asked : VtunHost → (mask : ℕ) → Module → List Module
asked h mask m = if not (bit_and h.flags mask == 0) then m ∷ [] else []

-- The modules that a session asks for, from the device to the network: compression (by zlib, then by
-- LZO), encryption by the cipher's module, and the shaper.
abbrev pub wanted : Modules → VtunHost → List Module
wanted ms h =
    let encryptor =
      if h.cipher ==ℤ pos vtun_legacy_encrypt then ms.lfd_legacy_encrypt else ms.lfd_encrypt in
    asked h vtun_zlib ms.lfd_zlib
    ++ asked h vtun_lzo ms.lfd_lzo
    ++ asked h vtun_encrypt encryptor
    ++ asked h vtun_shape ms.lfd_shaper

add_if-asked :
    (h : VtunHost) (mask : ℕ) (m : Module) (mods front : List Module)
    → mods ≡ front
    → add_if h mask m mods ≡ front ++ asked h mask m
add_if-asked h mask m mods front e = elim (Bool-cases (bit_and h.flags mask == 0)) [
  | inl off ↦ rw (off, if◌then◌else◌) (e ∙ sym (append-nil front))
  | inr on ↦ rw (on, if◌then◌else◌) (ap (λ z. z ++ m ∷ []) e)
]

build_stack-wanted : (ms : Modules) (h : VtunHost) → build_stack ms h ≡ wanted ms h
build_stack-wanted ms h = add_if-asked h vtun_shape _ _ _ (
    add_if-asked h vtun_encrypt _ _ _
      (add_if-asked h vtun_lzo _ _ _ (add_if-asked h vtun_zlib _ [] [] refl)))

-- Two ends whose modules invert each other and whose sessions agree on compression, encryption,
-- cipher and shaping: each stack is, in order, the modules that the session's flags ask for, and the
-- two stacks mirror each other, so that what one encodes the other decodes.
pub build_stack-Mirror :
    (ms ns : Modules) (h k : VtunHost)
    → Invert ms ns
    → bit_and h.flags vtun_zlib ≡ bit_and k.flags vtun_zlib
    → bit_and h.flags vtun_lzo ≡ bit_and k.flags vtun_lzo
    → bit_and h.flags vtun_encrypt ≡ bit_and k.flags vtun_encrypt
    → bit_and h.flags vtun_shape ≡ bit_and k.flags vtun_shape
    → h.cipher ≡ k.cipher
    → (build_stack ms h ≡ wanted ms h)
      × (build_stack ns k ≡ wanted ns k)
      × Mirror (build_stack ms h) (build_stack ns k)
build_stack-Mirror ms ns h k inverts zlib lzo encrypt shape cipher =
    let legacy = h.cipher ==ℤ pos vtun_legacy_encrypt in
    let encryptor : Inverts (if legacy then ms.lfd_legacy_encrypt else ms.lfd_encrypt)
        (if k.cipher ==ℤ pos vtun_legacy_encrypt then ns.lfd_legacy_encrypt else ns.lfd_encrypt) =
      subst
        (λ z.
          Inverts (if legacy then ms.lfd_legacy_encrypt else ms.lfd_encrypt)
            (if z ==ℤ pos vtun_legacy_encrypt then ns.lfd_legacy_encrypt else ns.lfd_encrypt))
        cipher
        (Inverts-if legacy ms.lfd_legacy_encrypt ns.lfd_legacy_encrypt ms.lfd_encrypt ns.lfd_encrypt
          inverts.legacy inverts.encrypt) in
    (
      build_stack-wanted ms h,
      build_stack-wanted ns k,
      Mirror-add_if vtun_shape h k _ _ ms.lfd_shaper ns.lfd_shaper shape
          (Mirror-add_if vtun_encrypt h k _ _ _ _ encrypt
            (Mirror-add_if vtun_lzo h k _ _ ms.lfd_lzo ns.lfd_lzo lzo
              (Mirror-add_if vtun_zlib h k [] [] ms.lfd_zlib ns.lfd_zlib zlib tt inverts.zlib)
              inverts.lzo)
            encryptor)
          inverts.shaper,
    )
